-- ===== src/Node/Address.antt =====
-- Socket addresses of the standard library, as far as crates/chesscoin-node/src/runtime.rs looks into
-- them: an IPv4 address is a number below 2 ^ 32, an IPv6 address one below 2 ^ 128.
use chesscoin.Prelude.{
  ℕ, ◌-◌, ◌/◌, ◌^◌, ◌≡◌, ◌↔◌, arith, Bool, true, false, ◌&&◌, not, if◌then◌else◌, ◌==◌, ==_iff,
  nat_eq, Eq,
}

pub data IpAddr : Type 0 where
  v4 : ℕ → IpAddr
  v6 : ℕ → IpAddr

-- An IPv6 address carries its flow information and its scope, which count for equality.
pub record SocketAddr : Type 0 where
  pub ip : IpAddr
  pub port : ℕ
  pub flow_info : ℕ
  pub scope_id : ℕ

abbrev ip_beq : IpAddr → IpAddr → Bool
ip_beq (v4 a) (v4 b) = a == b
ip_beq (v4 a) (v6 b) = false
ip_beq (v6 a) (v4 b) = false
ip_beq (v6 a) (v6 b) = a == b

ip_beq_iff : (a b : IpAddr) → (ip_beq a b ≡ true) ↔ (a ≡ b)
ip_beq_iff (v4 a) (v4 b) = ground (arith, ==_iff a b)
ip_beq_iff (v4 a) (v6 b) = ground arith
ip_beq_iff (v6 a) (v4 b) = ground arith
ip_beq_iff (v6 a) (v6 b) = ground (arith, ==_iff a b)

unfoldable pub addr_beq : SocketAddr → SocketAddr → Bool
addr_beq a b =
    ip_beq a.ip b.ip && a.port == b.port && a.flow_info == b.flow_info && a.scope_id == b.scope_id

pub addr_beq_iff : (a b : SocketAddr) → (addr_beq a b ≡ true) ↔ (a ≡ b)
unfolding addr_beq
addr_beq_iff a b = ground (
  arith,
  ip_beq_iff a.ip b.ip,
  ==_iff a.port b.port,
  ==_iff a.flow_info b.flow_info,
  ==_iff a.scope_id b.scope_id,
)

instance abbrev pub addr_eq : Eq SocketAddr
addr_eq = record { eq = addr_beq; decides = addr_beq_iff }

unfoldable pub ip_is_unspecified : IpAddr → Bool
ip_is_unspecified (v4 a) = a == 0
ip_is_unspecified (v6 a) = a == 0

-- 224.0.0.0/4, and ff00::/8.
unfoldable pub is_multicast : IpAddr → Bool
is_multicast (v4 a) = a / 2 ^ 28 == 14
is_multicast (v6 a) = a / 2 ^ 120 == 255

abbrev is_broadcast : IpAddr → Bool
is_broadcast (v4 a) = a == 2 ^ 32 - 1
is_broadcast (v6 a) = false

unfoldable pub peer_address_is_dialable : SocketAddr → Bool
unfolding ip_is_unspecified is_multicast
peer_address_is_dialable peer =
    if peer.port == 0
    then false
    else not (ip_is_unspecified peer.ip) && not (is_multicast peer.ip) && not (is_broadcast peer.ip)
