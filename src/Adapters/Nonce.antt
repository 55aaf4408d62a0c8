-- ===== src/Adapters/Nonce.antt =====
-- How the nonce of the sampler reaches the index that it draws.
use chesscoin.Prelude.{
  ℕ, suc, ◌+◌, ◌/◌, ◌≡◌, refl, List, [], ◌∷◌, ◌++◌, length, get_or, Bytes, ap, ◌∙◌, sym, arith,
  bit_xor, ◌%◌, set, length-set, text, length-append, append_assoc,
}
use native.Mathlib.Nat.{add-zero}
use chesscoin.Domain.Mix.{mix64}
use chesscoin.Prelude.Words.{le_bytes, le_value, as_u64, length-le_bytes}
use chesscoin.Domain.Digest.{Digest, IsDigest}
use chesscoin.Adapters.{absorb, absorb_all, finish, toy_digest, draw, initial_lanes}

low_byte_lost :
    (a b c d n₀ m₀ n₁ n₂ n₃ n₄ n₅ n₆ n₇ : ℕ)
    → let lanes = a ∷ b ∷ c ∷ d ∷ [] in
      let rest = n₁ ∷ n₂ ∷ n₃ ∷ n₄ ∷ n₅ ∷ n₆ ∷ n₇ ∷ [] in
      get_or (absorb_all lanes 59 (n₀ ∷ rest)) 0 0 ≡ get_or (absorb_all lanes 59 (m₀ ∷ rest)) 0 0
unfolding absorb_all absorb
low_byte_lost a b c d n₀ m₀ n₁ n₂ n₃ n₄ n₅ n₆ n₇ = refl

absorb_all-append :
    (lanes : List ℕ) (index : ℕ) (xs ys : Bytes)
    → absorb_all lanes index (xs ++ ys)
      ≡ absorb_all (absorb_all lanes index xs) (index + length xs) ys
unfolding absorb_all
absorb_all-append lanes index [] ys = rw (add-zero index) refl
absorb_all-append lanes index (x ∷ xs) ys =
    let shift : index + 1 + length xs ≡ index + suc (length xs) = omega arith in
    absorb_all-append (absorb lanes index x) (index + 1) xs ys
    ∙ ap (λ i. absorb_all (absorb_all (absorb lanes index x) (index + 1) xs) i ys) shift

length-absorb_all :
    (lanes : List ℕ) (index : ℕ) (bytes : Bytes)
    → length (absorb_all lanes index bytes) ≡ length lanes
unfolding absorb_all absorb
length-absorb_all lanes index [] = refl
length-absorb_all lanes index (b ∷ bs) =
    length-absorb_all (absorb lanes index b) (index + 1) bs
    ∙ length-set (set lanes (index % 4) _) (index % 4) _
    ∙ length-set lanes (index % 4) _

-- Four lanes that have absorbed 59 bytes: the lowest byte of the next eight is lost to the first.
lost_at_59 :
    (lanes : List ℕ) (n₀ m₀ q : ℕ)
    → length lanes ≡ 4
    → get_or (absorb_all lanes 59 (n₀ ∷ le_bytes 7 q)) 0 0
      ≡ get_or (absorb_all lanes 59 (m₀ ∷ le_bytes 7 q)) 0 0
unfolding le_bytes
lost_at_59 (a ∷ b ∷ c ∷ d ∷ []) n₀ m₀ q h = low_byte_lost a b c d n₀ m₀ _ _ _ _ _ _ _
lost_at_59 [] n₀ m₀ q h = absurd (cc)
lost_at_59 (a ∷ []) n₀ m₀ q h = absurd (omega arith)
lost_at_59 (a ∷ b ∷ []) n₀ m₀ q h = absurd (omega arith)
lost_at_59 (a ∷ b ∷ c ∷ []) n₀ m₀ q h = absurd (omega arith)
lost_at_59 (a ∷ b ∷ c ∷ d ∷ e ∷ ls) n₀ m₀ q h = absurd (omega arith)

abbrev sample_prefix : Digest → ℕ → Bytes
sample_prefix trace_root entropy =
    text "chesscoin.sample.v1" ++ (trace_root.bytes ++ le_bytes 8 entropy)

-- The index that a text of a sample draws, from the first lane.
abbrev first_lane_index : ℕ → Bytes → ℕ
first_lane_index trace_len bytes =
    le_value (
      le_bytes 8
        (mix64 (bit_xor (get_or (absorb_all initial_lanes 0 bytes) 0 0) (as_u64 (length bytes)))))
    % trace_len

draw_lane :
    (trace_len : ℕ) (trace_root : Digest) (entropy nonce : ℕ)
    → draw trace_len trace_root entropy nonce
      ≡ first_lane_index trace_len (sample_prefix trace_root entropy ++ le_bytes 8 nonce)
unfolding draw toy_digest finish le_bytes
draw_lane trace_len trace_root entropy nonce =
    ap (λ (t : Bytes). first_lane_index trace_len (text "chesscoin.sample.v1" ++ t))
      (sym (append_assoc trace_root.bytes (le_bytes 8 entropy) (le_bytes 8 nonce)))

after_prefix :
    (prefix : Bytes) (nonce : ℕ)
    → length prefix ≡ 59
    → get_or (absorb_all initial_lanes 0 (prefix ++ le_bytes 8 nonce)) 0 0
      ≡ get_or
          (absorb_all
            (absorb_all initial_lanes 0 prefix)
            59
            (nonce % 256 ∷ le_bytes 7 (nonce / 256)))
          0
          0
unfolding le_bytes
after_prefix prefix nonce h =
    let lanes = absorb_all initial_lanes 0 prefix in
    let index : 0 + length prefix ≡ 59 = omega (arith, h) in
    ap (λ ls. get_or ls 0 0)
      (absorb_all-append initial_lanes 0 prefix (le_bytes 8 nonce)
        ∙ ap (λ i. absorb_all lanes i (le_bytes 8 nonce)) index)

first_lane_index-lost :
    (trace_len : ℕ) (prefix : Bytes) (n m : ℕ)
    → length prefix ≡ 59
    → n / 256 ≡ m / 256
    → first_lane_index trace_len (prefix ++ le_bytes 8 n)
      ≡ first_lane_index trace_len (prefix ++ le_bytes 8 m)
first_lane_index-lost trace_len prefix n m h same =
    let lanes = absorb_all initial_lanes 0 prefix in
    let lane =
      after_prefix prefix n h
      ∙ lost_at_59 lanes (n % 256) (m % 256) (n / 256) (length-absorb_all initial_lanes 0 prefix)
      ∙ ap (λ q. get_or (absorb_all lanes 59 (m % 256 ∷ le_bytes 7 q)) 0 0) same
      ∙ sym (after_prefix prefix m h) in
    let len : length (prefix ++ le_bytes 8 n) ≡ length (prefix ++ le_bytes 8 m) = omega (
      arith,
      length-append prefix (le_bytes 8 n),
      length-append prefix (le_bytes 8 m),
      length-le_bytes 8 n,
      length-le_bytes 8 m,
    ) in
    λ i. le_value (le_bytes 8 (mix64 (bit_xor (lane i) (as_u64 (len i))))) % trace_len

length-sample_prefix :
    (trace_root : Digest) (entropy : ℕ)
    → IsDigest trace_root
    → length (sample_prefix trace_root entropy) ≡ 59
length-sample_prefix trace_root entropy h = omega (
  arith,
  length-append (text "chesscoin.sample.v1") (trace_root.bytes ++ le_bytes 8 entropy),
  length-append trace_root.bytes (le_bytes 8 entropy),
  length-le_bytes 8 entropy,
  h.0,
)

-- The lowest byte of the nonce does not reach the index: with the root's 32 bytes, nonces that differ
-- in it only draw the same index.
pub draw_low_byte :
    (trace_len : ℕ) (trace_root : Digest) (entropy n m : ℕ)
    → IsDigest trace_root
    → n / 256 ≡ m / 256
    → draw trace_len trace_root entropy n ≡ draw trace_len trace_root entropy m
draw_low_byte trace_len trace_root entropy n m h same =
    draw_lane trace_len trace_root entropy n
    ∙ first_lane_index-lost trace_len (sample_prefix trace_root entropy) n m
        (length-sample_prefix trace_root entropy h) same
    ∙ sym (draw_lane trace_len trace_root entropy m)
