-- ===== src/Adapters.antt =====
-- crates/chesscoin-node/src/adapters.rs: the toy hash, and the sampler that draws indices from it.
-- The `mix64` of that file is the one of the domain.
pub mod Sampling
pub mod Nonce
mod Tests
use chesscoin.Prelude.{
  ℕ, zero, suc, ◌+◌, ◌*◌, ◌%◌, ◌^◌, bit_xor, Option, some, none, List, [], ◌∷◌, ◌++◌, length,
  get_or, set, take, text, Bytes, contains, nat_eq, ltb, leb, if◌then◌else◌, ◌==◌, ◌||◌, All,
  All-append, ◌<◌, refl,
}
use mathlib.Core.Option
use chesscoin.Prelude.Words.{
  wrapping_add, rotate_left, rotate_right, as_u64, le_bytes, le_value, length-le_bytes,
  le_bytes-IsByte,
}
use chesscoin.Domain.Digest.{Digest, IsDigest}
use chesscoin.Domain.Mix.{mix64}
use chesscoin.Ports.{HashPort}

abbrev initial_lanes : List ℕ
initial_lanes =
    0x243f_6a88_85a3_08d3 ∷ 0x1319_8a2e_0370_7344 ∷ 0xa409_3822_299f_31d0 ∷ 0x082e_fa98_ec4e_6c89
    ∷ []

-- One round of the loop over the bytes: `index` counts them.
unfoldable pub absorb : List ℕ → ℕ → ℕ → List ℕ
absorb lanes index byte =
    let lane = index % 4 in
    let mixed_in = bit_xor (get_or lanes lane 0) (wrapping_add byte ((index * 2 ^ 8) % 2 ^ 64)) in
    let lanes₁ = set lanes lane mixed_in in
    set lanes₁ lane
      (mix64 (wrapping_add (rotate_left mixed_in 13) (get_or lanes₁ ((lane + 1) % 4) 0)))

unfoldable pub absorb_all : List ℕ → ℕ → Bytes → List ℕ
unfolding absorb
absorb_all lanes index [] = lanes
absorb_all lanes index (byte ∷ bytes) = absorb_all (absorb lanes index byte) (index + 1) bytes

-- The length of the text goes into the lanes in turn.
unfoldable pub finish : List ℕ → ℕ → List ℕ
finish lanes len =
    let lane₀ = bit_xor (get_or lanes 0 0) len in
    let lane₁ = bit_xor (get_or lanes 1 0) (rotate_left len 17) in
    let lane₂ = bit_xor (get_or lanes 2 0) (wrapping_add lane₀ lane₁) in
    let lane₃ = bit_xor (get_or lanes 3 0) (rotate_right lane₂ 7) in
    lane₀ ∷ lane₁ ∷ lane₂ ∷ lane₃ ∷ []

abbrev lane_bytes : List ℕ → Bytes
lane_bytes [] = []
lane_bytes (lane ∷ lanes) = le_bytes 8 (mix64 lane) ++ lane_bytes lanes

unfoldable pub toy_digest : Bytes → Digest
unfolding absorb_all finish
toy_digest bytes = record {
  bytes = lane_bytes (finish (absorb_all initial_lanes 0 bytes) (as_u64 (length bytes)));
}

lane_bytes-IsByte : (lanes : List ℕ) → All (λ b. b < 256) (lane_bytes lanes)
lane_bytes-IsByte [] = tt
lane_bytes-IsByte (lane ∷ lanes) =
    All-append (λ b. b < 256) (le_bytes 8 (mix64 lane)) (lane_bytes lanes) (le_bytes-IsByte 8 _)
      (lane_bytes-IsByte lanes)

pub toy_digest-IsDigest : (bytes : Bytes) → IsDigest (toy_digest bytes)
unfolding toy_digest finish le_bytes
toy_digest-IsDigest bytes =
    (refl, lane_bytes-IsByte (finish (absorb_all initial_lanes 0 bytes) (as_u64 (length bytes))))

abbrev pub toy_hash : HashPort
toy_hash = record { digest = toy_digest; digest_IsDigest = toy_digest-IsDigest }

-- `(start..start + count).collect()`.
unfoldable pub range_from : ℕ → ℕ → List ℕ
range_from start zero = []
range_from start (suc count) = start ∷ range_from (start + 1) count

abbrev insert_sorted : ℕ → List ℕ → List ℕ
insert_sorted x [] = x ∷ []
insert_sorted x (y ∷ ys) = let rest = insert_sorted x ys in if ltb x y then x ∷ y ∷ ys else y ∷ rest

-- `sort_unstable` on numbers.
unfoldable pub sort : List ℕ → List ℕ
sort [] = []
sort (x ∷ xs) = insert_sorted x (sort xs)

-- The index that a nonce draws.
unfoldable pub draw : ℕ → Digest → ℕ → ℕ → ℕ
draw trace_len trace_root entropy nonce =
    let bytes =
      text "chesscoin.sample.v1"
      ++ (trace_root.bytes ++ (le_bytes 8 entropy ++ le_bytes 8 nonce)) in
    le_value (take 8 (toy_digest bytes).bytes) % trace_len

abbrev push_new : List ℕ → ℕ → List ℕ
push_new selected index = if contains selected index then selected else selected ++ index ∷ []

-- The `while` loop on fuel, over the draws; `none` is a loop that has not ended yet.
unfoldable pub select : (ℕ → ℕ) → ℕ → ℕ → ℕ → List ℕ → Option (List ℕ)
select drawn sample_count zero nonce selected = none
select drawn sample_count (suc fuel) nonce selected =
    let rest =
      select drawn sample_count fuel (wrapping_add nonce 1) (push_new selected (drawn nonce)) in
    if ltb (length selected) sample_count then rest else some selected

unfoldable pub sample_indices : ℕ → ℕ → ℕ → Digest → ℕ → Option (List ℕ)
unfolding select range_from sort
sample_indices fuel trace_len sample_count trace_root entropy =
    if trace_len == 0 || sample_count == 0
    then some []
    else if leb trace_len sample_count
    then some (range_from 0 trace_len)
    else Option.map sort (select (draw trace_len trace_root entropy) sample_count fuel 0 [])
