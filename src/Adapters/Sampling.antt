-- ===== src/Adapters/Sampling.antt =====
-- The sampler of crates/chesscoin-node/src/adapters.rs: its result and its loop.
use native.Mathlib.Nat.{mod-lt}
use chesscoin.Prelude.{
  ℕ, zero, suc, ◌+◌, ◌≤◌, ◌<◌, ◌≡◌, refl, arith, min, All, true, false, Bool-cases, some, List, [],
  ◌∷◌, length, contains, Distinct, push-Distinct, nat_eq, ltb, leb, ◌==◌, ==_iff, ◌||◌, inl, inr,
  length-append, All-append, ap, ◌∙◌,
}
use chesscoin.Prelude.Words.{wrapping_add}
use chesscoin.Domain.Digest.{Digest}
use chesscoin.Adapters.{insert_sorted, sort, range_from, draw, push_new, select, sample_indices}

-- Each number is below all that follow: sorted, and none twice.
abbrev pub Ascending : List ℕ → Type 0
Ascending [] = Unit
Ascending (x ∷ xs) = All (λ y. x < y) xs × Ascending xs

All-below : (x y : ℕ) (ys : List ℕ) → x ≤ y → All (λ z. y < z) ys → All (λ z. x < z) ys
All-below x y [] le h = tt
All-below x y (z ∷ zs) le h = (omega (arith, h.0), All-below x y zs le h.1)

module _ (P : ℕ → Type 0) where
  All-insert_sorted : (x : ℕ) (xs : List ℕ) → P x → All P xs → All P (insert_sorted x xs)
  All-insert_sorted x [] p h = (p, tt)
  All-insert_sorted x (y ∷ ys) p h = elim (Bool-cases (ltb x y)) [
    | inl below ↦ rw below (p, h)
    | inr above ↦ rw above (h.0, All-insert_sorted x ys p h.1)
  ]

  All-sort : (xs : List ℕ) → All P xs → All P (sort xs)
  unfolding sort
  All-sort [] h = tt
  All-sort (x ∷ xs) h = All-insert_sorted x (sort xs) h.0 (All-sort xs h.1)

length-insert_sorted : (x : ℕ) (xs : List ℕ) → length (insert_sorted x xs) ≡ suc (length xs)
length-insert_sorted x [] = refl
length-insert_sorted x (y ∷ ys) = ground (arith, length-insert_sorted x ys)

length-sort : (xs : List ℕ) → length (sort xs) ≡ length xs
unfolding sort
length-sort [] = refl
length-sort (x ∷ xs) = length-insert_sorted x (sort xs) ∙ ap suc (length-sort xs)

contains-insert_sorted :
    (x : ℕ) (xs : List ℕ) (a : ℕ) → contains (insert_sorted x xs) a ≡ contains (x ∷ xs) a
contains-insert_sorted x [] a = refl
contains-insert_sorted x (y ∷ ys) a = ground (arith, contains-insert_sorted x ys a)

contains-sort : (xs : List ℕ) (a : ℕ) → contains (sort xs) a ≡ contains xs a
unfolding sort
contains-sort [] a = refl
contains-sort (x ∷ xs) a = ground (arith, contains-insert_sorted x (sort xs) a, contains-sort xs a)

insert_sorted-Ascending :
    (x : ℕ) (xs : List ℕ) → contains xs x ≡ false → Ascending xs → Ascending (insert_sorted x xs)
insert_sorted-Ascending x [] apart h = (tt, tt)
insert_sorted-Ascending x (y ∷ ys) apart h = elim (Bool-cases (ltb x y)) [
  | inl below ↦ rw below ((ground arith, All-below x y ys (ground arith) h.0), h)
  | inr above ↦ rw above (
    All-insert_sorted (λ z. y < z) x ys (ground (arith, ==_iff x y)) h.0,
    insert_sorted-Ascending x ys (ground arith) h.1,
  )
]

-- Sorting puts distinct numbers into ascending order.
sort-Ascending : (xs : List ℕ) → Distinct xs → Ascending (sort xs)
unfolding sort
sort-Ascending [] h = tt
sort-Ascending (x ∷ xs) h =
    insert_sorted-Ascending x (sort xs) (contains-sort xs x ∙ h.0) (sort-Ascending xs h.1)

All-range_from : (a start count : ℕ) → a < start → All (λ y. a < y) (range_from start count)
unfolding range_from
All-range_from a start zero h = tt
All-range_from a start (suc count) h = (h, All-range_from a (start + 1) count (omega arith))

range_from-Ascending : (start count : ℕ) → Ascending (range_from start count)
unfolding range_from
range_from-Ascending start zero = tt
range_from-Ascending start (suc count) =
    (All-range_from start (start + 1) count (omega arith), range_from-Ascending (start + 1) count)

range_from-below :
    (start count bound : ℕ) → start + count ≤ bound → All (λ y. y < bound) (range_from start count)
unfolding range_from
range_from-below start zero bound h = tt
range_from-below start (suc count) bound h =
    (omega arith, range_from-below (start + 1) count bound (omega arith))

length-range_from : (start count : ℕ) → length (range_from start count) ≡ count
unfolding range_from
length-range_from start zero = refl
length-range_from start (suc count) = ap suc (length-range_from (start + 1) count)

module _ (trace_len sample_count : ℕ) where
  record IsSelection (selected : List ℕ) : Type 0 where
    distinct : Distinct selected
    in_range : All (λ i. i < trace_len) selected
    few : length selected ≤ sample_count

  push_new-IsSelection :
      (selected : List ℕ) (index : ℕ)
      → IsSelection selected
      → length selected < sample_count
      → index < trace_len
      → IsSelection (push_new selected index)
  push_new-IsSelection selected index s room fits = elim (Bool-cases (contains selected index)) [
    | inl known ↦ rw known s
    | inr fresh ↦ rw fresh (record {
      distinct = push-Distinct selected index s.distinct fresh;
      in_range = All-append _ selected (index ∷ []) s.in_range (fits, tt);
      few = omega (arith, length-append selected (index ∷ []));
    })
  ]

-- The distinct indices that n nonces draw, after those selected.
unfoldable pub distinct_draws : (ℕ → ℕ) → ℕ → ℕ → List ℕ → List ℕ
distinct_draws drawn zero nonce selected = selected
distinct_draws drawn (suc n) nonce selected =
    distinct_draws drawn n (wrapping_add nonce 1) (push_new selected (drawn nonce))

select_full :
    (drawn : ℕ → ℕ) (sample_count n nonce : ℕ) (selected : List ℕ)
    → ltb (length selected) sample_count ≡ false
    → select drawn sample_count (suc n) nonce selected ≡ some selected
unfolding select
select_full drawn sample_count n nonce selected full = rw full refl

select_room :
    (drawn : ℕ → ℕ) (sample_count n nonce : ℕ) (selected : List ℕ)
    → ltb (length selected) sample_count ≡ true
    → select drawn sample_count (suc n) nonce selected
      ≡ select drawn sample_count n (wrapping_add nonce 1) (push_new selected (drawn nonce))
unfolding select
select_room drawn sample_count n nonce selected room = rw room refl

module _ (trace_len sample_count : ℕ) (drawn : ℕ → ℕ) (fits : (n : ℕ) → drawn n < trace_len) where
  select_result :
      (n nonce : ℕ) (selected : List ℕ)
      → IsSelection trace_len sample_count selected
      → sample_count ≤ length (distinct_draws drawn n nonce selected)
      → (result : List ℕ) × (select drawn sample_count (suc n) nonce selected ≡ some result)
        × IsSelection trace_len sample_count result
        × (length result ≡ sample_count)
  unfolding distinct_draws
  select_result zero nonce selected s enough = (
    selected,
    select_full drawn sample_count 0 nonce selected (ground arith),
    s,
    omega (arith, s.few),
  )
  select_result (suc n) nonce selected s enough =
      elim (Bool-cases (ltb (length selected) sample_count)) [
        | inr full ↦ (
          selected,
          select_full drawn sample_count (suc n) nonce selected full,
          s,
          ground (arith, s.few),
        )
        | inl room ↦
            let (result, found, r, len) =
              select_result n (wrapping_add nonce 1) (push_new selected (drawn nonce))
                (push_new-IsSelection trace_len sample_count selected (drawn nonce) s (ground arith)
                  (fits nonce))
                enough in
            (result, select_room drawn sample_count (suc n) nonce selected room ∙ found, r, len)
      ]

draw-lt :
    (trace_len : ℕ) (trace_root : Digest) (entropy : ℕ)
    → 0 < trace_len
    → (nonce : ℕ) → draw trace_len trace_root entropy nonce < trace_len
unfolding draw
draw-lt trace_len trace_root entropy h nonce = mod-lt _ h

-- What a sample is: distinct indices of the trace in ascending order, as many as asked for, or all.
pub record IsSample (trace_len sample_count : ℕ) (indices : List ℕ) : Type 0 where
  pub ascending : Ascending indices
  pub in_range : All (λ i. i < trace_len) indices
  pub length_eq : length indices ≡ min sample_count trace_len

-- The sampler returns within n + 1 rounds if a part of the trace is asked for only when n nonces
-- draw that many distinct indices; its result is in ascending order, has no index twice and none
-- out of the trace, and holds as many as asked for, or the whole trace.
pub sample_indices_result :
    (n trace_len sample_count : ℕ) (trace_root : Digest) (entropy : ℕ)
    → (sample_count < trace_len
        → sample_count ≤ length (distinct_draws (draw trace_len trace_root entropy) n 0 []))
    → (indices : List ℕ) × (sample_indices (suc n) trace_len sample_count trace_root entropy
        ≡ some indices)
      × IsSample trace_len sample_count indices
unfolding sample_indices
sample_indices_result n trace_len sample_count trace_root entropy enough =
    elim (Bool-cases (trace_len == 0 || sample_count == 0)) [
      | inl nothing ↦ (
        [],
        rw (nothing, sample_indices),
        record {
          ascending = tt;
          in_range = tt;
          length_eq = ground (arith, ==_iff trace_len 0, ==_iff sample_count 0);
        },
      )
      | inr something ↦ elim (Bool-cases (leb trace_len sample_count)) [
        | inl whole ↦ (
          range_from 0 trace_len,
          rw (something, whole, sample_indices),
          record {
            ascending = range_from-Ascending 0 trace_len;
            in_range = range_from-below 0 trace_len trace_len (omega arith);
            length_eq = ground (arith, length-range_from 0 trace_len);
          },
        )
        | inr part ↦
            let (selected, found, s, len) =
              select_result trace_len sample_count (draw trace_len trace_root entropy)
                (draw-lt trace_len trace_root entropy (ground (arith, ==_iff trace_len 0))) n 0 []
                (record { distinct = tt; in_range = tt; few = omega arith })
                (enough (ground arith)) in
            (
              sort selected,
              rw (something, part, found, sample_indices),
              record {
                ascending = sort-Ascending selected s.distinct;
                in_range = All-sort (λ i. i < trace_len) selected s.in_range;
                length_eq = ground (arith, length-sort selected, len);
              },
            )
      ]
    ]
