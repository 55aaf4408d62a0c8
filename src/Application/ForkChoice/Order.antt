-- ===== src/Application/ForkChoice/Order.antt =====
-- The order of tips: by work, then by height, then by hash.
use Prim.Native.Nat.{Ordering}
use chesscoin.Prelude.{ℕ, ◌≡◌, refl, List, [], ◌∷◌, true, false, arith}
use chesscoin.Application.ForkChoice.{ForkNode, compare_bytes, compare_nodes, is_better_tip}

compare_bytes_refl : (xs : List ℕ) → compare_bytes xs xs ≡ Ordering.eq
unfolding compare_bytes
compare_bytes_refl [] = refl
compare_bytes_refl (x ∷ xs) = ground (arith, compare_bytes_refl xs)

compare_bytes-eq : (xs ys : List ℕ) → compare_bytes xs ys ≡ Ordering.eq → xs ≡ ys
unfolding compare_bytes
compare_bytes-eq [] [] h = refl
compare_bytes-eq [] (y ∷ ys) h = cc
compare_bytes-eq (x ∷ xs) [] h = cc
compare_bytes-eq (x ∷ xs) (y ∷ ys) h = ground (arith, compare_bytes-eq xs ys)

compare_bytes_trans :
    (xs ys zs : List ℕ)
    → compare_bytes xs ys ≡ Ordering.gt
    → compare_bytes ys zs ≡ Ordering.gt
    → compare_bytes xs zs ≡ Ordering.gt
unfolding compare_bytes
compare_bytes_trans [] [] zs h k = cc
compare_bytes_trans [] (y ∷ ys) zs h k = cc
compare_bytes_trans (x ∷ xs) [] [] h k = cc
compare_bytes_trans (x ∷ xs) [] (z ∷ zs) h k = cc
compare_bytes_trans (x ∷ xs) (y ∷ ys) [] h k = refl
compare_bytes_trans (x ∷ xs) (y ∷ ys) (z ∷ zs) h k = ground (arith, compare_bytes_trans xs ys zs)

-- No tip is better than itself.
pub is_better_tip_irrefl : (a : ForkNode) → is_better_tip a a ≡ false
unfolding compare_nodes
is_better_tip_irrefl a = ground (arith, compare_bytes_refl a.hash.bytes)

-- A tip that is better than a better one is better.
pub is_better_tip_trans :
    (a b c : ForkNode)
    → is_better_tip a b ≡ true
    → is_better_tip b c ≡ true
    → is_better_tip a c ≡ true
unfolding compare_nodes
is_better_tip_trans a b c h k =
    ground (arith, compare_bytes_trans a.hash.bytes b.hash.bytes c.hash.bytes)
