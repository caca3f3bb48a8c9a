-- ===== src/Window/Sorted.antt =====
-- Strictly ascending lists of numbers as finite sets: membership, insertion in order.
use bluefin.Prelude.{ℕ, suc, ◌<◌, ◌≤◌, ◌≡◌, refl, arith}
use bluefin.Prelude.{Bool, false, ltb, ◌||◌, ◌==◌, if◌then◌else◌}
use bluefin.Prelude.{List, [], ◌∷◌, ◌++◌, All}

-- Strictly ascending, from `lo` on.
abbrev pub Above : ℕ → List ℕ → Type 0
Above lo [] = Unit
Above lo (x ∷ xs) = (lo ≤ x) × Above (suc x) xs

unfoldable pub mem : ℕ → List ℕ → Bool
mem n [] = false
mem n (x ∷ xs) = n == x || mem n xs

unfoldable pub insert_sorted : ℕ → List ℕ → List ℕ
insert_sorted n [] = n ∷ []
insert_sorted n (x ∷ xs) = if ltb n x then n ∷ x ∷ xs else x ∷ insert_sorted n xs

pub mem-insert_sorted : (m n : ℕ) (xs : List ℕ) → mem m (insert_sorted n xs) ≡ (m == n || mem m xs)
unfolding mem insert_sorted
mem-insert_sorted m n [] = refl
mem-insert_sorted m n (x ∷ xs) = ground (arith, mem-insert_sorted m n xs)

pub Above-insert_sorted :
    (lo n : ℕ) (xs : List ℕ)
    → lo ≤ n
    → mem n xs ≡ false
    → Above lo xs
    → Above lo (insert_sorted n xs)
unfolding mem insert_sorted
Above-insert_sorted lo n [] h m a = (h, tt)
Above-insert_sorted lo n (x ∷ xs) h m a = ground (arith, Above-insert_sorted (suc x) n xs)

pub All-insert_sorted :
    (hi n : ℕ) (xs : List ℕ)
    → n < hi
    → All (λ x. x < hi) xs
    → All (λ x. x < hi) (insert_sorted n xs)
unfolding insert_sorted
All-insert_sorted hi n [] h a = (h, tt)
All-insert_sorted hi n (x ∷ xs) h a = ground (arith, All-insert_sorted hi n xs)

-- A number below all of the list is none of it.
pub mem_below : (lo n : ℕ) (xs : List ℕ) → Above lo xs → n < lo → mem n xs ≡ false
unfolding mem
mem_below lo n [] a h = refl
mem_below lo n (x ∷ xs) a h = ground (arith, mem_below (suc x) n xs)

pub mem-append : (n : ℕ) (xs ys : List ℕ) → mem n (xs ++ ys) ≡ (mem n xs || mem n ys)
unfolding mem
mem-append n [] ys = refl
mem-append n (x ∷ xs) ys = ground (arith, mem-append n xs ys)
