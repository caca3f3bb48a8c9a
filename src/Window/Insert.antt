-- ===== src/Window/Insert.antt =====
-- `insert_packet_number` on every branch: it is insertion into a bounded set of numbers.
use bluefin.Prelude.{ℕ, suc, ◌+◌, ◌^◌, ◌<◌, ◌≡◌, refl, arith, ◌⊎◌}
use bluefin.Prelude.{true, false, ltb, leb, ◌||◌, ◌==◌, if◌then◌else◌, Bool-cases}
use bluefin.Prelude.{List, [], ◌∷◌, ◌++◌, All, inl, inr}
use bluefin.Prelude.{◌≢◌, Result, ok, err, none, some}
use bluefin.Prelude.{unexpected_packet_number_error, buffer_full_error}
use bluefin.Window.Defs.{
  SlidingWindow, max_sliding_window_size, new, back, found, missing, search_from, insert_at,
  push_back, insert_by_search, insert_packet_number,
}
use bluefin.Window.Sorted.{Above, mem, insert_sorted, mem_below, mem-insert_sorted}
use bluefin.Window.Sorted.{Above-insert_sorted, All-insert_sorted}

-- The deque ascends from the smallest expected number, stays within the window, and the window
-- ends below 2 ^ 64.
pub record IsValid (w : SlidingWindow) : Type 0 where
  pub ascending : Above w.smallest_expected_packet_number w.ordered_packet_numbers
  pub bounded :
      All
        (λ x. x < w.smallest_expected_packet_number + max_sliding_window_size)
        w.ordered_packet_numbers
  pub no_wrap : w.smallest_expected_packet_number + max_sliding_window_size < 2 ^ 64

pub new-IsValid : (n : ℕ) → n + max_sliding_window_size < 2 ^ 64 → IsValid (new n)
unfolding new
new-IsValid n h = record { ascending = tt; bounded = tt; no_wrap = h }

-- The specification of the insertion: a set of numbers from the smallest expected one on, less than
-- the window's size from it.
abbrev pub inserted : SlidingWindow → ℕ → SlidingWindow
inserted w n = record w { ordered_packet_numbers = insert_sorted n w.ordered_packet_numbers }

abbrev pub insert_expected : SlidingWindow → ℕ → SlidingWindow × Result (Unit {0})
insert_expected w n =
    if ltb n w.smallest_expected_packet_number
    then (w, err unexpected_packet_number_error)
    else if leb (w.smallest_expected_packet_number + max_sliding_window_size) n
    then (w, err (buffer_full_error "Sliding window buffer is full"))
    else if mem n w.ordered_packet_numbers
    then (w, err unexpected_packet_number_error)
    else (inserted w n, ok tt)

-- Behind the last number there is nothing.
insert_sorted-last :
    (n lo : ℕ) (xs : List ℕ)
    → Above lo xs
    → (back xs ≡ none) ⊎ ((last : ℕ) × (back xs ≡ some last) × (last < n))
    → (insert_sorted n xs ≡ xs ++ (n ∷ [])) × (mem n xs ≡ false)
unfolding insert_sorted mem back
insert_sorted-last n lo [] a h = (refl, refl)
insert_sorted-last n lo (x ∷ []) a h = ground arith
insert_sorted-last n lo (x ∷ y ∷ xs) a h =
    ground (arith, insert_sorted-last n (suc x) (y ∷ xs) a.1 h)

search-found :
    (i n lo : ℕ) (xs : List ℕ)
    → Above lo xs
    → mem n xs ≡ true
    → (k : ℕ) × (search_from i xs n ≡ found k)
unfolding search_from mem
search-found i n lo [] a m = absurd (ground arith)
search-found i n lo (x ∷ xs) a m = elim (Bool-cases (x == n)) [
  | inl here ↦ (i, rw here)
  | inr later ↦
      let (k, e) = search-found (suc i) n (suc x) xs a.1 (ground arith) in
      (k, ground (arith, mem_below (suc x) n xs))
]

search-missing :
    (i n : ℕ) (xs : List ℕ)
    → mem n xs ≡ false
    → (k : ℕ) × (search_from i xs n ≡ missing (i + k)) × (insert_at k n xs ≡ insert_sorted n xs)
unfolding search_from mem insert_at insert_sorted
search-missing i n [] m = (0, ground arith, refl)
search-missing i n (x ∷ xs) m = elim (Bool-cases (ltb n x)) [
  | inl here ↦ (0, ground arith, rw here)
  | inr later ↦
      let (k, e, f) = search-missing (suc i) n xs (ground arith) in
      (suc k, ground arith, ground arith)
]

insert_by_search-sorted :
    (w : SlidingWindow) (n : ℕ)
    → Above w.smallest_expected_packet_number w.ordered_packet_numbers
    → insert_by_search w n ≡ (
        if mem n w.ordered_packet_numbers
        then (w, err unexpected_packet_number_error)
        else (inserted w n, ok tt))
unfolding insert_by_search
insert_by_search-sorted w n a = elim (Bool-cases (mem n w.ordered_packet_numbers)) [
  | inl old ↦
      let (k, e) = search-found 0 n _ w.ordered_packet_numbers a old in
      rw (old, e, insert_by_search)
  | inr fresh ↦
      let (k, e, f) = search-missing 0 n w.ordered_packet_numbers fresh in
      let z : 0 + k ≡ k = omega arith in rw (fresh, e, z, f, insert_by_search)
]

back-cases :
    (xs : List ℕ) → (back xs ≡ none) ⊎ ((last : ℕ) × (back xs ≡ some last) × (mem last xs ≡ true))
unfolding back mem
back-cases [] = inl refl
back-cases (x ∷ []) = inr (x, refl, ground arith)
back-cases (x ∷ y ∷ xs) = elim (back-cases (y ∷ xs)) [
  | inl e ↦ inl e
  | inr (last, e, m) ↦ inr (last, e, ground arith)
]

-- On a valid window the insertion does what its specification says, on every branch: a number below
-- the window, one beyond it and one that is there already are refused with the window unchanged;
-- any other is put in its place.
pub insert_packet_number_lem :
    (w : SlidingWindow) (n : ℕ)
    → IsValid w
    → n < 2 ^ 64
    → insert_packet_number w n ≡ insert_expected w n
unfolding insert_packet_number push_back
insert_packet_number_lem w n v h = elim (back-cases w.ordered_packet_numbers) [
  | inl e ↦ ground (
    arith,
    insert_sorted-last n w.smallest_expected_packet_number w.ordered_packet_numbers v.ascending
        (inl e),
  )
  | inr (last, e, m) ↦ elim (Bool-cases (ltb last n)) [
    | inl after ↦ ground (
      arith,
      insert_sorted-last n w.smallest_expected_packet_number w.ordered_packet_numbers v.ascending
          (inr (last, e, ground arith)),
    )
    | inr before ↦ ground (arith, insert_by_search-sorted w n v.ascending)
  ]
]

insert_expected-IsValid : (w : SlidingWindow) (n : ℕ) → IsValid w → IsValid (insert_expected w n).0
insert_expected-IsValid w n v = elim (Bool-cases (ltb n w.smallest_expected_packet_number)) [
  | inl below ↦ rw below v
  | inr at_least ↦
      elim (Bool-cases (leb (w.smallest_expected_packet_number + max_sliding_window_size) n)) [
        | inl beyond ↦ rw (at_least, beyond) v
        | inr within ↦ elim (Bool-cases (mem n w.ordered_packet_numbers)) [
          | inl old ↦ rw (at_least, within, old) v
          | inr fresh ↦
              rw (at_least, within, fresh)
                (record {
                  ascending =
                      Above-insert_sorted w.smallest_expected_packet_number n
                        w.ordered_packet_numbers (ground arith) fresh v.ascending;
                  bounded =
                      All-insert_sorted
                        (w.smallest_expected_packet_number + max_sliding_window_size) n
                        w.ordered_packet_numbers (ground arith) v.bounded;
                  no_wrap = v.no_wrap;
                })
        ]
      ]
]

-- An insertion keeps the window valid.
pub insert_packet_number-IsValid :
    (w : SlidingWindow) (n : ℕ) → IsValid w → n < 2 ^ 64 → IsValid (insert_packet_number w n).0
insert_packet_number-IsValid w n v h =
    rw (insert_packet_number_lem w n v h) (insert_expected-IsValid w n v)

-- After an insertion the window holds exactly the numbers that it held, and the new one if the
-- insertion succeeded.
pub mem-insert_packet_number :
    (w : SlidingWindow) (n m : ℕ)
    → IsValid w
    → n < 2 ^ 64
    → let (w', r) = insert_packet_number w n in
      (r ≡ ok tt → mem m w'.ordered_packet_numbers ≡ (m == n || mem m w.ordered_packet_numbers))
      × (r ≢ ok tt → w' ≡ w)
mem-insert_packet_number w n m v h =
    rw (insert_packet_number_lem w n v h)
      (ground (arith, mem-insert_sorted m n w.ordered_packet_numbers))
