-- ===== src/Window/Defs.antt =====
-- bluefin/src/utils/window.rs: `SlidingWindow`. A method that takes `&mut self` returns the window
-- beside its result. `u64` arithmetic wraps, as in a release build.
use bluefin.Prelude.{ℕ, zero, suc, ◌+◌, ◌-◌, ltb, leb, ◌==◌, if◌then◌else◌, add_u64, sub_u64}
use bluefin.Prelude.{List, [], ◌∷◌, ◌++◌, take, drop, Option, none, some, Bool, true}
use bluefin.Prelude.{Result, ok, err, panic, stuck}
use bluefin.Prelude.{unexpected_packet_number_error, buffer_full_error}

abbrev pub max_sliding_window_size : ℕ
max_sliding_window_size = 40000

pub record SlidingWindow : Type 0 where
  pub smallest_expected_packet_number : ℕ
  pub ordered_packet_numbers : List ℕ

pub record ConsumeResult : Type 0 where
  pub largest_packet_number : ℕ
  pub num_acks_consumed : ℕ

unfoldable pub new : ℕ → SlidingWindow
new n = record { smallest_expected_packet_number = n; ordered_packet_numbers = [] }

-- `VecDeque::back`.
unfoldable pub back : List ℕ → Option ℕ
back [] = none
back (x ∷ []) = some x
back (x ∷ y ∷ xs) = back (y ∷ xs)

-- `VecDeque::binary_search` on a deque in strictly ascending order: the one index at which the
-- number stands, or the one at which inserting it keeps the order. The index counts from `i`.
pub data Search : Type 0 where
  found : ℕ → Search
  missing : ℕ → Search

unfoldable pub search_from : ℕ → List ℕ → ℕ → Search
search_from i [] n = missing i
search_from i (x ∷ xs) n =
    let rest : Search = search_from (suc i) xs n in
    if x == n then found i else if ltb n x then missing i else rest

-- `VecDeque::insert`.
unfoldable pub insert_at : ℕ → ℕ → List ℕ → List ℕ
insert_at i n xs = take i xs ++ (n ∷ drop i xs)

unfoldable pub push_back : SlidingWindow → ℕ → SlidingWindow
push_back w n = record w { ordered_packet_numbers = w.ordered_packet_numbers ++ (n ∷ []) }

-- The slow path of `insert_packet_number`.
unfoldable pub insert_by_search : SlidingWindow → ℕ → SlidingWindow × Result (Unit {0})
insert_by_search w n = elim (search_from 0 w.ordered_packet_numbers n) [
  | found index ↦ (w, err unexpected_packet_number_error)
  | missing index ↦
      (record w { ordered_packet_numbers = insert_at index n w.ordered_packet_numbers }, ok tt)
]

unfoldable pub insert_packet_number : SlidingWindow → ℕ → SlidingWindow × Result (Unit {0})
insert_packet_number w n =
    if ltb n w.smallest_expected_packet_number
    then (w, err unexpected_packet_number_error)
    else if leb max_sliding_window_size (sub_u64 n w.smallest_expected_packet_number)
    then (w, err (buffer_full_error "Sliding window buffer is full"))
    else elim (back w.ordered_packet_numbers) [
      | none ↦ (push_back w n, ok tt)
      | some last ↦
          if ltb last n
          then (push_back w n, ok tt)
          else if n == last
          then (w, err unexpected_packet_number_error)
          else insert_by_search w n
    ]

-- `for n in base..=last { self.insert_packet_number(n)?; }` over the numbers of the range.
unfoldable pub insert_each : SlidingWindow → List ℕ → SlidingWindow × Result (Unit {0})
insert_each w [] = (w, ok tt)
insert_each w (n ∷ ns) =
    let (w', r) = insert_packet_number w n in
    elim r [
      | ok _ ↦ insert_each w' ns
      | err e ↦ (w', err e)
      | panic ↦ (w', panic)
      | stuck ↦ (w', stuck)
    ]

-- The `count` numbers from `base` on.
unfoldable pub numbers : ℕ → ℕ → List ℕ
numbers base zero = []
numbers base (suc count) = base ∷ numbers (base + 1) count

-- `base..=last`.
unfoldable pub range_inclusive : ℕ → ℕ → List ℕ
range_inclusive base last = numbers base (last + 1 - base)

-- The test for the fast path of `insert_range`.
unfoldable pub extends_cleanly : SlidingWindow → ℕ → Bool
extends_cleanly w base = elim (back w.ordered_packet_numbers) [
  | none ↦ true
  | some last ↦ ltb last base
]

unfoldable pub insert_range : SlidingWindow → ℕ → ℕ → SlidingWindow × Result (Unit {0})
insert_range w base count =
    if count == 0
    then (w, ok tt)
    else if ltb base w.smallest_expected_packet_number
    then (w, err unexpected_packet_number_error)
    else (let last : ℕ = sub_u64 (add_u64 base count) 1 in
        if leb max_sliding_window_size (sub_u64 last w.smallest_expected_packet_number)
        then (w, err (buffer_full_error "Sliding window buffer is full"))
        else if extends_cleanly w base
        then (
          record w {
            ordered_packet_numbers = w.ordered_packet_numbers ++ range_inclusive base last;
          },
          ok tt,
        )
        else insert_each w (range_inclusive base last))

-- The loop of `consume`: the last contiguous number, and what stays in the deque.
unfoldable pub consume_loop : ℕ → List ℕ → ℕ × List ℕ
consume_loop last [] = (last, [])
consume_loop last (p ∷ ps) =
    let rest : ℕ × List ℕ = consume_loop p ps in
    if p == add_u64 last 1 then rest else (last, p ∷ ps)

-- `consume` on the numbers of the deque.
unfoldable pub consume_front : SlidingWindow → List ℕ → SlidingWindow × Option ConsumeResult
consume_front w [] = (w, none)
consume_front w (x ∷ xs) =
    let prev : ℕ = w.smallest_expected_packet_number in
    if ltb prev x
    then (w, none)
    else (let (last, rest) = consume_loop x xs in
        (
          record {
            smallest_expected_packet_number = add_u64 last 1;
            ordered_packet_numbers = rest;
          },
          some (record {
            largest_packet_number = last;
            num_acks_consumed = add_u64 (sub_u64 last prev) 1;
          }),
        ))

unfoldable pub consume : SlidingWindow → SlidingWindow × Option ConsumeResult
unfolding consume_front
consume w = consume_front w w.ordered_packet_numbers
