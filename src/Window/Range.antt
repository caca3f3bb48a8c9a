-- ===== src/Window/Range.antt =====
-- `insert_range` against the loop of single insertions that it replaces.
use bluefin.Prelude.{ℕ, zero, suc, ◌+◌, ◌-◌, ◌^◌, ◌<◌, ◌≤◌, ◌≡◌, refl, sym, ◌∙◌, ap, arith}
use bluefin.Prelude.{true, false, ltb, leb, ◌==◌, Bool-cases}
use bluefin.Prelude.{List, [], ◌∷◌, ◌++◌, inl, inr, append-nil, append_assoc}
use bluefin.Prelude.{BluefinError, ok, err, some, sub_u64, add_u64}
use bluefin.Prelude.{unexpected_packet_number_error, buffer_full_error}
use bluefin.Window.Defs.{
  SlidingWindow, max_sliding_window_size, back, push_back, insert_packet_number, insert_each,
  numbers, range_inclusive, extends_cleanly, insert_range,
}
use bluefin.Window.Insert.{IsValid}

-- Nothing in the deque stands at or behind `base`.
abbrev IsClean : SlidingWindow → ℕ → Type 0
IsClean w base = extends_cleanly w base ≡ true

back-append : (xs : List ℕ) (n : ℕ) → back (xs ++ (n ∷ [])) ≡ some n
unfolding back
back-append [] n = refl
back-append (x ∷ []) n = refl
back-append (x ∷ y ∷ xs) n = back-append (y ∷ xs) n

push_back-IsClean : (w : SlidingWindow) (n : ℕ) → IsClean (push_back w n) (n + 1)
unfolding push_back extends_cleanly
push_back-IsClean w n = ground (arith, back-append w.ordered_packet_numbers n)

insert_packet_number-push_back :
    (w : SlidingWindow) (n : ℕ)
    → w.smallest_expected_packet_number ≤ n
    → n < w.smallest_expected_packet_number + max_sliding_window_size
    → n < 2 ^ 64
    → IsClean w n
    → insert_packet_number w n ≡ (push_back w n, ok tt)
unfolding insert_packet_number extends_cleanly
insert_packet_number-push_back w n lo hi h c = ground arith

insert_each-ok :
    (w w' : SlidingWindow) (n : ℕ) (ns : List ℕ)
    → insert_packet_number w n ≡ (w', ok tt)
    → insert_each w (n ∷ ns) ≡ insert_each w' ns
unfolding insert_each
insert_each-ok w w' n ns e = ground arith

insert_each-err :
    (w w' : SlidingWindow) (n : ℕ) (ns : List ℕ) (x : BluefinError)
    → insert_packet_number w n ≡ (w', err x)
    → insert_each w (n ∷ ns) ≡ (w', err x)
unfolding insert_each
insert_each-err w w' n ns x e = ground arith

abbrev extended : SlidingWindow → List ℕ → SlidingWindow
extended w ns = record w { ordered_packet_numbers = w.ordered_packet_numbers ++ ns }

-- The loop behind everything that is in the deque appends.
insert_each-append :
    (count base : ℕ) (w : SlidingWindow)
    → w.smallest_expected_packet_number ≤ base
    → base + count ≤ w.smallest_expected_packet_number + max_sliding_window_size
    → base + count ≤ 2 ^ 64
    → IsClean w base
    → insert_each w (numbers base count) ≡ (extended w (numbers base count), ok tt)
unfolding numbers push_back
insert_each-append zero base w lo hi h c =
    unfold insert_each in rw (append-nil w.ordered_packet_numbers)
insert_each-append (suc count) base w lo hi h c =
    insert_each-ok w (push_back w base) base (numbers (base + 1) count)
      (insert_packet_number-push_back w base lo (omega arith) (omega arith) c)
    ∙ insert_each-append count (base + 1) (push_back w base) (omega arith) (omega arith)
        (omega arith) (push_back-IsClean w base)
    ∙ ap (λ (ns : List ℕ). (record w { ordered_packet_numbers = ns }, ok tt))
        (append_assoc w.ordered_packet_numbers (base ∷ []) (numbers (base + 1) count))

-- While the range stays within the window, `insert_range` does what single insertions of its
-- numbers, one after the other, do: the same window and the same result, also where it fails
-- half-way.
pub insert_range-insert_each :
    (w : SlidingWindow) (base count : ℕ)
    → IsValid w
    → base + count ≤ w.smallest_expected_packet_number + max_sliding_window_size
    → insert_range w base count ≡ insert_each w (numbers base count)
unfolding insert_range range_inclusive numbers
insert_range-insert_each w base zero v h = unfold insert_each in refl
insert_range-insert_each w base (suc count) v h =
    let nonzero : (suc count == 0) ≡ false = ground arith in
    let last : sub_u64 (add_u64 base (suc count)) 1 ≡ base + count = omega (arith, v.no_wrap) in
    let size : base + count + 1 - base ≡ suc count = omega arith in
    elim (Bool-cases (ltb base w.smallest_expected_packet_number)) [
      | inl below ↦
          rw (nonzero, below)
            (sym (
              insert_each-err w w base (numbers (base + 1) count) unexpected_packet_number_error
                (unfold insert_packet_number in rw below)))
      | inr at_least ↦
          let room : leb max_sliding_window_size
                (sub_u64 (base + count) w.smallest_expected_packet_number)
              ≡ false =
            ground (arith, v.no_wrap) in
          elim (Bool-cases (extends_cleanly w base)) [
            | inl clean ↦
                rw (nonzero, at_least, last, room, clean, size)
                  (sym (
                    insert_each-append (suc count) base w (ground arith) h
                      (omega (arith, v.no_wrap)) clean))
            | inr within ↦ rw (nonzero, at_least, last, room, within, size)
          ]
    ]

-- A range that begins within the window and ends beyond it is refused as a whole: nothing of it is
-- inserted.
pub insert_range-full :
    (w : SlidingWindow) (base count : ℕ)
    → IsValid w
    → w.smallest_expected_packet_number ≤ base
    → w.smallest_expected_packet_number + max_sliding_window_size < base + count
    → base + count ≤ 2 ^ 64
    → 0 < count
    → insert_range w base count ≡ (w, err (buffer_full_error "Sliding window buffer is full"))
unfolding insert_range
insert_range-full w base count v lo hi h pos =
    let nonzero : (count == 0) ≡ false = ground arith in
    let last : sub_u64 (add_u64 base count) 1 ≡ base + count - 1 = omega arith in
    let full : leb max_sliding_window_size
          (sub_u64 (base + count - 1) w.smallest_expected_packet_number)
        ≡ true =
      ground (arith, v.no_wrap) in
    let above : ltb base w.smallest_expected_packet_number ≡ false = ground arith in
    rw (nonzero, above, last, full)
