-- ===== src/Window/Consume.antt =====
-- `consume`: the longest run of numbers from the smallest expected one on leaves the window.
use bluefin.Prelude.{ℕ, suc, ◌+◌, ◌^◌, ◌<◌, ◌≤◌, ◌≡◌, refl, arith}
use bluefin.Prelude.{true, false, ltb, ◌==◌, ◌&&◌, Bool-cases}
use bluefin.Prelude.{List, [], ◌∷◌, inl, inr, Option, none, some, All, add_u64}
use bluefin.Window.Defs.{
  SlidingWindow, ConsumeResult, max_sliding_window_size, consume_loop, consume_front, consume,
}
use bluefin.Window.Sorted.{Above, mem, mem_below}
use bluefin.Window.Insert.{IsValid}

-- What the loop finds from the contiguous number `x` on, over the ascending rest `xs`.
record IsRun (x : ℕ) (xs : List ℕ) (last : ℕ) (rest : List ℕ) : Type 0 where
  forward : x ≤ last
  run : (n : ℕ) → x < n → n ≤ last → mem n xs ≡ true
  gap : mem (last + 1) xs ≡ false
  above : Above (last + 1) rest
  kept : (n : ℕ) → mem n rest ≡ (mem n xs && ltb last n)
  bounded : (hi : ℕ) → x < hi → All (λ y. y < hi) xs → (last < hi) × All (λ y. y < hi) rest

ne_below : (x n : ℕ) (xs : List ℕ) → Above (suc x) xs → mem n xs ≡ true → x < n
unfolding mem
ne_below x n [] a m = absurd (ground arith)
ne_below x n (y ∷ ys) a m = ground (arith, ne_below y n ys)

IsRun-next :
    (x y : ℕ) (ys : List ℕ) {last : ℕ} {rest : List ℕ}
    → y ≡ x + 1
    → IsRun y ys last rest
    → IsRun x (y ∷ ys) last rest
unfolding mem
IsRun-next x y ys {last} e r = record {
  forward = omega (arith, r.forward);
  run = λ n p q. ground (arith, r.run n, e);
  gap = ground (arith, r.gap, r.forward);
  above = r.above;
  kept = λ n. ground (arith, r.kept n, r.forward);
  bounded = λ hi p b. r.bounded hi b.0 b.1;
}

consume_loop-IsRun :
    (hi x : ℕ) (xs : List ℕ)
    → hi < 2 ^ 64
    → x < hi
    → All (λ y. y < hi) xs
    → Above (suc x) xs
    → let (last, rest) = consume_loop x xs in IsRun x xs last rest
unfolding consume_loop
consume_loop-IsRun hi x [] w h b a = record {
  forward = omega arith;
  run = λ n p q. absurd (omega arith);
  gap = unfold mem in refl;
  above = tt;
  kept = λ n. unfold mem in refl;
  bounded = λ k p q. (p, tt);
}
consume_loop-IsRun hi x (y ∷ ys) w h b a =
    let plus : add_u64 x 1 ≡ x + 1 = omega arith in
    elim (Bool-cases (y == x + 1)) [
      | inl next ↦
          let rest : IsRun y ys (consume_loop y ys).0 (consume_loop y ys).1 =
            consume_loop-IsRun hi y ys w b.0 b.1 a.1 in
          rw (plus, next) (IsRun-next x y ys (ground arith) rest)
      | inr jump ↦
          rw (plus, jump)
            (record {
              forward = omega arith;
              run = λ n p q. absurd (omega arith);
              gap = unfold mem in ground (arith, mem_below (suc y) (x + 1) ys);
              above = (ground arith, a.1);
              kept = λ n. unfold mem in ground (arith, ne_below y n ys);
              bounded = λ k p q. (p, q);
            })
    ]

-- What `consume` returns and leaves, told by the numbers that the window held.
pub record Consumed (w w' : SlidingWindow) (r : ConsumeResult) : Type 0 where
  -- every number from the smallest expected one to the reported one was there, and the next was not
  pub run :
      (n : ℕ)
      → w.smallest_expected_packet_number ≤ n
      → n ≤ r.largest_packet_number
      → mem n w.ordered_packet_numbers ≡ true
  pub gap : mem (r.largest_packet_number + 1) w.ordered_packet_numbers ≡ false
  -- the number of acknowledged packets is the length of that run
  pub count : w.smallest_expected_packet_number + r.num_acks_consumed ≡ r.largest_packet_number + 1
  pub some_consumed : 0 < r.num_acks_consumed
  -- the window begins behind the run, and keeps the numbers beyond
  pub moved : w'.smallest_expected_packet_number ≡ r.largest_packet_number + 1
  pub kept :
      (n : ℕ)
      → mem n w'.ordered_packet_numbers
        ≡ (mem n w.ordered_packet_numbers && ltb r.largest_packet_number n)

abbrev pub IsConsumption : SlidingWindow → SlidingWindow × Option ConsumeResult → Type 0
IsConsumption w (w', none) =
    (w' ≡ w) × (mem w.smallest_expected_packet_number w.ordered_packet_numbers ≡ false)
IsConsumption w (w', some r) = Consumed w w' r

module _ (w : SlidingWindow) (x : ℕ) (xs : List ℕ) (e : w.ordered_packet_numbers ≡ x ∷ xs)
    (v : IsValid w) (a : Above w.smallest_expected_packet_number (x ∷ xs))
    (here : x ≡ w.smallest_expected_packet_number) where
  fits : All (λ y. y < w.smallest_expected_packet_number + max_sliding_window_size) (x ∷ xs)
  fits = rw e at v.bounded

  front-IsRun : IsRun x xs (consume_loop x xs).0 (consume_loop x xs).1
  front-IsRun = consume_loop-IsRun _ x xs v.no_wrap fits.0 fits.1 a.1

  last_fits : (consume_loop x xs).0 < w.smallest_expected_packet_number + max_sliding_window_size
  last_fits = (front-IsRun.bounded _ fits.0 fits.1).0

  moved_front : add_u64 (consume_loop x xs).0 1 ≡ (consume_loop x xs).0 + 1
  moved_front = omega (arith, last_fits, v.no_wrap)

All-lt_mono : (a b : ℕ) (xs : List ℕ) → a ≤ b → All (λ y. y < a) xs → All (λ y. y < b) xs
All-lt_mono a b [] h p = tt
All-lt_mono a b (x ∷ xs) h p = (omega (arith, p.0), All-lt_mono a b xs h p.1)

consume_front-IsValid :
    (w : SlidingWindow) (xs : List ℕ)
    → w.ordered_packet_numbers ≡ xs
    → IsValid w
    → (consume_front w xs).0.smallest_expected_packet_number + max_sliding_window_size < 2 ^ 64
    → IsValid (consume_front w xs).0
unfolding consume_front
consume_front-IsValid w [] e v h = v
consume_front-IsValid w (x ∷ xs) e v h =
    let a : Above w.smallest_expected_packet_number (x ∷ xs) = rw e at v.ascending in
    elim (Bool-cases (ltb w.smallest_expected_packet_number x)) [
      | inl missing ↦ rw missing v
      | inr here ↦
          let eq : x ≡ w.smallest_expected_packet_number = ground arith in
          let run : IsRun x xs (consume_loop x xs).0 (consume_loop x xs).1 =
            front-IsRun w x xs e v a eq in
          let next : add_u64 (consume_loop x xs).0 1 ≡ (consume_loop x xs).0 + 1 =
            moved_front w x xs e v a eq in
          let wide : All (λ y. y < (consume_loop x xs).0 + 1 + max_sliding_window_size) (x ∷ xs) =
            All-lt_mono _ _ (x ∷ xs) (omega (arith, run.forward)) (fits w x xs e v a eq) in
          rw here (record {
            ascending = rw next run.above;
            bounded = rw next (run.bounded _ wide.0 wide.1).1;
            no_wrap = rw here at h;
          })
    ]

-- After a `consume` the deque ascends from the new smallest expected number within the window.
pub consume-IsValid :
    (w : SlidingWindow)
    → IsValid w
    → (consume w).0.smallest_expected_packet_number + max_sliding_window_size < 2 ^ 64
    → IsValid (consume w).0
unfolding consume
consume-IsValid w v h = consume_front-IsValid w w.ordered_packet_numbers refl v h
