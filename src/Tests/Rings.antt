-- ===== src/Tests/Rings.antt =====
-- Runs of the ring buffer.
use bluefin.Prelude.{ℕ, refl, arith, [], ◌∷◌, ◌++◌}
use bluefin.Ring.{RingBuffer, push_back}
use bluefin.Ring.Deque.{elements, Pushed, push_back-Pushed}

-- Two elements that go round the end.
abbrev round : RingBuffer ℕ
round = record { buffer = 2 ∷ 9 ∷ 1 ∷ []; capacity = 3; head = 2; tail = 1; len = 2 }

push_back-Pushed_example : Pushed 0 round 7 (elements 0 round ++ (7 ∷ [])) (push_back 0 round 7)
push_back-Pushed_example = push_back-Pushed 0 round 7 (refl, omega arith, omega arith, refl)
