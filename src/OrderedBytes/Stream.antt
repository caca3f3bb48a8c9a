-- ===== src/OrderedBytes/Stream.antt =====
-- `consume` as a stream of bytes: what the buffer holds ready to be read, and what one call takes.
use bluefin.Prelude.{ℕ, zero, suc, ◌+◌, ◌-◌, ◌<◌, ◌≤◌, ◌≡◌, refl, ap, arith}
use bluefin.Prelude.{lt→ltb, le→not-ltb}
use bluefin.Prelude.{List, [], ◌∷◌, ◌++◌, length, take, drop}
use bluefin.Prelude.{Option, none, some, Option-cases, inl, inr, ok}
use bluefin.Prelude.{length-take}
use bluefin.Prelude.Buffers.{copy_at-append}
use bluefin.Packet.{Packet}
use bluefin.OrderedBytes.Defs.{OrderedBytes, wrap_index, slot}
use bluefin.OrderedBytes.Consume.{Progress, clear_slot, take_packet, consume_loop}
use bluefin.OrderedBytes.Slots.{in_row}

unfoldable pub payloads : List Packet → List ℕ
payloads [] = []
payloads (p ∷ ps) = p.payload ++ payloads ps

unfoldable pub carried : Option (List ℕ) → List ℕ
carried none = []
carried (some bytes) = bytes

-- The packets that lie ready, and the bytes: the carry-over and then their payloads.
abbrev pub ready : OrderedBytes → List Packet
ready ob = in_row 2000 ob.packets ob.smallest_packet_number_index

unfoldable pub stream : OrderedBytes → List ℕ
stream ob = carried ob.carry_over_bytes ++ payloads (ready ob)

abbrev pub IsValid : OrderedBytes → Type 0
IsValid ob = (ob.smallest_packet_number_index < 2000) × (length ob.packets ≡ 2000)

module _ {A : Type 0} where
  pub take-append_more :
      (xs ys : List A) (k : ℕ) → take (length xs + k) (xs ++ ys) ≡ xs ++ take k ys
  take-append_more [] ys k = let e : 0 + k ≡ k = omega arith in rw e
  take-append_more (x ∷ xs) ys k =
      let e : suc (length xs) + k ≡ suc (length xs + k) = omega arith in
      rw e (ap (◌∷◌ x) (take-append_more xs ys k))

  pub drop-append_more : (xs ys : List A) (k : ℕ) → drop (length xs + k) (xs ++ ys) ≡ drop k ys
  drop-append_more [] ys k = let e : 0 + k ≡ k = omega arith in rw e
  drop-append_more (x ∷ xs) ys k =
      let e : suc (length xs) + k ≡ suc (length xs + k) = omega arith in
      rw e (drop-append_more xs ys k)

  pub take-append_less : (k : ℕ) (xs ys : List A) → k ≤ length xs → take k (xs ++ ys) ≡ take k xs
  take-append_less zero xs ys h = refl
  take-append_less (suc k) [] ys h = absurd (omega arith)
  take-append_less (suc k) (x ∷ xs) ys h = ap (◌∷◌ x) (take-append_less k xs ys (omega arith))

  pub drop-append_less :
      (k : ℕ) (xs ys : List A) → k ≤ length xs → drop k (xs ++ ys) ≡ drop k xs ++ ys
  drop-append_less zero xs ys h = refl
  drop-append_less (suc k) [] ys h = absurd (omega arith)
  drop-append_less (suc k) (x ∷ xs) ys h = drop-append_less k xs ys (omega arith)

-- The loop's state when `num` bytes are written.
abbrev pub progress : OrderedBytes → List ℕ → ℕ → ℕ → Progress
progress ob buf num ix = record {
  ordered = ob;
  buf = buf;
  num_bytes = num;
  writer_ix = num;
  ix = ix;
}

-- One packet, whole or in part.
module _ (ob : OrderedBytes) (done rest : List ℕ) (num len index ix : ℕ) (p : Packet)
    (at : length done ≡ num) (room : len - num ≤ length rest) where
  pub take_packet-whole :
      length p.payload ≤ len - num
      → take_packet len index p (progress ob (done ++ rest) num ix)
        ≡ ok (
            progress
              (clear_slot ob index p.header.packet_number)
              ((done ++ p.payload) ++ drop (length p.payload) rest)
              (num + length p.payload)
              (ix + 1))
  unfolding take_packet
  take_packet-whole h = rw (
    le→not-ltb (len - num) (length p.payload) h,
    copy_at-append num p.payload done rest at (omega (arith, room, h)),
  )

  pub take_packet-part :
      len - num < length p.payload
      → take_packet len index p (progress ob (done ++ rest) num ix)
        ≡ ok (
            progress
              (record (clear_slot ob index p.header.packet_number) {
                carry_over_bytes = some (drop (len - num) p.payload);
              })
              ((done ++ take (len - num) p.payload) ++ drop (len - num) rest)
              (num + (len - num))
              (ix + 1))
  unfolding take_packet
  take_packet-part h =
      let size : length (take (len - num) p.payload) ≡ len - num =
        omega (arith, length-take (len - num) p.payload, h) in
      rw (
        lt→ltb (len - num) (length p.payload) h,
        copy_at-append num (take (len - num) p.payload) done rest at (omega (arith, room, size)),
        size,
      )

-- The loop stops once the caller's `len` bytes are there.
pub consume_loop-full :
    (left base len : ℕ) (s : Progress) → len ≤ s.num_bytes → consume_loop left base len s ≡ ok s
unfolding consume_loop
consume_loop-full zero base len s h = refl
consume_loop-full (suc left) base len s h =
    elim (Option-cases (slot s.ordered (wrap_index base s.ix))) [
      | inl e ↦ rw (e, consume_loop)
      | inr (p, e) ↦ rw (e, le→not-ltb s.num_bytes len h, consume_loop)
    ]

-- `m` bytes of the stream `r` written behind `done`, and the rest of it left.
abbrev pub Delivered : ℕ → List ℕ → List ℕ → List ℕ → Progress → Type 0
Delivered m done rest r s =
    (s.buf ≡ done ++ (take m r ++ drop m rest))
    × (s.num_bytes ≡ length done + m)
    × (stream s.ordered ≡ drop m r)
    × IsValid s.ordered
