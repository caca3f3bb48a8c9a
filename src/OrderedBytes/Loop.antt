-- ===== src/OrderedBytes/Loop.antt =====
-- The loop of `consume`, round by round.
use bluefin.Prelude.{ℕ, zero, suc, ◌+◌, ◌-◌, ◌<◌, ◌≤◌, ◌≡◌, refl, sym, ◌∙◌, ap, arith, min}
use mathlib.Core.Path.{subst}
use bluefin.Prelude.{lt→ltb, lt_or_ge}
use bluefin.Prelude.{List, [], ◌∷◌, ◌++◌, append_assoc, length, get_or, take, drop}
use bluefin.Prelude.{none, some, Option-cases, inl, inr, ok}
use bluefin.Prelude.{length-append, length-drop, drop-drop, length-set}
use bluefin.Prelude.{length_zero}
use bluefin.Packet.{Packet}
use bluefin.OrderedBytes.Defs.{OrderedBytes, wrap_index, slot}
use bluefin.OrderedBytes.Consume.{Progress, clear_slot, take_packet, consume_loop}
use bluefin.OrderedBytes.Slots.{in_row, in_row-none, in_row-some, in_row-set-none}
use bluefin.OrderedBytes.Slots.{wrap_index-lt, wrap_index-suc}
use bluefin.OrderedBytes.Stream.{
  payloads, carried, ready, stream, IsValid, take-append_more, drop-append_more, take-append_less,
  drop-append_less, progress, take_packet-whole, take_packet-part, consume_loop-full, Delivered,
}

Delivered-none :
    (ob : OrderedBytes) (done rest r : List ℕ) (num ix : ℕ)
    → length done ≡ num
    → stream ob ≡ r
    → IsValid ob
    → Delivered 0 done rest r (progress ob (done ++ rest) num ix)
Delivered-none ob done rest r num ix e sr v = (refl, omega (arith, e), sr, v)

-- A packet that was taken whole, and then `m` bytes more.
Delivered-whole :
    (m : ℕ) (done rest bytes r : List ℕ) (s : Progress)
    → Delivered m (done ++ bytes) (drop (length bytes) rest) r s
    → Delivered (length bytes + m) done rest (bytes ++ r) s
Delivered-whole m done rest bytes r s (b, n, sr, v) = (
  b
      ∙ rw (
        take-append_more bytes r m,
        drop-drop (length bytes) m rest,
        append_assoc done bytes (take m r ++ drop (length bytes + m) rest),
        append_assoc bytes (take m r) (drop (length bytes + m) rest),
      ),
  omega (arith, n, length-append done bytes),
  rw (drop-append_more bytes r m) sr,
  v,
)

module _ (ob : OrderedBytes) (p : Packet) (v : IsValid ob)
    (full : get_or ob.packets ob.smallest_packet_number_index none ≡ some p) where
  abbrev pub tail : List Packet
  tail = in_row 1999 ob.packets (wrap_index ob.smallest_packet_number_index 1)

  pub ready-some : ready ob ≡ p ∷ tail
  ready-some = in_row-some 1999 ob.packets ob.smallest_packet_number_index p full

  pub ready-clear_slot : (n : ℕ) → ready (clear_slot ob ob.smallest_packet_number_index n) ≡ tail
  unfolding clear_slot
  ready-clear_slot n = in_row-set-none ob.packets ob.smallest_packet_number_index v.1 v.0

  pub clear_slot-IsValid : (n : ℕ) → IsValid (clear_slot ob ob.smallest_packet_number_index n)
  unfolding clear_slot
  clear_slot-IsValid n = (
    wrap_index-lt ob.smallest_packet_number_index 1 v.0 (omega arith),
    length-set ob.packets ob.smallest_packet_number_index none ∙ v.1,
  )

module _ (left base len : ℕ) (s : Progress) where
  consume_loop-none :
      slot s.ordered (wrap_index base s.ix) ≡ none → consume_loop (suc left) base len s ≡ ok s
  unfolding consume_loop
  consume_loop-none e = rw (e, consume_loop)

  consume_loop-some :
      (p : Packet) (s' : Progress)
      → slot s.ordered (wrap_index base s.ix) ≡ some p
      → s.num_bytes < len
      → take_packet len (wrap_index base s.ix) p s ≡ ok s'
      → consume_loop (suc left) base len s ≡ consume_loop left base len s'
  unfolding consume_loop
  consume_loop-some p s' e h t = rw (e, lt→ltb s.num_bytes len h, t, consume_loop)

pub stream-carry_none :
    (ob : OrderedBytes) → ob.carry_over_bytes ≡ none → stream ob ≡ payloads (ready ob)
unfolding stream
stream-carry_none ob c = rw c (unfold carried in refl)

-- What the loop delivers, from `num` bytes on, with at most `left` packets ready.
abbrev LoopDelivers : ℕ → ℕ → ℕ → OrderedBytes → List ℕ → List ℕ → ℕ → ℕ → Type 0
LoopDelivers left base len ob done rest num ix =
    (s : Progress) × (consume_loop left base len (progress ob (done ++ rest) num ix) ≡ ok s)
    × Delivered (min (len - num) (length (payloads (ready ob)))) done rest (payloads (ready ob)) s

module _ (left base len : ℕ) (ob : OrderedBytes) (done rest : List ℕ) (num ix : ℕ) (v : IsValid ob)
    (c : ob.carry_over_bytes ≡ none) (e : length done ≡ num) where
  loop-stops :
      min (len - num) (length (payloads (ready ob))) ≡ 0
      → consume_loop left base len (progress ob (done ++ rest) num ix)
        ≡ ok (progress ob (done ++ rest) num ix)
      → LoopDelivers left base len ob done rest num ix
  loop-stops z stop = (
    progress ob (done ++ rest) num ix,
    stop,
    rw z (Delivered-none ob done rest (payloads (ready ob)) num ix e (stream-carry_none ob c) v),
  )

  loop-empty :
      ready ob ≡ []
      → consume_loop left base len (progress ob (done ++ rest) num ix)
        ≡ ok (progress ob (done ++ rest) num ix)
      → LoopDelivers left base len ob done rest num ix
  loop-empty r stop =
      let z : length (payloads (ready ob)) ≡ 0 = rw r (unfold payloads in refl) in
      loop-stops (omega (arith, z)) stop

  abbrev part_state : Packet → Progress
  part_state p =
      progress
        (record (clear_slot ob ob.smallest_packet_number_index p.header.packet_number) {
          carry_over_bytes = some (drop (len - num) p.payload);
        })
        ((done ++ take (len - num) p.payload) ++ drop (len - num) rest) (num + (len - num)) (ix + 1)

  loop-part :
      (p : Packet)
      → get_or ob.packets ob.smallest_packet_number_index none ≡ some p
      → len - num < length p.payload
      → consume_loop left base len (progress ob (done ++ rest) num ix) ≡ ok (part_state p)
      → LoopDelivers left base len ob done rest num ix
  loop-part p full h run =
      let all : payloads (ready ob) ≡ p.payload ++ payloads (tail ob p v full) =
        rw (ready-some ob p v full) (unfold payloads in refl) in
      let m : min (len - num) (length (payloads (ready ob))) ≡ len - num =
        rw all (omega (arith, length-append p.payload (payloads (tail ob p v full)))) in
      let left_over : stream (part_state p).ordered
          ≡ drop (len - num) p.payload ++ payloads (tail ob p v full) =
        unfold stream carried in
        ap (λ ps. drop (len - num) p.payload ++ payloads ps)
          (ready-clear_slot ob p v full p.header.packet_number) in
      (
        part_state p,
        run,
        rw (m, all)
            (
              rw
                  (take-append_less (len - num) p.payload (payloads (tail ob p v full))
                    (omega arith))
                  (append_assoc done (take (len - num) p.payload) (drop (len - num) rest)),
              omega (arith, e),
              rw
                  (drop-append_less (len - num) p.payload (payloads (tail ob p v full))
                    (omega arith))
                  left_over,
              clear_slot-IsValid ob p v full p.header.packet_number,
            ),
      )

  loop-whole :
      (p : Packet)
      → (full : get_or ob.packets ob.smallest_packet_number_index none ≡ some p)
      → length p.payload ≤ len - num
      → (s : Progress) → consume_loop left base len (progress ob (done ++ rest) num ix) ≡ ok s
      → Delivered
          (min (len - (num + length p.payload)) (length (payloads (tail ob p v full))))
          (done ++ p.payload)
          (drop (length p.payload) rest)
          (payloads (tail ob p v full))
          s
      → LoopDelivers left base len ob done rest num ix
  loop-whole p full h s run d =
      let all : payloads (ready ob) ≡ p.payload ++ payloads (tail ob p v full) =
        rw (ready-some ob p v full) (unfold payloads in refl) in
      let m : min (len - num) (length (payloads (ready ob)))
          ≡ length p.payload
            + min (len - (num + length p.payload)) (length (payloads (tail ob p v full))) =
        rw all (omega (arith, length-append p.payload (payloads (tail ob p v full)))) in
      (s, run, rw (m, all) (Delivered-whole _ done rest p.payload _ s d))

pub consume_loop-lem :
    (left base len : ℕ) (ob : OrderedBytes) (done rest : List ℕ) (num ix : ℕ)
    → base < 2000
    → ix + left ≡ 2000
    → wrap_index base ix ≡ ob.smallest_packet_number_index
    → IsValid ob
    → ob.carry_over_bytes ≡ none
    → length done ≡ num
    → len - num ≤ length rest
    → length (ready ob) ≤ left
    → LoopDelivers left base len ob done rest num ix
consume_loop-lem zero base len ob done rest num ix hb hi w v c e room fit =
    loop-empty 0 base len ob done rest num ix v c e (length_zero (ready ob) (omega (arith, fit)))
      (unfold consume_loop in refl)
consume_loop-lem (suc left) base len ob done rest num ix hb hi w v c e room fit =
    elim (Option-cases (slot ob ob.smallest_packet_number_index)) [
      | inl empty ↦
          loop-empty (suc left) base len ob done rest num ix v c e
            (in_row-none 2000 ob.packets ob.smallest_packet_number_index empty)
            (consume_loop-none left base len (progress ob (done ++ rest) num ix) (rw w empty))
      | inr (p, full) ↦ elim (lt_or_ge num len) [
        | inr h ↦
            loop-stops (suc left) base len ob done rest num ix v c e (omega arith)
              (consume_loop-full (suc left) base len (progress ob (done ++ rest) num ix) h)
        | inl h ↦
            let step : (s : Progress)
                → take_packet len ob.smallest_packet_number_index p
                    (progress ob (done ++ rest) num ix)
                  ≡ ok s
                → consume_loop (suc left) base len (progress ob (done ++ rest) num ix)
                  ≡ consume_loop left base len s =
              λ s t.
                consume_loop-some left base len (progress ob (done ++ rest) num ix) p s (rw w full)
                  h (rw w t) in
            elim (lt_or_ge (len - num) (length p.payload)) [
              | inl part ↦ loop-part (suc left) base len ob done rest num ix v c e p full part (
                  step _ (
                    take_packet-part ob done rest num len ob.smallest_packet_number_index ix p e
                      room part)
                  ∙ consume_loop-full left base len _ (omega arith))
              | inr whole ↦
                  let (s, run, d) =
                    consume_loop-lem left base len
                      (clear_slot ob ob.smallest_packet_number_index p.header.packet_number)
                      (done ++ p.payload) (drop (length p.payload) rest) (num + length p.payload)
                      (ix + 1) hb (omega arith)
                      (unfold clear_slot in
                        sym (wrap_index-suc base ix hb (omega arith)) ∙ ap (λ i. wrap_index i 1) w)
                      (clear_slot-IsValid ob p v full p.header.packet_number)
                      (unfold clear_slot in c) (omega (arith, length-append done p.payload))
                      (omega (arith, length-drop (length p.payload) rest))
                      (let one : length (ready ob) ≡ suc (length (tail ob p v full)) =
                          rw (ready-some ob p v full) in
                        rw (ready-clear_slot ob p v full p.header.packet_number) (omega arith)) in
                  loop-whole (suc left) base len ob done rest num ix v c e p full whole s
                    (step _ (
                        take_packet-whole ob done rest num len ob.smallest_packet_number_index ix p
                          e room whole)
                      ∙ run)
                    (subst
                      (λ ps.
                        Delivered (min (len - (num + length p.payload)) (length (payloads ps)))
                          (done ++ p.payload) (drop (length p.payload) rest) (payloads ps) s)
                      (ready-clear_slot ob p v full p.header.packet_number) d)
            ]
      ]
    ]
