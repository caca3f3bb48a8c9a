-- ===== src/Writer/AckRow.antt =====
-- `consume_acks_into` and `consume_acks`: the acks that one call packs.
use bluefin.Prelude.{ℕ, zero, suc, ◌+◌, ◌-◌, ◌/◌, ◌<◌, ◌≤◌, ◌≡◌, refl, ap, arith}
use bluefin.Prelude.{lt→ltb, le→not-ltb, lt_or_ge, inl, inr, not, is_empty}
use bluefin.Prelude.{
  List, [], ◌∷◌, ◌++◌, map, length, take, drop, replicate, append_assoc, append-nil,
}
use bluefin.Prelude.{length-append, drop-nil, to_be_bytes, ok}
use bluefin.Prelude.{sym, ◌∙◌, ◌>>=◌, le→leb, lt→not-leb, none, some, if◌then◌else◌}
use bluefin.Writer.Acks.{pack_acks_bounded, consume_acks}
use bluefin.Header
use bluefin.Header.Wire.{length-serialise}
use bluefin.Header.Write.{serialise_into-ok}
use bluefin.Packet.{Packet, serialise}
use bluefin.Packet.Wire.{serialise_all}
use bluefin.Writer.Acks.{AckData, ack_header, pack_acks, consume_acks_into}

abbrev pub ack_packet : ℕ → ℕ → AckData → Packet
ack_packet src dst a = record { header = ack_header src dst a; payload = [] }

-- The acks for which there is room behind `used` bytes.
abbrev room : ℕ → ℕ
room used = (15200 - used) / 20

module _ (src dst : ℕ) (a : AckData) (queue : List AckData) (bytes : List ℕ) where
  pack_acks-full :
      15200 < length bytes + 20 → pack_acks src dst (a ∷ queue) bytes ≡ ok (a ∷ queue, bytes)
  unfolding pack_acks
  pack_acks-full h = rw (lt→ltb 15200 (length bytes + 20) h, pack_acks)

  pack_acks-step :
      length bytes + 20 ≤ 15200
      → pack_acks src dst (a ∷ queue) bytes
        ≡ pack_acks src dst queue (bytes ++ Header.serialise (ack_header src dst a))
  unfolding pack_acks
  pack_acks-step h = rw (
    le→not-ltb 15200 (length bytes + 20) h,
    serialise_into-ok (ack_header src dst a) (replicate 20 0) (omega arith),
    append-nil (Header.serialise (ack_header src dst a)),
    pack_acks,
  )

pack_acks-lem :
    (src dst : ℕ) (queue : List AckData) (bytes : List ℕ)
    → pack_acks src dst queue bytes
      ≡ ok (
        drop (room (length bytes)) queue,
        bytes ++ serialise_all (map (ack_packet src dst) (take (room (length bytes)) queue)),
      )
unfolding pack_acks
pack_acks-lem src dst [] bytes =
    rw (
      drop-nil {A = AckData} (room (length bytes)),
      take_nil (room (length bytes)),
      append-nil bytes,
    )
  where
    take_nil : (n : ℕ) → take {A = AckData} n [] ≡ []
    take_nil zero = refl
    take_nil (suc n) = refl
pack_acks-lem src dst (a ∷ queue) bytes = elim (lt_or_ge 15200 (length bytes + 20)) [
  | inl full ↦
      let none_fits : room (length bytes) ≡ 0 = omega (arith, full) in
      rw (pack_acks-full src dst a queue bytes full, none_fits, append-nil bytes)
  | inr fits ↦
      let head : List ℕ = Header.serialise (ack_header src dst a) in
      let one_more : room (length bytes) ≡ suc (room (length (bytes ++ head))) =
        omega (arith, fits, length-append bytes head, length-serialise (ack_header src dst a)) in
      let packet : serialise (ack_packet src dst a) ≡ head = unfold serialise in append-nil head in
      rw
        (
          pack_acks-step src dst a queue bytes fits,
          one_more,
          packet,
          pack_acks-lem src dst queue (bytes ++ head),
        )
        (ap (λ xs. ok (drop (room (length (bytes ++ head))) queue, xs)) (append_assoc bytes head _))
]

-- `consume_acks_into`, on an empty datagram, writes the first 760 acks of the queue, in order, each
-- as an ack packet of its own, and keeps the others; all of them if there are no more. It reports
-- that there is something to send if the queue was not empty.
pub consume_acks_into-lem :
    (queue : List AckData) (src dst : ℕ)
    → consume_acks_into queue src dst []
      ≡ ok (
        drop 760 queue,
        serialise_all (map (ack_packet src dst) (take 760 queue)),
        not (is_empty queue),
      )
unfolding consume_acks_into
consume_acks_into-lem [] src dst = refl
consume_acks_into-lem (a ∷ queue) src dst =
    rw (pack_acks-lem src dst (a ∷ queue) [])
      (unfold serialise Header.serialise to_be_bytes in refl)

module _ (src dst : ℕ) (a : AckData) (queue : List AckData) (bytes : List ℕ) where
  pack_acks_bounded-full :
      15200 < length bytes + 20
      → pack_acks_bounded src dst (a ∷ queue) bytes ≡ ok (a ∷ queue, bytes)
  unfolding pack_acks_bounded
  pack_acks_bounded-full h = elim (lt_or_ge 15200 (length bytes)) [
    | inl k ↦ rw (lt→not-leb (length bytes) 15200 k, pack_acks_bounded)
    | inr k ↦
        rw
          (le→leb (length bytes) 15200 k, lt→not-leb (length bytes + 20) 15200 h, pack_acks_bounded)
  ]

  pack_acks_bounded-step :
      length bytes + 20 ≤ 15200
      → pack_acks_bounded src dst (a ∷ queue) bytes
        ≡ pack_acks_bounded src dst queue (bytes ++ Header.serialise (ack_header src dst a))
  unfolding pack_acks_bounded
  pack_acks_bounded-step h = rw (
    le→leb (length bytes) 15200 (omega (arith, h)),
    le→leb (length bytes + 20) 15200 h,
    serialise_into-ok (ack_header src dst a) (replicate 20 0) (omega arith),
    append-nil (Header.serialise (ack_header src dst a)),
    pack_acks_bounded,
  )

pack_acks_bounded-pack_acks :
    (src dst : ℕ) (queue : List AckData) (bytes : List ℕ)
    → pack_acks_bounded src dst queue bytes ≡ pack_acks src dst queue bytes
pack_acks_bounded-pack_acks src dst [] bytes = unfold pack_acks_bounded pack_acks in refl
pack_acks_bounded-pack_acks src dst (a ∷ queue) bytes = elim (lt_or_ge 15200 (length bytes + 20)) [
  | inl full ↦
      pack_acks_bounded-full src dst a queue bytes full
      ∙ sym (pack_acks-full src dst a queue bytes full)
  | inr fits ↦
      pack_acks_bounded-step src dst a queue bytes fits
      ∙ pack_acks_bounded-pack_acks src dst queue (bytes ++ Header.serialise (ack_header src dst a))
      ∙ sym (pack_acks-step src dst a queue bytes fits)
]

-- The older `consume_acks` packs the same acks into the same datagram as `consume_acks_into`, and
-- returns `None` where that one has nothing to send.
pub consume_acks-consume_acks_into :
    (queue : List AckData) (src dst : ℕ)
    → consume_acks queue src dst ≡ (
        consume_acks_into queue src dst [] >>= λ out.
        ok (out.0, (if out.2 then some out.1 else none)))
unfolding consume_acks consume_acks_into
consume_acks-consume_acks_into [] src dst = unfold pack_acks_bounded in refl
consume_acks-consume_acks_into (a ∷ queue) src dst =
    rw (pack_acks_bounded-pack_acks src dst (a ∷ queue) [], pack_acks-lem src dst (a ∷ queue) [])
      (unfold serialise Header.serialise to_be_bytes in refl)
