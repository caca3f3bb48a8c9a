-- ===== src/OrderedBytes/Insert.antt =====
-- `buffer_in_packet` as an insertion into a finite map from packet numbers.
use bluefin.Prelude.{ℕ, ◌+◌, ◌-◌, ◌^◌, ◌<◌, ◌≤◌, ◌≡◌, ◌≢◌, refl, sym, ◌∙◌, arith}
use bluefin.Prelude.{ltb, leb, ◌==◌, lt→ltb, le→not-ltb, le→leb, lt→not-leb, ==_iff, Bool-cases}
use bluefin.Prelude.{if◌then◌else◌, lt_or_ge, is_some, sub_u64, set, length-set}
use bluefin.Prelude.{Option, none, some, true, false, Option-cases, inl, inr, Result, ok, err}
use bluefin.Prelude.{BluefinError, unexpected_packet_number_error, buffer_full_error, unexpected}
use bluefin.Packet.{Packet}
use bluefin.OrderedBytes.Defs.{OrderedBytes, wrap_index, slot, buffer_in_packet}
use bluefin.OrderedBytes.Slots.{wrap_index-lt, get_or-set_self, get_or-set_ne}
use bluefin.OrderedBytes.Stream.{IsValid}

-- The packet that is buffered under the number `n`.
unfoldable pub packet_at : OrderedBytes → ℕ → Option Packet
packet_at ob n =
    if ltb n ob.smallest_packet_number
    then none
    else if leb 2000 (n - ob.smallest_packet_number)
    then none
    else slot ob (wrap_index ob.smallest_packet_number_index (n - ob.smallest_packet_number))

-- The numbers that the buffer has slots for.
abbrev pub InReach : OrderedBytes → ℕ → Type 0
InReach ob n = (ob.smallest_packet_number ≤ n) × (n < ob.smallest_packet_number + 2000)

-- Why a packet with the number `n` is refused with the error.
unfoldable pub Refused : OrderedBytes → ℕ → BluefinError → Type 0
Refused ob n unexpected_packet_number_error = n < ob.smallest_packet_number
Refused ob n (buffer_full_error _) = ob.smallest_packet_number + 2000 ≤ n
Refused ob n (unexpected _) = InReach ob n × (is_some (packet_at ob n) ≡ true)
Refused ob n _ = ⊥

-- An insertion: the map grows by the one packet, whose number was free, or nothing changes.
unfoldable pub Buffers : OrderedBytes → Packet → OrderedBytes × Result (Unit {0}) → Type 0
Buffers ob p (ob', ok _) =
    InReach ob p.header.packet_number
    × (packet_at ob p.header.packet_number ≡ none)
    × ((m : ℕ) → packet_at ob' m ≡ (if m == p.header.packet_number then some p else packet_at ob m))
    × (ob'.smallest_packet_number ≡ ob.smallest_packet_number)
    × IsValid ob'
Buffers ob p (ob', err e) = (ob' ≡ ob) × Refused ob p.header.packet_number e
Buffers ob p _ = ⊥

pub packet_at_reach :
    (ob : OrderedBytes) (n : ℕ)
    → InReach ob n
    → packet_at ob n
      ≡ slot ob (wrap_index ob.smallest_packet_number_index (n - ob.smallest_packet_number))
unfolding packet_at
packet_at_reach ob n (h, k) = rw (
  le→not-ltb n ob.smallest_packet_number h,
  lt→not-leb 2000 (n - ob.smallest_packet_number) (omega arith),
)

ne→not-== : (a b : ℕ) → a ≢ b → (a == b) ≡ false
ne→not-== a b h = ground (arith, h)

wrap_index-inj :
    (base a b : ℕ)
    → base < 2000
    → a < 2000
    → b < 2000
    → a ≢ b
    → wrap_index base a ≢ wrap_index base b
unfolding wrap_index
wrap_index-inj base a b h k l ne = ground (arith, ne)

module _ (ob : OrderedBytes) (p : Packet) (v : IsValid ob)
    (r : InReach ob p.header.packet_number) where
  abbrev index : ℕ
  index =
      wrap_index ob.smallest_packet_number_index
        (p.header.packet_number - ob.smallest_packet_number)

  abbrev filled : OrderedBytes
  filled = record ob { packets = set ob.packets index (some p) }

  packet_at-filled :
      (m : ℕ)
      → packet_at filled m ≡ (if m == p.header.packet_number then some p else packet_at ob m)
  unfolding packet_at
  packet_at-filled m = elim (lt_or_ge m ob.smallest_packet_number) [
    | inl h ↦ rw (
      lt→ltb m ob.smallest_packet_number h,
      ne→not-== m p.header.packet_number (omega (arith, r.0, h)),
    )
    | inr h ↦ elim (lt_or_ge m (ob.smallest_packet_number + 2000)) [
      | inr k ↦ rw (
        le→not-ltb m ob.smallest_packet_number h,
        le→leb 2000 (m - ob.smallest_packet_number) (omega arith),
        ne→not-== m p.header.packet_number (omega (arith, r.1, k)),
      )
      | inl k ↦ elim (Bool-cases (m == p.header.packet_number)) [
        | inl e ↦
            let same : m ≡ p.header.packet_number = (==_iff m p.header.packet_number).0 e in
            rw (e, packet_at_reach filled m (h, k), same)
              (get_or-set_self ob.packets index (some p) none (
                omega (
                  arith,
                  v.1,
                  wrap_index-lt ob.smallest_packet_number_index
                      (p.header.packet_number - ob.smallest_packet_number) v.0
                      (omega (arith, r.0, r.1)),
                )))
        | inr e ↦
            let other : m ≢ p.header.packet_number = ground (arith, e) in
            rw (e, packet_at_reach filled m (h, k), packet_at_reach ob m (h, k))
              (get_or-set_ne ob.packets index _ (some p) none (
                wrap_index-inj ob.smallest_packet_number_index
                  (p.header.packet_number - ob.smallest_packet_number)
                  (m - ob.smallest_packet_number) v.0 (omega (arith, r.0, r.1)) (omega arith)
                  (omega (arith, other, r.0, r.1))))
      ]
    ]
  ]

-- `buffer_in_packet` inserts the packet under its number, if the number is one of the 2000 that the
-- buffer has slots for and is free, and otherwise refuses it, with the error that says why, and
-- changes nothing. The numbers are words of 64 bits.
pub buffer_in_packet-Buffers :
    (ob : OrderedBytes) (p : Packet)
    → IsValid ob
    → ob.smallest_packet_number < 2 ^ 64
    → p.header.packet_number < 2 ^ 64
    → Buffers ob p (buffer_in_packet ob p)
unfolding buffer_in_packet Buffers Refused
buffer_in_packet-Buffers ob p v hs hp =
    elim (lt_or_ge p.header.packet_number ob.smallest_packet_number) [
      | inl h ↦ rw (lt→ltb _ _ h, buffer_in_packet) (refl, h)
      | inr h ↦
          let offset : sub_u64 p.header.packet_number ob.smallest_packet_number
              ≡ p.header.packet_number - ob.smallest_packet_number =
            omega arith in
          elim (lt_or_ge p.header.packet_number (ob.smallest_packet_number + 2000)) [
            | inr k ↦
                rw
                  (
                    le→not-ltb _ _ h,
                    offset,
                    le→leb 2000 (p.header.packet_number - ob.smallest_packet_number) (omega arith),
                  )
                  (refl, k)
            | inl k ↦
                let here = packet_at_reach ob p.header.packet_number (h, k) in
                elim (Option-cases (packet_at ob p.header.packet_number)) [
                  | inl free ↦
                      rw
                        (
                          le→not-ltb _ _ h,
                          offset,
                          lt→not-leb 2000 (p.header.packet_number - ob.smallest_packet_number)
                              (omega arith),
                          sym here ∙ free,
                        )
                        (
                          (h, k),
                          free,
                          packet_at-filled ob p v (h, k),
                          refl,
                          (v.0, length-set ob.packets _ (some p) ∙ v.1),
                        )
                  | inr (q, e) ↦
                      rw
                        (
                          le→not-ltb _ _ h,
                          offset,
                          lt→not-leb 2000 (p.header.packet_number - ob.smallest_packet_number)
                              (omega arith),
                          sym here ∙ e,
                        )
                        (refl, ((h, k), rw e))
                ]
          ]
    ]
