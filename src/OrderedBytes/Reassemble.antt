-- ===== src/OrderedBytes/Reassemble.antt =====
-- Packets that arrive in any order, and more than once: the buffer puts them in order.
use mathlib.Core.Path.{subst}
use bluefin.Prelude.{ℕ, suc, ◌+◌, ◌-◌, ◌^◌, ◌<◌, ◌≤◌, ◌≡◌, refl, sym, ◌∙◌, ap, arith}
use bluefin.Prelude.{◌==◌, ==_iff, if◌then◌else◌, ◌⊎◌, inl, inr, List, [], ◌∷◌, length}
use bluefin.Prelude.{get_elem?, All, none, some, true, false, is_some, Option-cases}
use bluefin.Prelude.{
  Bool-cases, Result, ok, err, panic, stuck, BluefinError, unexpected_packet_number_error,
}
use bluefin.Prelude.{buffer_full_error, unexpected}
use bluefin.Packet.{Packet}
use bluefin.OrderedBytes.Defs.{OrderedBytes, buffer_in_packet}
use bluefin.OrderedBytes.Stream.{IsValid}
use bluefin.OrderedBytes.Insert.{packet_at, Buffers, Refused}
use bluefin.OrderedBytes.Insert.{buffer_in_packet-Buffers}

-- An element of a list.
unfoldable pub Has : Packet → List Packet → Type 0
Has p [] = ⊥
Has p (q ∷ qs) = (p ≡ q) ⊎ Has p qs

-- Packets with consecutive numbers from `n` on.
unfoldable pub Numbered : ℕ → List Packet → Type 0
Numbered n [] = Unit
Numbered n (p ∷ ps) = (p.header.packet_number ≡ n) × Numbered (n + 1) ps

-- All packets offered to the buffer, the errors ignored.
unfoldable pub buffer_all : OrderedBytes → List Packet → OrderedBytes
buffer_all ob [] = ob
buffer_all ob (q ∷ qs) = buffer_all (buffer_in_packet ob q).0 qs

-- The packet is the one of its number in the row `ps`, which begins at `n`.
abbrev pub Sent : ℕ → List Packet → Packet → Type 0
Sent n ps q =
    (n ≤ q.header.packet_number)
    × (q.header.packet_number < n + length ps)
    × (get_elem? ps (q.header.packet_number - n) ≡ some q)

Sent-cons :
    (n : ℕ) (p : Packet) (ps : List Packet) (q : Packet) → Sent (n + 1) ps q → Sent n (p ∷ ps) q
Sent-cons n p ps q (h, l, e) =
    let i : q.header.packet_number - n ≡ suc (q.header.packet_number - (n + 1)) =
      omega (arith, h) in
    (omega (arith, h), omega (arith, l), rw i e)

pub Has-Sent : (n : ℕ) (ps : List Packet) (q : Packet) → Numbered n ps → Has q ps → Sent n ps q
unfolding Numbered Has
Has-Sent n [] q num h = absurd h
Has-Sent n (p ∷ ps) q (e, num) (inl same) =
    let at : q.header.packet_number ≡ n = ap (λ x. x.header.packet_number) same ∙ e in
    let first : q.header.packet_number - n ≡ 0 = omega (arith, at) in
    (omega (arith, at), omega (arith, at), rw first (ap some (sym same)))
Has-Sent n (p ∷ ps) q (e, num) (inr h) = Sent-cons n p ps q (Has-Sent (n + 1) ps q num h)

-- What the buffer holds is part of the row.
abbrev pub Holds : ℕ → List Packet → OrderedBytes → Type 0
Holds n ps ob =
    IsValid ob
    × (ob.smallest_packet_number ≡ n)
    × ((m : ℕ) (p : Packet) → packet_at ob m ≡ some p → (p.header.packet_number ≡ m) × Sent n ps p)

pub some-inj : (p q : Packet) → some p ≡ some q → p ≡ q
some-inj p q e = ap (λ o. elim o [ none ↦ p | some x ↦ x ]) e

-- One arrival: the packet is there afterwards, and nothing is lost.
abbrev Arrived : ℕ → List Packet → OrderedBytes → Packet → OrderedBytes → Type 0
Arrived n ps ob q ob' =
    Holds n ps ob'
    × (packet_at ob' q.header.packet_number ≡ some q)
    × ((m : ℕ) (p : Packet) → packet_at ob m ≡ some p → packet_at ob' m ≡ some p)

module _ (n : ℕ) (ps : List Packet) (few : length ps ≤ 2000) (ob : OrderedBytes) (q : Packet)
    (holds : Holds n ps ob) (sent : Sent n ps q) where
  -- A slot that is taken holds this very packet.
  taken_by : (p : Packet) → packet_at ob q.header.packet_number ≡ some p → p ≡ q
  taken_by p e =
      let (m, (_, _, f)) = holds.2 q.header.packet_number p e in
      some-inj p q (sym f ∙ ap (λ i. get_elem? ps (i - n)) m ∙ sent.2)

  arrive-ok :
      (ob' : OrderedBytes)
      → ((m : ℕ)
          → packet_at ob' m ≡ (if m == q.header.packet_number then some q else packet_at ob m))
      → packet_at ob q.header.packet_number ≡ none
      → ob'.smallest_packet_number ≡ ob.smallest_packet_number
      → IsValid ob'
      → Arrived n ps ob q ob'
  arrive-ok ob' grows free least v = (
    (
      v,
      least ∙ holds.1,
      λ m p e. elim (Bool-cases (m == q.header.packet_number)) [
        | inl same ↦
            let at : m ≡ q.header.packet_number = (==_iff m q.header.packet_number).0 same in
            let it : q ≡ p =
              some-inj q p
                (sym (ap (λ b. if b then some q else packet_at ob m) same) ∙ sym (grows m) ∙ e) in
            subst (λ x. (x.header.packet_number ≡ m) × Sent n ps x) it (sym at, sent)
        | inr other ↦
            holds.2 m p
              (sym (ap (λ b. if b then some q else packet_at ob m) other) ∙ sym (grows m) ∙ e)
      ],
    ),
    (grows q.header.packet_number
        ∙ ap (λ b. if b then some q else packet_at ob q.header.packet_number)
            ((==_iff q.header.packet_number q.header.packet_number).1 refl)),
    λ m p e. elim (Bool-cases (m == q.header.packet_number)) [
      | inl same ↦
          let at : m ≡ q.header.packet_number = (==_iff m q.header.packet_number).0 same in
          absurd (none-ne (sym (sym (ap (packet_at ob) at) ∙ e) ∙ free))
      | inr other ↦ grows m ∙ ap (λ b. if b then some q else packet_at ob m) other ∙ e
    ],
  )
    where
      none-ne : {p : Packet} → some p ≡ none → ⊥
      none-ne e = subst (λ o. elim o [ none ↦ ⊥ | some _ ↦ Unit {0} ]) e tt

  arrive-taken : is_some (packet_at ob q.header.packet_number) ≡ true → Arrived n ps ob q ob
  arrive-taken e = elim (Option-cases (packet_at ob q.header.packet_number)) [
    | inl free ↦ absurd (true-ne (sym e ∙ ap is_some free))
    | inr (p, full) ↦ (holds, full ∙ ap some (taken_by p full), λ m x h. h)
  ]
    where
      true-ne : true ≡ false → ⊥
      true-ne e = subst (λ b. elim b [ true ↦ Unit {0} | false ↦ ⊥ ]) e tt

  arrive-Refused :
      (e : BluefinError)
      → Refused ob q.header.packet_number e
      → is_some (packet_at ob q.header.packet_number) ≡ true
  unfolding Refused
  arrive-Refused unexpected_packet_number_error h = absurd (omega (arith, h, holds.1, sent.0))
  arrive-Refused (buffer_full_error _) h = absurd (omega (arith, h, holds.1, sent.1, few))
  arrive-Refused (unexpected _) h = h.1
  arrive-Refused _ h = absurd h

  arrive-from :
      (ob' : OrderedBytes) (res : Result (Unit {0}))
      → Buffers ob q (ob', res)
      → Arrived n ps ob q ob'
  unfolding Buffers
  arrive-from ob' (ok _) (reach, free, grows, least, v) = arrive-ok ob' grows free least v
  arrive-from ob' (err e) (same, why) =
      subst (Arrived n ps ob q) (sym same) (arrive-taken (arrive-Refused e why))
  arrive-from ob' panic b = absurd b
  arrive-from ob' stuck b = absurd b

  arrive :
      n < 2 ^ 64 → q.header.packet_number < 2 ^ 64 → Arrived n ps ob q (buffer_in_packet ob q).0
  arrive hn hq =
      arrive-from (buffer_in_packet ob q).0 (buffer_in_packet ob q).1
        (buffer_in_packet-Buffers ob q holds.0 (omega (arith, holds.1, hn)) hq)

-- Every packet that arrives is there in the end.
pub every_arrival :
    (n : ℕ) (ps : List Packet) (ob : OrderedBytes) (qs : List Packet)
    → length ps ≤ 2000
    → n + length ps ≤ 2 ^ 64
    → 0 < length ps
    → Holds n ps ob
    → All (Sent n ps) qs
    → Holds n ps (buffer_all ob qs)
      × ((q : Packet) → Has q qs → packet_at (buffer_all ob qs) q.header.packet_number ≡ some q)
      × ((m : ℕ) (p : Packet) → packet_at ob m ≡ some p → packet_at (buffer_all ob qs) m ≡ some p)
unfolding buffer_all Has
every_arrival n ps ob [] few hn some_sent holds sent = (holds, (λ q h. absurd h), λ m p e. e)
every_arrival n ps ob (q ∷ qs) few hn some_sent holds sent =
    let (holds', there, kept) =
      arrive n ps few ob q holds sent.0 (omega (arith, hn, some_sent))
        (omega (arith, hn, sent.0.1)) in
    let (holds'', all_there, all_kept) =
      every_arrival n ps (buffer_in_packet ob q).0 qs few hn some_sent holds' sent.1 in
    (
      holds'',
      (λ x h. elim h [
        | inl e ↦
            subst
              (λ y.
                packet_at (buffer_all (buffer_in_packet ob q).0 qs) y.header.packet_number ≡ some y)
              (sym e) (all_kept q.header.packet_number q there)
        | inr later ↦ all_there x later
      ]),
      λ m p e. all_kept m p (kept m p e),
    )
