-- ===== src/OrderedBytes/Rows.antt =====
-- A buffer in which all packets of a row have arrived.
use mathlib.Core.Path.{subst}
use bluefin.Prelude.{ℕ, zero, suc, ◌+◌, ◌-◌, ◌^◌, ◌<◌, ◌≤◌, ◌≡◌, refl, sym, ◌∙◌, ap, arith}
use bluefin.Prelude.{inl, inr, List, [], ◌∷◌, length}
use bluefin.Prelude.{drop, drop_all, get_or, get_elem?, All, Option, none, some, Option-cases}
use bluefin.Prelude.{Bool-cases}
use bluefin.Packet.{Packet}
use bluefin.OrderedBytes.Defs.{OrderedBytes, wrap_index, buffer_in_packet, new}
use bluefin.Prelude.{replicate, length-replicate, ltb, leb}
use bluefin.OrderedBytes.Slots.{in_row, in_row-none, in_row-some, wrap_index-suc, wrap_index-zero}
use bluefin.OrderedBytes.Stream.{IsValid, ready, stream, payloads}
use bluefin.OrderedBytes.Insert.{packet_at, packet_at_reach}
use bluefin.OrderedBytes.Loop.{stream-carry_none}
use bluefin.OrderedBytes.Reassemble.{
  Has, Numbered, buffer_all, Sent, Has-Sent, some-inj, every_arrival,
}

-- The row of packets that a buffer holds in full is read from it in order.
module _ (n : ℕ) (ps : List Packet) (ob : OrderedBytes) (v : IsValid ob)
    (least : ob.smallest_packet_number ≡ n)
    (full : (i : ℕ) → i < 2000 → packet_at ob (n + i) ≡ get_elem? ps i) where
  slot_at :
      (i : ℕ)
      → i < 2000
      → get_or ob.packets (wrap_index ob.smallest_packet_number_index i) none ≡ get_elem? ps i
  slot_at i h =
      let back : n + i - ob.smallest_packet_number ≡ i = omega (arith, least) in
      ap (λ j. get_or ob.packets (wrap_index ob.smallest_packet_number_index j) none) (sym back)
      ∙ sym (packet_at_reach ob (n + i) (omega (arith, least), omega (arith, least, h)))
      ∙ full i h

  in_row-drop :
      (k d : ℕ)
      → d + k ≡ 2000
      → length ps ≤ 2000
      → in_row k ob.packets (wrap_index ob.smallest_packet_number_index d) ≡ drop d ps
  in_row-drop zero d e few = unfold in_row in sym (drop_all d ps (omega arith))
  in_row-drop (suc k) d e few = elim (Option-cases (get_elem? ps d)) [
    | inl none_left ↦
        in_row-none (suc k) ob.packets _ (slot_at d (omega arith) ∙ none_left)
        ∙ sym (drop_none d ps none_left)
    | inr (p, there) ↦
        in_row-some k ob.packets _ p (slot_at d (omega arith) ∙ there)
        ∙ ap (λ i. p ∷ in_row k ob.packets i)
            (wrap_index-suc ob.smallest_packet_number_index d v.0 (omega arith))
        ∙ ap (◌∷◌ p) (in_row-drop k (d + 1) (omega arith) few)
        ∙ sym (drop_some d ps p there)
  ]
    where
      drop_none : (d : ℕ) (ps : List Packet) → get_elem? ps d ≡ none → drop d ps ≡ []
      drop_none zero [] e = refl
      drop_none zero (x ∷ ps) e = absurd (subst (λ o. elim o [ none ↦ ⊥ | some _ ↦ Unit {0} ]) e tt)
      drop_none (suc d) [] e = refl
      drop_none (suc d) (x ∷ ps) e = drop_none d ps e

      drop_some :
          (d : ℕ) (ps : List Packet) (p : Packet)
          → get_elem? ps d ≡ some p
          → drop d ps ≡ p ∷ drop (d + 1) ps
      drop_some d [] p e = absurd (subst (λ o. elim o [ none ↦ Unit {0} | some _ ↦ ⊥ ]) e tt)
      drop_some zero (x ∷ ps) p e = ap (λ y. y ∷ ps) (some-inj x p e)
      drop_some (suc d) (x ∷ ps) p e =
          let s : suc d + 1 ≡ suc (d + 1) = omega arith in rw s (drop_some d ps p e)

  ready-row : length ps ≤ 2000 → ready ob ≡ ps
  ready-row few =
      ap (in_row 2000 ob.packets) (sym (wrap_index-zero ob.smallest_packet_number_index v.0))
      ∙ in_row-drop 2000 0 refl few

Has-get : (i : ℕ) (ps : List Packet) (p : Packet) → get_elem? ps i ≡ some p → Has p ps
unfolding Has
Has-get i [] p e = absurd (subst (λ o. elim o [ none ↦ Unit {0} | some _ ↦ ⊥ ]) e tt)
Has-get zero (x ∷ ps) p e = inl (sym (some-inj x p e))
Has-get (suc i) (x ∷ ps) p e = inr (Has-get i ps p e)

Numbered-get :
    (n i : ℕ) (ps : List Packet) (p : Packet)
    → Numbered n ps
    → get_elem? ps i ≡ some p
    → p.header.packet_number ≡ n + i
unfolding Numbered
Numbered-get n i [] p num e = absurd (subst (λ o. elim o [ none ↦ Unit {0} | some _ ↦ ⊥ ]) e tt)
Numbered-get n zero (x ∷ ps) p num e =
    ap (λ y. y.header.packet_number) (sym (some-inj x p e)) ∙ omega (arith, num.0)
Numbered-get n (suc i) (x ∷ ps) p num e = omega (arith, Numbered-get (n + 1) i ps p num.1 e)

-- A new buffer has no packet.
abbrev pub IsEmpty : OrderedBytes → Type 0
IsEmpty ob = ((m : ℕ) → packet_at ob m ≡ none) × (ob.carry_over_bytes ≡ none)

buffer_in_packet-carry :
    (ob : OrderedBytes) (q : Packet)
    → (buffer_in_packet ob q).0.carry_over_bytes ≡ ob.carry_over_bytes
unfolding buffer_in_packet
buffer_in_packet-carry ob q = ground arith

buffer_all-carry :
    (ob : OrderedBytes) (qs : List Packet)
    → (buffer_all ob qs).carry_over_bytes ≡ ob.carry_over_bytes
unfolding buffer_all
buffer_all-carry ob [] = refl
buffer_all-carry ob (q ∷ qs) =
    buffer_all-carry (buffer_in_packet ob q).0 qs ∙ buffer_in_packet-carry ob q

All-Has : (P : Packet → Type 0) (ps : List Packet) (p : Packet) → All P ps → Has p ps → P p
unfolding Has
All-Has P [] p a h = absurd h
All-Has P (x ∷ ps) p a (inl e) = subst P (sym e) a.0
All-Has P (x ∷ ps) p a (inr h) = All-Has P ps p a.1 h

All-map_Has :
    (n : ℕ) (ps qs : List Packet) → Numbered n ps → All (λ q. Has q ps) qs → All (Sent n ps) qs
All-map_Has n ps [] num a = tt
All-map_Has n ps (q ∷ qs) num a = (Has-Sent n ps q num a.0, All-map_Has n ps qs num a.1)

-- Packets with consecutive numbers from the first one that the buffer waits for on, at most 2000,
-- arrive at an empty buffer: each of them at least once, in any order, and nothing else. Then the
-- bytes that lie ready are their payloads, in the order of the numbers.
pub buffer_all-stream :
    (ps qs : List Packet) (ob : OrderedBytes)
    → IsValid ob
    → IsEmpty ob
    → Numbered ob.smallest_packet_number ps
    → 0 < length ps
    → length ps ≤ 2000
    → ob.smallest_packet_number + length ps ≤ 2 ^ 64
    → All (λ q. Has q ps) qs
    → All (λ p. Has p qs) ps
    → (ready (buffer_all ob qs) ≡ ps) × (stream (buffer_all ob qs) ≡ payloads ps)
buffer_all-stream ps qs ob v (none_held, no_carry) num some_sent few bound from all =
    let n : ℕ = ob.smallest_packet_number in
    let (holds, there, _) =
      every_arrival n ps ob qs few bound some_sent
        (
          v,
          refl,
          λ m p e.
              absurd
                (subst (λ o. elim o [ none ↦ Unit {0} | some _ ↦ ⊥ ]) (sym (none_held m) ∙ e) tt),
        )
        (All-map_Has n ps qs num from) in
    let row : ready (buffer_all ob qs) ≡ ps =
      ready-row n ps (buffer_all ob qs) holds.0 holds.1
        (λ i h. elim (Option-cases (get_elem? ps i)) [
          | inr (p, e) ↦
              ap (packet_at (buffer_all ob qs)) (sym (Numbered-get n i ps p num e))
              ∙ there p (All-Has (λ x. Has x qs) ps p all (Has-get i ps p e))
              ∙ sym e
          | inl e ↦ elim (Option-cases (packet_at (buffer_all ob qs) (n + i))) [
            | inl empty ↦ empty ∙ sym e
            | inr (x, held) ↦
                let (at, (_, _, g)) = holds.2 (n + i) x held in
                absurd (
                  subst (λ o. elim o [ none ↦ Unit {0} | some _ ↦ ⊥ ])
                    (sym e ∙ ap (get_elem? ps) (omega (arith, at)) ∙ g) tt)
          ]
        ])
        few in
    (
      row,
      stream-carry_none (buffer_all ob qs) (buffer_all-carry ob qs ∙ no_carry) ∙ ap payloads row,
    )

get_or-replicate : {A : Type 0} (k i : ℕ) (a : A) → get_or (replicate k a) i a ≡ a
get_or-replicate zero i a = refl
get_or-replicate (suc k) zero a = refl
get_or-replicate (suc k) (suc i) a = get_or-replicate k i a

pub new-IsValid : (id n : ℕ) → IsValid (new id n)
unfolding new
new-IsValid id n = (omega arith, length-replicate {A = Option Packet} 2000 none)

pub new-IsEmpty : (id n : ℕ) → IsEmpty (new id n)
unfolding new packet_at
new-IsEmpty id n = (
  λ m. (elim (Bool-cases (ltb m n)) [
    | inl e ↦ rw e refl
    | inr e ↦ elim (Bool-cases (leb 2000 (m - n))) [
      | inl f ↦ rw (e, f) refl
      | inr f ↦ rw (e, f) (get_or-replicate 2000 (wrap_index 0 (m - n)) none)
    ]
  ]),
  refl,
)
