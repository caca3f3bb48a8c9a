-- ===== src/Writer/Fill.antt =====
-- The main loop of `consume_data_into`.
use bluefin.Prelude.{ℕ, zero, suc, ◌+◌, ◌-◌, ◌%◌, ◌<◌, ◌≤◌, ◌≡◌, refl, sym, ◌∙◌, ap, arith}
use bluefin.Prelude.{lt→ltb, le→not-ltb, le→leb, lt→not-leb}
use bluefin.Prelude.{lt_or_ge, ◌⊎◌, inl, inr, List, [], ◌∷◌, ◌++◌, length, take}
use bluefin.Prelude.{joined, append_assoc, length-append}
use bluefin.Prelude.{Result}
use bluefin.Writer.Defs.{Packing, finish, fill}
use bluefin.Writer.Chunk.{Packs, Packs-cons, taken, chunked, take_chunk-ok}
use bluefin.Writer.Pack.{Done, finish-lem}

-- One more payload, merged onto the running one.
abbrev merged : Packing → List ℕ → List (List ℕ) → Packing
merged s item queue = record s { queue = queue; running_payload = s.running_payload ++ item }

Packs-merged :
    (src dst : ℕ) (s : Packing) (item : List ℕ) (queue : List (List ℕ)) (cs : List (List ℕ))
    (s' : Packing)
    → s.queue ≡ item ∷ queue
    → Packs src dst (merged s item queue) cs s'
    → Packs src dst s cs s'
unfolding joined
Packs-merged src dst s item queue cs s' e (a, j, p, c, r, n) = (
  a,
  j
      ∙ append_assoc s.running_payload item (joined queue)
      ∙ ap (λ q. s.running_payload ++ joined q) (sym e),
  p,
  c,
  r,
  n,
)

module _ (src dst fuel : ℕ) (s : Packing) where
  fill-last : s.queue ≡ [] → fill src dst (suc fuel) s ≡ finish src dst s
  unfolding fill
  fill-last e = simp (e, fill)

  module _ (item : List ℕ) (queue : List (List ℕ)) (e : s.queue ≡ item ∷ queue) where
    fill-full : s.bytes_remaining ≤ 20 → fill src dst (suc fuel) s ≡ finish src dst s
    unfolding fill
    fill-full h = simp (e, le→not-ltb 20 s.bytes_remaining h, fill)

    module _ (room : 20 < s.bytes_remaining) where
      fill-enough :
          s.bytes_remaining - 20 ≤ length s.running_payload
          → fill src dst (suc fuel) s ≡ finish src dst s
      unfolding fill
      fill-enough h = simp (
        e,
        lt→ltb 20 s.bytes_remaining room,
        le→leb (s.bytes_remaining - 20) (length s.running_payload) h,
        fill,
      )

      fill-packet :
          length s.running_payload < s.bytes_remaining - 20
          → 1500 ≤ length s.running_payload
          → fill src dst (suc fuel) s ≡ fill src dst fuel (chunked src dst s)
      unfolding fill
      fill-packet h k = simp (
        e,
        lt→ltb 20 s.bytes_remaining room,
        lt→not-leb (s.bytes_remaining - 20) (length s.running_payload) h,
        le→leb 1500 (length s.running_payload) k,
        take_chunk-ok src dst s,
        fill,
      )

      fill-merge_packet :
          length s.running_payload < s.bytes_remaining - 20
          → length s.running_payload < 1500
          → 1500 < length item + length s.running_payload
          → fill src dst (suc fuel) s ≡ fill src dst fuel (chunked src dst (merged s item queue))
      unfolding fill
      fill-merge_packet h k l = simp (
        e,
        lt→ltb 20 s.bytes_remaining room,
        lt→not-leb (s.bytes_remaining - 20) (length s.running_payload) h,
        lt→not-leb 1500 (length s.running_payload) k,
        lt→ltb 1500 (length item + length s.running_payload) l,
        take_chunk-ok src dst (merged s item queue),
        fill,
      )

      fill-merge :
          length s.running_payload < s.bytes_remaining - 20
          → length s.running_payload < 1500
          → length item + length s.running_payload ≤ 1500
          → fill src dst (suc fuel) s ≡ fill src dst fuel (merged s item queue)
      unfolding fill
      fill-merge h k l = simp (
        e,
        lt→ltb 20 s.bytes_remaining room,
        lt→not-leb (s.bytes_remaining - 20) (length s.running_payload) h,
        lt→not-leb 1500 (length s.running_payload) k,
        le→not-ltb 1500 (length item + length s.running_payload) l,
        fill,
      )

Done-cons :
    (src dst : ℕ) (s : Packing) (res : Result Packing)
    → 1500 ≤ length s.running_payload
    → 1520 ≤ s.bytes_remaining
    → Done src dst (chunked src dst s) res
    → Done src dst s res
Done-cons src dst s res h k (cs, s', run, p, e, d) = (
  take (taken s) s.running_payload ∷ cs,
  s',
  run,
  Packs-cons src dst s cs s' (omega (arith, h, k)) (omega (arith, h, k)) p,
  e,
  d,
)

Done-merged :
    (src dst : ℕ) (s : Packing) (item : List ℕ) (queue : List (List ℕ)) (res : Result Packing)
    → s.queue ≡ item ∷ queue
    → Done src dst (merged s item queue) res
    → Done src dst s res
Done-merged src dst s item queue res e (cs, s', run, p, r, d) =
    (cs, s', run, Packs-merged src dst s item queue cs s' e p, r, d)

-- The main loop ends with fuel for every byte that remains and every payload that is queued.
pub fill-lem :
    (src dst fuel : ℕ) (s : Packing)
    → s.bytes_remaining % 1520 ≡ 0
    → s.bytes_remaining + length s.queue < fuel
    → Done src dst s (fill src dst fuel s)
fill-lem src dst zero s m h = absurd (omega arith)
fill-lem src dst (suc fuel) s m h = elim (list-cases s.queue) [
  | inl e ↦ rw (fill-last src dst fuel s e) (finish-lem src dst s (inr (e, inl m)))
  | inr (item, queue, e) ↦
      let q : length s.queue ≡ suc (length queue) = rw e in
      elim (lt_or_ge 20 s.bytes_remaining) [
        | inr full ↦
            rw (fill-full src dst fuel s item queue e full)
              (finish-lem src dst s (inl (m, omega (arith, m, full))))
        | inl room ↦ elim (lt_or_ge (length s.running_payload) (s.bytes_remaining - 20)) [
          | inr enough ↦
              rw (fill-enough src dst fuel s item queue e room enough)
                (finish-lem src dst s (inl (m, enough)))
          | inl fits ↦ elim (lt_or_ge (length s.running_payload) 1500) [
            | inr k ↦ rw (fill-packet src dst fuel s item queue e room fits k) (
                Done-cons src dst s _ k (omega (arith, m, room)) (
                  fill-lem src dst fuel (chunked src dst s) (omega (arith, m, room, k))
                    (omega (arith, h, room))))
            | inl k ↦ elim (lt_or_ge 1500 (length item + length s.running_payload)) [
              | inl l ↦ rw (fill-merge_packet src dst fuel s item queue e room fits k l) (
                  Done-merged src dst s item queue _ e (
                    let len = length-append s.running_payload item in
                    Done-cons src dst (merged s item queue) _ (omega (arith, len, l))
                      (omega (arith, m, room))
                      (fill-lem src dst fuel (chunked src dst (merged s item queue))
                        (omega (arith, m, room, len, l)) (omega (arith, h, room, q)))))
              | inr l ↦ rw (fill-merge src dst fuel s item queue e room fits k l) (
                  Done-merged src dst s item queue _ e
                    (fill-lem src dst fuel (merged s item queue) m (omega (arith, h, q))))
            ]
          ]
        ]
      ]
]
  where
    list-cases :
        (q : List (List ℕ))
        → (q ≡ []) ⊎ ((item : List ℕ) × (queue : List (List ℕ)) × (q ≡ item ∷ queue))
    list-cases [] = inl refl
    list-cases (item ∷ queue) = inr (item, queue, refl)
