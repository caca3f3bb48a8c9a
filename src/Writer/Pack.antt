-- ===== src/Writer/Pack.antt =====
-- `consume_data_into`: the inner loop, and the end of the call.
use bluefin.Prelude.{ℕ, zero, suc, ◌+◌, ◌-◌, ◌%◌, ◌<◌, ◌≤◌, ◌≡◌, refl, ◌∙◌, arith}
use bluefin.Prelude.{true, false, not, ◌&&◌, leb, le→leb, lt→not-leb}
use bluefin.Prelude.{lt_or_ge, ◌⊎◌, inl, inr, List, [], ◌∷◌, length, take}
use bluefin.Prelude.{is_empty, joined, length-drop}
use bluefin.Prelude.{length_zero, Result, ok}
use bluefin.Writer.Defs.{Packing, take_chunks, push_back_rest, finish}
use bluefin.Writer.Chunk.{Packs, Packs-nil, Packs-cons, taken, chunked, take_chunk-ok}

is_empty-cases :
    (xs : List ℕ) → ((xs ≡ []) × (is_empty xs ≡ true)) ⊎ ((0 < length xs) × (is_empty xs ≡ false))
is_empty-cases [] = inl (refl, refl)
is_empty-cases (x ∷ xs) = inr (omega arith, refl)

-- The bytes that remain are room for full packets, until the last packet of all.
abbrev Filling : Packing → Type 0
Filling s =
    ((s.bytes_remaining % 1520 ≡ 0) × (s.bytes_remaining - 20 ≤ length s.running_payload))
    ⊎ ((s.queue ≡ []) × ((s.bytes_remaining % 1520 ≡ 0) ⊎ (s.running_payload ≡ [])))

-- The datagram is full, or everything is packed.
abbrev Filled : Packing → Type 0
Filled s = (s.bytes_remaining ≡ 0) ⊎ ((s.queue ≡ []) × (s.running_payload ≡ []))

module _ (src dst fuel : ℕ) (s : Packing) where
  take_chunks-stop :
      (not (is_empty s.running_payload) && leb 20 s.bytes_remaining) ≡ false
      → take_chunks src dst (suc fuel) s ≡ ok s
  unfolding take_chunks
  take_chunks-stop e = rw (e, take_chunks)

  take_chunks-step :
      (not (is_empty s.running_payload) && leb 20 s.bytes_remaining) ≡ true
      → take_chunks src dst (suc fuel) s ≡ take_chunks src dst fuel (chunked src dst s)
  unfolding take_chunks
  take_chunks-step e = rw (e, take_chunk-ok src dst s, take_chunks)

Filling-chunked :
    (src dst : ℕ) (s : Packing)
    → Filling s
    → 0 < length s.running_payload
    → 20 ≤ s.bytes_remaining
    → (0 < taken s) × (taken s + 20 ≤ s.bytes_remaining) × Filling (chunked src dst s)
Filling-chunked src dst s (inl (m, l)) pos room = (
  omega (arith, m, pos, room),
  omega (arith, m, pos, room),
  inl (
    omega (arith, m, pos, room, l),
    omega (arith, m, pos, room, l, length-drop (taken s) s.running_payload),
  ),
)
Filling-chunked src dst s (inr (q, inl m)) pos room = (
  omega (arith, m, pos, room),
  omega (arith, m, pos, room),
  inr (
    q,
    elim (lt_or_ge (length s.running_payload) 1500) [
      | inr k ↦ inl (omega (arith, m, room, k))
      | inl k ↦
          inr (length_zero _ (omega (arith, m, room, k, length-drop (taken s) s.running_payload)))
    ],
  ),
)
Filling-chunked src dst s (inr (q, inr e)) pos room =
    absurd (let z : length s.running_payload ≡ 0 = rw e in omega (arith, z, pos))

take_chunks-lem :
    (src dst fuel : ℕ) (s : Packing)
    → Filling s
    → s.bytes_remaining < fuel
    → (cs : List (List ℕ)) × (s' : Packing) × (take_chunks src dst fuel s ≡ ok s')
      × Packs src dst s cs s'
      × Filled s'
      × (s'.queue ≡ s.queue)
take_chunks-lem src dst zero s f h = absurd (omega arith)
take_chunks-lem src dst (suc fuel) s f h = elim (is_empty-cases s.running_payload) [
  | inl (e, z) ↦
      ([], s, take_chunks-stop src dst fuel s (rw z), Packs-nil src dst s, Filled-empty s f e, refl)
  | inr (pos, z) ↦ elim (lt_or_ge s.bytes_remaining 20) [
    | inl less ↦ (
      [],
      s,
      take_chunks-stop src dst fuel s (rw (z, lt→not-leb 20 s.bytes_remaining less)),
      Packs-nil src dst s,
      Filled-less s f pos less,
      refl,
    )
    | inr room ↦
        let (t, k, f') = Filling-chunked src dst s f pos room in
        let (cs, s', run, p, d, q) =
          take_chunks-lem src dst fuel (chunked src dst s) f' (omega (arith, t, k, h)) in
        (
          take (taken s) s.running_payload ∷ cs,
          s',
          take_chunks-step src dst fuel s (rw (z, le→leb 20 s.bytes_remaining room)) ∙ run,
          Packs-cons src dst s cs s' t k p,
          d,
          q,
        )
  ]
]
  where
    Filled-empty : (s : Packing) → Filling s → s.running_payload ≡ [] → Filled s
    Filled-empty s (inl (m, l)) e =
        let z : length s.running_payload ≡ 0 = rw e in inl (omega (arith, m, l, z))
    Filled-empty s (inr (q, _)) e = inr (q, e)

    Filled-less :
        (s : Packing) → Filling s → 0 < length s.running_payload → s.bytes_remaining < 20 → Filled s
    Filled-less s (inl (m, l)) pos less = inl (omega (arith, m, less))
    Filled-less s (inr (q, inl m)) pos less = inl (omega (arith, m, less))
    Filled-less s (inr (q, inr e)) pos less =
        absurd (let z : length s.running_payload ≡ 0 = rw e in omega (arith, z, pos))

-- The outcome of the call from the state `s`.
abbrev pub Done : ℕ → ℕ → Packing → Result Packing → Type 0
Done src dst s res =
    (cs : List (List ℕ)) × (s' : Packing) × (res ≡ ok s')
    × Packs src dst s cs s'
    × (s'.running_payload ≡ [])
    × ((s'.bytes_remaining ≡ 0) ⊎ (s'.queue ≡ []))

push_back_rest-lem :
    (src dst : ℕ) (s : Packing) (cs : List (List ℕ)) (s' : Packing)
    → Packs src dst s cs s'
    → Filled s'
    → Packs src dst s cs (push_back_rest s')
      × ((push_back_rest s').running_payload ≡ [])
      × (((push_back_rest s').bytes_remaining ≡ 0) ⊎ ((push_back_rest s').queue ≡ []))
unfolding push_back_rest
push_back_rest-lem src dst s cs s' p f = elim (is_empty-cases s'.running_payload) [
  | inl (e, z) ↦ rw z (p, e, elim f [ inl x ↦ inl x | inr x ↦ inr x.0 ])
  | inr (pos, z) ↦ elim f [
    | inl x ↦ rw z (unfold joined in p, refl, inl x)
    | inr x ↦ absurd (let n : length s'.running_payload ≡ 0 = rw x.1 in omega (arith, n, pos))
  ]
]

pub finish-lem : (src dst : ℕ) (s : Packing) → Filling s → Done src dst s (finish src dst s)
unfolding finish
finish-lem src dst s f =
    let (cs, s', run, p, d, _) =
      take_chunks-lem src dst (suc s.bytes_remaining) s f (omega arith) in
    (let (p', e, q) = push_back_rest-lem src dst s cs s' p d in
      (cs, push_back_rest s', rw run, p', e, q))
