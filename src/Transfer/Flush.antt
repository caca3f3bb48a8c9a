-- ===== src/Transfer/Flush.antt =====
-- bluefin/src/worker/writer.rs: what `flush` promises. Bytes that a caller has handed over are in the
-- channel, in the queue of the task, in a datagram, or on the wire.
use mathlib.Core.Path.{subst}
use bluefin.Prelude.{ℕ, zero, suc, ◌+◌, ◌^◌, ◌<◌, ◌≤◌, ◌≡◌, refl, sym, ◌∙◌, ap, arith}
use bluefin.Prelude.{
  ◌⊎◌, Bool, true, false, Bool-cases, ltb, if◌then◌else◌, add_u64, lt_or_ge, inl, inr,
}
use bluefin.Prelude.{lt→ltb, le→not-ltb, append_assoc, append-nil, length-append}
use bluefin.Prelude.{List, [], ◌∷◌, ◌++◌, length, joined, All, All-append, IsByte}
use bluefin.Prelude.{Result, ok, ◌>>=◌}
use bluefin.Packet.{Packet, from_bytes}
use bluefin.OrderedBytes.Stream.{payloads}
use bluefin.Packet.Wire.{serialise_all}
use bluefin.Writer.Defs.{consume_data_into}
use bluefin.Writer.Chunk.{number_after, data_packets}
use bluefin.Writer.Datagram.{consume_data_into-Datagram, from_bytes-consume_data_into, All-back}
use bluefin.Writer.Pump.{Packed, pack, packed_one}
use bluefin.Transfer.{payloads-data_packets}

unfoldable pub payloads_of : Result (List Packet) → List ℕ
payloads_of (ok ps) = payloads ps
payloads_of _ = []

-- What the other side's parser finds in datagrams, one after the other.
unfoldable pub received : List (List ℕ) → List ℕ
received [] = []
received (d ∷ ds) = payloads_of (from_bytes d) ++ received ds

pub received-++ : (ds es : List (List ℕ)) → received (ds ++ es) ≡ received ds ++ received es
unfolding received
received-++ [] es = refl
received-++ (d ∷ ds) es =
    ap (λ x. payloads_of (from_bytes d) ++ x) (received-++ ds es)
    ∙ sym (append_assoc (payloads_of (from_bytes d)) (received ds) (received es))

unfoldable pub datagrams_of : List (List ℕ × ℕ) → List (List ℕ)
datagrams_of [] = []
datagrams_of (d ∷ ds) = d.0 ∷ datagrams_of ds

unfoldable pub total : List (List ℕ × ℕ) → ℕ
total [] = 0
total (d ∷ ds) = d.1 + total ds

pub datagrams_of-++ :
    (ds es : List (List ℕ × ℕ)) → datagrams_of (ds ++ es) ≡ datagrams_of ds ++ datagrams_of es
unfolding datagrams_of
datagrams_of-++ [] es = refl
datagrams_of-++ (d ∷ ds) es = ap (◌∷◌ d.0) (datagrams_of-++ ds es)

pub total-++ : (ds es : List (List ℕ × ℕ)) → total (ds ++ es) ≡ total ds + total es
unfolding total
total-++ [] es = omega arith
total-++ (d ∷ ds) es = let e = total-++ ds es in omega (arith, e)

pub number_after-lt : (n k : ℕ) → n < 2 ^ 64 → number_after n k < 2 ^ 64
unfolding number_after
number_after-lt n zero h = h
number_after-lt n (suc k) h = number_after-lt (add_u64 n 1) k (omega arith)

-- A datagram says how much it carries, and carries something.
abbrev pub IsCounted : List ℕ × ℕ → Type 0
IsCounted d = (0 < d.1) × (length (received (d.0 ∷ [])) ≡ d.1) × (d.1 ≤ 15200)

-- One call on a queue of bytes: the datagram, if there is one, and the queue hold what the queue held.
abbrev pub PacksOne : List (List ℕ) → List (List ℕ) × ℕ × List ℕ × ℕ → Type 0
PacksOne queue out =
    (out.1 < 2 ^ 64)
    × ((0 < out.3)
          × (received (out.2 ∷ []) ++ joined out.0 ≡ joined queue)
          × (length (received (out.2 ∷ [])) ≡ out.3)
          × (out.3 ≤ 15200)
        ⊎ (out.3 ≡ 0) × (joined out.0 ≡ joined queue))

pub ok-inj : {A : Type 0} (a b : A) → ok a ≡ ok b → a ≡ b
ok-inj a b e = ap (λ r. elim r [ ok x ↦ x | _ ↦ a ]) e

pub nil_of : {A : Type 0} (xs : List A) → length xs ≡ 0 → xs ≡ []
nil_of [] e = refl
nil_of (x ∷ xs) e = absurd (omega (arith, e))

module _ (src dst : ℕ) (hs : src < 2 ^ 32) (hd : dst < 2 ^ 32) where
  pub packs_one :
      (queue : List (List ℕ)) (n : ℕ)
      → n < 2 ^ 64
      → All IsByte (joined queue)
      → (out : List (List ℕ) × ℕ × List ℕ × ℕ) × (consume_data_into queue n src dst [] ≡ ok out)
        × PacksOne queue out
  packs_one queue n hn hb =
      let (cs, queue', run, j, c, l, d) = consume_data_into-Datagram queue n src dst in
      elim (lt_or_ge 0 (length (joined queue))) [
        | inl pos ↦
            let (ds, out, run', parsed, kept, size, some_packed, fits) =
              from_bytes-consume_data_into queue n src dst hs hd hn hb pos in
            let one : received (out.2 ∷ []) ≡ joined ds =
              unfold received in
              append-nil (payloads_of (from_bytes out.2))
              ∙ ap payloads_of parsed
              ∙ unfold payloads_of in payloads-data_packets src dst n ds in
            let same = ok-inj out _ (sym run' ∙ run) in
            (
              out,
              run',
              (
                subst (λ o. o.1 < 2 ^ 64) (sym same) (number_after-lt n (length cs) hn),
                inl (
                  some_packed,
                  ap (λ x. x ++ joined out.0) one ∙ kept,
                  ap length one ∙ sym size,
                  omega (arith, size, fits),
                ),
              ),
            )
        | inr empty ↦
            let none_packed : length (joined cs) ≡ 0 =
              omega (arith, empty, length-append (joined cs) (joined queue'), ap length j) in
            (
              (
                queue',
                number_after n (length cs),
                serialise_all (data_packets src dst n cs),
                length (joined cs),
              ),
              run,
              (
                number_after-lt n (length cs) hn,
                inr (
                  none_packed,
                  ap (λ x. x ++ joined queue') (sym (nil_of (joined cs) none_packed)) ∙ j,
                ),
              ),
            )
      ]

  -- Some rounds of packing: nothing is lost and nothing changes places.
  abbrev pub Packs : Packed → Packed → Type 0
  Packs s s' =
      (received (datagrams_of s'.datagrams) ++ joined s'.queue
        ≡ received (datagrams_of s.datagrams) ++ joined s.queue)
      × (total s'.datagrams + length (joined s'.queue)
          ≡ total s.datagrams + length (joined s.queue))
      × All IsCounted s'.datagrams
      × (s'.next < 2 ^ 64)

  -- One more datagram, or none.
  pub packed_one-Packs :
      (s : Packed) (out : List (List ℕ) × ℕ × List ℕ × ℕ)
      → All IsCounted s.datagrams
      → PacksOne s.queue out
      → Packs s (packed_one s out)
  unfolding packed_one datagrams_of
  packed_one-Packs s out counted (next, inl (pos, kept, size, fits)) =
      subst
        (λ ds.
          (received (datagrams_of ds) ++ joined out.0
            ≡ received (datagrams_of s.datagrams) ++ joined s.queue)
          × (total ds + length (joined out.0) ≡ total s.datagrams + length (joined s.queue))
          × All IsCounted ds
          × (out.1 < 2 ^ 64))
        (sym (
          ap (λ b. if b then s.datagrams ++ ((out.2, out.3) ∷ []) else s.datagrams)
            (lt→ltb 0 out.3 pos)))
        (
          ap (λ xs. received xs ++ joined out.0) (datagrams_of-++ s.datagrams ((out.2, out.3) ∷ []))
              ∙ ap (λ x. x ++ joined out.0) (received-++ (datagrams_of s.datagrams) (out.2 ∷ []))
              ∙ append_assoc (received (datagrams_of s.datagrams)) (received (out.2 ∷ []))
                  (joined out.0)
              ∙ ap (λ x. received (datagrams_of s.datagrams) ++ x) kept,
          omega (
            arith,
            total-++ s.datagrams ((out.2, out.3) ∷ []),
            one_total out.2 out.3,
            size,
            length-append (received (out.2 ∷ [])) (joined out.0),
            ap length kept,
          ),
          All-append IsCounted s.datagrams ((out.2, out.3) ∷ []) counted ((pos, size, fits), tt),
          next,
        )
    where
      one_total : (d : List ℕ) (k : ℕ) → total ((d, k) ∷ []) ≡ k
      one_total d k = unfold total in omega arith
  packed_one-Packs s out counted (next, inr (zero_packed, kept)) =
      subst
        (λ ds.
          (received (datagrams_of ds) ++ joined out.0
            ≡ received (datagrams_of s.datagrams) ++ joined s.queue)
          × (total ds + length (joined out.0) ≡ total s.datagrams + length (joined s.queue))
          × All IsCounted ds
          × (out.1 < 2 ^ 64))
        (sym (
          ap (λ b. if b then s.datagrams ++ ((out.2, out.3) ∷ []) else s.datagrams)
            (le→not-ltb 0 out.3 (omega (arith, zero_packed)))))
        (
          ap (λ x. received (datagrams_of s.datagrams) ++ x) kept,
          ap (λ x. total s.datagrams + length x) kept,
          counted,
          next,
        )

  pub one-bytes :
      (s : Packed) (out : List (List ℕ) × ℕ × List ℕ × ℕ)
      → PacksOne s.queue out
      → All IsByte (joined s.queue)
      → All IsByte (joined (packed_one s out).queue)
  unfolding packed_one
  one-bytes s out (_, inl (_, kept, _, _)) hb =
      All-back (received (out.2 ∷ [])) (joined out.0) (subst (All IsByte) (sym kept) hb)
  one-bytes s out (_, inr (_, kept)) hb = subst (All IsByte) (sym kept) hb

  one-length :
      (s : Packed) (out : List (List ℕ) × ℕ × List ℕ × ℕ)
      → length (packed_one s out).datagrams ≤ length s.datagrams + 1
  unfolding packed_one
  one-length s out = elim (Bool-cases (ltb 0 out.3)) [
    | inl e ↦ rw e (omega (arith, length-append s.datagrams ((out.2, out.3) ∷ [])))
    | inr e ↦ rw e (omega arith)
  ]

  abbrev pub after_one : ℕ → Packed → List (List ℕ) × ℕ × List ℕ × ℕ → Bool → Result Packed
  after_one rounds s out b = elim b [
    | true ↦ pack rounds src dst (packed_one s out)
    | false ↦ ok (packed_one s out)
  ]

  pub pack-Packs :
      (rounds : ℕ) (s : Packed)
      → s.next < 2 ^ 64
      → All IsByte (joined s.queue)
      → All IsCounted s.datagrams
      → (s' : Packed) × (pack rounds src dst s ≡ ok s')
        × Packs s s'
        × All IsByte (joined s'.queue)
        × (length s'.datagrams ≤ length s.datagrams + rounds)
  unfolding pack
  pack-Packs zero s hn hb counted = (s, refl, (refl, refl, counted, hn), hb, omega arith)
  pack-Packs (suc rounds) s hn hb counted =
      let (out, run, parts) = packs_one s.queue s.next hn hb in
      let (order, sum, counted', next) = packed_one-Packs s out counted parts in
      let bytes : All IsByte (joined (packed_one s out).queue) = one-bytes s out parts hb in
      elim (Bool-cases (ltb 0 out.3)) [
        | inl more ↦
            let (s', packed, (order', sum', counted'', next'), bytes', few) =
              pack-Packs rounds (packed_one s out) next bytes counted' in
            (
              s',
              ap (λ r. r >>= λ o. after_one rounds s o (ltb 0 o.3)) run
                  ∙ ap (after_one rounds s out) more
                  ∙ packed,
              (order' ∙ order, sum' ∙ sum, counted'', next'),
              bytes',
              omega (arith, few, one-length s out),
            )
        | inr stops ↦ (
          packed_one s out,
          ap (λ r. r >>= λ o. after_one rounds s o (ltb 0 o.3)) run
              ∙ ap (after_one rounds s out) stops,
          (order, sum, counted', next),
          bytes,
          omega (arith, one-length s out),
        )
      ]
