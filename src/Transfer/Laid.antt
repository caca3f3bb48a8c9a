-- ===== src/Transfer/Laid.antt =====
-- bluefin/src/worker/writer.rs: the packet numbers of the datagrams that the writer makes run on from
-- one datagram to the next.
use mathlib.Core.Path.{subst}
use bluefin.Prelude.{ℕ, zero, suc, ◌^◌, ◌<◌, ◌≡◌, refl, sym, ◌∙◌, ap, arith}
use bluefin.Prelude.{◌⊎◌, Bool-cases, ltb, if◌then◌else◌, inl, inr, lt→ltb, le→not-ltb}
use bluefin.Prelude.{List, [], ◌∷◌, ◌++◌, length, joined}
use bluefin.Prelude.{All, IsByte, ok, ◌>>=◌}
use bluefin.Packet.{from_bytes}
use bluefin.Writer.Defs.{consume_data_into}
use bluefin.Writer.Chunk.{number_after, data_packets}
use bluefin.Writer.Datagram.{
  consume_data_into-Datagram, from_bytes-data_packets, joined-cases, All-front,
}
use bluefin.Writer.Pump.{Packed, pack, packed_one}
use bluefin.Transfer.Flush.{datagrams_of, datagrams_of-++, packs_one, one-bytes, ok-inj, after_one}

module _ (src dst : ℕ) where
  -- From the number `n` to `m`, each datagram holds data packets with the next numbers.
  abbrev pub Laid : ℕ → List (List ℕ) → ℕ → Type 0
  Laid n [] m = n ≡ m
  Laid n (d ∷ ds) m =
      (cs : List (List ℕ)) × (0 < length (joined cs))
      × (from_bytes d ≡ ok (data_packets src dst n cs))
      × Laid (number_after n (length cs)) ds m

  pub Laid-append :
      (n k m : ℕ) (ds es : List (List ℕ)) → Laid n ds k → Laid k es m → Laid n (ds ++ es) m
  Laid-append n k m [] es e h = subst (λ i. Laid i es m) (sym e) h
  Laid-append n k m (d ∷ ds) es (cs, pos, e, rest) h =
      (cs, pos, e, Laid-append (number_after n (length cs)) k m ds es rest h)

  -- What one call packs: a datagram of packets with the next numbers, or none.
  abbrev OneLaid : ℕ → List (List ℕ) × ℕ × List ℕ × ℕ → Type 0
  OneLaid n out = (0 < out.3) × Laid n (out.2 ∷ []) out.1 ⊎ (out.3 ≡ 0) × (n ≡ out.1)

  module _ (hs : src < 2 ^ 32) (hd : dst < 2 ^ 32) where
    one_laid :
        (queue : List (List ℕ)) (n : ℕ) (out : List (List ℕ) × ℕ × List ℕ × ℕ)
        → n < 2 ^ 64
        → All IsByte (joined queue)
        → consume_data_into queue n src dst [] ≡ ok out
        → OneLaid n out
    unfolding number_after joined
    one_laid queue n out hn hb run =
        let (cs, queue', run', j, c, l, d) = consume_data_into-Datagram queue n src dst in
        let bytes : All IsByte (joined cs) =
          All-front (joined cs) (joined queue') (subst (All IsByte) (sym j) hb) in
        subst (OneLaid n) (ok-inj _ out (sym run' ∙ run)) (elim (joined-cases cs c) [
          | inl e ↦
              inr (ap (λ xs. length (joined xs)) e, sym (ap (λ xs. number_after n (length xs)) e))
          | inr pos ↦
              inl (pos, (cs, pos, from_bytes-data_packets src dst n cs hs hd hn c bytes pos, refl))
        ])

    packed_one-Laid :
        (n : ℕ) (s : Packed) (out : List (List ℕ) × ℕ × List ℕ × ℕ)
        → Laid n (datagrams_of s.datagrams) s.next
        → OneLaid s.next out
        → Laid n (datagrams_of (packed_one s out).datagrams) out.1
    unfolding packed_one datagrams_of
    packed_one-Laid n s out h (inl (pos, one)) =
        subst (λ ds. Laid n (datagrams_of ds) out.1)
          (sym (
            ap (λ b. if b then s.datagrams ++ ((out.2, out.3) ∷ []) else s.datagrams)
              (lt→ltb 0 out.3 pos)))
          (subst (λ ds. Laid n ds out.1) (sym (datagrams_of-++ s.datagrams ((out.2, out.3) ∷ [])))
            (Laid-append n s.next out.1 (datagrams_of s.datagrams) (out.2 ∷ []) h one))
    packed_one-Laid n s out h (inr (none_packed, same)) =
        subst (λ ds. Laid n (datagrams_of ds) out.1)
          (sym (
            ap (λ b. if b then s.datagrams ++ ((out.2, out.3) ∷ []) else s.datagrams)
              (le→not-ltb 0 out.3 (omega (arith, none_packed)))))
          (subst (Laid n (datagrams_of s.datagrams)) same h)

    pub pack-Laid :
        (rounds n : ℕ) (s s' : Packed)
        → s.next < 2 ^ 64
        → All IsByte (joined s.queue)
        → Laid n (datagrams_of s.datagrams) s.next
        → pack rounds src dst s ≡ ok s'
        → Laid n (datagrams_of s'.datagrams) s'.next
    unfolding pack
    pack-Laid zero n s s' hn hb h run =
        subst (λ x. Laid n (datagrams_of x.datagrams) x.next) (ok-inj s s' run) h
    pack-Laid (suc rounds) n s s' hn hb h run =
        let (out, one, parts) = packs_one src dst hs hd s.queue s.next hn hb in
        let laid : Laid n (datagrams_of (packed_one s out).datagrams) out.1 =
          packed_one-Laid n s out h (one_laid s.queue s.next out hn hb one) in
        let run' =
          sym (ap (λ r. r >>= λ o. after_one src dst hs hd rounds s o (ltb 0 o.3)) one) ∙ run in
        elim (Bool-cases (ltb 0 out.3)) [
          | inl more ↦
              pack-Laid rounds n (packed_one s out) s' (unfold packed_one in parts.0)
                (one-bytes src dst hs hd s out parts hb) (unfold packed_one in laid)
                (sym (ap (after_one src dst hs hd rounds s out) more) ∙ run')
          | inr stops ↦
              subst (λ x. Laid n (datagrams_of x.datagrams) x.next)
                (ok-inj (packed_one s out) s'
                  (sym (ap (after_one src dst hs hd rounds s out) stops) ∙ run'))
                (unfold packed_one in laid)
        ]
