-- ===== src/Transfer/Single.antt =====
-- bluefin/src/worker/writer.rs: a payload that one datagram takes, in a round of `read_data`.
use mathlib.Core.Path.{subst}
use bluefin.Packet.Wire.{serialise_all}
use bluefin.Prelude.{ℕ, suc, ◌^◌, ◌<◌, ◌≤◌, ◌≡◌, refl, sym, ◌∙◌, ap, arith, inl, inr}
use bluefin.Prelude.{
  if◌then◌else◌, ltb, lt→ltb, true, false, List, [], ◌∷◌, ◌++◌, length, length-append, joined,
  append-nil,
}
use bluefin.Prelude.{All, IsByte, add_u64, ok, ◌>>=◌}
use bluefin.Transfer.{length-data_packets}
use bluefin.Header
use bluefin.Packet.{Packet, from_bytes}
use bluefin.Writer.Defs.{consume_data_into, data_header}
use bluefin.Writer.Chunk.{IsChunk, number_after, data_packets, data_packet}
use bluefin.Writer.Datagram.{consume_data_into-Datagram, from_bytes-data_packets}
use bluefin.Writer.Pump.{Packed, pack, packed_one}

chunks-joined : (cs : List (List ℕ)) → All IsChunk cs → length cs ≤ length (joined cs)
unfolding joined
chunks-joined [] h = omega arith
chunks-joined (c ∷ cs) ((pos, size), h) =
    omega (arith, chunks-joined cs h, length-append c (joined cs), pos)

-- A call that packs something, and one that finds the queue empty.
pack-more :
    (rounds src dst : ℕ) (s : Packed) (out : List (List ℕ) × ℕ × List ℕ × ℕ)
    → consume_data_into s.queue s.next src dst [] ≡ ok out
    → ltb 0 out.3 ≡ true
    → pack (suc rounds) src dst s ≡ pack rounds src dst (packed_one s out)
unfolding pack
pack-more rounds src dst s out run some_packed =
    ap
      (λ r. r >>= λ o. elim (ltb 0 o.3) [
        | true ↦ pack rounds src dst (packed_one s o)
        | false ↦ ok (packed_one s o)
      ])
      run
    ∙ ap
        (λ b. elim b [
          | true ↦ pack rounds src dst (packed_one s out)
          | false ↦ ok (packed_one s out)
        ])
        some_packed

pack-none :
    (rounds src dst m : ℕ) (ds : List (List ℕ × ℕ))
    → pack (suc rounds) src dst (record { queue = []; next = m; datagrams = ds })
      ≡ ok (record { queue = []; next = m; datagrams = ds })
unfolding pack packed_one consume_data_into
pack-none rounds src dst m ds = refl

-- The call after the one that emptied the queue packs nothing, and ends the round.
pub pack-all :
    (rounds src dst n : ℕ) (queue : List (List ℕ)) (m size : ℕ) (d : List ℕ)
    → 0 < size
    → consume_data_into queue n src dst [] ≡ ok ([], m, d, size)
    → pack (suc (suc rounds)) src dst (record { queue = queue; next = n; datagrams = [] })
      ≡ ok (record { queue = []; next = m; datagrams = (d, size) ∷ [] })
unfolding packed_one
pack-all rounds src dst n queue m size d pos run =
    let s : Packed = record { queue = queue; next = n; datagrams = [] } in
    let packs : ltb 0 size ≡ true = lt→ltb 0 size pos in
    pack-more (suc rounds) src dst s ([], m, d, size) run packs
    ∙ ap
        (λ b.
          pack (suc rounds) src dst
            (record { queue = []; next = m; datagrams = if b then (d, size) ∷ [] else [] }))
        packs
    ∙ pack-none rounds src dst m ((d, size) ∷ [])

-- A payload of at most 700 bytes goes into one datagram.
abbrev Single : List ℕ → ℕ → ℕ → ℕ → Type 0
Single payload src dst n =
    (d : List ℕ) × (q : Packet) × (qs : List Packet) × (m : ℕ) × (consume_data_into (payload ∷ []) n
        src dst []
      ≡ ok ([], m, d, length payload))
    × (from_bytes d ≡ ok (q ∷ qs))
    × (q.header.packet_number ≡ n)
    × (m ≡ number_after n (suc (length qs)))

first_of :
    (payload : List ℕ) (src dst n : ℕ) (cs : List (List ℕ))
    → joined cs ≡ payload
    → 0 < length payload
    → consume_data_into (payload ∷ []) n src dst []
      ≡ ok (
        [],
        number_after n (length cs),
        serialise_all (data_packets src dst n cs),
        length payload,
      )
    → from_bytes (serialise_all (data_packets src dst n cs)) ≡ ok (data_packets src dst n cs)
    → Single payload src dst n
unfolding joined data_packets
first_of payload src dst n [] all pos run read = absurd (omega (arith, ap length all, pos))
first_of payload src dst n (c ∷ cs) all pos run read = (
  serialise_all (data_packets src dst n (c ∷ cs)),
  data_packet src dst n c,
  data_packets src dst (add_u64 n 1) cs,
  number_after n (suc (length cs)),
  run,
  read,
  (unfold data_header in unfold Header.with_packet_number in refl),
  ap (λ k. number_after n (suc k)) (sym (length-data_packets src dst (add_u64 n 1) cs)),
)

pub single :
    (payload : List ℕ) (src dst n : ℕ)
    → src < 2 ^ 32
    → dst < 2 ^ 32
    → n < 2 ^ 64
    → All IsByte payload
    → 0 < length payload
    → length payload ≤ 700
    → Single payload src dst n
unfolding joined
single payload src dst n hs hd hn hb pos small =
    let (cs, queue', run, j, c, l, full) = consume_data_into-Datagram (payload ∷ []) n src dst in
    let left : queue' ≡ [] = elim full [
      | inl brim ↦ absurd (
          omega (
            arith,
            brim,
            chunks-joined cs c,
            small,
            length-append (joined cs) (joined queue'),
            ap length j,
            ap length (append-nil payload),
          ))
      | inr none_left ↦ none_left
    ] in
    let all : joined cs ≡ payload =
      sym (append-nil (joined cs))
      ∙ ap (λ q. joined cs ++ joined q) (sym left)
      ∙ j
      ∙ append-nil payload in
    first_of payload src dst n cs all pos
      (run
        ∙ ap
            (λ q. ok (
              q,
              number_after n (length cs),
              serialise_all (data_packets src dst n cs),
              length (joined cs),
            ))
            left
        ∙ ap
            (λ b.
              ok (
                [],
                number_after n (length cs),
                serialise_all (data_packets src dst n cs),
                length b,
              ))
            all)
      (from_bytes-data_packets src dst n cs hs hd hn c (subst (All IsByte) (sym all) hb)
        (subst (λ b. 0 < length b) (sym all) pos))
