-- ===== src/Writer/Datagram.antt =====
-- The datagrams of `consume_data_into`, and what the receiver's parser makes of them.
use bluefin.Prelude.{ℕ, suc, ◌+◌, ◌*◌, ◌^◌, ◌<◌, ◌≤◌, ◌≡◌, ◌≢◌, refl, sym, ◌∙◌, ap, arith}
use mathlib.Core.Path.{subst}
use bluefin.Prelude.{◌⊎◌, inl, inr, List, [], ◌∷◌, ◌++◌, length, All, IsByte, joined, length-append}
use bluefin.Prelude.{none, some, is_empty, if◌then◌else◌, add_u64, Result, ok, ◌>>=◌}
use bluefin.Header
use bluefin.Packet.Parse.{has_payload}
use bluefin.Packet.{from_bytes}
use bluefin.Packet.Wire.{IsPacket, EndsWell, serialise_all}
use bluefin.Packet.RoundTrip.{from_bytes-serialise_all}
use bluefin.Writer.Defs.{
  consume_data, Packing, data_header, consume_data_into, max_bytes_in_udp_datagram,
}
use bluefin.Writer.Chunk.{data_packet, data_packets, number_after, IsChunk}
use bluefin.Writer.Pack.{Done}
use bluefin.Writer.Fill.{fill-lem}

-- What one call makes of the queue: the chunks `cs`, and the queue that is left.
abbrev pub Datagram : List (List ℕ) → ℕ → ℕ → ℕ → Result (List (List ℕ) × ℕ × List ℕ × ℕ) → Type 0
Datagram queue n src dst res =
    (cs : List (List ℕ)) × (queue' : List (List ℕ)) × (res
      ≡ ok (
        queue',
        number_after n (length cs),
        serialise_all (data_packets src dst n cs),
        length (joined cs),
      ))
    × (joined cs ++ joined queue' ≡ joined queue)
    × All IsChunk cs
    × (length (joined cs) + 20 * length cs ≤ 15200)
    × ((length (joined cs) + 20 * length cs ≡ 15200) ⊎ (queue' ≡ []))

Done-Datagram :
    (src dst n : ℕ) (s : Packing) (res : Result Packing) (queue : List (List ℕ))
    → s.ans ≡ []
    → s.next_packet_num ≡ n
    → s.payload_bytes_packed ≡ 0
    → s.bytes_remaining ≡ 15200
    → s.running_payload ++ joined s.queue ≡ joined queue
    → Done src dst s res
    → Datagram queue n src dst
        (res >>= λ s'. ok (s'.queue, s'.next_packet_num, s'.ans, s'.payload_bytes_packed))
Done-Datagram src dst n s res queue ea en ep er ej (cs, s', run, (a, j, p, c, r, num), e, d) =
    let ans : s'.ans ≡ serialise_all (data_packets src dst n cs) = a ∙ rw (ea, en) in
    let next : s'.next_packet_num ≡ number_after n (length cs) =
      num ∙ ap (λ k. number_after k (length cs)) en in
    let packed : s'.payload_bytes_packed ≡ length (joined cs) = omega (arith, p, ep) in
    (
      cs,
      s'.queue,
      rw (run, ans, next, packed),
      rw (← ej, ← j, e),
      c,
      omega (arith, r, er),
      elim d [ inl x ↦ inl (omega (arith, r, er, x)) | inr x ↦ inr x ],
    )

-- `consume_data_into`, on an empty datagram, ends and packs the front of the queued bytes, in order,
-- into data packets with consecutive numbers, each with a payload of 1 to 1500 bytes. The datagram
-- is at most 15200 bytes long; what is left stays queued, in order, and the datagram is full or
-- nothing is left. It returns the number of payload bytes.
pub consume_data_into-Datagram :
    (queue : List (List ℕ)) (n src dst : ℕ)
    → Datagram queue n src dst (consume_data_into queue n src dst [])
unfolding consume_data_into
consume_data_into-Datagram [] n src dst = (
  [],
  [],
  unfold number_after data_packets joined in refl,
  (unfold joined in refl),
  tt,
  (unfold joined in omega arith),
  inr refl,
)
consume_data_into-Datagram (item ∷ queue) n src dst =
    Done-Datagram src dst n (start item queue n) _ (item ∷ queue) refl refl refl refl
      (unfold joined in refl)
      (fill-lem src dst (suc (max_bytes_in_udp_datagram + length queue)) (start item queue n) refl
        (omega arith))
  where
    start : List ℕ → List (List ℕ) → ℕ → Packing
    start item queue n = record {
      queue = queue;
      running_payload = item;
      bytes_remaining = max_bytes_in_udp_datagram;
      payload_bytes_packed = 0;
      ans = [];
      next_packet_num = n;
    }

data_packet-IsPacket :
    (src dst n : ℕ) (c : List ℕ)
    → src < 2 ^ 32
    → dst < 2 ^ 32
    → n < 2 ^ 64
    → IsChunk c
    → All IsByte c
    → IsPacket (data_packet src dst n c)
unfolding data_header Header.with_packet_number Header.new Header.Security.default has_payload
data_packet-IsPacket src dst n c hs hd hn h b = record {
  header_fits = record {
    version_fits = omega arith;
    payload_fits = omega arith;
    mask_fits = omega arith;
    source_fits = hs;
    destination_fits = hd;
    packet_number_fits = hn;
  };
  bytes_fit = b;
  announced = omega (arith, h.1);
}

pub All-front : (xs ys : List ℕ) → All IsByte (xs ++ ys) → All IsByte xs
All-front [] ys h = tt
All-front (x ∷ xs) ys h = (h.0, All-front xs ys h.1)

pub All-back : (xs ys : List ℕ) → All IsByte (xs ++ ys) → All IsByte ys
All-back [] ys h = h
All-back (x ∷ xs) ys h = All-back xs ys h.1

pub joined-cases : (cs : List (List ℕ)) → All IsChunk cs → (cs ≡ []) ⊎ (0 < length (joined cs))
unfolding joined
joined-cases [] h = inl refl
joined-cases (c ∷ cs) h = inr (omega (arith, h.0.0, length-append c (joined cs)))

All-IsPacket :
    (src dst n : ℕ) (cs : List (List ℕ))
    → src < 2 ^ 32
    → dst < 2 ^ 32
    → n < 2 ^ 64
    → All IsChunk cs
    → All IsByte (joined cs)
    → All IsPacket (data_packets src dst n cs)
unfolding data_packets joined
All-IsPacket src dst n [] hs hd hn h b = tt
All-IsPacket src dst n (c ∷ cs) hs hd hn h b = (
  data_packet-IsPacket src dst n c hs hd hn h.0 (All-front c (joined cs) b),
  All-IsPacket src dst (add_u64 n 1) cs hs hd (omega arith) h.1 (All-back c (joined cs) b),
)

data_packets-EndsWell :
    (src dst n : ℕ) (cs : List (List ℕ)) → All IsChunk cs → EndsWell (data_packets src dst n cs)
unfolding data_packets data_header Header.with_packet_number Header.new has_payload
data_packets-EndsWell src dst n [] h = tt
data_packets-EndsWell src dst n (c ∷ []) h = h.0.0
data_packets-EndsWell src dst n (c ∷ d ∷ cs) h =
    data_packets-EndsWell src dst (add_u64 n 1) (d ∷ cs) h.1

data_packets-ne : (src dst n : ℕ) (cs : List (List ℕ)) → cs ≢ [] → data_packets src dst n cs ≢ []
unfolding data_packets
data_packets-ne src dst n [] h e = h refl
data_packets-ne src dst n (c ∷ cs) h e = absurd (suc-ne (ap length e))
  where
    suc-ne : {k : ℕ} → suc k ≢ 0
    suc-ne e = omega (arith, e)

ne_of_pos : (cs : List (List ℕ)) → 0 < length (joined cs) → cs ≢ []
unfolding joined
ne_of_pos [] h e = omega (arith, h)
ne_of_pos (c ∷ cs) h e = suc-ne (ap length e)
  where
    suc-ne : {k : ℕ} → suc k ≢ 0
    suc-ne e = omega (arith, e)

-- A datagram of data packets is read as these packets.
pub from_bytes-data_packets :
    (src dst n : ℕ) (cs : List (List ℕ))
    → src < 2 ^ 32
    → dst < 2 ^ 32
    → n < 2 ^ 64
    → All IsChunk cs
    → All IsByte (joined cs)
    → 0 < length (joined cs)
    → from_bytes (serialise_all (data_packets src dst n cs)) ≡ ok (data_packets src dst n cs)
from_bytes-data_packets src dst n cs hs hd hn c b some_packed =
    from_bytes-serialise_all (data_packets src dst n cs)
      (data_packets-ne src dst n cs (ne_of_pos cs some_packed))
      (All-IsPacket src dst n cs hs hd hn c b) (data_packets-EndsWell src dst n cs c)

-- A call that packs nothing has nothing to pack.
all_queued :
    (cs queue' queue : List (List ℕ))
    → cs ≡ []
    → joined cs ++ joined queue' ≡ joined queue
    → (length (joined cs) + 20 * length cs ≡ 15200) ⊎ (queue' ≡ [])
    → length (joined queue) ≡ 0
unfolding joined
all_queued cs queue' queue e j d =
    let z : length (joined cs) + 20 * length cs ≡ 0 = rw e in
    elim d [ inl full ↦ absurd (omega (arith, full, z)) | inr q ↦ rw (← j, e, q) ]

-- The receiver's `from_bytes` reads from a datagram that `consume_data_into` packed exactly the data
-- packets that were packed, if there are bytes to pack, and the datagram is at most 15200 bytes long.
-- The connection ids and the first packet number fit their fields, and the queue holds bytes.
pub from_bytes-consume_data_into :
    (queue : List (List ℕ)) (n src dst : ℕ)
    → src < 2 ^ 32
    → dst < 2 ^ 32
    → n < 2 ^ 64
    → All IsByte (joined queue)
    → 0 < length (joined queue)
    → (cs : List (List ℕ)) × (out : List (List ℕ) × ℕ × List ℕ × ℕ) × (consume_data_into queue n src
          dst []
        ≡ ok out)
      × (from_bytes out.2 ≡ ok (data_packets src dst n cs))
      × (joined cs ++ joined out.0 ≡ joined queue)
      × (out.3 ≡ length (joined cs))
      × (0 < out.3)
      × (length (joined cs) + 20 * length cs ≤ 15200)
from_bytes-consume_data_into queue n src dst hs hd hn hb pos =
    let (cs, queue', run, j, c, l, d) = consume_data_into-Datagram queue n src dst in
    elim (joined-cases cs c) [
      | inl e ↦ absurd (
          let none_left : length (joined queue) ≡ 0 = all_queued cs queue' queue e j d in
          omega (arith, none_left, pos))
      | inr some_packed ↦ (
        cs,
        (
          queue',
          number_after n (length cs),
          serialise_all (data_packets src dst n cs),
          length (joined cs),
        ),
        run,
        from_bytes-data_packets src dst n cs hs hd hn c
            (All-front (joined cs) (joined queue') (subst (All IsByte) (sym j) hb)) some_packed,
        j,
        refl,
        some_packed,
        l,
      )
    ]

-- The older `consume_data` ends too and packs the front of the queue in the same way, or returns
-- `None` if it packs nothing.
pub consume_data-Datagram :
    (queue : List (List ℕ)) (n src dst : ℕ)
    → (cs : List (List ℕ)) × (queue' : List (List ℕ)) × (consume_data queue n src dst
        ≡ ok (
          queue',
          number_after n (length cs),
          (if is_empty (serialise_all (data_packets src dst n cs))
              then none
              else some (serialise_all (data_packets src dst n cs))),
        ))
      × (joined cs ++ joined queue' ≡ joined queue)
      × All IsChunk cs
      × (length (joined cs) + 20 * length cs ≤ 15200)
      × ((length (joined cs) + 20 * length cs ≡ 15200) ⊎ (queue' ≡ []))
unfolding consume_data
consume_data-Datagram queue n src dst =
    let (cs, s', run, (a, j, p, c, r, num), e, d) =
      fill-lem src dst (suc (max_bytes_in_udp_datagram + length queue))
        (record {
          queue = queue;
          running_payload = [];
          bytes_remaining = max_bytes_in_udp_datagram;
          payload_bytes_packed = 0;
          ans = [];
          next_packet_num = n;
        })
        refl (omega arith) in
    (
      cs,
      s'.queue,
      rw (run, a, num),
      rw (← j, e),
      c,
      omega (arith, r),
      elim d [ inl x ↦ inl (omega (arith, r, x)) | inr x ↦ inr x ],
    )
