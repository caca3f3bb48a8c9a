-- ===== src/Transfer.antt =====
-- The way of the data from the sender's queue, bluefin/src/worker/writer.rs, through a datagram,
-- bluefin/src/core/packet.rs, to the receiver's buffer, bluefin/src/net/ordered_bytes.rs.
pub mod Flush
pub mod Sound
pub mod Flushed
pub mod Stall
pub mod Laid
pub mod Numbers
pub mod Arrivals
pub mod Delivered
pub mod Single
pub mod Stale
use bluefin.Prelude.{ℕ, zero, suc, ◌+◌, ◌*◌, ◌%◌, ◌^◌, ◌<◌, ◌≤◌, ◌≡◌, refl, sym, ◌∙◌, ap, arith}
use bluefin.Prelude.{List, [], ◌∷◌, ◌++◌, length, joined, All, IsByte, add_u64, Result, ok}
use bluefin.Packet.{Packet, from_bytes}
use bluefin.OrderedBytes.{OrderedBytes}
use bluefin.OrderedBytes.Stream.{IsValid, stream, payloads}
use bluefin.OrderedBytes.Reassemble.{Has, Numbered, buffer_all}
use bluefin.OrderedBytes.Rows.{IsEmpty, buffer_all-stream}
use bluefin.Writer.{consume_data_into}
use bluefin.Writer.Chunk.{data_packets}
use bluefin.Writer.Datagram.{from_bytes-consume_data_into}
use bluefin.Writer.Defs.{data_header}
use bluefin.Header

pub data_packets-Numbered :
    (src dst n : ℕ) (cs : List (List ℕ))
    → n + length cs ≤ 2 ^ 64
    → Numbered n (data_packets src dst n cs)
unfolding data_packets Numbered data_header Header.with_packet_number
data_packets-Numbered src dst n [] h = tt
data_packets-Numbered src dst n (c ∷ []) h = (refl, tt)
data_packets-Numbered src dst n (c ∷ d ∷ cs) h =
    let next : add_u64 n 1 ≡ n + 1 = omega (arith, h) in
    (refl, rw next (data_packets-Numbered src dst (n + 1) (d ∷ cs) (omega (arith, h))))

pub length-data_packets :
    (src dst n : ℕ) (cs : List (List ℕ)) → length (data_packets src dst n cs) ≡ length cs
unfolding data_packets
length-data_packets src dst n [] = refl
length-data_packets src dst n (c ∷ cs) = ap suc (length-data_packets src dst (add_u64 n 1) cs)

pub payloads-data_packets :
    (src dst n : ℕ) (cs : List (List ℕ)) → payloads (data_packets src dst n cs) ≡ joined cs
unfolding data_packets payloads joined
payloads-data_packets src dst n [] = refl
payloads-data_packets src dst n (c ∷ cs) =
    ap (λ bytes. c ++ bytes) (payloads-data_packets src dst (add_u64 n 1) cs)

some_chunk : (cs : List (List ℕ)) → 0 < length (joined cs) → 0 < length cs
unfolding joined
some_chunk [] h = h
some_chunk (c ∷ cs) h = omega arith

-- A datagram on its way: the sender packs the front of its queue into a datagram, the receiver parses
-- it, and the packets reach an empty buffer that waits for the first of them, in any order, each at
-- least once. Then the bytes that the receiver can read are the bytes that left the queue, in order.
-- The queue holds bytes, the connection ids fit, and the packet numbers do not wrap around.
pub datagram-stream :
    (queue : List (List ℕ)) (src dst : ℕ) (ob : OrderedBytes)
    → src < 2 ^ 32
    → dst < 2 ^ 32
    → All IsByte (joined queue)
    → 0 < length (joined queue)
    → IsValid ob
    → IsEmpty ob
    → ob.smallest_packet_number + 760 < 2 ^ 64
    → (out : List (List ℕ) × ℕ × List ℕ × ℕ) × (ps : List Packet) × (consume_data_into queue
          ob.smallest_packet_number src dst []
        ≡ ok out)
      × (from_bytes out.2 ≡ ok ps)
      × ((qs : List Packet)
          → All (λ q. Has q ps) qs
          → All (λ p. Has p qs) ps
          → (stream (buffer_all ob qs) ++ joined out.0 ≡ joined queue)
            × (0 < length (stream (buffer_all ob qs))))
datagram-stream queue src dst ob hs hd hb pos v empty bound =
    let n : ℕ = ob.smallest_packet_number in
    let (cs, out, packed, parsed, kept, total, count, fits) =
      from_bytes-consume_data_into queue n src dst hs hd (omega (arith, bound)) hb pos in
    let k : length (data_packets src dst n cs) ≡ length cs = length-data_packets src dst n cs in
    let some_sent : 0 < length cs = some_chunk cs (omega (arith, total, count)) in
    (
      out,
      data_packets src dst n cs,
      packed,
      parsed,
      λ qs from all.
          (let (_, arrived) =
              buffer_all-stream (data_packets src dst n cs) qs ob v empty
                (data_packets-Numbered src dst n cs (omega (arith, bound, fits)))
                (omega (arith, k, some_sent)) (omega (arith, k, fits))
                (omega (arith, k, fits, bound)) from all in
            let bytes : stream (buffer_all ob qs) ≡ joined cs =
              arrived ∙ payloads-data_packets src dst n cs in
            (ap (λ xs. xs ++ joined out.0) bytes ∙ kept, rw bytes (omega (arith, total, count)))),
    )
