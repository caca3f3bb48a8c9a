-- ===== src/Transfer/Stale.antt =====
-- bluefin/src/worker/writer.rs: the last line of a round of `read_data`, which stores the next packet
-- number for `close`, and the sender task, which may send the datagrams of the round before that.
use bluefin.Prelude.{ℕ, suc, ◌^◌, ◌<◌, ◌≤◌, ◌≡◌, refl, ap, arith}
use bluefin.Prelude.{if◌then◌else◌, ltb, lt→ltb, List, [], ◌∷◌, ◌++◌, length}
use bluefin.Prelude.{All, IsByte, add_u64, sub_u64, some, ok, ◌>>=◌}
use bluefin.Packet.{Packet, from_bytes}
use bluefin.Writer.Chunk.{number_after}
use bluefin.Writer.Pump
use bluefin.Writer.Pump.{
  Pump, Packed, Course, Step, send, round, store, transmission, pack, packed_one,
}
use bluefin.Transfer.Single.{pack-all, single}

emptied :
    (size : ℕ)
    → 0 < size
    → size ≤ 700
    → (if ltb 0 size then sub_u64 (add_u64 0 size) size else add_u64 0 size) ≡ 0
emptied size pos small = rw (lt→ltb 0 size pos) (omega arith)

flush-emptied : (p : Pump) → p.pending_bytes ≡ 0 → Pump.flush p ≡ some (ok tt)
unfolding Pump.flush
flush-emptied p e = rw e refl

-- A started writer that has nothing to do.
abbrev pub idle : ℕ → ℕ → ℕ → List (List ℕ) → Pump
idle src dst n wire = record (Pump.start (Pump.new n src dst)) { wire = wire }

-- The datagram of the payload, from the packet number `n` on, is on the wire and `flush` returns; the
-- number that `close` reserves next is `next`.
abbrev pub Flushed : List (List ℕ) → List ℕ → ℕ → Course → Type 0
Flushed wire d next c =
    (c.pump.wire ≡ wire ++ (d ∷ []))
    × (Pump.flush c.pump ≡ some (ok tt))
    × ((Pump.reserve_close_packet_num c.pump).1 ≡ next)

abbrev pub Stale : List ℕ → ℕ → ℕ → ℕ → List (List ℕ) → Type 0
Stale payload src dst n wire =
    (stale stored : Course) × (d : List ℕ) × (q : Packet) × (qs : List Packet) × (from_bytes d
      ≡ ok (q ∷ qs))
    × (q.header.packet_number ≡ n)
    × (Pump.run (record { pump = idle src dst n wire; accepted = [] })
          (send payload ∷ round ∷ transmission ∷ [])
        ≡ ok stale)
    × Flushed wire d n stale
    × (Pump.run (record { pump = idle src dst n wire; accepted = [] })
          (send payload ∷ round ∷ store ∷ transmission ∷ [])
        ≡ ok stored)
    × Flushed wire d (number_after n (suc (length qs))) stored

-- The writer after the call, and after the round that packs its payload.
abbrev called : List ℕ → ℕ → ℕ → ℕ → List (List ℕ) → Course
called payload src dst n wire = record {
  pump = record (idle src dst n wire) {
    channel = payload ∷ [];
    pending_bytes = add_u64 0 (length payload);
  };
  accepted = payload ∷ [];
}

abbrev packed_pump : List ℕ → ℕ → ℕ → ℕ → List (List ℕ) → ℕ → List ℕ → Course
packed_pump payload src dst n wire m d =
    let c : Course = called payload src dst n wire in
    record c {
      pump = record c.pump {
        channel = [];
        next_packet_num = m;
        sending = (d, length payload) ∷ [];
      };
    }

run-called :
    (payload : List ℕ) (src dst n : ℕ) (wire : List (List ℕ)) (m : ℕ) (d : List ℕ) (ss : List Step)
    → pack 12 src dst (record { queue = payload ∷ []; next = n; datagrams = [] })
      ≡ ok (record { queue = []; next = m; datagrams = (d, length payload) ∷ [] })
    → Pump.run (record { pump = idle src dst n wire; accepted = [] }) (send payload ∷ round ∷ ss)
      ≡ Pump.run (packed_pump payload src dst n wire m d) ss
unfolding Pump.run Pump.step Pump.start Pump.new Pump.send_bytes Pump.send_checked Pump.on_send
    Pump.read_data Pump.read_round
run-called payload src dst n wire m d ss packed =
    let c : Course = called payload src dst n wire in
    ap
      (λ r.
        ((r >>= λ s. ok (record c.pump {
          channel = [];
          data_queue = s.queue;
          next_packet_num = s.next;
          sending = s.datagrams;
        }))
          >>= λ p. ok (record c { pump = p }))
        >>= λ x. Pump.run x ss)
      packed

-- A started writer with nothing to send gets a payload of 1 to 700 bytes. When the round has packed it
-- and the sender task has sent its datagram, `flush` returns, whether the round has stored its next
-- packet number or not. If not, the number that `close` then reserves is the number of the first data
-- packet of that datagram, as the parser reads it; if so, it is the number behind the last one. The ids
-- are below 2^32 and the number below 2^64.
pub reserve-Stale :
    (payload : List ℕ) (src dst n : ℕ) (wire : List (List ℕ))
    → src < 2 ^ 32
    → dst < 2 ^ 32
    → n < 2 ^ 64
    → All IsByte payload
    → 0 < length payload
    → length payload ≤ 700
    → Stale payload src dst n wire
unfolding Pump.run Pump.step Pump.start Pump.new Pump.publish Pump.transmit Pump.transmit_first
    Pump.reserve_close_packet_num
reserve-Stale payload src dst n wire hs hd hn hb pos small =
    let (d, q, qs, m, run, read, first, after) = single payload src dst n hs hd hn hb pos small in
    let packed = pack-all 10 src dst n (payload ∷ []) m (length payload) d pos run in
    let gone = emptied (length payload) pos small in
    let c : Course = packed_pump payload src dst n wire m d in
    let stale : Course = record c { pump = Pump.transmit c.pump } in
    let stored : Course = record c { pump = Pump.transmit (Pump.publish c.pump) } in
    (
      stale,
      stored,
      d,
      q,
      qs,
      read,
      first,
      run-called payload src dst n wire m d (transmission ∷ []) packed,
      (refl, flush-emptied stale.pump gone, refl),
      run-called payload src dst n wire m d (store ∷ transmission ∷ []) packed,
      (refl, flush-emptied stored.pump gone, after),
    )
