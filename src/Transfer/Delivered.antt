-- ===== src/Transfer/Delivered.antt =====
-- bluefin/src/worker: from the bytes that a caller hands to the writer of one host to the bytes that the
-- reader of the other host finds ready.
use mathlib.Core.Path.{subst}
use bluefin.Prelude.{ℕ, ◌+◌, ◌^◌, ◌<◌, ◌≤◌, ◌≡◌, refl, sym, ◌∙◌, ap, arith}
use bluefin.Prelude.{List, [], ◌++◌, map, length}
use bluefin.Prelude.{joined, All, none, ok}
use bluefin.Prelude.{◌>>=◌}
use bluefin.Writer.Pump
use bluefin.Writer.Pump.{Step, Course}
use bluefin.OrderedBytes.Stream.{IsValid, stream, payloads}
use bluefin.OrderedBytes.Reassemble.{Numbered}
use bluefin.OrderedBytes.Rows.{IsEmpty}
use bluefin.Receive.Defs.{ConnectionManagedBuffers}
use bluefin.Receive.Data.{rx_impl-stream}
use bluefin.Receive.Tasks.{datagram, recv_and_buffer_inline, parsed, inline-rx_impl}
use bluefin.Transfer.{payloads-data_packets, data_packets-Numbered, length-data_packets}
use bluefin.Transfer.Flush.{received, datagrams_of, ok-inj}
use bluefin.Transfer.Sound.{IsSound, IsProper, under_way}
use bluefin.Transfer.Flushed.{start-IsSound}
use bluefin.Transfer.Laid.{Laid}
use bluefin.Transfer.Numbers.{IsLaid, run-IsLaid}
use bluefin.Transfer.Arrivals.{
  In, packets_in, Carries, packets_in-among, All-of, All-Carries, Laid-packets_in, Laid-front,
  Carries-Harmless, Carries-IsData,
}

start-IsLaid :
    (n src dst : ℕ) → IsLaid n (record { pump = Pump.start (Pump.new n src dst); accepted = [] })
unfolding Pump.start Pump.new datagrams_of
start-IsLaid n src dst = refl

-- What arrives of numbered datagrams, in any order and any number of times, each at least once, in
-- buffers that wait for the first number.
module _ {Addr Waker : Type 0} (m : ConnectionManagedBuffers Addr Waker)
    (v : IsValid m.conn_buff.ordered_bytes) (empty : IsEmpty m.conn_buff.ordered_bytes) where
  arrivals-stream :
      (src dst k : ℕ) (ds arrivals : List (List ℕ))
      → Laid src dst m.conn_buff.ordered_bytes.smallest_packet_number ds k
      → All (λ d. In d ds) arrivals
      → All (λ d. In d arrivals) ds
      → 0 < length (packets_in ds)
      → length (packets_in ds) ≤ 2000
      → m.conn_buff.ordered_bytes.smallest_packet_number + length (packets_in ds) ≤ 2 ^ 64
      → (m' : ConnectionManagedBuffers Addr Waker) × (recv_and_buffer_inline m
            (map datagram arrivals)
          ≡ ok (m', none))
        × (stream m'.conn_buff.ordered_bytes ≡ received ds)
  arrivals-stream src dst k ds arrivals laid from all some_sent few bound =
      let n : ℕ = m.conn_buff.ordered_bytes.smallest_packet_number in
      let (cs, packets, bytes, carried) = Laid-packets_in src dst n k ds laid in
      let carried' : All Carries arrivals = All-Carries arrivals ds carried from in
      let count : length (packets_in ds) ≡ length cs =
        ap length packets ∙ length-data_packets src dst n cs in
      let numbered : Numbered n (packets_in ds) =
        subst (Numbered n) (sym packets)
          (data_packets-Numbered src dst n cs (omega (arith, count, bound))) in
      let (m', run, arrived, _, _) =
        rx_impl-stream m (parsed arrivals) (packets_in ds) (Carries-IsData arrivals carried') v
          empty numbered some_sent few bound
          (All-of (packets_in arrivals)
            (λ p h. packets_in-among p arrivals ds carried' carried from h))
          (All-of (packets_in ds) (λ p h. packets_in-among p ds arrivals carried carried' all h)) in
      (
        m',
        inline-rx_impl m arrivals (Carries-Harmless arrivals carried')
            ∙ ap (λ r. r >>= λ x. ok (x, none)) run,
        arrived ∙ ap payloads packets ∙ payloads-data_packets src dst n cs ∙ sym bytes,
      )

  -- From one host to the other. A writer ran from its start, with any calls and any steps of its tasks,
  -- in any order. What the task of the receiver gets are the datagrams on the wire, in any order, each
  -- at least once, and its buffers are empty and wait for the writer's first packet number. Then it
  -- does not panic, and the bytes that lie ready for the reader are the front of the bytes of all
  -- payloads that the writer accepted, in order, and the rest is under way. The connection ids fit,
  -- the payloads are bytes, and the packets on the wire are 1 to 2000, with numbers below 2^64.
  pub run-delivered :
      (src dst : ℕ) (ss : List Step) (c : Course) (arrivals : List (List ℕ))
      → m.conn_buff.ordered_bytes.smallest_packet_number < 2 ^ 64
      → src < 2 ^ 32
      → dst < 2 ^ 32
      → All IsProper ss
      → Pump.run
          (record {
            pump = Pump.start (Pump.new m.conn_buff.ordered_bytes.smallest_packet_number src dst);
            accepted = [];
          })
          ss
        ≡ ok c
      → All (λ d. In d c.pump.wire) arrivals
      → All (λ d. In d arrivals) c.pump.wire
      → 0 < length (packets_in c.pump.wire)
      → length (packets_in c.pump.wire) ≤ 2000
      → m.conn_buff.ordered_bytes.smallest_packet_number + length (packets_in c.pump.wire) ≤ 2 ^ 64
      → (m' : ConnectionManagedBuffers Addr Waker) × (recv_and_buffer_inline m
            (map datagram arrivals)
          ≡ ok (m', none))
        × (stream m'.conn_buff.ordered_bytes
              ++ under_way c.pump.sending c.pump.data_queue c.pump.channel
            ≡ joined c.accepted)
  run-delivered src dst ss c arrivals hn hs hd proper run from all some_sent few bound =
      let n : ℕ = m.conn_buff.ordered_bytes.smallest_packet_number in
      let (c', run', sound', laid') =
        run-IsLaid n (record { pump = Pump.start (Pump.new n src dst); accepted = [] }) ss proper
          (start-IsSound n src dst hn hs hd) (start-IsLaid n src dst) in
      let same : c' ≡ c = ok-inj c' c (sym run' ∙ run) in
      let laid : IsLaid n c = subst (IsLaid n) same laid' in
      let sound : IsSound c = subst IsSound same sound' in
      let (k, front) =
        Laid-front c.pump.src_conn_id c.pump.dst_conn_id n c.pump.next_packet_num c.pump.wire
          (datagrams_of c.pump.sending) laid in
      let (m', received_all, bytes) =
        arrivals-stream c.pump.src_conn_id c.pump.dst_conn_id k c.pump.wire arrivals front from all
          some_sent few bound in
      (
        m',
        received_all,
        ap (λ xs. xs ++ under_way c.pump.sending c.pump.data_queue c.pump.channel) bytes ∙ sound.6,
      )
