-- ===== src/Tests/Flushing.antt =====
-- Runs of the writer with its tasks, of the handshake between the hosts, and of the close.
use mathlib.Core.Path.{subst}
use bluefin.Prelude.{zero, suc, sym, ap, ℕ, ◌^◌, ◌≡◌, ◌<◌, refl, arith}
use bluefin.Prelude.{
  List, [], ◌∷◌, ◌++◌, length, joined, append-nil, All, IsByte, replicate, length-replicate,
}
use bluefin.Prelude.{none, some, Bool, true, false, ok, err}
use bluefin.Prelude.{unexpected_packet_number_error, std_io_error}
use bluefin.Header.Kind.{
  PacketType, unencrypted_data, fin_ack, client_ack, unencrypted_client_hello,
}
use bluefin.Packet.{Packet}
use bluefin.OrderedBytes
use bluefin.OrderedBytes.{OrderedBytes}
use bluefin.Close
use bluefin.Close.{CloseBuffer, closed, local_fin_sent, record_local_fin_sent}
use bluefin.Conn
use bluefin.Conn.{ConnectionBuffer, poll_handshake, buffer_in_bytes}
use bluefin.Handshake.{pack_leader}
use bluefin.Hosts.{accept_ack, connect_first_number}
use bluefin.Hosts.Start.{handshake_packet, accept-first_number, accept_queued-refuses}
use bluefin.Shutdown.{
  Attempt, Ending, breaks, Ends, Registered, close, attempts, after_send, arrives, is_acked,
  deregistered, close-Ends,
}
use bluefin.Transfer.Flush.{received, datagrams_of, total}
use bluefin.Transfer.Sound.{IsSound, IsProper, under_way, weight}
use bluefin.Transfer.Flushed.{run-flushed}
use bluefin.Transfer.Stale.{Stale, reserve-Stale}
use bluefin.Transfer.Stall.{IsTask, large_payload-stalls}
use bluefin.Writer.AckPump
use bluefin.Writer.AckPump.{AckPump}
use bluefin.Writer.AckKeeps.{flow, written}
use bluefin.Writer.AckFlow.{sent_acks, run-flow}
use bluefin.Writer.Pump
use bluefin.Writer.Pump.{Pump, Course, Step, send, round, store, transmission, reserve, mark}

abbrev queue : List (List ℕ)
queue = (65 ∷ 66 ∷ []) ∷ (67 ∷ []) ∷ []

abbrev fresh : OrderedBytes
fresh = OrderedBytes.new 7 10

abbrev steps : List Step
steps = send (65 ∷ 66 ∷ []) ∷ round ∷ store ∷ send (67 ∷ []) ∷ transmission ∷ round ∷ []

run-flushed_example :
    (c : Course) × (Pump.run (record { pump = Pump.start (Pump.new 10 1 7); accepted = [] }) steps
      ≡ ok c)
    × (received c.pump.wire ++ under_way c.pump.sending c.pump.data_queue c.pump.channel
        ≡ joined c.accepted)
    × (Pump.flush c.pump ≡ some (ok tt)
        → weight c.pump.sending c.pump.data_queue c.pump.channel < 2 ^ 64
        → received c.pump.wire ≡ joined c.accepted)
run-flushed_example = run-flushed 10 1 7 steps (omega arith) (omega arith) (omega arith) (
    unfold IsProper in
    (
      ((omega arith, (omega arith, tt)), omega arith),
      (tt, (tt, (((omega arith, tt), omega arith), (tt, (tt, tt))))),
    ))

-- A writer whose channel holds one payload.
abbrev loaded : List ℕ → Course
loaded payload = record {
  pump = record (Pump.start (Pump.new 10 1 7)) {
    channel = payload ∷ [];
    pending_bytes = length payload;
  };
  accepted = payload ∷ [];
}

loaded-IsSound :
    (payload : List ℕ) → All IsByte payload → length payload < 2 ^ 64 → IsSound (loaded payload)
unfolding Pump.start Pump.new joined received datagrams_of total
loaded-IsSound payload hb small = (
  omega arith,
  omega arith,
  omega arith,
  tt,
  subst (All IsByte) (sym (append-nil payload)) hb,
  tt,
  refl,
  (let e = ap length (append-nil payload) in omega (arith, e, small)),
)

All-replicate : (n : ℕ) → All IsByte (replicate n 65)
All-replicate zero = tt
All-replicate (suc n) = (omega arith, All-replicate n)

large_payload-stalls_example :
    (c : Course) × (Pump.run (loaded (replicate 200000 65)) (round ∷ transmission ∷ round ∷ [])
      ≡ ok c)
    × (Pump.flush c.pump ≡ none)
large_payload-stalls_example =
    let size : length {A = ℕ} (replicate 200000 65) ≡ 200000 = length-replicate {A = ℕ} 200000 65 in
    large_payload-stalls (loaded (replicate 200000 65)) (replicate 200000 65)
      (transmission ∷ round ∷ [])
      (loaded-IsSound (replicate 200000 65) (All-replicate 200000) (omega (arith, size))) refl
      (unfold Pump.start in unfold Pump.new in refl) (unfold Pump.start in unfold Pump.new in refl)
      (omega (arith, size)) (omega (arith, size)) (unfold IsTask in (tt, (tt, tt)))

abbrev packet : PacketType → ℕ → ℕ → ℕ → Packet
packet type src dst n = record {
  header = record {
    version = 0;
    type_field = type;
    type_specific_payload = 0;
    security_fields = record { header_encrypted = Bool.false; header_protection_mask = 0 };
    source_connection_id = src;
    destination_connection_id = dst;
    packet_number = n;
  };
  payload = [];
}

abbrev will_wake : ℕ → ℕ → Bool
will_wake a b = true

accept-first_number_example :
    (let p : Packet = packet unencrypted_client_hello 1 0 6 in
      let q : Packet = packet client_ack 1 7 7 in
      let c : ConnectionBuffer ℕ ℕ =
        handshake_packet will_wake 5 (Conn.new 7 pack_leader) p 3 true false in
      let c' : ConnectionBuffer ℕ ℕ =
        handshake_packet will_wake 5 (poll_handshake will_wake c 5).0 q 3 false true in
      ((poll_handshake will_wake c 5).1 ≡ some (p, 3))
      × ((poll_handshake will_wake c' 5).1 ≡ some (q, 3))
      × (accept_ack 6 q ≡ ok tt)
      × (c'.ordered_bytes.smallest_packet_number ≡ connect_first_number 6))
accept-first_number_example =
    accept-first_number will_wake 5 7 (packet unencrypted_client_hello 1 0 6)
      (packet client_ack 1 7 7) 3 3 refl

accept_queued-refuses_example :
    (let c : ConnectionBuffer ℕ ℕ =
        handshake_packet will_wake 5
          (Conn.new 7 pack_leader)
          (packet client_ack 1 7 7)
          3
          false
          true in
      ((poll_handshake will_wake c 5).1 ≡ some (packet client_ack 1 7 7, 3))
      × (accept_ack 6 (packet client_ack 1 7 7) ≡ ok tt)
      × (buffer_in_bytes c (packet unencrypted_data 1 7 8)
          ≡ (c, err unexpected_packet_number_error)))
accept_queued-refuses_example =
    accept_queued-refuses will_wake 5 7 6 (packet client_ack 1 7 7) (packet unencrypted_data 1 7 8)
      3 (omega arith) refl (unfold connect_first_number in refl)

abbrev silent : Attempt
silent = record { fin_error = none; before = []; during = []; notified = false }

abbrev unreachable : Attempt
unreachable = record {
  fin_error = some (std_io_error "refused");
  before = [];
  during = [];
  notified = false;
}

abbrev answered : Attempt
answered = record {
  fin_error = none;
  before = [];
  during = packet fin_ack 1 7 10 ∷ [];
  notified = true;
}

close-Ends_example :
    (let e : Ending ℕ =
        close (Pump.new 10 1 7) Close.new (((7, 1), 0) ∷ []) (7, 1) silent answered unreachable in
      (e.pump.closed ≡ true)
      × Ends 10
          (record_local_fin_sent Close.new 10)
          (silent ∷ answered ∷ unreachable ∷ [])
          []
          (e.close_buff, e.fins, e.stop)
      × Registered (((7, 1), 0) ∷ []) (7, 1) e.stop e.connections)
unfolding Pump.new
close-Ends_example =
    close-Ends (Pump.new 10 1 7) Close.new (((7, 1), 0) ∷ []) (7, 1) silent answered unreachable

-- Two `Fin`s, and then the socket fails: the connection keeps its entry and is not closed.
close_broken :
    (let e : Ending ℕ =
        close (Pump.new 10 1 7) Close.new (((7, 1), 0) ∷ []) (7, 1) silent silent unreachable in
      (e.stop ≡ breaks (std_io_error "refused"))
      × (e.fins ≡ 10 ∷ 10 ∷ [])
      × (e.connections ≡ ((7, 1), 0) ∷ [])
      × (e.close_buff.state ≡ local_fin_sent 10))
unfolding close attempts after_send arrives is_acked deregistered Pump.new Pump.mark_closed
    Pump.reserve_close_packet_num record_local_fin_sent Close.new
close_broken = (refl, refl, refl, refl)

reserve-Stale_example : Stale (65 ∷ 66 ∷ []) 1 7 10 []
reserve-Stale_example =
    reserve-Stale (65 ∷ 66 ∷ []) 1 7 10 [] (omega arith) (omega arith) (omega arith)
      (omega arith, (omega arith, tt)) (omega arith) (omega arith)

-- An ack that the socket does not take at first.
abbrev ack_steps : List AckPump.Step
ack_steps =
    AckPump.send (record { base_packet_num = 10; num_packets_consumed = 200 })
    ∷ AckPump.round (λ n. false)
    ∷ AckPump.round (λ n. true)
    ∷ []

run-flow_example :
    (p : AckPump) × (AckPump.run (AckPump.new 1 7) ack_steps ≡ ok p)
    × (flow p ≡ written 1 7 (sent_acks ack_steps))
run-flow_example = run-flow 1 7 ack_steps
