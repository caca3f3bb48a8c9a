-- ===== src/Tests/Receiving.antt =====
-- Runs of the receive tasks, the reader and the close.
use bluefin.Prelude.{ℕ, ◌+◌, ◌*◌, ◌≡◌, ◌≤◌, ◌<◌, inl, inr, refl, arith, min}
use bluefin.Prelude.{List, [], ◌∷◌, length, none, some, Bool, true, false}
use bluefin.Prelude.{ok, buffer_empty_error}
use bluefin.Header.Kind.{PacketType, unencrypted_data, fin}
use bluefin.Header.Kind.{unencrypted_client_hello}
use bluefin.Packet.{Packet}
use bluefin.OrderedBytes
use bluefin.OrderedBytes.{ConsumeResult}
use bluefin.OrderedBytes.Stream.{stream, payloads}
use bluefin.OrderedBytes.Reassemble.{Has, Numbered}
use bluefin.OrderedBytes.Rows.{new-IsValid, new-IsEmpty}
use bluefin.Close
use bluefin.Conn
use bluefin.Conn.{ConnectionBuffer, AckBuffer}
use bluefin.Handshake.{pack_leader, is_hello_packet}
use bluefin.Receive.Defs.{ConnectionManagedBuffers, Effects, woken_by, buffer_in_packets}
use bluefin.Receive.Read.{Reader, read, poll_read, quiet}
use bluefin.Receive.Data.{rx_impl, IsData, IsDataType, all_packets, rx_impl-stream}
use bluefin.Receive.Closing.{OkOrPanic, IsUnmixed, buffer_in_packets-OkOrPanic}
use bluefin.Receive.Eof.{IsOpen, fin-eof}
use bluefin.Receive.Reads.{tell_all, total_packets, tell_all-Cadence, Delivers, read-Delivers}
use bluefin.Receive.Hellos.{Event, hello, accept, IsFair, run, run-IsFair}
use bluefin.Receive
use bluefin.Receive.Hellos
use bluefin.Conn.Manager.{Key}
use bluefin.Receive.Run.{Host, Locks}
use bluefin.Receive.Routes.{Routes, target}

abbrev packet : PacketType → ℕ → ℕ → ℕ → List ℕ → Packet
packet type src dst n payload = record {
  header = record {
    version = 0;
    type_field = type;
    type_specific_payload = length payload;
    security_fields = record { header_encrypted = Bool.false; header_protection_mask = 0 };
    source_connection_id = src;
    destination_connection_id = dst;
    packet_number = n;
  };
  payload = payload;
}

abbrev data_10 : Packet
data_10 = packet unencrypted_data 1 7 10 (65 ∷ 66 ∷ [])

abbrev data_11 : Packet
data_11 = packet unencrypted_data 1 7 11 (67 ∷ [])

-- Buffers of connection 7 that wait for packet 10, with the waker 5, of a peer at address 3.
abbrev buffers : ConnectionManagedBuffers ℕ ℕ
buffers = record {
  conn_buff = record {
    ordered_bytes = OrderedBytes.new 7 10;
    addr = some 3;
    waker = some 5;
    packet = none;
    dst_conn_id = 1;
    host_type = pack_leader;
    start_packet_number_is_set = true;
  };
  ack_buff = Conn.new_ack_buffer 20;
  close_buff = Close.new;
  fin_ack_tx = true;
  diag_tx = false;
}

abbrev arrivals : List (List Packet)
arrivals = (data_11 ∷ []) ∷ (data_10 ∷ data_11 ∷ []) ∷ []

rx_impl-stream_example :
    (m : ConnectionManagedBuffers ℕ ℕ) × (rx_impl buffers arrivals ≡ ok m)
    × (stream m.conn_buff.ordered_bytes ≡ payloads (data_10 ∷ data_11 ∷ []))
    × (m.ack_buff ≡ buffers.ack_buff)
    × (m.close_buff ≡ buffers.close_buff)
rx_impl-stream_example =
    rx_impl-stream buffers arrivals (data_10 ∷ data_11 ∷ [])
      (unfold IsData in unfold IsDataType in (tt, (tt, tt))) (new-IsValid 7 10) (new-IsEmpty 7 10)
      (unfold Numbered in unfold OrderedBytes.new in (refl, (refl, tt))) (omega arith) (omega arith)
      (unfold OrderedBytes.new in omega arith)
      (unfold all_packets in unfold Has in (inr (inl refl), (inl refl, (inr (inl refl), tt))))
      (unfold all_packets in unfold Has in (inr (inl refl), (inl refl, tt)))

buffer_in_packets-OkOrPanic_example :
    OkOrPanic
      (IsUnmixed (packet fin 1 7 12 [] ∷ data_10 ∷ []))
      (buffer_in_packets buffers (packet fin 1 7 12 [] ∷ data_10 ∷ []))
buffer_in_packets-OkOrPanic_example =
    buffer_in_packets-OkOrPanic buffers (packet fin 1 7 12 [] ∷ data_10 ∷ [])

-- The `Fin` has a number below those of the data.
fin-eof_example :
    (m : ConnectionManagedBuffers ℕ ℕ) × (fx : Effects ℕ) × (buffer_in_packets buffers
        (packet fin 1 7 3 [] ∷ [])
      ≡ ok (m, fx, ok tt))
    × (fx.woken ≡ woken_by (some 5))
    × (fx.fin_acks ≡ 3 ∷ [])
    × (m.conn_buff ≡ buffers.conn_buff)
    × ((will_wake : ℕ → ℕ → Bool) (w : ℕ)
        → (poll_read will_wake m.close_buff.peer_fin_observed m.conn_buff w).1 ≡ true)
    × ((r : Reader) (n : ℕ) (buf : List ℕ)
        → read r m.close_buff.peer_fin_observed m.conn_buff n buf
          ≡ (m.conn_buff, buf, quiet r, ok (0, 3)))
fin-eof_example =
    fin-eof buffers (packet fin 1 7 3 []) 3 buffer_empty_error refl
      (unfold IsOpen in unfold Close.new in tt)
      (unfold Conn.peek in unfold OrderedBytes.peek in unfold OrderedBytes.new in refl) refl

-- A reader that has read 199 packets, and one more.
abbrev results : List ConsumeResult
results =
    record { num_packets_consumed = 199; base_packet_number = 10; bytes_consumed = 199 }
    ∷ record { num_packets_consumed = 1; base_packet_number = 209; bytes_consumed = 1 }
    ∷ []

tell_all-Cadence_example :
    ((tell_all (Receive.Read.new false) results).0.packets_consumed < 200)
    × (200 * length (tell_all (Receive.Read.new false) results).1
          + (tell_all (Receive.Read.new false) results).0.packets_consumed
        ≤ total_packets results)
tell_all-Cadence_example =
    tell_all-Cadence false results ((λ _. omega arith), ((λ _. omega arith), tt))

-- The one ack is for the last packet, not for the 199 before it.
tell_all_200 :
    (tell_all (Receive.Read.new false) results).1
    ≡ record { base_packet_num = 209; num_packets_consumed = 1 } ∷ []
unfolding tell_all Receive.Read.new Receive.Read.tell Receive.Read.is_due
tell_all_200 = refl

read-Delivers_example :
    Delivers
      (read (Receive.Read.new false) false buffers.conn_buff 4 (0 ∷ 0 ∷ 0 ∷ 0 ∷ []))
      3
      (min 4 (length (stream buffers.conn_buff.ordered_bytes)))
      (stream buffers.conn_buff.ordered_bytes)
      (0 ∷ 0 ∷ 0 ∷ 0 ∷ [])
read-Delivers_example =
    read-Delivers (Receive.Read.new false) false buffers.conn_buff 3 4 (0 ∷ 0 ∷ 0 ∷ 0 ∷ [])
      (new-IsValid 7 10) (unfold Receive.Read.eof in refl) refl (omega arith) (omega arith)

abbrev opening : Packet
opening = packet unencrypted_client_hello 1 0 6 []

-- A hello that waits, the accept that takes it, and an accept that waits for the next hello.
abbrev events : List (Event ℕ)
events = hello opening 3 ∷ accept 7 ∷ accept 8 ∷ hello opening 4 ∷ []

run-IsFair_example : IsFair (run (Hellos.new {Addr = ℕ}) events)
run-IsFair_example = run-IsFair events

abbrev server : Host ℕ ℕ
server = record {
  hellos = record { pending_accept_ids = []; hello_queue = [] };
  connections = ((7, 1), buffers) ∷ [];
}

abbrev datagram : List ℕ
datagram = 3 ∷ 0 ∷ 1 ∷ 0 ∷ 0 ∷ 0 ∷ 0 ∷ 1 ∷ 0 ∷ 0 ∷ 0 ∷ 7 ∷ 0 ∷ 0 ∷ 0 ∷ 0 ∷ 0 ∷ 0 ∷ 0 ∷ 10 ∷ 65 ∷ []

abbrev unlocked : Key → Locks
unlocked key = record { conn_poisoned = Bool.false; ack_poisoned = Bool.false }

-- Data for connection 7 from peer 1.
target-datagram : target pack_leader [] (data_10 ∷ []) ≡ some ((7, 1), false)
unfolding is_hello_packet
target-datagram = refl
