-- ===== src/Tests/Reassembly.antt =====
-- Runs of the reassembly buffer and of the close buffer.
use bluefin.Prelude.{ℕ, ◌≡◌, refl, ◌∙◌, arith, min, List, [], ◌∷◌, length, set, replicate}
use bluefin.Prelude.{copy_at, length-set, length-replicate, Option, none, some, Bool, true}
use bluefin.Header.Kind.{unencrypted_data, PacketType}
use bluefin.Packet.{Packet}
use bluefin.OrderedBytes
use bluefin.OrderedBytes.{OrderedBytes, buffer_in_packet, consume, consume_bytes}
use bluefin.OrderedBytes.Stream.{stream, IsValid}
use bluefin.OrderedBytes.Read.{Reads, consume-Reads}
use bluefin.OrderedBytes.Insert.{Buffers, buffer_in_packet-Buffers}
use bluefin.OrderedBytes.Chunks.{Drains, consume_bytes-Drains}
use bluefin.Close
use bluefin.Close.{CloseBuffer, CloseState, active, closed, local_fin_sent, peer_fin_received}
use bluefin.Close.{mark_closed, record_local_fin_sent}
use bluefin.Close.Runs.{Event, fin, fin_ack, send_fin_ack, local_fin, run, HasFin, Stays}
use bluefin.Close.Runs.{run-HasFin, run-closed}

abbrev packet : PacketType → ℕ → List ℕ → Packet
packet type n payload = record {
  header = record {
    version = 0;
    type_field = type;
    type_specific_payload = length payload;
    security_fields = record { header_encrypted = Bool.false; header_protection_mask = 0 };
    source_connection_id = 1;
    destination_connection_id = 2;
    packet_number = n;
  };
  payload = payload;
}

abbrev data_10 : Packet
data_10 = packet unencrypted_data 10 (65 ∷ 66 ∷ 67 ∷ [])

-- A buffer that waits for packet 10, with a byte carried over, and with packet 10 at hand.
abbrev waiting : OrderedBytes
waiting = record {
  conn_id = 7;
  packets = replicate 2000 none;
  smallest_packet_number_index = 0;
  smallest_packet_number = 10;
  carry_over_bytes = some (64 ∷ []);
}

abbrev holding : OrderedBytes
holding = record waiting { packets = set (replicate 2000 none) 0 (some data_10) }

holding-IsValid : IsValid holding
holding-IsValid = (
  omega arith,
  length-set (replicate 2000 none) 0 (some data_10)
      ∙ length-replicate {A = Option Packet} 2000 none,
)

consume-Reads_example :
    Reads
      (min 2 (length (stream holding)))
      (stream holding)
      (0 ∷ 0 ∷ [])
      (consume holding 2 (0 ∷ 0 ∷ []))
consume-Reads_example =
    consume-Reads holding 2 (0 ∷ 0 ∷ []) holding-IsValid (omega arith) (omega arith)

consume_bytes-Drains_example : Drains holding [] 4 (consume_bytes holding [] 4)
consume_bytes-Drains_example = consume_bytes-Drains holding [] 4 holding-IsValid

buffer_in_packet-Buffers_example : Buffers waiting data_10 (buffer_in_packet waiting data_10)
buffer_in_packet-Buffers_example =
    buffer_in_packet-Buffers waiting data_10
      (omega arith, length-replicate {A = Option Packet} 2000 none) (omega arith) (omega arith)

-- Two bytes out of the four, and then the rest of packet 10.
consume-carry : (consume holding 2 (0 ∷ 0 ∷ [])).1 ≡ 64 ∷ 65 ∷ []
unfolding consume OrderedBytes.consume_packets OrderedBytes.consume_loop OrderedBytes.take_packet
    OrderedBytes.clear_slot OrderedBytes.wrap_index copy_at
consume-carry = refl

abbrev fin_5 : Packet
fin_5 = packet PacketType.fin 5 []

abbrev closing : List Event
closing = fin fin_5 ∷ send_fin_ack ∷ local_fin 9 ∷ fin_ack (packet PacketType.fin_ack 9 []) ∷ []

run-HasFin_example :
    ((n : ℕ)
      → (run Close.new closing).pending_fin_ack_send ≡ some n
      → HasFin n closing × ((run Close.new closing).peer_fin_observed ≡ true))
    × ((run Close.new closing).peer_fin_observed ≡ true → (n : ℕ) × HasFin n closing)
run-HasFin_example = run-HasFin closing

abbrev shut : CloseBuffer
shut = record {
  state = closed;
  pending_fin_ack_send = some 5;
  received_fin_ack_for = none;
  peer_fin_observed = true;
  fin_ack_notify = 0;
}

run-closed_example : Stays shut (run shut closing)
run-closed_example = run-closed shut closing refl

abbrev fresh : CloseBuffer
fresh = record shut { state = active; pending_fin_ack_send = none; peer_fin_observed = Bool.false }
