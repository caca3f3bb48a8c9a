-- ===== src/Tests/Sending.antt =====
-- Runs of the writer and of the handshake.
use bluefin.Prelude.{ℕ, ◌<◌, ◌+◌, ◌*◌, ◌≤◌, ◌≡◌, arith, List, [], ◌∷◌, ◌++◌, length, take, drop}
use bluefin.Prelude.{map, true, false, not, is_empty, ok}
use bluefin.Prelude.{joined}
use bluefin.Header.Kind.{unencrypted_client_hello}
use bluefin.Header.Kind.{fin, fin_ack}
use bluefin.Packet.{Packet, from_bytes}
use bluefin.Packet.Wire.{serialise_all}
use bluefin.Writer.{AckData, consume_data_into, consume_acks_into}
use bluefin.Receive.Defs.{fin_sent, fin_ack_sent}
use bluefin.Writer.Control.{send_fin, send_fin_ack, Heard, send_fin-Heard}
use bluefin.Writer.Chunk.{data_packets}
use bluefin.Writer.Datagram.{Datagram, consume_data_into-Datagram, from_bytes-consume_data_into}
use bluefin.Writer.AckRow.{ack_packet, consume_acks_into-lem}

abbrev queued : List (List ℕ)
queued = (65 ∷ 66 ∷ []) ∷ [] ∷ (67 ∷ []) ∷ []

consume_data_into-Datagram_example : Datagram queued 7 1 2 (consume_data_into queued 7 1 2 [])
consume_data_into-Datagram_example = consume_data_into-Datagram queued 7 1 2

from_bytes-consume_data_into_example :
    (cs : List (List ℕ)) × (out : List (List ℕ) × ℕ × List ℕ × ℕ) × (consume_data_into queued 7 1 2
        []
      ≡ ok out)
    × (from_bytes out.2 ≡ ok (data_packets 1 2 7 cs))
    × (joined cs ++ joined out.0 ≡ joined queued)
    × (out.3 ≡ length (joined cs))
    × (0 < out.3)
    × (length (joined cs) + 20 * length cs ≤ 15200)
from_bytes-consume_data_into_example =
    from_bytes-consume_data_into queued 7 1 2 (omega arith) (omega arith) (omega arith)
      (unfold joined in (omega arith, (omega arith, (omega arith, tt))))
      (unfold joined in omega arith)

abbrev acks : List AckData
acks = record { base_packet_num = 7; num_packets_consumed = 200 } ∷ []

consume_acks_into-lem_example :
    consume_acks_into acks 1 2 []
    ≡ ok (drop 760 acks, serialise_all (map (ack_packet 1 2) (take 760 acks)), not (is_empty acks))
consume_acks_into-lem_example = consume_acks_into-lem acks 1 2

abbrev hello : Packet
hello = record {
  header = record {
    version = 0;
    type_field = unencrypted_client_hello;
    type_specific_payload = 0;
    security_fields = record { header_encrypted = false; header_protection_mask = 0 };
    source_connection_id = 1;
    destination_connection_id = 0;
    packet_number = 6;
  };
  payload = [];
}

send_fin-Heard_example :
    Heard true fin 1 2 41 (fin_sent 41) (send_fin true 1 2 41) 2 [] "connection refused"
    × Heard true fin_ack 1 2 41
        (fin_ack_sent 41)
        (send_fin_ack true 1 2 41)
        2
        []
        "connection refused"
send_fin-Heard_example =
    send_fin-Heard true 1 2 41 2 [] "connection refused" (omega arith) (omega arith) (omega arith)
