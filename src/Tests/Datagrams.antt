-- ===== src/Tests/Datagrams.antt =====
-- Datagrams: an acknowledgement and a data packet in a row, and malformed ones.
use bluefin.Prelude.{ℕ, ◌≡◌, ◌≢◌, refl, arith, List, [], ◌∷◌}
use bluefin.Prelude.{ok, err, panic, stuck, to_be_bytes, from_be_bytes, All, read_error}
use bluefin.Prelude.{replicate}
use bluefin.Header
use bluefin.Header.{Header, ack, unencrypted_data, as_u8, from_u8, first_byte}
use bluefin.Header.Security
use bluefin.Packet
use bluefin.Packet.{Packet, next_packet, has_header, from_bytes_loop, from_bytes_into_loop}
use bluefin.Packet.Wire.{IsPacket, EndsWell, serialise_all}
use bluefin.Packet.RoundTrip.{from_bytes-serialise_all}
use bluefin.Packet.Datagram.{from_bytes-exact}
use bluefin.Packet.Total.{
  from_bytes-ne-stuck, from_bytes_into-from_bytes, SameOutcome, from_bytes_unknown_type,
}

abbrev ack_packet : Packet
ack_packet = record {
  header = record {
    version = 13;
    type_field = ack;
    type_specific_payload = 13;
    security_fields = Security.default;
    source_connection_id = 1;
    destination_connection_id = 2;
    packet_number = 7;
  };
  payload = [];
}

abbrev data_with : ℕ → List ℕ → Packet
data_with n bytes = record {
  header = record {
    version = 0;
    type_field = unencrypted_data;
    type_specific_payload = n;
    security_fields = Security.default;
    source_connection_id = 1;
    destination_connection_id = 2;
    packet_number = 7;
  };
  payload = bytes;
}

abbrev two : List Packet
two = ack_packet ∷ data_with 3 (9 ∷ 8 ∷ 7 ∷ []) ∷ []

abbrev two_bytes : List ℕ
two_bytes =
    0xd4 ∷ 0 ∷ 13 ∷ 0 ∷ 0 ∷ 0 ∷ 0 ∷ 1 ∷ 0 ∷ 0 ∷ 0 ∷ 2 ∷ 0 ∷ 0 ∷ 0 ∷ 0 ∷ 0 ∷ 0 ∷ 0 ∷ 7 ∷ 0x03 ∷ 0 ∷ 3
    ∷ 0 ∷ 0 ∷ 0 ∷ 0 ∷ 1 ∷ 0 ∷ 0 ∷ 0 ∷ 2 ∷ 0 ∷ 0 ∷ 0 ∷ 0 ∷ 0 ∷ 0 ∷ 0 ∷ 7 ∷ 9 ∷ 8 ∷ 7 ∷ []

serialise_all-two : serialise_all two ≡ two_bytes
unfolding Packet.serialise Header.serialise first_byte as_u8 Security.serialise Security.default
    to_be_bytes
serialise_all-two = refl

from_bytes-two : Packet.from_bytes two_bytes ≡ ok two
unfolding Packet.from_bytes from_bytes_loop has_header next_packet Header.deserialise from_u8
    Security.deserialise Security.default from_be_bytes
from_bytes-two = refl

-- A payload length one above, and one below, what the datagram holds.
from_bytes_long :
    Packet.from_bytes (serialise_all (data_with 4 (9 ∷ 8 ∷ 7 ∷ []) ∷ []))
    ≡ err (read_error "Cannot read all bytes specified by header")
unfolding Packet.from_bytes from_bytes_loop has_header next_packet Header.deserialise from_u8
    Security.deserialise Security.default from_be_bytes Packet.serialise Header.serialise first_byte
    as_u8 Security.serialise to_be_bytes
from_bytes_long = refl

from_bytes_short :
    Packet.from_bytes (serialise_all (data_with 2 (9 ∷ 8 ∷ 7 ∷ []) ∷ []))
    ≡ err (read_error "Was not able to read all bytes into bluefin packets")
unfolding Packet.from_bytes from_bytes_loop has_header next_packet Header.deserialise from_u8
    Security.deserialise Security.default from_be_bytes Packet.serialise Header.serialise first_byte
    as_u8 Security.serialise to_be_bytes
from_bytes_short = refl

-- A datagram that ends with a data packet without payload is refused.
from_bytes_empty_data :
    Packet.from_bytes (serialise_all (ack_packet ∷ data_with 0 [] ∷ []))
    ≡ err (read_error "Cannot read all bytes specified by header")
unfolding Packet.from_bytes from_bytes_loop has_header next_packet Header.deserialise from_u8
    Security.deserialise Security.default from_be_bytes Packet.serialise Header.serialise first_byte
    as_u8 Security.serialise to_be_bytes
from_bytes_empty_data = refl

two-IsPacket : All IsPacket two
unfolding Security.default Packet.has_payload
two-IsPacket = omega arith

two-EndsWell : EndsWell two
unfolding Packet.has_payload
two-EndsWell = omega arith

from_bytes-serialise_all_example : Packet.from_bytes (serialise_all two) ≡ ok two
from_bytes-serialise_all_example = from_bytes-serialise_all two (λ e. cc) two-IsPacket two-EndsWell

from_bytes-exact_example : (serialise_all two ≡ two_bytes) × All IsPacket two × EndsWell two
from_bytes-exact_example = from_bytes-exact two_bytes two (omega arith) from_bytes-two

from_bytes-ne-stuck_example : Packet.from_bytes two_bytes ≢ stuck
from_bytes-ne-stuck_example = from_bytes-ne-stuck two_bytes

from_bytes_into-from_bytes_example :
    SameOutcome
      (ack_packet ∷ [])
      (Packet.from_bytes two_bytes)
      (Packet.from_bytes_into two_bytes (ack_packet ∷ []))
from_bytes_into-from_bytes_example = from_bytes_into-from_bytes two_bytes (ack_packet ∷ [])

from_bytes_unknown_type_example : Packet.from_bytes (0x07 ∷ replicate 19 0) ≡ panic
from_bytes_unknown_type_example =
    from_bytes_unknown_type (0x07 ∷ replicate 19 0) (omega arith) (omega arith)
