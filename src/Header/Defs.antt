-- ===== src/Header/Defs.antt =====
-- bluefin/src/core/header.rs: `BluefinHeader`.
use bluefin.Prelude.{ℕ, ◌*◌, ◌/◌, ◌%◌, bit_and, bit_or, ◌==◌}
use bluefin.Prelude.{List, [], ◌∷◌, ◌++◌, length, get_or, slice}
use bluefin.Prelude.{to_be_bytes, from_be_bytes}
use bluefin.Prelude.{Result, ok, deserialise_error, ◌>>=◌, ◌>>◌, guard, copy_at}
use bluefin.Header.Kind.{PacketType, as_u8, from_u8}
use bluefin.Header.Security
use bluefin.Header.Security.{SecurityFields}

pub record Header : Type 0 where
  pub version : ℕ
  pub type_field : PacketType
  pub type_specific_payload : ℕ
  pub security_fields : SecurityFields
  pub source_connection_id : ℕ
  pub destination_connection_id : ℕ
  pub packet_number : ℕ

-- `BluefinHeader::new`.
unfoldable pub new : ℕ → ℕ → PacketType → ℕ → SecurityFields → Header
new src dst type payload security = record {
  version = 0;
  type_field = type;
  type_specific_payload = payload;
  security_fields = security;
  source_connection_id = src;
  destination_connection_id = dst;
  packet_number = 0;
}

unfoldable pub with_packet_number : Header → ℕ → Header
with_packet_number h n = record h { packet_number = n }

-- `(self.version << 4) | self.type_field as u8`, in a `u8`.
unfoldable pub first_byte : Header → ℕ
first_byte h = bit_or (h.version * 16 % 256) (as_u8 h.type_field)

-- `Serialisable::serialise`.
unfoldable pub serialise : Header → List ℕ
serialise h =
    to_be_bytes 1 (first_byte h)
    ++ (to_be_bytes 2 h.type_specific_payload
        ++ (Security.serialise h.security_fields
            ++ (to_be_bytes 4 h.source_connection_id
                ++ (to_be_bytes 4 h.destination_connection_id ++ to_be_bytes 8 h.packet_number))))

-- `Serialisable::deserialise`. A slice `bytes[a..b]` is in range once the length is 20.
unfoldable pub deserialise : List ℕ → Result Header
deserialise bytes = do
  guard (length bytes == 20) (deserialise_error "Bluefin header must be exactly 20 bytes")
  security ← Security.deserialise (get_or bytes 3 0 ∷ [])
  type ← from_u8 (bit_and (get_or bytes 0 0) 0x0f)
  ok (record {
    version = bit_and (get_or bytes 0 0) 0xf0 / 16;
    type_field = type;
    type_specific_payload = from_be_bytes 0 (slice bytes 1 3);
    security_fields = security;
    source_connection_id = from_be_bytes 0 (slice bytes 4 8);
    destination_connection_id = from_be_bytes 0 (slice bytes 8 12);
    packet_number = from_be_bytes 0 (slice bytes 12 20);
  })

-- `serialise_into`: the buffer after the call, and the bytes written.
unfoldable pub serialise_into : Header → List ℕ → Result (List ℕ × ℕ)
serialise_into h buf = do
  buf ← copy_at 0 (first_byte h ∷ []) buf
  buf ← copy_at 1 (to_be_bytes 2 h.type_specific_payload) buf
  buf ← copy_at 3 (get_or (Security.serialise h.security_fields) 0 0 ∷ []) buf
  buf ← copy_at 4 (to_be_bytes 4 h.source_connection_id) buf
  buf ← copy_at 8 (to_be_bytes 4 h.destination_connection_id) buf
  buf ← copy_at 12 (to_be_bytes 8 h.packet_number) buf
  ok (buf, 20)
