-- ===== src/Header/Wire.antt =====
-- The header's two serialisers are inverse to its parser, on every header whose fields fit.
use bluefin.Prelude.{ℕ, ◌+◌, ◌*◌, ◌/◌, ◌%◌, ◌^◌, ◌<◌, ◌≡◌, refl, arith}
use bluefin.Prelude.{Bool, true, false, bit_and}
use bluefin.Prelude.{[], ◌∷◌, length, to_be_bytes}
use bluefin.Prelude.{ok}
use bluefin.Prelude.Bits.{high_nibble, low_nibble, top_bit, low_bits, or_nibbles, or_flag}
use bluefin.Prelude.Bytes.{from_be_bytes-to_be_bytes}
use bluefin.Header.Kind.{PacketType, as_u8, from_u8}
use bluefin.Header.Security
use bluefin.Header.Security.{SecurityFields}
use bluefin.Header.Defs.{Header, first_byte, serialise, deserialise}

-- The ranges of the fields: four bits of version, seven of mask, and the words.
pub record IsWire (h : Header) : Type 0 where
  pub version_fits : h.version < 16
  pub payload_fits : h.type_specific_payload < 2 ^ 16
  pub mask_fits : h.security_fields.header_protection_mask < 128
  pub source_fits : h.source_connection_id < 2 ^ 32
  pub destination_fits : h.destination_connection_id < 2 ^ 32
  pub packet_number_fits : h.packet_number < 2 ^ 64

pub as_u8-lt : (t : PacketType) → as_u8 t < 16
unfolding as_u8
as_u8-lt t = ground arith

pub from_u8-as_u8 : (t : PacketType) → from_u8 (as_u8 t) ≡ ok t
unfolding from_u8 as_u8
from_u8-as_u8 t = ground arith

pub as_u8-from_u8 : (c : ℕ) {t : PacketType} → from_u8 c ≡ ok t → as_u8 t ≡ c
unfolding from_u8 as_u8
as_u8-from_u8 c h = ground arith

abbrev flag : Bool → ℕ
flag true = 1
flag false = 0

pub security_byte : SecurityFields → ℕ
security_byte s = flag s.header_encrypted * 128 + s.header_protection_mask

security_byte-serialise :
    (s : SecurityFields)
    → s.header_protection_mask < 128
    → Security.serialise s ≡ security_byte s ∷ []
unfolding Security.serialise security_byte
security_byte-serialise s h =
    ground (arith, or_flag 1 s.header_protection_mask, or_flag 0 s.header_protection_mask)

security_byte-lt : (s : SecurityFields) → s.header_protection_mask < 128 → security_byte s < 256
unfolding security_byte
security_byte-lt s h = ground arith

-- The security byte is read back.
pub Security_deserialise-serialise :
    (s : SecurityFields)
    → s.header_protection_mask < 128
    → Security.deserialise (security_byte s ∷ []) ≡ ok s
unfolding Security.deserialise security_byte
Security_deserialise-serialise s h =
    ground (arith, top_bit (security_byte s), low_bits (security_byte s), security_byte-lt s h)

pub first_byte-sum : (h : Header) → IsWire h → first_byte h ≡ h.version * 16 + as_u8 h.type_field
unfolding first_byte
first_byte-sum h v =
    let e : h.version * 16 % 256 ≡ h.version * 16 = omega (arith, v.version_fits) in
    rw e (or_nibbles h.version (as_u8 h.type_field) v.version_fits (as_u8-lt h.type_field))

-- The two nibbles of the first byte.
first_byte-version : (h : Header) → IsWire h → bit_and (first_byte h % 256) 0xf0 / 16 ≡ h.version
first_byte-version h v =
    let lt : as_u8 h.type_field < 16 = as_u8-lt h.type_field in
    let e : first_byte h % 256 ≡ h.version * 16 + as_u8 h.type_field =
      omega (arith, first_byte-sum h v, v.version_fits) in
    rw e (
      omega
        (arith, high_nibble (h.version * 16 + as_u8 h.type_field) (omega (arith, v.version_fits))))

first_byte-type :
    (h : Header) → IsWire h → from_u8 (bit_and (first_byte h % 256) 0x0f) ≡ ok h.type_field
first_byte-type h v =
    let lt : as_u8 h.type_field < 16 = as_u8-lt h.type_field in
    let e : bit_and (first_byte h % 256) 0x0f ≡ as_u8 h.type_field =
      omega (
        arith,
        first_byte-sum h v,
        v.version_fits,
        low_nibble (first_byte h % 256) (omega arith),
      ) in
    rw e (from_u8-as_u8 h.type_field)

-- A header whose fields fit is read back from its 20 bytes.
pub deserialise-serialise : (h : Header) → IsWire h → deserialise (serialise h) ≡ ok h
unfolding deserialise serialise to_be_bytes
deserialise-serialise h v =
    rw
      (
        security_byte-serialise h.security_fields v.mask_fits,
        Security_deserialise-serialise h.security_fields v.mask_fits,
        first_byte-type h v,
      )
      λ i. ok (record {
        version = first_byte-version h v i;
        type_field = h.type_field;
        type_specific_payload =
            from_be_bytes-to_be_bytes 2 h.type_specific_payload v.payload_fits i;
        security_fields = h.security_fields;
        source_connection_id = from_be_bytes-to_be_bytes 4 h.source_connection_id v.source_fits i;
        destination_connection_id =
            from_be_bytes-to_be_bytes 4 h.destination_connection_id v.destination_fits i;
        packet_number = from_be_bytes-to_be_bytes 8 h.packet_number v.packet_number_fits i;
      })

-- A serialised header has 20 bytes.
pub length-serialise : (h : Header) → length (serialise h) ≡ 20
unfolding serialise to_be_bytes Security.serialise
length-serialise h = refl
