-- ===== src/Header/Exact.antt =====
-- What the header's parser accepts: exactly the bytes that a header with fitting fields writes.
use bluefin.Prelude.{ℕ, ◌*◌, ◌/◌, ◌%◌, ◌^◌, ◌<◌, ◌≤◌, ◌-◌, ◌≡◌, refl, ◌∙◌, ap, arith}
use bluefin.Prelude.{bit_and, ◌==◌, not}
use bluefin.Prelude.{List, [], ◌∷◌, length, All, IsByte, to_be_bytes, from_be_bytes, get_or}
use bluefin.Prelude.{slice, take, drop, take_one, take-append_drop, All-get_or, All-take, All-drop}
use bluefin.Prelude.{Result, ok, err, panic, stuck, length-take, length-drop, take_all}
use bluefin.Prelude.Bits.{high_nibble, low_nibble, top_bit, low_bits, or_nibbles, or_flag}
use bluefin.Prelude.Bytes.{to_be_bytes-from_be_bytes, from_be_bytes-lt}
use bluefin.Header.Kind.{PacketType, as_u8, from_u8}
use bluefin.Header.Security
use bluefin.Header.Security.{SecurityFields}
use bluefin.Header.Defs.{Header, first_byte, serialise, deserialise}
use bluefin.Header.Wire.{IsWire, as_u8-from_u8}

-- The fields that the parser reads, once it has the type.
abbrev security_at : List ℕ → SecurityFields
security_at bytes = record {
  header_encrypted = not (bit_and (get_or bytes 3 0) 0x80 / 128 == 0);
  header_protection_mask = bit_and (get_or bytes 3 0) 0x7f;
}

abbrev fields : List ℕ → PacketType → Header
fields bytes type = record {
  version = bit_and (get_or bytes 0 0) 0xf0 / 16;
  type_field = type;
  type_specific_payload = from_be_bytes 0 (slice bytes 1 3);
  security_fields = security_at bytes;
  source_connection_id = from_be_bytes 0 (slice bytes 4 8);
  destination_connection_id = from_be_bytes 0 (slice bytes 8 12);
  packet_number = from_be_bytes 0 (slice bytes 12 20);
}

ok-type :
    (bytes : List ℕ) {h : Header} (r : Result PacketType)
    → from_u8 (bit_and (get_or bytes 0 0) 0x0f) ≡ r
    → deserialise bytes ≡ ok h
    → (length bytes ≡ 20)
      × ((type : PacketType) × (from_u8 (bit_and (get_or bytes 0 0) 0x0f) ≡ ok type)
          × (fields bytes type ≡ h))
unfolding deserialise Security.deserialise
ok-type bytes (ok type) e p = (ground arith, (type, e, ground arith))
ok-type bytes (err x) e p = absurd (ground arith)
ok-type bytes panic e p = absurd (ground arith)
ok-type bytes stuck e p = absurd (ground arith)

Security_serialise-byte :
    (x : ℕ)
    → x < 256
    → Security.serialise (record {
      header_encrypted = not (bit_and x 0x80 / 128 == 0);
      header_protection_mask = bit_and x 0x7f;
    })
      ≡ x ∷ []
unfolding Security.serialise
Security_serialise-byte x h = ground (
  arith,
  top_bit x h,
  low_bits x h,
  or_flag 0 (x % 128) (omega arith) (omega arith),
  or_flag 1 (x % 128) (omega arith) (omega arith),
)

module _ (bytes : List ℕ) (n : length bytes ≡ 20) (b : All IsByte bytes) where
  word_at :
      (i j : ℕ)
      → i ≤ j
      → j ≤ 20
      → (to_be_bytes (j - i) (from_be_bytes 0 (slice bytes i j)) ≡ slice bytes i j)
        × (from_be_bytes 0 (slice bytes i j) < 256 ^ (j - i))
  word_at i j h k =
      let e : length (slice bytes i j) ≡ j - i =
        omega (arith, length-take (j - i) (drop i bytes), length-drop i bytes, n) in
      let a : All IsByte (slice bytes i j) =
        All-take IsByte (j - i) (drop i bytes) (All-drop IsByte i bytes b) in
      (to_be_bytes-from_be_bytes (j - i) (slice bytes i j) e a, from_be_bytes-lt (j - i) _ e a)

  byte_at : (i : ℕ) → i < 20 → get_or bytes i 0 < 256
  byte_at i h = All-get_or IsByte bytes i 0 (omega (arith, n)) b

  byte_slice : (i : ℕ) → i < 20 → take 1 (drop i bytes) ≡ get_or bytes i 0 ∷ []
  byte_slice i h = take_one i bytes 0 (omega (arith, n))

  security_at-serialise : Security.serialise (security_at bytes) ≡ take 1 (drop 3 bytes)
  security_at-serialise =
      Security_serialise-byte (get_or bytes 3 0) (byte_at 3 (omega arith))
      ∙ rw (byte_slice 3 (omega arith))

  module _ (type : PacketType) (t : from_u8 (bit_and (get_or bytes 0 0) 0x0f) ≡ ok type) where
    code-type : as_u8 type ≡ get_or bytes 0 0 % 16
    code-type = as_u8-from_u8 _ t ∙ low_nibble (get_or bytes 0 0) (byte_at 0 (omega arith))

    first_byte-fields : first_byte (fields bytes type) ≡ get_or bytes 0 0
    unfolding first_byte
    first_byte-fields =
        let lt : get_or bytes 0 0 < 256 = byte_at 0 (omega arith) in
        let hi : bit_and (get_or bytes 0 0) 0xf0 / 16 * 16 % 256 ≡ get_or bytes 0 0 / 16 * 16 =
          omega (arith, high_nibble (get_or bytes 0 0) lt) in
        rw (hi, code-type)
          (or_nibbles (get_or bytes 0 0 / 16) (get_or bytes 0 0 % 16) (omega arith) (omega arith)
            ∙ omega arith)

    fields-IsWire : IsWire (fields bytes type)
    fields-IsWire = record {
      version_fits = omega (
        arith,
        high_nibble (get_or bytes 0 0) (byte_at 0 (omega arith)),
        byte_at 0 (omega arith),
      );
      payload_fits = (word_at 1 3 (omega arith) (omega arith)).1;
      mask_fits = omega (arith, low_bits (get_or bytes 3 0) (byte_at 3 (omega arith)));
      source_fits = (word_at 4 8 (omega arith) (omega arith)).1;
      destination_fits = (word_at 8 12 (omega arith) (omega arith)).1;
      packet_number_fits = (word_at 12 20 (omega arith) (omega arith)).1;
    }

    last_word : take 8 (drop 12 bytes) ≡ drop 12 bytes
    last_word = take_all 8 (drop 12 bytes) (omega (arith, length-drop 12 bytes, n))

    fields-serialise : serialise (fields bytes type) ≡ bytes
    unfolding serialise
    fields-serialise =
        let first : to_be_bytes 1 (first_byte (fields bytes type)) ≡ take 1 (drop 0 bytes) =
          ap (to_be_bytes 1) first_byte-fields
          ∙ unfold to_be_bytes in
            rw (byte_slice 0 (omega arith))
              (ap (λ k. k ∷ []) (omega (arith, byte_at 0 (omega arith)))) in
        rw
          (
            first,
            (word_at 1 3 (omega arith) (omega arith)).0,
            security_at-serialise,
            (word_at 4 8 (omega arith) (omega arith)).0,
            (word_at 8 12 (omega arith) (omega arith)).0,
            (word_at 12 20 (omega arith) (omega arith)).0,
            last_word,
            take-append_drop 8 12 bytes (omega arith),
            take-append_drop 4 8 bytes (omega arith),
            take-append_drop 3 4 bytes (omega arith),
            take-append_drop 1 3 bytes (omega arith),
          )
          (take-append_drop 0 1 bytes (omega arith))

-- Whatever the parser accepts, it reads as a header whose fields fit, and serialising that header
-- gives back the bytes: no two byte strings are read as one header, and no bit is lost.
pub serialise-deserialise :
    (bytes : List ℕ) (h : Header)
    → All IsByte bytes
    → deserialise bytes ≡ ok h
    → (serialise h ≡ bytes) × IsWire h
serialise-deserialise bytes h b e =
    let (n, (type, t, same)) = ok-type bytes _ refl e in
    rw (← same) (fields-serialise bytes n b type t, fields-IsWire bytes n b type t)
