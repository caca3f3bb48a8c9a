-- ===== src/Tests/Wire.antt =====
-- Headers on the wire: those of the source's own tests, and the theorems at them.
use bluefin.Prelude.{ℕ, ◌≡◌, refl, arith, true, List, [], ◌∷◌}
use bluefin.Prelude.{ok, panic, to_be_bytes, from_be_bytes}
use bluefin.Header
use bluefin.Header.{Header, unencrypted_server_hello, fin, as_u8, from_u8, first_byte}
use bluefin.Header.Security
use bluefin.Header.Wire.{IsWire, deserialise-serialise}
use bluefin.Header.Exact.{serialise-deserialise}

abbrev hello : Header
hello = record {
  version = 0;
  type_field = unencrypted_server_hello;
  type_specific_payload = 0x1234;
  security_fields = record { header_encrypted = true; header_protection_mask = 0b001_1111 };
  source_connection_id = 0x01020304;
  destination_connection_id = 0x04030201;
  packet_number = 0;
}

abbrev hello_bytes : List ℕ
hello_bytes =
    0x01 ∷ 0x12 ∷ 0x34 ∷ 0x9f ∷ 1 ∷ 2 ∷ 3 ∷ 4 ∷ 4 ∷ 3 ∷ 2 ∷ 1 ∷ 0 ∷ 0 ∷ 0 ∷ 0 ∷ 0 ∷ 0 ∷ 0 ∷ 0 ∷ []

new-hello :
    Header.new 0x01020304 0x04030201 unencrypted_server_hello 0x1234
      (record { header_encrypted = true; header_protection_mask = 0b001_1111 })
    ≡ hello
unfolding Header.new
new-hello = refl

serialise-hello : Header.serialise hello ≡ hello_bytes
unfolding Header.serialise first_byte as_u8 Security.serialise to_be_bytes
serialise-hello = refl

deserialise-hello : Header.deserialise hello_bytes ≡ ok hello
unfolding Header.deserialise from_u8 Security.deserialise from_be_bytes
deserialise-hello = refl

-- A mask of eight bits is refused when security fields are built.
wide_mask : Security.new true 128 ≡ panic
unfolding Security.new
wide_mask = refl

hello-IsWire : IsWire hello
hello-IsWire = omega arith

deserialise-serialise_example : Header.deserialise (Header.serialise hello) ≡ ok hello
deserialise-serialise_example = deserialise-serialise hello hello-IsWire

serialise-deserialise_example : (Header.serialise hello ≡ hello_bytes) × IsWire hello
serialise-deserialise_example =
    serialise-deserialise hello_bytes hello (omega arith) deserialise-hello
