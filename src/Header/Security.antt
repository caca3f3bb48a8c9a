-- ===== src/Header/Security.antt =====
-- bluefin/src/core/header.rs: the byte of the encryption flag and the header-protection mask.
use bluefin.Prelude.{ℕ, ◌/◌, bit_and, bit_or, Bool, false, not, ltb, ◌==◌, if◌then◌else◌}
use bluefin.Prelude.{List, [], ◌∷◌, length, get_or}
use bluefin.Prelude.{Result, ok, err, panic, deserialise_error}

pub record SecurityFields : Type 0 where
  pub header_encrypted : Bool
  pub header_protection_mask : ℕ

unfoldable pub new : Bool → ℕ → Result SecurityFields
new encrypted mask =
    if ltb 127 mask
    then panic
    else ok (record { header_encrypted = encrypted; header_protection_mask = mask })

unfoldable pub serialise : SecurityFields → List ℕ
serialise s =
    let byte : ℕ = if s.header_encrypted then bit_or 0 0x80 else 0 in
    bit_or byte s.header_protection_mask ∷ []

unfoldable pub deserialise : List ℕ → Result SecurityFields
deserialise bytes =
    if ltb (length bytes) 1
    then err (deserialise_error "Bluefin security fields are one byte")
    else let byte : ℕ = get_or bytes 0 0 in
      ok (record {
        header_encrypted = not (bit_and byte 0x80 / 128 == 0);
        header_protection_mask = bit_and byte 0x7f;
      })

unfoldable pub default : SecurityFields
default = record { header_encrypted = false; header_protection_mask = 0 }
