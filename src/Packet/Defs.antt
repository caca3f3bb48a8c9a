-- ===== src/Packet/Defs.antt =====
-- bluefin/src/core/packet.rs: `BluefinPacket`, its builder and its serialisers. `Bytes`, a shared
-- view of a buffer, is read as the list of its bytes.
use bluefin.Prelude.{copy_at}
use bluefin.Prelude.{ℕ, ◌+◌, ltb, leb, if◌then◌else◌, Option, none, some}
use bluefin.Prelude.{List, [], ◌++◌, length, take, drop}
use bluefin.Prelude.{Result, ok, err, panic, deserialise_error, ◌>>=◌}
use bluefin.Header
use bluefin.Header.{Header}

pub record Packet : Type 0 where
  pub header : Header
  pub payload : List ℕ

-- `BluefinPacket::len`.
unfoldable pub len : Packet → ℕ
len p = length p.payload + 20

unfoldable pub serialise : Packet → List ℕ
serialise p = Header.serialise p.header ++ p.payload

unfoldable pub deserialise : List ℕ → Result Packet
deserialise bytes =
    if ltb (length bytes) 20
    then err (deserialise_error "Cannot deserialise into Bluefin packet with less than 20 bytes")
    else (do
      header ← Header.deserialise (take 20 bytes)
      ok (record { header = header; payload = drop 20 bytes }))

-- `serialise_into`: `&mut buf[..20]` panics on a shorter buffer.
unfoldable pub serialise_into : Packet → List ℕ → Result (List ℕ × ℕ)
serialise_into p buf =
    let total_len : ℕ = 20 + length p.payload in
    if leb 20 (length buf)
    then (do
      head ← Header.serialise_into p.header (take 20 buf)
      buf ← copy_at 20 p.payload (head.0 ++ drop 20 buf)
      ok (buf, total_len))
    else panic

pub record PacketBuilder : Type 0 where
  pub header : Option Header
  pub payload : Option (List ℕ)

unfoldable pub builder : PacketBuilder
builder = record { header = none; payload = none }

unfoldable pub with_header : PacketBuilder → Header → PacketBuilder
with_header b h = record b { header = some h }

unfoldable pub with_payload : PacketBuilder → List ℕ → PacketBuilder
with_payload b payload = record b { payload = some payload }

-- `build`: `self.header.unwrap()` panics on a builder with no header.
unfoldable pub build : PacketBuilder → Result Packet
build b = elim b.header [
  | none ↦ panic
  | some h ↦ ok (record { header = h; payload = elim b.payload [ none ↦ [] | some bytes ↦ bytes ] })
]
