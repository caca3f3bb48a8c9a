-- ===== src/Packet/Parse.antt =====
-- bluefin/src/core/packet.rs: `from_bytes` and `from_bytes_into`, which read a datagram as a row
-- of packets. Their loops run on fuel; the length of the datagram is enough.
use bluefin.Prelude.{ℕ, zero, suc, ◌+◌, ◌-◌, ltb, leb, ◌==◌, ◌&&◌, ◌||◌, if◌then◌else◌}
use bluefin.Prelude.{Bool, true, false, List, [], ◌∷◌, ◌++◌, length, slice}
use bluefin.Prelude.{Result, ok, err, panic, stuck, read_error, ◌>>=◌, ◌>>◌, guard}
use bluefin.Header
use bluefin.Header.{
  Header, PacketType, unencrypted_client_hello, unencrypted_server_hello, client_ack,
  unencrypted_data, ack, fin, fin_ack,
}
use bluefin.Packet.Defs.{Packet}

-- The match on the type: only the last arm, data, reads a payload.
unfoldable pub has_payload : PacketType → Bool
has_payload ack = false
has_payload unencrypted_client_hello = false
has_payload unencrypted_server_hello = false
has_payload client_ack = false
has_payload fin = false
has_payload fin_ack = false
has_payload unencrypted_data = true

-- The arm for data: as many bytes of payload as the header says, if the datagram has them.
unfoldable pub data_packet : List ℕ → ℕ → Header → Result (Packet × ℕ)
data_packet bytes cursor header =
    let payload_len : ℕ = header.type_specific_payload in
    if leb (length bytes) (cursor + 20) || leb (length bytes) (cursor + 19 + payload_len)
    then err (read_error "Cannot read all bytes specified by header")
    else ok (
      record { header = header; payload = slice bytes (cursor + 20) (cursor + 20 + payload_len) },
      cursor + 20 + payload_len,
    )

-- The body of the loops: the packet at the cursor, and the cursor behind it.
unfoldable pub next_packet : List ℕ → ℕ → Result (Packet × ℕ)
unfolding has_payload data_packet
next_packet bytes cursor = do
  header ← Header.deserialise (slice bytes cursor (cursor + 20))
  if has_payload header.type_field
      then data_packet bytes cursor header
      else ok (record { header = header; payload = [] }, cursor + 20)

-- The condition of the loops.
unfoldable pub has_header : List ℕ → ℕ → Bool
has_header bytes cursor = ltb cursor (length bytes) && leb (cursor + 20) (length bytes)

-- The loop of `from_bytes`: the packets read and the cursor at the end.
unfoldable pub from_bytes_loop : ℕ → List ℕ → ℕ → List Packet → Result (List Packet × ℕ)
from_bytes_loop zero bytes cursor packets = stuck
from_bytes_loop (suc fuel) bytes cursor packets = elim (has_header bytes cursor) [
  | true ↦ next_packet bytes cursor >>= λ step.
      from_bytes_loop fuel bytes step.1 (packets ++ (step.0 ∷ []))
  | false ↦ ok (packets, cursor)
]

unfoldable pub from_bytes : List ℕ → Result (List Packet)
from_bytes bytes = do
  guard (leb 20 (length bytes)) (read_error "Array must be at least 20 bytes")
  read ← from_bytes_loop (length bytes) bytes 0 []
  guard (read.1 == length bytes) (read_error "Was not able to read all bytes into bluefin packets")
  ok read.0

-- The loop of `from_bytes_into`, which pushes into the caller's vector: what it pushed before an
-- error stays there.
unfoldable pub from_bytes_into_loop : ℕ → List ℕ → ℕ → List Packet → List Packet × Result ℕ
from_bytes_into_loop zero buf cursor packets = (packets, stuck)
from_bytes_into_loop (suc fuel) buf cursor packets = elim (has_header buf cursor) [
  | true ↦ elim (next_packet buf cursor) [
    | ok step ↦ from_bytes_into_loop fuel buf step.1 (packets ++ (step.0 ∷ []))
    | err e ↦ (packets, err e)
    | panic ↦ (packets, panic)
    | stuck ↦ (packets, stuck)
  ]
  | false ↦ (packets, ok cursor)
]

-- The vector after the call, and the number of packets pushed.
unfoldable pub from_bytes_into : List ℕ → List Packet → List Packet × Result ℕ
from_bytes_into buf packets =
    if leb 20 (length buf)
    then (let (packets', read) = from_bytes_into_loop (length buf) buf 0 packets in
        (
          packets',
          (do
            cursor ← read
            guard (cursor == length buf)
                (read_error "Was not able to read all bytes into bluefin packets")
            ok (length packets' - length packets)),
        ))
    else (packets, err (read_error "Array must be at least 20 bytes"))
