-- ===== src/Writer/Acks.antt =====
-- bluefin/src/worker/writer.rs: `AckData` and `consume_acks_into`, which packs acks into a datagram.
use bluefin.Prelude.{ℕ, ◌+◌, ◌%◌, ◌^◌, ltb, Bool, true, false, not}
use bluefin.Prelude.{List, [], ◌∷◌, ◌++◌, length, is_empty, replicate}
use bluefin.Prelude.{Result, ok, ◌>>=◌}
use bluefin.Prelude.{Option, none, some, leb, if◌then◌else◌}
use bluefin.Header
use bluefin.Header.{Header}
use bluefin.Header.Kind.{ack}
use bluefin.Writer.Defs.{max_bytes_in_udp_datagram}

pub record AckData : Type 0 where
  pub base_packet_num : ℕ
  pub num_packets_consumed : ℕ

unfoldable pub ack_header : ℕ → ℕ → AckData → Header
ack_header src dst a =
    record (Header.with_packet_number (Header.new src dst ack 0 Header.Security.default)
      a.base_packet_num) { type_specific_payload = a.num_packets_consumed % 2 ^ 16 }

-- The loop over the queue.
unfoldable pub pack_acks : ℕ → ℕ → List AckData → List ℕ → Result (List AckData × List ℕ)
pack_acks src dst [] bytes = ok ([], bytes)
pack_acks src dst (a ∷ queue) bytes = elim (ltb max_bytes_in_udp_datagram (length bytes + 20)) [
  | true ↦ ok (a ∷ queue, bytes)
  | false ↦ Header.serialise_into (ack_header src dst a) (replicate 20 0) >>= λ head.
      pack_acks src dst queue (bytes ++ head.0)
]

-- `consume_acks_into`: the queue, the datagram, and whether there is something to send.
unfoldable pub consume_acks_into :
    List AckData → ℕ → ℕ → List ℕ → Result (List AckData × List ℕ × Bool)
consume_acks_into [] src dst bytes = ok ([], bytes, false)
consume_acks_into (a ∷ queue) src dst bytes = do
  out ← pack_acks src dst (a ∷ queue) bytes
  ok (out.0, out.1, not (is_empty out.1))

-- The loop of `consume_acks`, the older variant, whose first condition also looks at the length.
unfoldable pub pack_acks_bounded : ℕ → ℕ → List AckData → List ℕ → Result (List AckData × List ℕ)
pack_acks_bounded src dst [] bytes = ok ([], bytes)
pack_acks_bounded src dst (a ∷ queue) bytes = elim (leb (length bytes) max_bytes_in_udp_datagram) [
  | false ↦ ok (a ∷ queue, bytes)
  | true ↦ elim (leb (length bytes + 20) max_bytes_in_udp_datagram) [
    | true ↦ Header.serialise_into (ack_header src dst a) (replicate 20 0) >>= λ head.
        pack_acks_bounded src dst queue (bytes ++ head.0)
    | false ↦ ok (a ∷ queue, bytes)
  ]
]

unfoldable pub consume_acks : List AckData → ℕ → ℕ → Result (List AckData × Option (List ℕ))
consume_acks queue src dst = do
  out ← pack_acks_bounded src dst queue []
  ok (out.0, (if is_empty out.1 then none else some out.1))
