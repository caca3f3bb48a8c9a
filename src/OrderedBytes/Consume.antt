-- ===== src/OrderedBytes/Consume.antt =====
-- bluefin/src/net/ordered_bytes.rs: `consume`, which copies bytes out, and `consume_bytes`, which
-- hands out whole payloads. `copy_from_slice` panics where the caller's slice is too short.
use bluefin.Prelude.{ℕ, zero, suc, ◌+◌, ◌-◌, ltb, leb, ◌==◌, if◌then◌else◌, add_u64}
use bluefin.Prelude.{List, [], ◌∷◌, ◌++◌, length, take, drop, set, none, some, true, false}
use bluefin.Prelude.{Result, ok, err, panic, stuck, buffer_empty_error, copy_at, ◌>>=◌}
use bluefin.Packet.{Packet}
use bluefin.OrderedBytes.Defs.{OrderedBytes, ConsumeResult, max_buffer_size, wrap_index, slot}

-- The variables of the loop of `consume`.
pub record Progress : Type 0 where
  pub ordered : OrderedBytes
  pub buf : List ℕ
  pub num_bytes : ℕ
  pub writer_ix : ℕ
  pub ix : ℕ

-- `self.packets[slot] = None`, and the step to the next number and index.
unfoldable pub clear_slot : OrderedBytes → ℕ → ℕ → OrderedBytes
clear_slot ob index packet_num = record ob {
  packets = set ob.packets index none;
  smallest_packet_number = add_u64 packet_num 1;
  smallest_packet_number_index = wrap_index ob.smallest_packet_number_index 1;
}

-- The body of the loop at the packet at `index`.
unfoldable pub take_packet : ℕ → ℕ → Packet → Progress → Result Progress
take_packet len index packet s =
    let bytes_remaining : ℕ = len - s.num_bytes in
    let payload_len : ℕ = length packet.payload in
    let cleared : OrderedBytes = clear_slot s.ordered index packet.header.packet_number in
    if ltb bytes_remaining payload_len
    then (do
      buf ← copy_at s.writer_ix (take bytes_remaining packet.payload) s.buf
      ok (record {
        ordered = record cleared { carry_over_bytes = some (drop bytes_remaining packet.payload) };
        buf = buf;
        num_bytes = s.num_bytes + bytes_remaining;
        writer_ix = s.writer_ix + bytes_remaining;
        ix = s.ix + 1;
      }))
    else (do
      buf ← copy_at s.writer_ix packet.payload s.buf
      ok (record {
        ordered = cleared;
        buf = buf;
        num_bytes = s.num_bytes + payload_len;
        writer_ix = s.writer_ix + payload_len;
        ix = s.ix + 1;
      }))

-- The loop, with `MAX_BUFFER_SIZE - ix` rounds left.
unfoldable pub consume_loop : ℕ → ℕ → ℕ → Progress → Result Progress
consume_loop zero base len s = ok s
consume_loop (suc left) base len s = elim (slot s.ordered (wrap_index base s.ix)) [
  | none ↦ ok s
  | some packet ↦ elim (ltb s.num_bytes len) [
    | true ↦ take_packet len (wrap_index base s.ix) packet s >>= consume_loop left base len
    | false ↦ ok s
  ]
]

-- What follows the carry-over: the loop over the packets, and the result.
unfoldable pub consume_packets :
    OrderedBytes → ℕ → List ℕ → ℕ → OrderedBytes × List ℕ × Result ConsumeResult
consume_packets ob len buf num_bytes =
    let base : ℕ = ob.smallest_packet_number_index in
    let base_packet_number : ℕ = elim (slot ob base) [
      | some p ↦ p.header.packet_number
      | none ↦ 0
    ] in
    elim (consume_loop max_buffer_size base len
      (record { ordered = ob; buf = buf; num_bytes = num_bytes; writer_ix = num_bytes; ix = 0 })) [
        | ok s ↦ (
          s.ordered,
          s.buf,
          if s.num_bytes == 0
              then err buffer_empty_error
              else ok (record {
                num_packets_consumed = s.ix;
                base_packet_number = base_packet_number;
                bytes_consumed = s.num_bytes;
              }),
        )
        | err e ↦ (ob, buf, err e)
        | panic ↦ (ob, buf, panic)
        | stuck ↦ (ob, buf, stuck)
      ]

-- The buffer and the caller's slice after the call, and its result.
unfoldable pub consume : OrderedBytes → ℕ → List ℕ → OrderedBytes × List ℕ × Result ConsumeResult
consume ob len buf = elim ob.carry_over_bytes [
  | none ↦ consume_packets ob len buf 0
  | some c_bytes ↦
      if leb (length c_bytes) len
      then elim (copy_at 0 c_bytes buf) [
        | ok buf' ↦
            consume_packets (record ob { carry_over_bytes = none }) len buf' (length c_bytes)
        | err e ↦ (ob, buf, err e)
        | panic ↦ (ob, buf, panic)
        | stuck ↦ (ob, buf, stuck)
      ]
      else elim (copy_at 0 (take len c_bytes) buf) [
        | ok buf' ↦ (
          record ob { carry_over_bytes = some (drop len c_bytes) },
          buf',
          ok (record { num_packets_consumed = 0; base_packet_number = 0; bytes_consumed = len }),
        )
        | err e ↦ (ob, buf, err e)
        | panic ↦ (ob, buf, panic)
        | stuck ↦ (ob, buf, stuck)
      ]
]

-- The variables of the loop of `consume_bytes`.
pub record Pushed : Type 0 where
  pub ordered : OrderedBytes
  pub out : List (List ℕ)
  pub total_bytes : ℕ
  pub ix : ℕ

unfoldable pub consume_bytes_loop : ℕ → ℕ → ℕ → ℕ → Pushed → Pushed
consume_bytes_loop zero base initial_len max_packets s = s
consume_bytes_loop (suc left) base initial_len max_packets s =
    elim (ltb (length s.out - initial_len) max_packets) [
      | false ↦ s
      | true ↦ elim (slot s.ordered (wrap_index base s.ix)) [
        | none ↦ s
        | some packet ↦ consume_bytes_loop left base initial_len max_packets (record {
          ordered = clear_slot s.ordered (wrap_index base s.ix) packet.header.packet_number;
          out = s.out ++ (packet.payload ∷ []);
          total_bytes = s.total_bytes + length packet.payload;
          ix = s.ix + 1;
        })
      ]
    ]

-- The carry-over goes first, as one element.
unfoldable pub push_carry : OrderedBytes → List (List ℕ) → Pushed
push_carry ob out = elim ob.carry_over_bytes [
  | none ↦ record { ordered = ob; out = out; total_bytes = 0; ix = 0 }
  | some c ↦ record {
    ordered = record ob { carry_over_bytes = none };
    out = out ++ (c ∷ []);
    total_bytes = length c;
    ix = 0;
  }
]

unfoldable pub consume_bytes :
    OrderedBytes → List (List ℕ) → ℕ → OrderedBytes × List (List ℕ) × Result ConsumeResult
consume_bytes ob out max_packets =
    let base : ℕ = ob.smallest_packet_number_index in
    let base_packet_number : ℕ = elim (slot ob base) [
      | some p ↦ p.header.packet_number
      | none ↦ 0
    ] in
    let s : Pushed =
      consume_bytes_loop max_buffer_size base (length out) max_packets (push_carry ob out) in
    (
      s.ordered,
      s.out,
      if length s.out == length out
          then err buffer_empty_error
          else ok (record {
            num_packets_consumed = s.ix;
            base_packet_number = base_packet_number;
            bytes_consumed = s.total_bytes;
          }),
    )
