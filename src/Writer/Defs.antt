-- ===== src/Writer/Defs.antt =====
-- bluefin/src/worker/writer.rs: `consume_data_into`, which packs queued payloads into one datagram.
-- `Bytes` and `VecDeque` are lists. A loop has fuel; without it the result is `stuck`.
use bluefin.Prelude.{ℕ, zero, suc, ◌+◌, ◌-◌, ◌%◌, ◌^◌, min, ltb, leb, ◌&&◌, not}
use bluefin.Prelude.{if◌then◌else◌, true, false, add_u64}
use bluefin.Prelude.{List, [], ◌∷◌, ◌++◌, length, take, drop, is_empty, replicate, slice}
use bluefin.Prelude.{Option, none, some, from_be_bytes}
use bluefin.Prelude.{Result, ok, stuck, ◌>>=◌}
use bluefin.Header
use bluefin.Header.{Header}
use bluefin.Header.Kind.{unencrypted_data}

abbrev pub max_payload_size_bytes : ℕ
max_payload_size_bytes = 1500

abbrev pub max_packets_in_udp_datagram : ℕ
max_packets_in_udp_datagram = 10

abbrev pub max_bytes_in_udp_datagram : ℕ
max_bytes_in_udp_datagram = 15200

-- `serialize_packet_direct`. The bytes that `set_len` uncovers are all overwritten.
unfoldable pub serialize_packet_direct : List ℕ → Header → List ℕ → Result (List ℕ)
serialize_packet_direct ans header payload = do
  head ← Header.serialise_into header (replicate 20 0)
  ok (ans ++ (head.0 ++ payload))

-- The variables of the loops.
pub record Packing : Type 0 where
  pub queue : List (List ℕ)
  pub running_payload : List ℕ
  pub bytes_remaining : ℕ
  pub payload_bytes_packed : ℕ
  pub ans : List ℕ
  pub next_packet_num : ℕ

-- The one header that the call reuses, with the number and the length of the packet set.
unfoldable pub data_header : ℕ → ℕ → ℕ → ℕ → Header
data_header src dst packet_num payload_len =
    record (Header.with_packet_number
      (Header.new src dst unencrypted_data 0 Header.Security.default) packet_num) {
        type_specific_payload = payload_len % 2 ^ 16;
      }

-- `max_bytes_to_take`, and the packet written with as many bytes of the running payload.
unfoldable pub take_chunk : ℕ → ℕ → Packing → Result Packing
take_chunk src dst s =
    let max_bytes_to_take : ℕ =
      min (length s.running_payload) (min max_payload_size_bytes (s.bytes_remaining - 20)) in
    (do
      ans ←
          serialize_packet_direct s.ans (data_header src dst s.next_packet_num max_bytes_to_take)
            (take max_bytes_to_take s.running_payload)
      ok (record s {
        running_payload = drop max_bytes_to_take s.running_payload;
        bytes_remaining = s.bytes_remaining - (max_bytes_to_take + 20);
        payload_bytes_packed = s.payload_bytes_packed + max_bytes_to_take;
        ans = ans;
        next_packet_num = add_u64 s.next_packet_num 1;
      }))

-- `while !running_payload.is_empty() && bytes_remaining >= 20`.
unfoldable pub take_chunks : ℕ → ℕ → ℕ → Packing → Result Packing
take_chunks src dst zero s = stuck
take_chunks src dst (suc fuel) s =
    elim (not (is_empty s.running_payload) && leb 20 s.bytes_remaining) [
      | true ↦ take_chunk src dst s >>= take_chunks src dst fuel
      | false ↦ ok s
    ]

-- What is left of the running payload goes back to the front of the queue.
unfoldable pub push_back_rest : Packing → Packing
push_back_rest s =
    if is_empty s.running_payload
    then s
    else record s { queue = s.running_payload ∷ s.queue; running_payload = [] }

-- The end of the function, which the first branch of the main loop repeats.
unfoldable pub finish : ℕ → ℕ → Packing → Result Packing
finish src dst s = do s ← take_chunks src dst (suc s.bytes_remaining) s; ok (push_back_rest s)

-- The main loop, and what follows it. A `pop_front` follows the test that the queue is not empty.
unfoldable pub fill : ℕ → ℕ → ℕ → Packing → Result Packing
fill src dst zero s = stuck
fill src dst (suc fuel) s = elim s.queue [
  | [] ↦ finish src dst s
  | item ∷ queue ↦ elim (ltb 20 s.bytes_remaining) [
    | false ↦ finish src dst s
    | true ↦ elim (leb (s.bytes_remaining - 20) (length s.running_payload)) [
      | true ↦ finish src dst s
      | false ↦ elim (leb max_payload_size_bytes (length s.running_payload)) [
        | true ↦ take_chunk src dst s >>= fill src dst fuel
        | false ↦ elim (ltb max_payload_size_bytes (length item + length s.running_payload)) [
          | true ↦
              take_chunk src dst
                (record s { queue = queue; running_payload = s.running_payload ++ item })
              >>= fill src dst fuel
          | false ↦
              fill src dst fuel
                (record s { queue = queue; running_payload = s.running_payload ++ item })
        ]
      ]
    ]
  ]
]

-- `consume_data_into`: the queue, the next packet number, the datagram and the bytes packed.
unfoldable pub consume_data_into :
    List (List ℕ) → ℕ → ℕ → ℕ → List ℕ → Result (List (List ℕ) × ℕ × List ℕ × ℕ)
consume_data_into [] next_packet_num src dst ans = ok ([], next_packet_num, ans, 0)
consume_data_into (item ∷ queue) next_packet_num src dst ans = do
  s ← fill src dst (suc (max_bytes_in_udp_datagram + length queue)) (record {
    queue = queue;
    running_payload = item;
    bytes_remaining = max_bytes_in_udp_datagram;
    payload_bytes_packed = 0;
    ans = ans;
    next_packet_num = next_packet_num;
  })
  ok (s.queue, s.next_packet_num, s.ans, s.payload_bytes_packed)

-- `consume_data`, which starts with nothing in the running payload and has the same loops.
unfoldable pub consume_data :
    List (List ℕ) → ℕ → ℕ → ℕ → Result (List (List ℕ) × ℕ × Option (List ℕ))
consume_data queue next_packet_num src dst = do
  s ← fill src dst (suc (max_bytes_in_udp_datagram + length queue)) (record {
    queue = queue;
    running_payload = [];
    bytes_remaining = max_bytes_in_udp_datagram;
    payload_bytes_packed = 0;
    ans = [];
    next_packet_num = next_packet_num;
  })
  ok (s.queue, s.next_packet_num, if is_empty s.ans then none else some s.ans)

-- The loop of `payload_bytes_in_datagram`, on fuel for each round; a slice in range is not checked.
unfoldable pub count_payloads : ℕ → List ℕ → ℕ → ℕ → Result ℕ
count_payloads zero datagram cursor total = stuck
count_payloads (suc fuel) datagram cursor total =
    let payload_len : ℕ = from_be_bytes 0 (slice datagram (cursor + 1) (cursor + 3)) in
    if leb (cursor + 20) (length datagram)
    then if ltb (length datagram) (cursor + 20 + payload_len)
      then ok total
      else count_payloads fuel datagram (cursor + 20 + payload_len) (total + payload_len)
    else ok total

unfoldable pub payload_bytes_in_datagram : List ℕ → Result ℕ
payload_bytes_in_datagram datagram = count_payloads (suc (length datagram)) datagram 0 0
