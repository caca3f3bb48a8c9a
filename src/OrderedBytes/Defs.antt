-- ===== src/OrderedBytes/Defs.antt =====
-- bluefin/src/net/ordered_bytes.rs: `OrderedBytes`, a circular buffer of packets by number.
use bluefin.Prelude.{ℕ, ◌+◌, ◌-◌, ltb, leb, if◌then◌else◌, is_some, sub_u64}
use bluefin.Prelude.{List, get_or, set, replicate, Option, none, some}
use bluefin.Prelude.{Result, ok, err, unexpected_packet_number_error, buffer_full_error}
use bluefin.Prelude.{buffer_empty_error, unexpected}
use bluefin.Packet.{Packet}

abbrev pub max_buffer_size : ℕ
max_buffer_size = 2000

unfoldable pub wrap_index : ℕ → ℕ → ℕ
wrap_index base offset =
    let raw : ℕ = base + offset in if leb max_buffer_size raw then raw - max_buffer_size else raw

pub record OrderedBytes : Type 0 where
  pub conn_id : ℕ
  pub packets : List (Option Packet)
  pub smallest_packet_number_index : ℕ
  pub smallest_packet_number : ℕ
  pub carry_over_bytes : Option (List ℕ)

pub record ConsumeResult : Type 0 where
  pub num_packets_consumed : ℕ
  pub base_packet_number : ℕ
  pub bytes_consumed : ℕ

unfoldable pub new : ℕ → ℕ → OrderedBytes
new conn_id start_packet_number = record {
  conn_id = conn_id;
  packets = replicate max_buffer_size none;
  smallest_packet_number_index = 0;
  smallest_packet_number = start_packet_number;
  carry_over_bytes = none;
}

unfoldable pub set_start_packet_number : OrderedBytes → ℕ → OrderedBytes
set_start_packet_number ob n = record ob { smallest_packet_number = n }

-- `self.packets[index]`; every index that the code uses is below `MAX_BUFFER_SIZE`.
abbrev pub slot : OrderedBytes → ℕ → Option Packet
slot ob index = get_or ob.packets index none

-- `buffer_in_packet`. The text of the last error also has the numbers and the buffer's contents.
unfoldable pub buffer_in_packet : OrderedBytes → Packet → OrderedBytes × Result (Unit {0})
buffer_in_packet ob packet =
    let packet_num : ℕ = packet.header.packet_number in
    if ltb packet_num ob.smallest_packet_number
    then (ob, err unexpected_packet_number_error)
    else (let offset : ℕ = sub_u64 packet_num ob.smallest_packet_number in
        if leb max_buffer_size offset
        then (ob, err (buffer_full_error "Ordered bytes buffer full"))
        else (let index : ℕ = wrap_index ob.smallest_packet_number_index offset in
            if is_some (slot ob index)
            then (ob, err (unexpected "Already buffered in packet"))
            else (record ob { packets = set ob.packets index (some packet) }, ok tt)))

unfoldable pub peek : OrderedBytes → Result (Unit {0})
peek ob =
    if is_some ob.carry_over_bytes
    then ok tt
    else if is_some (slot ob ob.smallest_packet_number_index)
    then ok tt
    else err buffer_empty_error
