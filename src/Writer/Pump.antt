-- ===== src/Writer/Pump.antt =====
-- bluefin/src/worker/writer.rs: `WriterHandler` and its task `read_data`, as one state. The channels are
-- lists, and the socket takes what it is given. A call, a round of the task and a datagram of the
-- sender task are one step each. A call tests whether the writer is closed, raises the count and puts
-- the payload into the channel, and these three are one step here: a `mark_closed` of another thread
-- between the test and the channel is no order of these steps. The events for `diag_tx` and the recycled buffers are left out.
use bluefin.Prelude.{ℕ, zero, suc, ltb, Bool, true, false, if◌then◌else◌, add_u64, sub_u64}
use bluefin.Prelude.{List, [], ◌∷◌, ◌++◌, ◌==◌, Option, none, some, length, take, drop}
use bluefin.Prelude.{Result, ok, err, ◌>>=◌, connection_closed, write_error}
use bluefin.Writer.Defs.{consume_data_into}

abbrev pub data_channel_bound : ℕ
data_channel_bound = 4096

pub record Pump : Type 0 where
  pub src_conn_id : ℕ
  pub dst_conn_id : ℕ
  pub has_sender : Bool
  pub closed : Bool
  pub channel : List (List ℕ)
  pub data_queue : List (List ℕ)
  pub next_packet_num : ℕ
  pub next_packet_num_shared : ℕ
  pub sending : List (List ℕ × ℕ)
  pub wire : List (List ℕ)
  pub pending_bytes : ℕ

unfoldable pub new : ℕ → ℕ → ℕ → Pump
new next_packet_num src_conn_id dst_conn_id = record {
  src_conn_id = src_conn_id;
  dst_conn_id = dst_conn_id;
  has_sender = false;
  closed = false;
  channel = [];
  data_queue = [];
  next_packet_num = next_packet_num;
  next_packet_num_shared = next_packet_num;
  sending = [];
  wire = [];
  pending_bytes = 0;
}

unfoldable pub start : Pump → Pump
start p = record p { has_sender = true }

-- The tests of a call: whether the writer is closed, started, and its channel has room.
unfoldable pub send_checked : Pump → List ℕ → Bool → Bool → Bool → Pump × Result ℕ
send_checked p payload true has_sender room = (p, err connection_closed)
send_checked p payload false false room = (p, err (write_error "Sender is not available"))
send_checked p payload false true true = (
  record p {
    pending_bytes = add_u64 p.pending_bytes (length payload);
    channel = p.channel ++ (payload ∷ []);
  },
  ok (length payload),
)
send_checked p payload false true false = (
  record p { pending_bytes = sub_u64 (add_u64 p.pending_bytes (length payload)) (length payload) },
  err (write_error "Failed to send data (channel full or closed)"),
)

-- `send_bytes` and `send_data`, which copies its argument first.
unfoldable pub send_bytes : Pump → List ℕ → Pump × Result ℕ
send_bytes p payload =
    send_checked p payload p.closed p.has_sender (ltb (length p.channel) data_channel_bound)

-- The datagrams of a round, with what they leave.
pub record Packed : Type 0 where
  pub queue : List (List ℕ)
  pub next : ℕ
  pub datagrams : List (List ℕ × ℕ)

-- The datagram of one call goes to the sender task, if it carries anything.
unfoldable pub packed_one : Packed → List (List ℕ) × ℕ × List ℕ × ℕ → Packed
packed_one s out = record {
  queue = out.0;
  next = out.1;
  datagrams = if ltb 0 out.3 then s.datagrams ++ ((out.2, out.3) ∷ []) else s.datagrams;
}

unfoldable pub pack : ℕ → ℕ → ℕ → Packed → Result Packed
pack zero src dst s = ok s
pack (suc rounds) src dst s = consume_data_into s.queue s.next src dst [] >>= λ out.
    elim (ltb 0 out.3) [
      | true ↦ pack rounds src dst (packed_one s out)
      | false ↦ ok (packed_one s out)
    ]

-- A round of `read_data`, up to its last line: up to 20 payloads are queued, and up to 12 datagrams
-- packed. The last line, the store into the shared number, is a step of its own, for the sender task
-- and `close()` may come before it.
unfoldable pub read_round : Pump → List (List ℕ) → Result Pump
read_round p [] = ok p
read_round p (first ∷ rest) =
    pack 12 p.src_conn_id p.dst_conn_id (record {
      queue = p.data_queue ++ take 20 (first ∷ rest);
      next = p.next_packet_num;
      datagrams = [];
    })
    >>= λ s. ok (record p {
      channel = drop 20 (first ∷ rest);
      data_queue = s.queue;
      next_packet_num = s.next;
      sending = p.sending ++ s.datagrams;
    })

unfoldable pub read_data : Pump → Result Pump
read_data p = read_round p p.channel

unfoldable pub publish : Pump → Pump
publish p = record p { next_packet_num_shared = p.next_packet_num }

-- The sender task with one datagram.
unfoldable pub transmit_first : Pump → List (List ℕ × ℕ) → Pump
transmit_first p [] = p
transmit_first p (d ∷ rest) = record p {
  sending = rest;
  wire = p.wire ++ (d.0 ∷ []);
  pending_bytes = if ltb 0 d.1 then sub_u64 p.pending_bytes d.1 else p.pending_bytes;
}

unfoldable pub transmit : Pump → Pump
transmit p = transmit_first p p.sending

-- `flush` as often as it looks at the count: it returns, or waits to be notified.
unfoldable pub flush : Pump → Option (Result (Unit {0}))
flush p = if p.pending_bytes == 0 then some (ok tt) else none

unfoldable pub reserve_close_packet_num : Pump → Pump × ℕ
reserve_close_packet_num p = (
  record p { next_packet_num_shared = add_u64 p.next_packet_num_shared 1 },
  p.next_packet_num_shared,
)

unfoldable pub mark_closed : Pump → Pump
mark_closed p = record p { closed = true }

-- The steps of the callers and of the two tasks, in any order.
pub data Step : Type 0 where
  send : List ℕ → Step
  round : Step
  store : Step
  transmission : Step
  reserve : Step
  mark : Step

-- The state, and the payloads that were accepted, in order.
pub record Course : Type 0 where
  pub pump : Pump
  pub accepted : List (List ℕ)

unfoldable pub on_send : Course → List ℕ → Pump × Result ℕ → Course
on_send c payload (p, ok _) = record { pump = p; accepted = c.accepted ++ (payload ∷ []) }
on_send c payload (p, _) = record { pump = p; accepted = c.accepted }

unfoldable pub step : Course → Step → Result Course
step c (send payload) = ok (on_send c payload (send_bytes c.pump payload))
step c round = read_data c.pump >>= λ p. ok (record c { pump = p })
step c store = ok (record c { pump = publish c.pump })
step c transmission = ok (record c { pump = transmit c.pump })
step c reserve = ok (record c { pump = (reserve_close_packet_num c.pump).0 })
step c mark = ok (record c { pump = mark_closed c.pump })

unfoldable pub run : Course → List Step → Result Course
run c [] = ok c
run c (s ∷ ss) = step c s >>= λ c'. run c' ss
