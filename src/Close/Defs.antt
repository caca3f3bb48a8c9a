-- ===== src/Close/Defs.antt =====
-- bluefin/src/net/close_handler.rs: `CloseState` and `CloseBuffer`. The shared flag
-- `peer_fin_observed` is a field, and `fin_ack_notify` counts its `notify_waiters`. The waker is
-- left out: the operations below do not look at it.
use bluefin.Prelude.{ℕ, ◌+◌, ◌==◌, if◌then◌else◌, Bool, true, false, Option, none, some}
use bluefin.Packet.{Packet}

pub data CloseState : Type 0 where
  active : CloseState
  peer_fin_received : ℕ → CloseState
  local_fin_sent : ℕ → CloseState
  closed : CloseState

pub record CloseBuffer : Type 0 where
  pub state : CloseState
  pub pending_fin_ack_send : Option ℕ
  pub received_fin_ack_for : Option ℕ
  pub peer_fin_observed : Bool
  pub fin_ack_notify : ℕ

unfoldable pub new : CloseBuffer
new = record {
  state = active;
  pending_fin_ack_send = none;
  received_fin_ack_for = none;
  peer_fin_observed = false;
  fin_ack_notify = 0;
}

-- The peer's `Fin` is noted, and an answer is owed.
unfoldable pub owe_fin_ack : CloseBuffer → ℕ → CloseBuffer
owe_fin_ack b pn = record b {
  state = peer_fin_received pn;
  pending_fin_ack_send = some pn;
  peer_fin_observed = true;
}

-- `buffer_in_fin`. Both branches on `received_fin_ack_for` in the source are the same.
unfoldable pub buffer_in_fin : CloseBuffer → Packet → CloseBuffer
buffer_in_fin b packet =
    let pn : ℕ = packet.header.packet_number in
    elim b.state [
      | active ↦ owe_fin_ack b pn
      | local_fin_sent _ ↦ owe_fin_ack b pn
      | peer_fin_received fin_packet_num ↦
          if fin_packet_num == pn then record b { pending_fin_ack_send = some pn } else b
      | closed ↦ b
    ]

unfoldable pub buffer_in_fin_ack : CloseBuffer → Packet → CloseBuffer
buffer_in_fin_ack b packet = record b {
  received_fin_ack_for = some packet.header.packet_number;
  fin_ack_notify = b.fin_ack_notify + 1;
}

unfoldable pub take_pending_fin_ack_send : CloseBuffer → CloseBuffer × Option ℕ
take_pending_fin_ack_send b = (record b { pending_fin_ack_send = none }, b.pending_fin_ack_send)

unfoldable pub mark_closed : CloseBuffer → CloseBuffer
mark_closed b = record b { state = closed }

unfoldable pub record_local_fin_sent : CloseBuffer → ℕ → CloseBuffer
record_local_fin_sent b packet_number = elim b.state [
  | active ↦ record b { state = local_fin_sent packet_number }
  | peer_fin_received _ ↦ record b { state = local_fin_sent packet_number }
  | local_fin_sent _ ↦ b
  | closed ↦ b
]
