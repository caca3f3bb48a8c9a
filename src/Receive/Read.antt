-- ===== src/Receive/Read.antt =====
-- bluefin/src/worker/reader.rs: `ReaderRxChannel`, which waits for data and hands it on. The acks that
-- `send_ack` passes to the writer are listed.
use bluefin.Prelude.{ℕ, ◌+◌, ◌==◌, leb, ltb, Bool, true, false, not, ◌&&◌, if◌then◌else◌}
use bluefin.Prelude.{List, [], ◌∷◌, ◌++◌, Option, none, some, Result, ok, err, panic, stuck}
use bluefin.OrderedBytes.{ConsumeResult}
use bluefin.Conn
use bluefin.Conn.{ConnectionBuffer, peek, set_waker_if_changed}
use bluefin.Receive.Defs.{DiagnosticEvent, ack_sent, data_received, diag_try_send}

pub record Reader : Type 0 where
  pub packets_consumed : ℕ
  pub packets_consumed_before_ack : ℕ
  pub diag_tx : Bool

unfoldable pub new : Bool → Reader
new wired = record { packets_consumed = 0; packets_consumed_before_ack = 200; diag_tx = wired }

pub record AckData : Type 0 where
  pub base_packet_num : ℕ
  pub num_packets_consumed : ℕ

-- The reader, the acks that it sends and its events.
pub record Told : Type 0 where
  pub reader : Reader
  pub acks : List AckData
  pub events : List DiagnosticEvent

unfoldable pub quiet : Reader → Told
quiet r = record { reader = r; acks = []; events = [] }

-- Whether an ack is to be sent.
unfoldable pub is_due : Reader → ConsumeResult → Bool
is_due r res =
    ltb 0 res.num_packets_consumed
    && (not (res.base_packet_number == 0)
        && leb r.packets_consumed_before_ack (r.packets_consumed + res.num_packets_consumed))

unfoldable pub received : Reader → ConsumeResult → List DiagnosticEvent
received r res =
    if ltb 0 res.num_packets_consumed
    then diag_try_send r.diag_tx
        (data_received res.base_packet_number res.num_packets_consumed res.bytes_consumed)
    else []

-- What `read` and `read_bytes` do with the result of the buffer.
unfoldable pub tell : Reader → ConsumeResult → Told
tell r res =
    if is_due r res
    then record {
      reader = record r { packets_consumed = 0 };
      acks =
          record {
            base_packet_num = res.base_packet_number;
            num_packets_consumed = res.num_packets_consumed;
          }
          ∷ [];
      events =
          received r res
          ++ diag_try_send r.diag_tx (ack_sent res.base_packet_number res.num_packets_consumed);
    }
    else record {
      reader = record r { packets_consumed = r.packets_consumed + res.num_packets_consumed };
      acks = [];
      events = received r res;
    }

unfoldable pub is_err : {A : Type 0} → Result A → Bool
is_err (err e) = true
is_err _ = false

-- `unwrap`, which panics on an error.
unfoldable pub unwrap : {A : Type 0} → Result A → Result A
unwrap (err e) = panic
unwrap r = r

module _ {Addr Waker : Type 0} where
  -- `poll` of `ReaderRxChannelFuture`: whether it is ready.
  unfoldable pub poll_read :
      (Waker → Waker → Bool)
      → Bool
      → ConnectionBuffer Addr Waker
      → Waker
      → ConnectionBuffer Addr Waker × Bool
  poll_read will_wake peer_fin_observed c w = elim (peek c) [
    | ok _ ↦ (c, true)
    | _ ↦ if peer_fin_observed then (c, true) else (set_waker_if_changed will_wake c w, false)
  ]

  -- The end of the stream: the peer's `Fin` is here and nothing is left.
  unfoldable pub eof : Bool → ConnectionBuffer Addr Waker → Option Addr
  eof peer_fin_observed c = if peer_fin_observed && is_err (peek c) then c.addr else none

  -- What both reads make of the buffer's answer.
  unfoldable pub hand_on :
      {B : Type 0}
      → Reader
      → ConnectionBuffer Addr Waker × B × Result (ConsumeResult × Addr)
      → ConnectionBuffer Addr Waker × B × Told × Result (ℕ × Addr)
  hand_on r (c, out, ok (res, a)) = (c, out, tell r res, ok (res.bytes_consumed, a))
  hand_on r (c, out, err e) = (c, out, quiet r, err e)
  hand_on r (c, out, panic) = (c, out, quiet r, panic)
  hand_on r (c, out, stuck) = (c, out, quiet r, stuck)

  -- `read` after its future is ready.
  unfoldable pub read :
      Reader
      → Bool
      → ConnectionBuffer Addr Waker
      → ℕ
      → List ℕ
      → ConnectionBuffer Addr Waker × List ℕ × Told × Result (ℕ × Addr)
  read r peer_fin_observed c bytes_to_read buf = elim (eof peer_fin_observed c) [
    | some a ↦ (c, buf, quiet r, ok (0, a))
    | none ↦
        let out : ConnectionBuffer Addr Waker × List ℕ × Result (ConsumeResult × Addr) =
          Conn.consume c bytes_to_read buf in
        hand_on r (out.0, out.1, unwrap out.2)
  ]

  unfoldable pub read_bytes :
      Reader
      → Bool
      → ConnectionBuffer Addr Waker
      → List (List ℕ)
      → ℕ
      → ConnectionBuffer Addr Waker × List (List ℕ) × Told × Result (ℕ × Addr)
  read_bytes r peer_fin_observed c chunks max_packets = elim (eof peer_fin_observed c) [
    | some a ↦ (c, chunks, quiet r, ok (0, a))
    | none ↦ hand_on r (Conn.consume_bytes c chunks max_packets)
  ]
