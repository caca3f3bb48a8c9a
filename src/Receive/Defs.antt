-- ===== src/Receive/Defs.antt =====
-- bluefin/src/worker/conn_reader.rs: how the packets of a datagram reach the buffers of their
-- connection (bluefin/src/net/mod.rs). A waker that is woken, a number that is offered to
-- `fin_ack_tx` and an event for `diag_tx` are listed; what becomes of them is not in `src`.
use bluefin.Prelude.{ℕ, Bool, true, false, if◌then◌else◌, List, [], ◌∷◌, ◌++◌}
use bluefin.Prelude.{Option, none, some, Result, ok, err, panic, BluefinError, ◌>>=◌}
use bluefin.Prelude.{no_such_waker_error}
use bluefin.Header.Kind.{PacketType, ack, fin, fin_ack}
use bluefin.Packet.{Packet}
use bluefin.Conn.{ConnectionBuffer, AckBuffer, Called, buffer_in_bytes, buffer_in_ack_packet}
use bluefin.Close.{CloseBuffer, buffer_in_fin, buffer_in_fin_ack, take_pending_fin_ack_send}

-- The events of the diagnostic channel.
pub data DiagnosticEvent : Type 0 where
  ack_received : ℕ → ℕ → DiagnosticEvent
  ack_sent : ℕ → ℕ → DiagnosticEvent
  data_sent : ℕ → ℕ → ℕ → DiagnosticEvent
  data_received : ℕ → ℕ → ℕ → DiagnosticEvent
  fin_sent : ℕ → DiagnosticEvent
  fin_ack_sent : ℕ → DiagnosticEvent
  fin_received : ℕ → DiagnosticEvent
  fin_ack_received : ℕ → DiagnosticEvent

-- `ConnectionManagedBuffers`; of the two senders, whether they are there.
pub record ConnectionManagedBuffers (Addr : Type 0) (Waker : Type 0) : Type 0 where
  pub conn_buff : ConnectionBuffer Addr Waker
  pub ack_buff : AckBuffer Waker
  pub close_buff : CloseBuffer
  pub fin_ack_tx : Bool
  pub diag_tx : Bool

-- What a call does besides.
pub record Effects (Waker : Type 0) : Type 0 where
  pub woken : List Waker
  pub fin_acks : List ℕ
  pub events : List DiagnosticEvent

unfoldable pub diag_try_send : Bool → DiagnosticEvent → List DiagnosticEvent
diag_try_send wired event = if wired then event ∷ [] else []

-- The end of the loops over a datagram: the last error of a packet, behind a missing waker.
unfoldable pub wake_result :
    {Waker : Type 0} → Option Waker → Option BluefinError → Result (Unit {0})
wake_result none e = err no_such_waker_error
wake_result (some w) none = ok tt
wake_result (some w) (some e) = err e

unfoldable pub woken_by : {Waker : Type 0} → Option Waker → List Waker
woken_by none = []
woken_by (some w) = w ∷ []

-- `if let Err(err) = … { e = Some(err) }`.
unfoldable pub last_error : Option BluefinError → Result (Unit {0}) → Option BluefinError
last_error e (err why) = some why
last_error e _ = e

module _ {Addr Waker : Type 0} where
  unfoldable pub buffer_data :
      ConnectionBuffer Addr Waker
      → Option BluefinError
      → List Packet
      → ConnectionBuffer Addr Waker × Option BluefinError
  buffer_data c e [] = (c, e)
  buffer_data c e (p ∷ ps) =
      let out : Called Addr Waker (Unit {0}) = buffer_in_bytes c p in
      buffer_data out.0 (last_error e out.1) ps

  unfoldable pub buffer_in_data_packets :
      ConnectionBuffer Addr Waker
      → List Packet
      → ConnectionBuffer Addr Waker × Effects Waker × Result (Unit {0})
  buffer_in_data_packets c packets =
      let out : ConnectionBuffer Addr Waker × Option BluefinError = buffer_data c none packets in
      (
        out.0,
        record { woken = woken_by out.0.waker; fin_acks = []; events = [] },
        wake_result out.0.waker out.1,
      )

-- The variables of the loop over acks.
pub record Acking (Waker : Type 0) : Type 0 where
  pub ack_buff : AckBuffer Waker
  pub error : Option BluefinError
  pub events : List DiagnosticEvent

module _ {Waker : Type 0} where
  unfoldable pub buffer_acks : Bool → Acking Waker → List Packet → Acking Waker
  buffer_acks wired s [] = s
  buffer_acks wired s (p ∷ ps) =
      let out : AckBuffer Waker × Result (Unit {0}) = buffer_in_ack_packet s.ack_buff p in
      buffer_acks wired
        (elim out.1 [
          | err why ↦ record { ack_buff = out.0; error = some why; events = s.events }
          | _ ↦ record {
            ack_buff = out.0;
            error = s.error;
            events =
                s.events
                ++ diag_try_send wired
                    (ack_received p.header.packet_number p.header.type_specific_payload);
          }
        ])
        ps

  unfoldable pub buffer_in_ack_packets :
      Bool → AckBuffer Waker → List Packet → AckBuffer Waker × Effects Waker × Result (Unit {0})
  buffer_in_ack_packets wired b packets =
      let s : Acking Waker =
        buffer_acks wired (record { ack_buff = b; error = none; events = [] }) packets in
      (
        s.ack_buff,
        record { woken = woken_by s.ack_buff.waker; fin_acks = []; events = s.events },
        wake_result s.ack_buff.waker s.error,
      )

-- The variables of the loop over `Fin` and `FinAck` packets.
pub record Closing : Type 0 where
  pub close_buff : CloseBuffer
  pub saw_fin : Bool
  pub events : List DiagnosticEvent

unfoldable pub note_fin : Bool → Closing → Packet → Closing
note_fin wired s p = record {
  close_buff = buffer_in_fin s.close_buff p;
  saw_fin = true;
  events = s.events ++ diag_try_send wired (fin_received p.header.packet_number);
}

unfoldable pub note_fin_ack : Bool → Closing → Packet → Closing
note_fin_ack wired s p = record {
  close_buff = buffer_in_fin_ack s.close_buff p;
  saw_fin = s.saw_fin;
  events = s.events ++ diag_try_send wired (fin_ack_received p.header.packet_number);
}

-- One packet; `unreachable!` panics.
unfoldable pub close_packet : Bool → Closing → Packet → Result Closing
close_packet wired s p = elim p.header.type_field [
  | fin ↦ ok (note_fin wired s p)
  | fin_ack ↦ ok (note_fin_ack wired s p)
  | _ ↦ panic
]

unfoldable pub close_packets : Bool → Closing → List Packet → Result Closing
close_packets wired s [] = ok s
close_packets wired s (p ∷ ps) = close_packet wired s p >>= λ s'. close_packets wired s' ps

-- The buffers, the effects and the result of a call.
abbrev pub Buffered : Type 0 → Type 0 → Type 0
Buffered Addr Waker = ConnectionManagedBuffers Addr Waker × Effects Waker × Result (Unit {0})

module _ {Addr Waker : Type 0} where
  -- What follows the loop: the answer that is owed goes to `fin_ack_tx`, and the reader is woken.
  unfoldable pub after_close : ConnectionManagedBuffers Addr Waker → Closing → Buffered Addr Waker
  after_close m s =
      if s.saw_fin
      then (let taken : CloseBuffer × Option ℕ = take_pending_fin_ack_send s.close_buff in
          (
            record m { close_buff = taken.0 },
            record {
              woken = woken_by m.conn_buff.waker;
              fin_acks = elim taken.1 [
                | none ↦ []
                | some pn ↦ if m.fin_ack_tx then pn ∷ [] else []
              ];
              events = s.events;
            },
            ok tt,
          ))
      else (
        record m { close_buff = s.close_buff },
        record { woken = []; fin_acks = []; events = s.events },
        ok tt,
      )

  unfoldable pub buffer_in_close_packets :
      ConnectionManagedBuffers Addr Waker → List Packet → Result (Buffered Addr Waker)
  buffer_in_close_packets m packets =
      close_packets m.diag_tx (record { close_buff = m.close_buff; saw_fin = false; events = [] })
        packets
      >>= λ s. ok (after_close m s)

  -- The `match` on the type of the first packet. A panic leaves no state that anyone can use: the
  -- lock that is held is poisoned.
  unfoldable pub route_packets :
      PacketType → ConnectionManagedBuffers Addr Waker → List Packet → Result (Buffered Addr Waker)
  route_packets ack m packets =
      let out : AckBuffer Waker × Effects Waker × Result (Unit {0}) =
        buffer_in_ack_packets m.diag_tx m.ack_buff packets in
      ok (record m { ack_buff = out.0 }, out.1, out.2)
  route_packets fin m packets = buffer_in_close_packets m packets
  route_packets fin_ack m packets = buffer_in_close_packets m packets
  route_packets _ m packets =
      let out : ConnectionBuffer Addr Waker × Effects Waker × Result (Unit {0}) =
        buffer_in_data_packets m.conn_buff packets in
      ok (record m { conn_buff = out.0 }, out.1, out.2)

  unfoldable pub buffer_in_packets :
      ConnectionManagedBuffers Addr Waker → List Packet → Result (Buffered Addr Waker)
  buffer_in_packets m [] = ok (m, record { woken = []; fin_acks = []; events = [] }, ok tt)
  buffer_in_packets m (first ∷ rest) = route_packets first.header.type_field m (first ∷ rest)
