-- ===== src/Connection/Defs.antt =====
-- bluefin/src/net/connection.rs: `BluefinConnection` and its methods. The waits are over: `recv` is what
-- follows the future of the reader. Whether the socket could be connected is an argument.
use bluefin.Prelude.{ℕ, Bool, true, false, if◌then◌else◌, ◌++◌, List, [], ◌∷◌}
use bluefin.Prelude.{Option, none, some, Result, ok, err, panic, stuck}
use bluefin.Header
use bluefin.Header.Security.{SecurityFields}
use bluefin.Close.{CloseState, CloseBuffer, closed}
use bluefin.Conn.{ConnectionBuffer, AckBuffer}
use bluefin.Conn.Manager.{Key}
use bluefin.Receive.Defs.{ConnectionManagedBuffers, DiagnosticEvent}
use bluefin.Receive.Read
use bluefin.Receive.Read.{Reader, Told}
use bluefin.Shutdown
use bluefin.Shutdown.{Attempt, Ending, result_of}
use bluefin.Writer.Control.{SendTry, send_fin_ack}
use bluefin.Writer.Pump
use bluefin.Writer.Pump.{Pump}

-- The shared buffers stand in the connection; of `diag_rx`, whether it is there.
pub record BluefinConnection (Addr : Type 0) (Waker : Type 0) : Type 0 where
  pub src_conn_id : ℕ
  pub dst_conn_id : ℕ
  pub reader_rx : Reader
  pub writer_handler : Pump
  pub buffers : ConnectionManagedBuffers Addr Waker
  pub diag_rx : Bool
  pub version : ℕ
  pub security_fields : SecurityFields

unfoldable pub is_closed_state : CloseState → Bool
is_closed_state closed = true
is_closed_state _ = false

-- The bytes of a read, without the address of the peer.
unfoldable pub size_of : {Addr : Type 0} → Result (ℕ × Addr) → Result ℕ
size_of (ok (size, a)) = ok size
size_of (err e) = err e
size_of panic = panic
size_of stuck = stuck

-- What the drainer of `fin_ack_rx` does with one answer that is owed; its result is dropped.
unfoldable pub after_answer :
    Option (List (List ℕ) × List DiagnosticEvent × Result (Unit {0}))
    → List (List ℕ) × List DiagnosticEvent
    → List (List ℕ) × List DiagnosticEvent
after_answer none later = ([], [])
after_answer (some (out, events, res)) later = (out ++ later.0, events ++ later.1)

module _ {Addr Waker : Type 0} where
  unfoldable pub new :
      ℕ
      → ℕ
      → ℕ
      → ConnectionBuffer Addr Waker
      → AckBuffer Waker
      → CloseBuffer
      → (diag connected : Bool) → Result (BluefinConnection Addr Waker)
  new src dst next_send_packet_num conn_buffer ack_buffer close_buffer diag connected =
      if connected
      then ok (record {
        src_conn_id = src;
        dst_conn_id = dst;
        reader_rx = Read.new diag;
        writer_handler = Pump.start (Pump.new next_send_packet_num src dst);
        buffers = record {
          conn_buff = conn_buffer;
          ack_buff = ack_buffer;
          close_buff = close_buffer;
          fin_ack_tx = true;
          diag_tx = diag;
        };
        diag_rx = diag;
        version = 0;
        security_fields = Header.Security.default;
      })
      else panic

  -- The drainer, over the numbers that come through `fin_ack_rx`, each with the answers of the socket.
  unfoldable pub drain_fin_acks :
      BluefinConnection Addr Waker → List (ℕ × List SendTry) → List (List ℕ) × List DiagnosticEvent
  drain_fin_acks c [] = ([], [])
  drain_fin_acks c ((pn, tries) ∷ rest) =
      after_answer (send_fin_ack c.buffers.diag_tx c.src_conn_id c.dst_conn_id pn tries)
        (drain_fin_acks c rest)

  -- The connection, the caller's slice, what the reader tells, and the result.
  unfoldable pub recv :
      BluefinConnection Addr Waker
      → List ℕ
      → ℕ
      → BluefinConnection Addr Waker × List ℕ × Told × Result ℕ
  recv c buf len =
      let out : ConnectionBuffer Addr Waker × List ℕ × Told × Result (ℕ × Addr) =
        Read.read c.reader_rx c.buffers.close_buff.peer_fin_observed c.buffers.conn_buff len buf in
      (
        record c { reader_rx = out.2.reader; buffers = record c.buffers { conn_buff = out.0 } },
        out.1,
        out.2,
        size_of out.3,
      )

  unfoldable pub recv_bytes :
      BluefinConnection Addr Waker
      → List (List ℕ)
      → ℕ
      → BluefinConnection Addr Waker × List (List ℕ) × Told × Result ℕ
  recv_bytes c chunks max_packets =
      let out : ConnectionBuffer Addr Waker × List (List ℕ) × Told × Result (ℕ × Addr) =
        Read.read_bytes c.reader_rx c.buffers.close_buff.peer_fin_observed c.buffers.conn_buff
          chunks max_packets in
      (
        record c { reader_rx = out.2.reader; buffers = record c.buffers { conn_buff = out.0 } },
        out.1,
        out.2,
        size_of out.3,
      )

  -- `send` and `send_bytes`.
  unfoldable pub send :
      BluefinConnection Addr Waker → List ℕ → BluefinConnection Addr Waker × Result ℕ
  send c payload =
      let out : Pump × Result ℕ = Pump.send_bytes c.writer_handler payload in
      (record c { writer_handler = out.0 }, out.1)

  unfoldable pub flush : BluefinConnection Addr Waker → Option (Result (Unit {0}))
  flush c = Pump.flush c.writer_handler

  -- `close` behind its `flush`: the connection, the map of its host, the `Fin`s and the result.
  unfoldable pub close :
      {V : Type 0}
      → BluefinConnection Addr Waker
      → List (Key × V)
      → Attempt
      → Attempt
      → Attempt
      → BluefinConnection Addr Waker × List (Key × V) × List ℕ × Result (Unit {0})
  close {V} c connections first second third =
      let e : Ending V =
        Shutdown.close c.writer_handler c.buffers.close_buff connections
          (c.src_conn_id, c.dst_conn_id) first second third in
      (
        record c {
          writer_handler = e.pump;
          buffers = record c.buffers { close_buff = e.close_buff };
        },
        e.connections,
        e.fins,
        result_of e.stop,
      )

  unfoldable pub is_closed : BluefinConnection Addr Waker → Bool
  is_closed c = is_closed_state c.buffers.close_buff.state
