-- ===== src/Tests/Connections.antt =====
-- Runs of the connections of two hosts.
use bluefin.Prelude.{ℕ, refl, arith, none, true, false, [], ◌∷◌}
use bluefin.Header
use bluefin.Close
use bluefin.Conn
use bluefin.Connection.Defs.{BluefinConnection}
use bluefin.Connection.Exchange.{Exchanged, fin-exchange}
use bluefin.Handshake.{client}
use bluefin.Receive.Eof.{IsOpen}
use bluefin.Receive.Read
use bluefin.Shutdown.{Attempt}
use bluefin.Writer.Pump

-- A connection with its own id, that of its peer, and its next packet number.
abbrev connection : ℕ → ℕ → ℕ → BluefinConnection ℕ ℕ
connection src dst next = record {
  src_conn_id = src;
  dst_conn_id = dst;
  reader_rx = Read.new false;
  writer_handler = Pump.start (Pump.new next src dst);
  buffers = record {
    conn_buff = Conn.new src client;
    ack_buff = Conn.new_ack_buffer 0;
    close_buff = Close.new;
    fin_ack_tx = true;
    diag_tx = false;
  };
  diag_rx = false;
  version = 0;
  security_fields = Header.Security.default;
}

-- The connection that closes, and its peer.
abbrev closing : BluefinConnection ℕ ℕ
closing = connection 7 1 40

abbrev peer : BluefinConnection ℕ ℕ
peer = connection 1 7 90

abbrev silent : Attempt
silent = record { fin_error = none; before = []; during = []; notified = false }

fin-exchange_example : Exchanged {V = ℕ} closing peer (((7, 1), 0) ∷ []) silent silent 0 2
fin-exchange_example =
    fin-exchange closing peer (((7, 1), 0) ∷ []) silent silent 0 2 (omega arith) (omega arith)
      (unfold Pump.reserve_close_packet_num in
        unfold Pump.new in unfold Pump.start in unfold Pump.mark_closed in omega arith)
      refl refl refl (unfold IsOpen in unfold Close.new in tt)
