-- ===== src/Receive/Eof.antt =====
-- bluefin/src/worker/conn_reader.rs and reader.rs: from the peer's `Fin` to the end of the stream.
use bluefin.Prelude.{ℕ, ◌≡◌, refl, ◌∙◌, ap, Bool, true, false, if◌then◌else◌}
use bluefin.Prelude.{List, [], ◌∷◌, ◌++◌, none, some}
use bluefin.Prelude.{ok, err, BluefinError, ◌>>=◌}
use bluefin.Header.Kind.{fin}
use bluefin.Packet.{Packet}
use bluefin.Close.{CloseState, CloseBuffer, active, local_fin_sent, peer_fin_received, closed}
use bluefin.Close.{buffer_in_fin, owe_fin_ack, take_pending_fin_ack_send}
use bluefin.Conn
use bluefin.Conn.{ConnectionBuffer}
use bluefin.Receive.Defs.{ConnectionManagedBuffers, Effects, Closing, close_packet, close_packets}
use bluefin.Receive.Defs.{buffer_in_close_packets, buffer_in_packets, route_packets, after_close}
use bluefin.Receive.Defs.{diag_try_send, fin_received, note_fin, woken_by}
use bluefin.Receive.Read.{Reader, poll_read, read, eof, quiet, is_err}

-- The connection waits for the peer's first `Fin`.
unfoldable pub IsOpen : CloseState → Type 0
IsOpen active = Unit
IsOpen (local_fin_sent _) = Unit
IsOpen (peer_fin_received _) = ⊥
IsOpen closed = ⊥

buffer_in_fin-open :
    (b : CloseBuffer) (p : Packet) (s : CloseState)
    → b.state ≡ s
    → IsOpen s
    → buffer_in_fin b p ≡ owe_fin_ack b p.header.packet_number
unfolding buffer_in_fin IsOpen
buffer_in_fin-open b p active e h = simp (e, buffer_in_fin)
buffer_in_fin-open b p (local_fin_sent n) e h = simp (e, buffer_in_fin)
buffer_in_fin-open b p (peer_fin_received n) e h = absurd h
buffer_in_fin-open b p closed e h = absurd h

module _ {Addr Waker : Type 0} where
  -- What a first `Fin` leaves.
  abbrev pub after_fin :
      ConnectionManagedBuffers Addr Waker → ℕ → ConnectionManagedBuffers Addr Waker
  after_fin m pn = record m {
    close_buff = (take_pending_fin_ack_send (owe_fin_ack m.close_buff pn)).0;
  }

  abbrev pub fin_effects : ConnectionManagedBuffers Addr Waker → ℕ → Effects Waker
  fin_effects m pn = record {
    woken = woken_by m.conn_buff.waker;
    fin_acks = if m.fin_ack_tx then pn ∷ [] else [];
    events = [] ++ diag_try_send m.diag_tx (fin_received pn);
  }

  pub fin-after_fin :
      (m : ConnectionManagedBuffers Addr Waker) (p : Packet)
      → p.header.type_field ≡ fin
      → IsOpen m.close_buff.state
      → buffer_in_packets m (p ∷ [])
        ≡ ok (after_fin m p.header.packet_number, fin_effects m p.header.packet_number, ok tt)
  unfolding buffer_in_packets close_packets after_close note_fin owe_fin_ack
      take_pending_fin_ack_send close_packet route_packets buffer_in_close_packets
  fin-after_fin m p e open_state = ap (λ t. route_packets t m (p ∷ [])) e ∙ at_fin
    where
      start : Closing
      start = record { close_buff = m.close_buff; saw_fin = false; events = [] }

      noted : close_packet m.diag_tx start p ≡ ok (note_fin m.diag_tx start p)
      noted = simp (e, close_packet)

      at_fin :
          route_packets fin m (p ∷ [])
          ≡ ok (after_fin m p.header.packet_number, fin_effects m p.header.packet_number, ok tt)
      at_fin =
          ap (λ r. (r >>= λ s. close_packets m.diag_tx s []) >>= λ s. ok (after_close m s)) noted
          ∙ ap
              (λ b. ok (
                after_close m (record {
                  close_buff = b;
                  saw_fin = true;
                  events = [] ++ diag_try_send m.diag_tx (fin_received p.header.packet_number);
                })))
              (buffer_in_fin-open m.close_buff p m.close_buff.state refl open_state)

  eof-addr :
      (c : ConnectionBuffer Addr Waker) (a : Addr) (e : BluefinError)
      → Conn.peek c ≡ err e
      → c.addr ≡ some a
      → eof true c ≡ some a
  unfolding eof is_err
  eof-addr c a e empty known = ap (λ r. if is_err r then c.addr else none) empty ∙ known

  -- The peer's first `Fin` arrives, alone in its datagram, when nothing is left to read; its packet
  -- number may be any, also one below those of the data that was received. Then the task
  -- wakes the reader that has registered, asks for a `FinAck` with the number of the `Fin` where it can
  -- send one, and leaves the received data as it was; the future of the reader is ready, and `read`
  -- returns zero bytes, with the peer's address, for any slice and any length.
  pub fin-eof :
      (m : ConnectionManagedBuffers Addr Waker) (p : Packet) (a : Addr) (e : BluefinError)
      → p.header.type_field ≡ fin
      → IsOpen m.close_buff.state
      → Conn.peek m.conn_buff ≡ err e
      → m.conn_buff.addr ≡ some a
      → (m' : ConnectionManagedBuffers Addr Waker) × (fx : Effects Waker) × (buffer_in_packets m
            (p ∷ [])
          ≡ ok (m', fx, ok tt))
        × (fx.woken ≡ woken_by m.conn_buff.waker)
        × (fx.fin_acks ≡ (if m.fin_ack_tx then p.header.packet_number ∷ [] else []))
        × (m'.conn_buff ≡ m.conn_buff)
        × ((will_wake : Waker → Waker → Bool) (w : Waker)
            → (poll_read will_wake m'.close_buff.peer_fin_observed m'.conn_buff w).1 ≡ true)
        × ((r : Reader) (n : ℕ) (buf : List ℕ)
            → read r m'.close_buff.peer_fin_observed m'.conn_buff n buf
              ≡ (m'.conn_buff, buf, quiet r, ok (0, a)))
  unfolding owe_fin_ack take_pending_fin_ack_send poll_read read
  fin-eof m p a e is_fin open_state empty known = (
    after_fin m p.header.packet_number,
    fin_effects m p.header.packet_number,
    fin-after_fin m p is_fin open_state,
    refl,
    refl,
    refl,
    (λ will_wake w. simp (empty, poll_read)),
    λ r n buf. simp (eof-addr m.conn_buff a e empty known, read),
  )
