-- ===== src/Connection/Exchange.antt =====
-- bluefin/src/net/connection.rs: what a connection does once it is closed, and the exchange of Fin and
-- FinAck between the connections of two hosts.
use mathlib.Core.Path.{subst}
use bluefin.Prelude.{ℕ, ◌^◌, ◌<◌, ◌≡◌, refl, ap, ◌∙◌, ==_iff, true, false, Bool-cases, ltb}
use bluefin.Prelude.{List, [], ◌∷◌, length, map, ◌++◌, replicate, inl, inr}
use bluefin.Prelude.{none, some, Result, ok, err, connection_closed}
use bluefin.Header
use bluefin.Header.Kind.{fin, fin_ack}
use bluefin.Packet.{Packet, from_bytes}
use bluefin.Close.{
  mark_closed, closed, CloseBuffer, owe_fin_ack, take_pending_fin_ack_send, buffer_in_fin_ack,
  record_local_fin_sent,
}
use bluefin.Conn.Manager.{Key}
use bluefin.Receive.Defs.{ConnectionManagedBuffers, Effects, DiagnosticEvent, buffer_in_packets}
use bluefin.Receive.Defs.{fin_sent, fin_ack_sent, diag_try_send}
use bluefin.Receive.Eof.{IsOpen, after_fin, fin_effects, fin-after_fin}
use bluefin.Shutdown
use bluefin.Shutdown.{Attempt, arrives, attempts, after_send, result_of, is_acked, close-Ends}
use bluefin.Writer.Control.{
  SendTry, taken, writable, send_fin, send_fin_ack, control_packet, control_header, send_fin-Heard,
}
use bluefin.Writer.Pump
use bluefin.Writer.Pump.{Pump, reserve_close_packet_num}
use bluefin.Connection.Defs.{
  BluefinConnection, after_answer, drain_fin_acks, is_closed, is_closed_state,
}
use bluefin.Connection.Defs

send_bytes-closed :
    (p : Pump) (payload : List ℕ)
    → p.closed ≡ true
    → Pump.send_bytes p payload ≡ (p, err connection_closed)
unfolding Pump.send_bytes Pump.send_checked
send_bytes-closed p payload shut =
    ap
      (λ b.
        Pump.send_checked p payload b p.has_sender (ltb (length p.channel) Pump.data_channel_bound))
      shut

-- The socket tells of `acks` while the connection waits.
abbrev pub acked_by : List Packet → Attempt
acked_by acks = record { fin_error = none; before = []; during = acks; notified = true }

module _ {Addr Waker V : Type 0} where
  -- After `close`, whatever it met, every payload is refused and changes nothing, and what was received
  -- can still be read as before.
  pub close-refuses :
      (c : BluefinConnection Addr Waker) (connections : List (Key × V))
      (first second third : Attempt) (payload : List ℕ)
      → (let (c', connections', fins, res) = Defs.close c connections first second third in
          (Defs.send c' payload ≡ (c', err connection_closed))
          × (c'.buffers.conn_buff ≡ c.buffers.conn_buff))
  unfolding Defs.close Defs.send
  close-refuses c connections first second third payload =
      let (shut, ends, registered) =
        close-Ends c.writer_handler c.buffers.close_buff connections (c.src_conn_id, c.dst_conn_id)
          first second third in
      let p : Pump =
        (Shutdown.close c.writer_handler c.buffers.close_buff connections
          (c.src_conn_id, c.dst_conn_id) first second third).pump in
      let c' : BluefinConnection Addr Waker = (Defs.close c connections first second third).0 in
      (
        ap (λ (o : Pump × Result ℕ). (record c' { writer_handler = o.0 }, o.1))
            (send_bytes-closed p payload shut),
        refl,
      )

arrives-fin_ack :
    (b : CloseBuffer) (p : Packet)
    → p.header.type_field ≡ fin_ack
    → arrives b (p ∷ []) ≡ buffer_in_fin_ack b p
unfolding arrives buffer_in_fin_ack
arrives-fin_ack b p t = rw t refl

arrived-is_acked :
    (b : CloseBuffer) (p : Packet)
    → p.header.type_field ≡ fin_ack
    → is_acked (arrives b (p ∷ [])) p.header.packet_number ≡ true
unfolding is_acked buffer_in_fin_ack
arrived-is_acked b p t =
    rw (arrives-fin_ack b p t) ((==_iff p.header.packet_number p.header.packet_number).1 refl)

-- The matching `FinAck` is there when the first wait ends.
close-acked :
    (n : ℕ) (b : CloseBuffer) (a : Attempt) (rest : List Attempt)
    → a.fin_error ≡ none
    → a.notified ≡ true
    → is_acked (arrives (arrives b a.before) a.during) n ≡ true
    → (let out = attempts n b (a ∷ rest) [] in
        (out.1 ≡ n ∷ []) × (result_of out.2 ≡ ok tt) × (out.0.state ≡ closed))
unfolding attempts after_send result_of mark_closed
close-acked n b a rest sends told acked = elim (Bool-cases (is_acked (arrives b a.before) n)) [
  | inl now ↦ rw (sends, now) (refl, refl, refl)
  | inr unseen ↦ rw (sends, unseen, told, acked) (refl, refl, refl)
]

-- The number that `close` puts into its `Fin`.
abbrev pub close_pn : {Addr Waker : Type 0} → BluefinConnection Addr Waker → ℕ
close_pn c = (reserve_close_packet_num (Pump.mark_closed c.writer_handler)).1

-- The socket is full for `k` rounds before it takes each answer.
abbrev pub each_taken : ℕ → List ℕ → List (ℕ × List SendTry)
each_taken k pns = map (λ pn. (pn, replicate k writable ++ (taken ∷ []))) pns

module _ {Addr Waker : Type 0} where
  drain_fin_acks-one :
      (c : BluefinConnection Addr Waker) (n k : ℕ) (buf : List ℕ) (events : List DiagnosticEvent)
      → send_fin_ack c.buffers.diag_tx c.src_conn_id c.dst_conn_id n
          (replicate k writable ++ (taken ∷ []))
        ≡ some (buf ∷ [], events, ok tt)
      → (drain_fin_acks c (each_taken k (n ∷ []))).0 ≡ buf ∷ []
  unfolding drain_fin_acks after_answer
  drain_fin_acks-one c n k buf events sent = rw sent refl

module _ {Addr Waker V : Type 0} where
  closed-acked :
      (c : BluefinConnection Addr Waker) (connections : List (Key × V)) (q : Packet)
      (second third : Attempt)
      → q.header.type_field ≡ fin_ack
      → q.header.packet_number ≡ close_pn c
      → (let (c', connections', sent, res) =
            Defs.close c connections (acked_by (q ∷ [])) second third in
          (sent ≡ close_pn c ∷ []) × (res ≡ ok tt) × (is_closed c' ≡ true))
  unfolding Defs.close Shutdown.close is_closed is_closed_state arrives record_local_fin_sent
  closed-acked c connections q second third t e =
      let n : ℕ = close_pn c in
      let b : CloseBuffer = record_local_fin_sent c.buffers.close_buff n in
      let first : Attempt = acked_by (q ∷ []) in
      let (sent, res, state) =
        close-acked n b first (second ∷ third ∷ []) refl refl
          (subst (λ k. is_acked (arrives b (q ∷ [])) k ≡ true) e (arrived-is_acked b q t)) in
      (sent, res, ap is_closed_state state)

  -- The `Fin` of `a`, the `FinAck` of `b`, and how the close of `a` ends.
  abbrev pub Exchanged :
      (a b : BluefinConnection Addr Waker)
      → List (Key × V)
      → (second third : Attempt) → (k k' : ℕ) → Type 0
  Exchanged a b connections second third k k' =
      let p : Packet = control_packet a.src_conn_id a.dst_conn_id fin (close_pn a) in
      let q : Packet = control_packet a.dst_conn_id a.src_conn_id fin_ack (close_pn a) in
      (fin_out ack_out : List ℕ) × (m : ConnectionManagedBuffers Addr Waker) × (fx : Effects Waker)
      × (send_fin a.buffers.diag_tx a.src_conn_id a.dst_conn_id (close_pn a)
            (replicate k writable ++ (taken ∷ []))
          ≡ some (fin_out ∷ [], diag_try_send a.buffers.diag_tx (fin_sent (close_pn a)), ok tt))
      × (from_bytes fin_out ≡ ok (p ∷ []))
      × (buffer_in_packets b.buffers (p ∷ []) ≡ ok (m, fx, ok tt))
      × (m.close_buff.peer_fin_observed ≡ true)
      × ((drain_fin_acks (record b { buffers = m }) (each_taken k' fx.fin_acks)).0 ≡ ack_out ∷ [])
      × (from_bytes ack_out ≡ ok (q ∷ []))
      × (let (a', connections', sent, res) =
            Defs.close a connections (acked_by (q ∷ [])) second third in
          (sent ≡ close_pn a ∷ []) × (res ≡ ok tt) × (is_closed a' ≡ true))
      × (is_closed (record b { buffers = m }) ≡ false)

  -- A close between two hosts, of connection `a`, whose peer `b` has its two ids the other way round, has
  -- its sender for FinAcks and has seen no Fin yet; `b` may have sent its own. The ids are below 2^32 and
  -- the reserved number below 2^64. However often each socket is full before it takes the bytes: `a` sends
  -- one datagram, which the parser reads as one Fin with that number; `b` takes it in, notes the end of
  -- the stream, and sends one datagram, which the parser reads as one FinAck for `a` with that number.
  -- If it comes while `a` waits for the first time, the close of `a` has sent one Fin and is `ok`, and `a`
  -- is closed, while `b` is not.
  pub fin-exchange :
      (a b : BluefinConnection Addr Waker) (connections : List (Key × V)) (second third : Attempt)
      (k k' : ℕ)
      → a.src_conn_id < 2 ^ 32
      → a.dst_conn_id < 2 ^ 32
      → close_pn a < 2 ^ 64
      → b.src_conn_id ≡ a.dst_conn_id
      → b.dst_conn_id ≡ a.src_conn_id
      → b.buffers.fin_ack_tx ≡ true
      → IsOpen b.buffers.close_buff.state
      → Exchanged a b connections second third k k'
  unfolding owe_fin_ack take_pending_fin_ack_send is_closed is_closed_state control_header
      Header.with_packet_number Header.new
  fin-exchange a b connections second third k k' hs hd hn bs bd wired open_state =
      let n : ℕ = close_pn a in
      let src : ℕ = a.src_conn_id in
      let dst : ℕ = a.dst_conn_id in
      let p : Packet = control_packet src dst fin n in
      let q : Packet = control_packet dst src fin_ack n in
      let ((fin_out, sent, heard, _), _) =
        send_fin-Heard a.buffers.diag_tx src dst n k [] "" hs hd hn in
      let (_, (ack_out, answered, told, _)) =
        send_fin-Heard b.buffers.diag_tx dst src n k' [] "" hd hs hn in
      let m : ConnectionManagedBuffers Addr Waker = after_fin b.buffers n in
      let b' : BluefinConnection Addr Waker = record b { buffers = m } in
      let owed : (fin_effects b.buffers n).fin_acks ≡ n ∷ [] = rw wired refl in
      (
        fin_out,
        ack_out,
        m,
        fin_effects b.buffers n,
        sent,
        heard,
        fin-after_fin b.buffers p refl open_state,
        refl,
        ap (λ l. (drain_fin_acks b' (each_taken k' l)).0) owed
            ∙ drain_fin_acks-one b' n k' ack_out (diag_try_send b.buffers.diag_tx (fin_ack_sent n))
                (rw (bs, bd) answered),
        told,
        closed-acked a connections q second third refl refl,
        refl,
      )
