-- ===== src/Writer/AckFlow.antt =====
-- bluefin/src/worker/writer.rs: the acks of `read_ack` through any steps of its callers and its task.
use bluefin.Prelude.{ℕ, ◌≡◌, refl, sym, ◌∙◌, ap, ap₂}
use bluefin.Prelude.{Bool, true, Bool-cases, inl, inr, append_assoc, append-nil, if◌then◌else◌}
use bluefin.Prelude.{List, [], ◌∷◌, ◌++◌, joined}
use bluefin.Prelude.{Option, none, some, Result, ok, err, write_error, ◌>>=◌}
use bluefin.Writer.Acks.{AckData}
use bluefin.Writer.AckPump
use bluefin.Writer.AckPump.{AckPump, Step, send, round, outcome, send_loop, batch, read_round}
use bluefin.Writer.AckKeeps.{
  acks_bytes, written, written-++, left_over, flow, Keeps, batch-Keeps, resent, after_try,
}

round-Keeps :
    (takes : ℕ → Bool) (p : AckPump) (pending : Option (List ℕ))
    → p.pending_send ≡ pending
    → Keeps p (read_round takes p pending)
unfolding read_round
round-Keeps takes p none e = batch-Keeps takes p p.channel refl e
round-Keeps takes p (some datagram) e = elim (Bool-cases (takes 0)) [
  | inr refused ↦ (p, ap (after_try takes p datagram) refused, refl, refl, refl, refl)
  | inl taken ↦
      let (p', run, s, t, h, f) =
        batch-Keeps takes (record p { pending_send = none; wire = p.wire ++ (datagram ∷ []) })
          p.channel refl refl in
      (p', ap (after_try takes p datagram) taken ∙ run, s, t, h, f ∙ resent p datagram e)
]

unfoldable pub sent_acks : List Step → List AckData
sent_acks [] = []
sent_acks (send a ∷ ss) = a ∷ sent_acks ss
sent_acks (round _ ∷ ss) = sent_acks ss

queued_flow :
    (p : AckPump) (a : AckData)
    → flow (record p { channel = p.channel ++ (a ∷ []) })
      ≡ flow p ++ written p.src_conn_id p.dst_conn_id (a ∷ [])
queued_flow p a =
    let one : List ℕ = written p.src_conn_id p.dst_conn_id (a ∷ []) in
    let before : List ℕ = acks_bytes p (p.ack_queue ++ p.channel) in
    ap (λ x. joined p.wire ++ (left_over p.pending_send ++ x))
      (ap (acks_bytes p) (sym (append_assoc p.ack_queue p.channel (a ∷ [])))
        ∙ written-++ p.src_conn_id p.dst_conn_id (p.ack_queue ++ p.channel) (a ∷ []))
    ∙ ap (λ x. joined p.wire ++ x) (sym (append_assoc (left_over p.pending_send) before one))
    ∙ sym (append_assoc (joined p.wire) (left_over p.pending_send ++ before) one)

sends :
    (p : AckPump) (a : AckData) (b : Bool)
    → b ≡ true
    → (if◌then◌else◌ {A = AckPump × Result (Unit {0})} b
        (record p { channel = p.channel ++ (a ∷ []) }, ok tt)
        (p, err (write_error "Ack sender is not available")))
      ≡ (record p { channel = p.channel ++ (a ∷ []) }, ok tt)
sends p a b h = rw h refl

run-from :
    (p : AckPump) (ss : List Step)
    → p.has_sender ≡ true
    → (p' : AckPump) × (AckPump.run p ss ≡ ok p')
      × (flow p' ≡ flow p ++ written p.src_conn_id p.dst_conn_id (sent_acks ss))
unfolding AckPump.run AckPump.read_ack AckPump.send_ack sent_acks
run-from p [] h = (p, refl, sym (append-nil (flow p)))
run-from p (send a ∷ ss) h =
    let q : AckPump = record p { channel = p.channel ++ (a ∷ []) } in
    let sent : (AckPump.send_ack p a).0 ≡ q = ap (λ x. x.0) (sends p a p.has_sender h) in
    let (p', e, f) = run-from q ss h in
    (
      p',
      ap (λ x. AckPump.run x ss) sent ∙ e,
      f
          ∙ ap (λ x. x ++ written p.src_conn_id p.dst_conn_id (sent_acks ss)) (queued_flow p a)
          ∙ append_assoc (flow p) (written p.src_conn_id p.dst_conn_id (a ∷ [])) _
          ∙ ap (λ x. flow p ++ x)
              (sym (written-++ p.src_conn_id p.dst_conn_id (a ∷ []) (sent_acks ss))),
    )
run-from p (round takes ∷ ss) h =
    let (p', e, s, t, h', f) = round-Keeps takes p p.pending_send refl in
    let (p'', e', f') = run-from p' ss (h' ∙ h) in
    (
      p'',
      ap (λ r. r >>= λ x. AckPump.run x ss) e ∙ e',
      f'
          ∙ ap₂ (λ x y. flow p' ++ written x y (sent_acks ss)) s t
          ∙ ap (λ x. x ++ written p.src_conn_id p.dst_conn_id (sent_acks ss)) f,
    )

-- Acks are handed over, and `read_ack` runs rounds in which the socket takes a datagram or does not,
-- in any order. No round panics or runs out of fuel, and the bytes on the wire, the datagram that was
-- left over, and the acks in the queue and the channel, each written as a packet, are together all
-- acks that were handed over, each written as a packet, in order.
pub run-flow :
    (src dst : ℕ) (ss : List Step)
    → (p : AckPump) × (AckPump.run (AckPump.new src dst) ss ≡ ok p)
      × (flow p ≡ written src dst (sent_acks ss))
unfolding AckPump.new joined left_over
run-flow src dst ss = run-from (AckPump.new src dst) ss refl
