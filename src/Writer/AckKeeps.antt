-- ===== src/Writer/AckKeeps.antt =====
-- bluefin/src/worker/writer.rs: the acks of `read_ack`, sent and waiting, through its inner loop.
use mathlib.Core.Path.{subst}
use bluefin.Prelude.{ℕ, zero, suc, ◌≡◌, refl, sym, ◌∙◌, ap, not, ◌&&◌, is_empty}
use bluefin.Prelude.{
  Bool, true, false, Bool-cases, inl, inr, append_assoc, append-nil, map, if◌then◌else◌,
}
use bluefin.Prelude.{List, [], ◌∷◌, ◌++◌, take, drop, take-append-drop, joined, joined-append}
use bluefin.Prelude.{Option, none, some, Result, ok, ◌>>=◌}
use bluefin.Packet.{serialise}
use bluefin.Packet.Wire.{serialise_all}
use bluefin.Writer.Acks.{AckData}
use bluefin.Writer.AckRow.{ack_packet, consume_acks_into-lem}
use bluefin.Writer.AckPump.{AckPump, outcome, send_loop, batch}

-- Acks as bytes: a packet for each.
abbrev pub written : ℕ → ℕ → List AckData → List ℕ
written src dst acks = serialise_all (map (ack_packet src dst) acks)

pub written-++ :
    (src dst : ℕ) (acks more : List AckData)
    → written src dst (acks ++ more) ≡ written src dst acks ++ written src dst more
written-++ src dst [] more = refl
written-++ src dst (a ∷ acks) more =
    ap (λ x. serialise (ack_packet src dst a) ++ x) (written-++ src dst acks more)
    ∙ sym (append_assoc (serialise (ack_packet src dst a)) (written src dst acks) _)

unfoldable pub left_over : Option (List ℕ) → List ℕ
left_over none = []
left_over (some datagram) = datagram

-- All that is on its way, in order.
abbrev pub flow : AckPump → List ℕ
flow p =
    joined p.wire
    ++ (left_over p.pending_send ++ written p.src_conn_id p.dst_conn_id (p.ack_queue ++ p.channel))

-- The same connection, and the same bytes on their way.
abbrev pub Keeps : AckPump → Result AckPump → Type 0
Keeps p r =
    (p' : AckPump) × (r ≡ ok p')
    × (p'.src_conn_id ≡ p.src_conn_id)
    × (p'.dst_conn_id ≡ p.dst_conn_id)
    × (p'.has_sender ≡ p.has_sender)
    × (flow p' ≡ flow p)

module _ (p : AckPump) where
  abbrev pub acks_bytes : List AckData → List ℕ
  acks_bytes acks = written p.src_conn_id p.dst_conn_id acks

  split_at :
      acks_bytes (p.ack_queue ++ p.channel)
      ≡ acks_bytes (take 760 p.ack_queue) ++ acks_bytes (drop 760 p.ack_queue ++ p.channel)
  split_at =
      ap (λ q. acks_bytes (q ++ p.channel)) (sym (take-append-drop 760 p.ack_queue))
      ∙ ap acks_bytes (append_assoc (take 760 p.ack_queue) (drop 760 p.ack_queue) p.channel)
      ∙ written-++ p.src_conn_id p.dst_conn_id (take 760 p.ack_queue) _

  -- The datagram of a call, on the wire, or left over.
  sent_flow :
      p.pending_send ≡ none
      → flow (record p {
        ack_queue = drop 760 p.ack_queue;
        wire = p.wire ++ (acks_bytes (take 760 p.ack_queue) ∷ []);
      })
        ≡ flow p
  unfolding joined left_over
  sent_flow e =
      let d : List ℕ = acks_bytes (take 760 p.ack_queue) in
      let rest : List ℕ = acks_bytes (drop 760 p.ack_queue ++ p.channel) in
      ap (λ o. joined (p.wire ++ (d ∷ [])) ++ (left_over o ++ rest)) e
      ∙ ap (λ x. x ++ rest)
          (joined-append p.wire (d ∷ []) ∙ ap (λ x. joined p.wire ++ x) (append-nil d))
      ∙ append_assoc (joined p.wire) d rest
      ∙ ap (λ x. joined p.wire ++ x) (sym split_at)
      ∙ ap (λ o. joined p.wire ++ (left_over o ++ acks_bytes (p.ack_queue ++ p.channel))) (sym e)

  kept_flow :
      p.pending_send ≡ none
      → flow (record p {
        ack_queue = drop 760 p.ack_queue;
        pending_send = some (acks_bytes (take 760 p.ack_queue));
      })
        ≡ flow p
  unfolding left_over
  kept_flow e =
      ap (λ x. joined p.wire ++ x) (sym split_at)
      ∙ ap (λ o. joined p.wire ++ (left_over o ++ acks_bytes (p.ack_queue ++ p.channel))) (sym e)

is_empty-nil : {A : Type 0} (xs : List A) → not (is_empty xs) ≡ false → drop 760 xs ≡ xs
is_empty-nil [] e = refl
is_empty-nil (x ∷ xs) e = absurd (subst (λ b. if b then Unit {0} else ⊥) e tt)

-- What one call leaves.
module _ (p : AckPump) (e : p.pending_send ≡ none) where
  abbrev left : Bool → Bool → AckPump
  left more taken =
      outcome p (drop 760 p.ack_queue) (acks_bytes p (take 760 p.ack_queue)) more taken

  outcome-flow :
      (more taken : Bool) → not (is_empty p.ack_queue) ≡ more → flow (left more taken) ≡ flow p
  unfolding outcome
  outcome-flow false taken h =
      ap (λ x. flow (record p { ack_queue = x })) (is_empty-nil p.ack_queue h)
  outcome-flow true true h = sent_flow p e
  outcome-flow true false h = kept_flow p e

  outcome-same :
      (more taken : Bool)
      → ((left more taken).src_conn_id ≡ p.src_conn_id)
        × ((left more taken).dst_conn_id ≡ p.dst_conn_id)
        × ((left more taken).has_sender ≡ p.has_sender)
        × ((left more true).pending_send ≡ none)
  unfolding outcome
  outcome-same false taken = (refl, refl, refl, e)
  outcome-same true true = (refl, refl, refl, e)
  outcome-same true false = (refl, refl, refl, e)

abbrev after_one : ℕ → (ℕ → Bool) → AckPump → List AckData × List ℕ × Bool → Bool → Result AckPump
after_one rounds takes p out b = elim b [
  | true ↦ send_loop rounds takes (outcome p out.0 out.1 out.2 true)
  | false ↦ ok (outcome p out.0 out.1 out.2 false)
]

send_loop-Keeps :
    (rounds : ℕ) (takes : ℕ → Bool) (p : AckPump)
    → p.pending_send ≡ none
    → Keeps p (send_loop rounds takes p)
unfolding send_loop
send_loop-Keeps zero takes p e = (p, refl, refl, refl, refl, refl)
send_loop-Keeps (suc rounds) takes p e =
    let more : Bool = not (is_empty p.ack_queue) in
    let out : List AckData × List ℕ × Bool =
      (drop 760 p.ack_queue, acks_bytes p (take 760 p.ack_queue), more) in
    let start =
      ap (λ r. r >>= λ o. after_one rounds takes p o (o.2 && takes (suc rounds)))
        (consume_acks_into-lem p.ack_queue p.src_conn_id p.dst_conn_id) in
    elim (Bool-cases (more && takes (suc rounds))) [
      | inl goes_on ↦
          let (s, t, h, free) = outcome-same p e more true in
          let (p', run, s', t', h', f) = send_loop-Keeps rounds takes (left p e more true) free in
          (
            p',
            start ∙ ap (after_one rounds takes p out) goes_on ∙ run,
            s' ∙ s,
            t' ∙ t,
            h' ∙ h,
            f ∙ outcome-flow p e more true refl,
          )
      | inr stops ↦
          let (s, t, h, _) = outcome-same p e more false in
          (
            left p e more false,
            start ∙ ap (after_one rounds takes p out) stops,
            s,
            t,
            h,
            outcome-flow p e more false refl,
          )
    ]

pub batch-Keeps :
    (takes : ℕ → Bool) (p : AckPump) (acks : List AckData)
    → p.channel ≡ acks
    → p.pending_send ≡ none
    → Keeps p (batch takes p acks)
unfolding batch
batch-Keeps takes p [] c e = (p, refl, refl, refl, refl, refl)
batch-Keeps takes p (a ∷ acks) c e =
    let front : List AckData = take 20 (a ∷ acks) in
    let back : List AckData = drop 20 (a ∷ acks) in
    let (p', run, s, t, h, f) =
      send_loop-Keeps 12 takes (record p { channel = back; ack_queue = p.ack_queue ++ front }) e in
    (
      p',
      run,
      s,
      t,
      h,
      f
          ∙ ap
              (λ x.
                joined p.wire
                ++ (left_over p.pending_send ++ written p.src_conn_id p.dst_conn_id x))
              (append_assoc p.ack_queue front back
                ∙ ap (λ x. p.ack_queue ++ x) (take-append-drop 20 (a ∷ acks) ∙ sym c)),
    )

-- The datagram that was left over goes out first.
pub resent :
    (p : AckPump) (datagram : List ℕ)
    → p.pending_send ≡ some datagram
    → flow (record p { pending_send = none; wire = p.wire ++ (datagram ∷ []) }) ≡ flow p
unfolding joined left_over
resent p datagram e =
    let rest : List ℕ = acks_bytes p (p.ack_queue ++ p.channel) in
    ap (λ x. x ++ rest)
      (joined-append p.wire (datagram ∷ []) ∙ ap (λ x. joined p.wire ++ x) (append-nil datagram))
    ∙ append_assoc (joined p.wire) datagram rest
    ∙ ap (λ o. joined p.wire ++ (left_over o ++ rest)) (sym e)

abbrev pub after_try : (ℕ → Bool) → AckPump → List ℕ → Bool → Result AckPump
after_try takes p datagram b = elim b [
  | true ↦
      batch takes (record p { pending_send = none; wire = p.wire ++ (datagram ∷ []) }) p.channel
  | false ↦ ok p
]
