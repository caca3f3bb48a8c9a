-- ===== src/Tool/Turns.antt =====
-- What one turn of `run_pipe` hands on, and how it may end the loop: proofs.
use mathlib.Core.Path.{subst}
use bluefin.Prelude.{ℕ, ◌≡◌, ◌⊎◌, inl, inr, refl, sym, ap, ◌∙◌}
use bluefin.Prelude.{Bool, true, false, not, ◌&&◌, if◌then◌else◌, Bool-cases}
use bluefin.Prelude.{List, [], ◌∷◌, ◌++◌, append-nil, length, add_u64}
use bluefin.Tool.Pipe.{
  Act, flush, recv, say, recv_error, drain, Turn, Settings, Pipe, Flow, go, leave, fail, waits,
  Exit, shutdown_signal, stdin_eof, peer_closed, Outcome, signal, elapsed, got, failed, from_stdin,
  from_peer, then_peer, turn, peer_told,
}
use bluefin.Tool.Flow.{
  gather, gather-append, sent_by, written_by, closed_by, chunk, SendFails, Quiet, Idle,
  Quiet-append, sent-append-Idle, heard, Stdin, from_stdin-Stdin,
}

-- A whole turn.
abbrev pub Why : Settings → Turn → List Act → Exit → Type 0
Why s t acts shutdown_signal = (t.shutdown ≡ true) ⊎ (t.outcome ≡ signal)
Why s t acts peer_closed = (t.shutdown ≡ false) × (t.outcome ≡ got [])
Why s t acts stdin_eof =
    (t.shutdown ≡ false)
    × (t.disconnected ≡ true)
    × (s.close_on_stdin_eof ≡ true)
    × (s.interactive ≡ false)
    × ((front back : List Act) × (acts ≡ front ++ (flush ∷ back)) × (gather sent_by back ≡ []))

abbrev pub Does : Settings → Pipe → Turn → List Act × Flow → Type 0
Does s p t (acts, go p') =
    (gather sent_by acts ≡ heard p t)
    × (s.diag ≡ false → gather written_by acts ≡ chunk t.outcome)
    × (gather closed_by acts ≡ [])
    × (p'.rx ≡ (p.rx && not t.disconnected))
Does s p t (acts, leave why) =
    (gather sent_by acts ≡ (if t.shutdown then [] else heard p t)) × Quiet acts × Why s t acts why
Does s p t (acts, fail e) =
    ((rest : List (List ℕ)) × (gather sent_by acts ++ rest ≡ heard p t))
    × Quiet acts
    × (SendFails e t.queued ⊎ (t.outcome ≡ failed e))
Does s p t (acts, waits) = Unit

peer_told-lem :
    (diag interactive : Bool) (bytes : List ℕ) (n : ℕ)
    → (gather sent_by (peer_told diag interactive bytes n) ≡ [])
      × (gather closed_by (peer_told diag interactive bytes n) ≡ [])
      × (diag ≡ false → gather written_by (peer_told diag interactive bytes n) ≡ bytes ∷ [])
unfolding peer_told gather
peer_told-lem true i bytes n = (refl, refl, λ h. cc)
peer_told-lem false true bytes n = (refl, refl, λ h. refl)
peer_told-lem false false bytes n = (refl, refl, λ h. refl)

-- A wait that ends with nothing to hand on.
Quiet-behind :
    (acts later : List Act)
    → Idle later
    → Quiet acts
    → (gather sent_by (acts ++ later) ≡ gather sent_by acts) × Quiet (acts ++ later)
Quiet-behind acts later i q = (sent-append-Idle acts later i, Quiet-append acts later q i.1)

from_peer-Does :
    (s : Settings) (p p' : Pipe) (t : Turn) (acts : List Act) (o : Outcome)
    → t.outcome ≡ o
    → t.shutdown ≡ false
    → Stdin s p t (acts, go p')
    → Does s p t (acts ++ (from_peer s p' o).0, (from_peer s p' o).1)
unfolding from_peer gather
from_peer-Does s p p' t acts signal e up (l, q, r) =
    let (same, still) = Quiet-behind acts [] (refl, (refl, refl)) q in
    (same ∙ l ∙ sym (ap (λ b. if b then [] else heard p t) up), still, inr e)
from_peer-Does s p p' t acts elapsed e up (l, q, r) =
    let (same, still) = Quiet-behind acts [] (refl, (refl, refl)) q in
    (same ∙ l, (λ d. still.0 ∙ sym (ap chunk e)), still.1, r)
from_peer-Does s p p' t acts (failed why) e up (l, q, r) =
    let (same, still) =
      Quiet-behind acts (recv ∷ say (recv_error why) ∷ []) (refl, (refl, refl)) q in
    (([], append-nil _ ∙ same ∙ l), still, inr e)
from_peer-Does s p p' t acts (got []) e up (l, q, r) =
    let (same, still) = Quiet-behind acts (recv ∷ []) (refl, (refl, refl)) q in
    (same ∙ l ∙ sym (ap (λ b. if b then [] else heard p t) up), still, (up, e))
from_peer-Does s p p' t acts (got (b ∷ bs)) e up (l, (w, c), r) =
    let n : ℕ = add_u64 p'.total_recv (length (b ∷ bs)) in
    let told : List Act = peer_told s.diag s.interactive (b ∷ bs) n in
    let (x, y, z) = peer_told-lem s.diag s.interactive (b ∷ bs) n in
    (
      rw (gather-append sent_by acts (recv ∷ drain ∷ told), x) (append-nil _ ∙ l),
      λ d. rw (gather-append written_by acts (recv ∷ drain ∷ told), w) (z d ∙ sym (ap chunk e)),
      rw (gather-append closed_by acts (recv ∷ drain ∷ told), c) y,
      r,
    )

then_peer-Does :
    (s : Settings) (p : Pipe) (t : Turn) (res : List Act × Flow)
    → t.shutdown ≡ false
    → Stdin s p t res
    → Does s p t (then_peer s t.outcome res)
unfolding then_peer
then_peer-Does s p t (acts, go p') up h = from_peer-Does s p p' t acts t.outcome refl up h
then_peer-Does s p t (acts, leave why) up (l, q, e, gone, piped, tty, flushes) = (
  l ∙ sym (ap (λ b. if b then [] else heard p t) up),
  q,
  subst (Why s t acts) (sym e) (up, gone, piped, tty, flushes),
)
then_peer-Does s p t (acts, fail e) up (l, q, f) = (l, q, inl f)
then_peer-Does s p t (acts, waits) up h = tt

Does-drain :
    (s : Settings) (p : Pipe) (t : Turn) (acts : List Act) (f : Flow)
    → Does s p t (acts, f)
    → Does s p t (drain ∷ acts, f)
unfolding gather
Does-drain s p t acts (go p') h = h
Does-drain s p t acts (leave shutdown_signal) h = h
Does-drain s p t acts (leave peer_closed) h = h
Does-drain s p t acts (leave stdin_eof) (l, q, (u, d, c, i, (front, back, e, z))) =
    (l, q, (u, d, c, i, (drain ∷ front, back, ap (λ xs. drain ∷ xs) e, z)))
Does-drain s p t acts (fail e) h = h
Does-drain s p t acts waits h = tt

pub turn-Does : (s : Settings) (p : Pipe) (t : Turn) → Does s p t (turn s p t)
unfolding turn gather
turn-Does s p t =
    let rest : List Act × Flow = then_peer s t.outcome (from_stdin s p t) in
    let on : List Act × Flow = (drain ∷ rest.0, rest.1) in
    let off : List Act × Flow = (drain ∷ [], leave shutdown_signal) in
    elim (Bool-cases t.shutdown) [
      | inl h ↦
          subst (Does s p t) (sym (ap (λ b. if b then off else on) h))
            (sym (ap (λ b. if b then [] else heard p t) h), (refl, refl), inl h)
      | inr h ↦ subst (Does s p t) (sym (ap (λ b. if b then off else on) h)) (
          Does-drain s p t rest.0 rest.1
            (then_peer-Does s p t (from_stdin s p t) h (from_stdin-Stdin s p t)))
    ]
