-- ===== src/Tool/Flow.antt =====
-- What the part for stdin of a turn of `run_pipe` hands on: proofs.
use mathlib.Core.Path.{subst}
use bluefin.Prelude.{ℕ, ◌≡◌, inl, inr, refl, sym, ap, ◌∙◌, arith}
use bluefin.Prelude.{Bool, true, false, not, ◌&&◌, if◌then◌else◌, Bool-cases, is_empty}
use bluefin.Prelude.{List, [], ◌∷◌, ◌++◌, map, append-nil, append_assoc, length, add_u64}
use bluefin.Prelude.{Option, none, some, BluefinError}
use bluefin.Tool.Pipe.{
  Act, half_closing, send, flush, close, write, say, Await, Turn, Settings, Pipe, Flow, go, leave,
  fail, waits, pending, returns, stdin_eof, Outcome, got, send_queued, at_stdin_eof, after_queue,
  from_stdin, send_told, flush_told, prompt_told,
}

-- What `f` reads off the acts, in order.
unfoldable pub gather {ℓ} : {B : Type ℓ} → (Act → List B) → List Act → List B
gather f [] = []
gather f (a ∷ acts) = f a ++ gather f acts

pub gather-append {ℓ} :
    {B : Type ℓ} (f : Act → List B) (xs ys : List Act)
    → gather f (xs ++ ys) ≡ gather f xs ++ gather f ys
unfolding gather
gather-append f [] ys = refl
gather-append f (a ∷ xs) ys =
    ap (λ xs. f a ++ xs) (gather-append f xs ys)
    ∙ sym (append_assoc (f a) (gather f xs) (gather f ys))

abbrev pub sent_by : Act → List (List ℕ)
sent_by (send line) = line ∷ []
sent_by _ = []

abbrev pub written_by : Act → List (List ℕ)
written_by (write bytes) = bytes ∷ []
written_by _ = []

abbrev pub closed_by : Act → List (Unit {0})
closed_by close = tt ∷ []
closed_by _ = []

-- The lines that were queued before a turn, and the bytes that the peer had for it.
abbrev pub lines : Turn → List (List ℕ)
lines t = map (λ q. q.0) t.queued

abbrev pub chunk : Outcome → List (List ℕ)
chunk (got (b ∷ bs)) = (b ∷ bs) ∷ []
chunk _ = []

-- Some send of the queue fails with `e`.
abbrev pub SendFails : BluefinError → List (List ℕ × Option BluefinError) → Type 0
SendFails e [] = ⊥
SendFails e ((line, none) ∷ queue) = SendFails e queue
SendFails e ((line, some e') ∷ queue) = e' ≡ e

-- No output to stdout and no close.
abbrev pub Quiet : List Act → Type 0
Quiet acts = (gather written_by acts ≡ []) × (gather closed_by acts ≡ [])

-- The loop over the queue sends every line, or those up to the one whose send fails.
abbrev Sends : List (List ℕ × Option BluefinError) → List Act × ℕ × Option BluefinError → Type 0
Sends queue (acts, total, none) = (gather sent_by acts ≡ map (λ q. q.0) queue) × Quiet acts
Sends queue (acts, total, some e) =
    ((rest : List (List ℕ)) × (gather sent_by acts ++ rest ≡ map (λ q. q.0) queue))
    × Quiet acts
    × SendFails e queue

-- Acts that hand on nothing.
abbrev pub Idle : List Act → Type 0
Idle acts = (gather sent_by acts ≡ []) × Quiet acts

Sends-cons :
    (line : List ℕ) (told : List Act) (queue : List (List ℕ × Option BluefinError))
    (res : List Act × ℕ × Option BluefinError)
    → Idle told
    → Sends queue res
    → Sends ((line, none) ∷ queue) (send line ∷ (told ++ res.0), res.1, res.2)
unfolding gather
Sends-cons line told queue (acts, total, none) (s, (w, c)) (s', (w', c')) = (
  ap (λ xs. line ∷ xs) (rw (gather-append sent_by told acts, s) s'),
  (rw (gather-append written_by told acts, w) w', rw (gather-append closed_by told acts, c) c'),
)
Sends-cons line told queue (acts, total, some e) (s, (w, c)) ((rest, s'), (w', c'), f) = (
  (rest, ap (λ xs. line ∷ xs) (rw (gather-append sent_by told acts, s) s')),
  (rw (gather-append written_by told acts, w) w', rw (gather-append closed_by told acts, c) c'),
  f,
)

send_told-Idle : (b : Bool) (line : List ℕ) (n : ℕ) → Idle (send_told b line n)
unfolding send_told gather
send_told-Idle true line n = (refl, (refl, refl))
send_told-Idle false line n = (refl, (refl, refl))

flush_told-Idle : (fails : Option BluefinError) → Idle (flush_told fails)
unfolding flush_told gather
flush_told-Idle none = (refl, (refl, refl))
flush_told-Idle (some e) = (refl, (refl, refl))

prompt_told-Idle : (b c : Bool) → Idle (prompt_told b c)
unfolding prompt_told gather
prompt_told-Idle true true = (refl, (refl, refl))
prompt_told-Idle true false = (refl, (refl, refl))
prompt_told-Idle false c = (refl, (refl, refl))

send_queued-Sends :
    (s : Settings) (total : ℕ) (queue : List (List ℕ × Option BluefinError))
    → Sends queue (send_queued s total queue)
unfolding send_queued gather
send_queued-Sends s total [] = (refl, (refl, refl))
send_queued-Sends s total ((line, some e) ∷ queue) =
    ((map (λ q. q.0) queue, refl), (refl, refl), refl)
send_queued-Sends s total ((line, none) ∷ queue) =
    let n : ℕ = add_u64 total (length line) in
    Sends-cons line (send_told s.diag line n) queue (send_queued s n queue)
      (send_told-Idle s.diag line n) (send_queued-Sends s n queue)

-- What is taken from the queue in a turn.
abbrev pub heard : Pipe → Turn → List (List ℕ)
heard p t = if p.rx then lines t else []

-- The part of a turn for stdin.
abbrev pub Stdin : Settings → Pipe → Turn → List Act × Flow → Type 0
Stdin s p t (acts, go p') =
    (gather sent_by acts ≡ heard p t) × Quiet acts × (p'.rx ≡ (p.rx && not t.disconnected))
Stdin s p t (acts, leave why) =
    (gather sent_by acts ≡ heard p t)
    × Quiet acts
    × (why ≡ stdin_eof)
    × (t.disconnected ≡ true)
    × (s.close_on_stdin_eof ≡ true)
    × (s.interactive ≡ false)
    × ((front back : List Act) × (acts ≡ front ++ (flush ∷ back)) × (gather sent_by back ≡ []))
Stdin s p t (acts, fail e) =
    ((rest : List (List ℕ)) × (gather sent_by acts ++ rest ≡ heard p t))
    × Quiet acts
    × SendFails e t.queued
Stdin s p t (acts, waits) = Unit

pub Quiet-append : (xs ys : List Act) → Quiet xs → Quiet ys → Quiet (xs ++ ys)
unfolding gather
Quiet-append xs ys (w, c) (w', c') =
    (rw (gather-append written_by xs ys, w) w', rw (gather-append closed_by xs ys, c) c')

pub sent-append-Idle : (xs ys : List Act) → Idle ys → gather sent_by (xs ++ ys) ≡ gather sent_by xs
sent-append-Idle xs ys (s, q) = rw (gather-append sent_by xs ys, s) (append-nil (gather sent_by xs))

Idle-append : (xs ys : List Act) → Idle xs → Idle ys → Idle (xs ++ ys)
Idle-append xs ys (s, q) (s', q') = (sent-append-Idle xs ys (s', q') ∙ s, Quiet-append xs ys q q')

half_closed-Idle :
    (fails : Option BluefinError) → Idle (flush ∷ (flush_told fails ++ (say half_closing ∷ [])))
unfolding gather
half_closed-Idle fails =
    Idle-append (flush_told fails) (say half_closing ∷ []) (flush_told-Idle fails)
      (refl, (refl, refl))

at_stdin_eof-Stdin :
    (s : Settings) (p : Pipe) (t : Turn) (total : ℕ) (pre : List Act) (ends : Await)
    → p.rx ≡ true
    → t.disconnected ≡ true
    → gather sent_by pre ≡ lines t
    → Quiet pre
    → Stdin s p t (
      pre ++ (at_stdin_eof s (record p { total_sent = total }) ends).0,
      (at_stdin_eof s (record p { total_sent = total }) ends).1,
    )
unfolding at_stdin_eof gather
at_stdin_eof-Stdin s p t total pre pending h gone e q = tt
at_stdin_eof-Stdin s p t total pre (returns fails) h gone e q =
    let rest : Idle (flush ∷ flush_told fails) = flush_told-Idle fails in
    let half = half_closed-Idle fails in
    elim (Bool-cases (s.close_on_stdin_eof && not s.interactive)) [
      | inl b ↦ rw b (
        rw h (sent-append-Idle pre _ rest ∙ e),
        Quiet-append pre _ q rest.1,
        refl,
        gone,
        (ground (arith, b)),
        (ground (arith, b)),
        (pre, flush_told fails, refl, rest.0),
      )
      | inr b ↦
          rw b
            (rw h (sent-append-Idle pre _ half ∙ e), Quiet-append pre _ q half.1, rw (h, gone) refl)
    ]

after_queue-Stdin :
    (s : Settings) (p : Pipe) (t : Turn) (res : List Act × ℕ × Option BluefinError)
    → p.rx ≡ true
    → Sends t.queued res
    → Stdin s p t (after_queue s p t res)
unfolding after_queue
after_queue-Stdin s p t (acts, total, some e) h (rest, q, f) = (rw h rest, q, f)
after_queue-Stdin s p t (acts, total, none) h (l, q) =
    let told : List Act = prompt_told (not (is_empty t.queued)) s.show_prompt in
    let idle : Idle told = prompt_told-Idle (not (is_empty t.queued)) s.show_prompt in
    let sends : gather sent_by (acts ++ told) ≡ lines t = sent-append-Idle acts told idle ∙ l in
    let quiet : Quiet (acts ++ told) = Quiet-append acts told q idle.1 in
    let ended : List Act × Flow = at_stdin_eof s (record p { total_sent = total }) t.flush_ends in
    let on : List Act × Flow = (acts ++ told, go (record p { total_sent = total })) in
    let off : List Act × Flow = (acts ++ (told ++ ended.0), ended.1) in
    elim (Bool-cases t.disconnected) [
      | inl gone ↦ subst (Stdin s p t) (sym (ap (λ b. if b then off else on) gone)) (
          subst (λ xs. Stdin s p t (xs, ended.1)) (append_assoc acts told ended.0)
            (at_stdin_eof-Stdin s p t total (acts ++ told) t.flush_ends h gone sends quiet))
      | inr more ↦
          subst (Stdin s p t) (sym (ap (λ b. if b then off else on) more))
            (sends ∙ sym (ap (λ b. if b then lines t else []) h), quiet, rw (h, more) refl)
    ]

pub from_stdin-Stdin : (s : Settings) (p : Pipe) (t : Turn) → Stdin s p t (from_stdin s p t)
unfolding from_stdin gather
from_stdin-Stdin s p t =
    let on : List Act × Flow = after_queue s p t (send_queued s p.total_sent t.queued) in
    elim (Bool-cases p.rx) [
      | inl h ↦
          subst (Stdin s p t) (sym (ap (λ b. if b then on else ([], go p)) h))
            (after_queue-Stdin s p t _ h (send_queued-Sends s p.total_sent t.queued))
      | inr h ↦ subst (Stdin s p t) (sym (ap (λ b. if b then on else ([], go p)) h)) (
        sym (ap (λ b. if b then lines t else []) h),
        (refl, refl),
        h ∙ sym (ap (λ b. b && not t.disconnected) h),
      )
    ]
