-- ===== src/Tool/Runs.antt =====
-- Whole runs of `run_pipe`: what was handed on when it ends, and why it ends.
use mathlib.Core.Path.{subst}
use bluefin.Prelude.{ℕ, ◌≡◌, inl, inr, refl, sym, ap, ap₂, ◌∙◌}
use bluefin.Prelude.{Bool, true, false, not, ◌&&◌, if◌then◌else◌, Bool-cases}
use bluefin.Prelude.{List, [], ◌∷◌, ◌++◌, append-nil, append_assoc}
use bluefin.Prelude.{Option, none, some, Result, ok, err, BluefinError}
use bluefin.Tool.Pipe.{
  Act, flush, close, say, Turn, Settings, Pipe, Flow, go, leave, fail, waits, Await, pending,
  returns, wound_up, Exit, shutdown_signal, stdin_eof, peer_closed, turn, wind_up, behind, proceed,
  loop, run_pipe, settings, prompt, prompted,
}
use bluefin.Tool.Flow.{gather, gather-append, sent_by, written_by, closed_by, lines, Quiet, heard}
use bluefin.Tool.Turns.{Why, Does, turn-Does}
use bluefin.Tool.Ending.{
  IsStdin, all_lines, Last, Ends, some_injective, heard-lines, wind_up-idle, wind_up-ClosesOnce,
  wind_up-peer_closed, Last-behind,
}

flushed_before :
    (front mid f back acts fin : List Act)
    → acts ≡ front ++ (flush ∷ mid)
    → fin ≡ f ++ (close ∷ back)
    → acts ++ fin ≡ front ++ (flush ∷ ((mid ++ f) ++ (close ∷ back)))
flushed_before front mid f back acts fin e e' =
    ap₂ (λ xs ys. xs ++ ys) e e'
    ∙ append_assoc front (flush ∷ mid) (f ++ (close ∷ back))
    ∙ ap (λ zs. front ++ (flush ∷ zs)) (sym (append_assoc mid f (close ∷ back)))

-- The last turn, when it leaves the loop.
leave-Last :
    (s : Settings) (t : Turn) (acts : List Act) (why : Exit) (fails : Option BluefinError)
    → (t.shutdown ≡ false → gather sent_by acts ≡ lines t)
    → Quiet acts
    → Why s t acts why
    → Last s t (gather sent_by acts) (acts ++ wind_up why fails) (ok tt)
leave-Last s t acts peer_closed fails l q (up, o) =
    Last-behind s t _ acts (wind_up peer_closed fails) (ok tt) q.1
      (inl (refl, wind_up-peer_closed fails, o, l up))
leave-Last s t acts shutdown_signal fails l q w =
    let (c, (front, back, e, z, z')) = wind_up-ClosesOnce shutdown_signal fails (λ e. cc) in
    Last-behind s t _ acts (wind_up shutdown_signal fails) (ok tt) q.1 (
      inr
        (inl (refl, c, (front, back, e, z'), elim w [ inl down ↦ inl down | inr o ↦ inr (inl o) ])))
leave-Last s t acts stdin_eof fails l q (up, gone, piped, tty, (front, mid, e, z)) =
    let (c, (f, back, e', z', z'')) = wind_up-ClosesOnce stdin_eof fails (λ e. cc) in
    let fin : List Act = wind_up stdin_eof fails in
    inr (
      inl (
        refl,
        rw (gather-append closed_by acts fin, q.1) c,
        (acts ++ f, back, ap (λ xs. acts ++ xs) e' ∙ sym (append_assoc acts f (close ∷ back)), z''),
        inr (
            inr (
              gone,
              piped,
              tty,
              l up,
              (
                front,
                mid ++ f,
                back,
                flushed_before front mid f back acts fin e e',
                gather-append sent_by mid f ∙ ap₂ (λ xs ys. xs ++ ys) z z',
              ),
            )),
      ))

leave-Ends :
    (s : Settings) (p : Pipe) (t : Turn) (ts : List Turn) (acts : List Act) (why : Exit)
    (close_fails : Option BluefinError)
    → heard p t ≡ lines t
    → Does s p t (acts, leave why)
    → Ends s (t ∷ ts) (acts ++ wind_up why close_fails) (ok tt)
leave-Ends s p t ts acts why fails e (l, q, w) =
    let (sends, writes) = wind_up-idle why fails in
    let all_sent : t.shutdown ≡ false → gather sent_by acts ≡ lines t =
      λ up. l ∙ ap (λ b. if b then [] else heard p t) up ∙ e in
    let (rest, split) : (rest : List (List ℕ)) × (gather sent_by acts ++ rest ≡ lines t) =
      elim (Bool-cases t.shutdown) [
        | inl down ↦
            (lines t, ap (λ xs. xs ++ lines t) (l ∙ ap (λ b. if b then [] else heard p t) down))
        | inr up ↦ ([], append-nil _ ∙ all_sent up)
      ] in
    (
      [],
      ts,
      t,
      gather sent_by acts,
      rest,
      refl,
      split,
      rw (gather-append sent_by acts (wind_up why fails), sends) (append-nil _),
      λ d. rw (gather-append written_by acts (wind_up why fails), q.0, writes) refl,
      leave-Last s t acts why fails all_sent q w,
    )

fail-Ends :
    (s : Settings) (p : Pipe) (t : Turn) (ts : List Turn) (acts : List Act) (e : BluefinError)
    → heard p t ≡ lines t
    → Does s p t (acts, fail e)
    → Ends s (t ∷ ts) acts (err e)
fail-Ends s p t ts acts e h ((rest, l), (w, c), f) =
    ([], ts, t, gather sent_by acts, rest, refl, l ∙ h, refl, (λ d. w), inr (inr (e, refl, c, f)))

go-Ends :
    (s : Settings) (p p' : Pipe) (t : Turn) (ts : List Turn) (acts later : List Act)
    (res : Result (Unit {0}))
    → heard p t ≡ lines t
    → Does s p t (acts, go p')
    → Ends s ts later res
    → Ends s (t ∷ ts) (acts ++ later) res
go-Ends s p p' t ts acts later res h (l, w, c, r)
      (used, unread, u, x, rest, e, f, sends, writes, last) =
    (
      t ∷ used,
      unread,
      u,
      x,
      rest,
      ap (λ us. t ∷ us) e,
      f,
      rw (gather-append sent_by acts later, l, h, sends)
          (sym (append_assoc (lines t) (all_lines used) x)),
      λ d. rw (gather-append written_by acts later, w d, writes d) refl,
      Last-behind s u x acts later res c last,
    )

behind-some :
    (before acts : List Act) (o : Option (List Act × Result (Unit {0}))) (r : Result (Unit {0}))
    → behind before o ≡ some (acts, r)
    → (later : List Act) × (o ≡ some (later, r)) × (before ++ later ≡ acts)
unfolding behind
behind-some before acts none r e = cc
behind-some before acts (some (later, r')) r e =
    (later, ap (λ x. some (later, x)) (some_injective e).1, (some_injective e).0)

-- What is proved of one result holds of an equal one.
some-Ends :
    (s : Settings) (ts : List Turn) (acts acts' : List Act) (r r' : Result (Unit {0}))
    → ◌≡◌ {A = Option (List Act × Result (Unit {0}))} (some (acts, r)) (some (acts', r'))
    → Ends s ts acts r
    → Ends s ts acts' r'
some-Ends s ts acts acts' r r' e h =
    let (x, y) = some_injective e in subst (λ as'. Ends s ts as' r') x (subst (Ends s ts acts) y h)

wound-Ends :
    (s : Settings) (p : Pipe) (t : Turn) (ts : List Turn) (before : List Act) (why : Exit)
    (close_ends : Await) (acts : List Act) (r : Result (Unit {0}))
    → heard p t ≡ lines t
    → Does s p t (before, leave why)
    → wound_up before why close_ends ≡ some (acts, r)
    → Ends s (t ∷ ts) acts r
unfolding wound_up
wound-Ends s p t ts before peer_closed ends acts r h does e =
    some-Ends s (t ∷ ts) _ acts _ r e (leave-Ends s p t ts before peer_closed none h does)
wound-Ends s p t ts before shutdown_signal pending acts r h does e = cc
wound-Ends s p t ts before stdin_eof pending acts r h does e = cc
wound-Ends s p t ts before shutdown_signal (returns fails) acts r h does e =
    some-Ends s (t ∷ ts) _ acts _ r e (leave-Ends s p t ts before shutdown_signal fails h does)
wound-Ends s p t ts before stdin_eof (returns fails) acts r h does e =
    some-Ends s (t ∷ ts) _ acts _ r e (leave-Ends s p t ts before stdin_eof fails h does)

proceed-Ends :
    (s : Settings) (p : Pipe) (t : Turn) (ts : List Turn) (close_ends : Await)
    (res : List Act × Flow) (next : Pipe → Option (List Act × Result (Unit {0}))) (acts : List Act)
    (r : Result (Unit {0}))
    → heard p t ≡ lines t
    → Does s p t res
    → ((p' : Pipe) (later : List Act)
        → p'.rx ≡ (p.rx && not t.disconnected)
        → next p' ≡ some (later, r)
        → Ends s ts later r)
    → proceed close_ends res next ≡ some (acts, r)
    → Ends s (t ∷ ts) acts r
unfolding proceed behind
proceed-Ends s p t ts cf (before, go p') next acts r h does ih e =
    let (later, run, acts_eq) = behind-some before acts (next p') r e in
    subst (λ xs. Ends s (t ∷ ts) xs r) acts_eq
      (go-Ends s p p' t ts before later r h does (ih p' later does.3 run))
proceed-Ends s p t ts cf (before, leave why) next acts r h does ih e =
    wound-Ends s p t ts before why cf acts r h does e
proceed-Ends s p t ts cf (before, fail why) next acts r h does ih e =
    some-Ends s (t ∷ ts) _ acts _ r e (fail-Ends s p t ts before why h does)
proceed-Ends s p t ts cf (before, waits) next acts r h does ih e = cc

pub loop-Ends :
    (s : Settings) (close_ends : Await) (p : Pipe) (ts : List Turn) (acts : List Act)
    (res : Result (Unit {0}))
    → IsStdin p.rx ts
    → loop s close_ends p ts ≡ some (acts, res)
    → Ends s ts acts res
unfolding loop
loop-Ends s cf p [] acts res h e = cc
loop-Ends s cf p (t ∷ ts) acts res (h, hs) e =
    proceed-Ends s p t ts cf (turn s p t) (λ p'. loop s cf p' ts) acts res (heard-lines p t h)
      (turn-Does s p t)
      (λ p' later r run. loop-Ends s cf p' ts later res (subst (λ b. IsStdin b ts) (sym r) hs) run)
      e

prompted-Ends :
    (s : Settings) (ts : List Turn) (show_prompt : Bool) (acts : List Act) (res : Result (Unit {0}))
    → Ends s ts acts res
    → Ends s ts (prompted show_prompt ++ acts) res
unfolding prompted gather
prompted-Ends s ts false acts res h = h
prompted-Ends s ts true acts res (used, unread, t, x, rest, e, f, sends, writes, last) = (
  used,
  unread,
  t,
  x,
  rest,
  e,
  f,
  sends,
  writes,
  Last-behind s t x (say prompt ∷ []) acts res refl last,
)

-- `run_pipe`, when it ends in some turn: before that turn every line of stdin was sent and, without
-- diagnostics, every chunk of the peer was written, all in order and nothing twice; of that turn the
-- front `x` of its lines was sent. It ends in one of three ways. At the end of the peer's stream it is
-- `ok` and did not close. It closed once, with nothing sent afterwards, and is `ok`: for the shutdown
-- signal, or at the end of a piped stdin in connect mode, where all lines were sent and flushed
-- before the close. Or a send or the receive failed, whose error it returns, without a close. Where
-- the channel of stdin is not open, nothing is queued in it.
pub run_pipe-Ends :
    (diag interactive close_on_stdin_eof has_stdin : Bool) (close_ends : Await) (ts : List Turn)
    (acts : List Act) (res : Result (Unit {0}))
    → IsStdin has_stdin ts
    → run_pipe diag interactive close_on_stdin_eof has_stdin close_ends ts ≡ some (acts, res)
    → Ends (settings diag interactive close_on_stdin_eof has_stdin) ts acts res
unfolding run_pipe
run_pipe-Ends diag i c has cf ts acts res h e =
    let s : Settings = settings diag i c has in
    let p : Pipe = record { rx = has; total_sent = 0; total_recv = 0 } in
    let (later, run, acts_eq) = behind-some (prompted s.show_prompt) acts (loop s cf p ts) res e in
    subst (λ xs. Ends s ts xs res) acts_eq
      (prompted-Ends s ts s.show_prompt later res (loop-Ends s cf p ts later res h run))
