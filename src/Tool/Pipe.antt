-- ===== src/Tool/Pipe.antt =====
-- bluefintool/src/main.rs: `run_pipe`, one turn of its loop after the other. What the channel of
-- stdin, the shutdown watch and the calls of the connection answer is an argument, one `Turn` for
-- each turn; what the loop does to the outside is a list of `Act`.
use bluefin.Prelude.{ℕ, Bool, false, not, ◌&&◌, is_empty, if◌then◌else◌, add_u64}
use bluefin.Prelude.{List, [], ◌∷◌, ◌++◌, length, Option, none, some, Result, ok, err, BluefinError}

-- `exit_reason`.
pub data Exit : Type 0 where
  shutdown_signal : Exit
  stdin_eof : Exit
  peer_closed : Exit

-- The lines on stderr; the printing of diagnostic events is within `drain`.
pub data Note : Type 0 where
  prompt : Note
  send_error : BluefinError → Note
  sent : ℕ → ℕ → Note
  sent_dump : List ℕ → Note
  flush_error : BluefinError → Note
  half_closing : Note
  received : ℕ → ℕ → Note
  received_dump : List ℕ → Note
  peer_tag : Note
  recv_error : BluefinError → Note
  closing : Exit → Note
  fin_acked : Note
  close_error : BluefinError → Note
  fin_not_acked : Note
  peer_fin_observed : Note

-- The calls and the output. `drain` is `drain_diag`.
pub data Act : Type 0 where
  drain : Act
  send : List ℕ → Act
  flush : Act
  recv : Act
  close : Act
  sleep : Act
  write : List ℕ → Act
  say : Note → Act

-- What becomes of an await of `flush` or `close`: it does not return, or returns with or without an
-- error.
pub data Await : Type 0 where
  pending : Await
  returns : Option BluefinError → Await

-- What the wait for the peer ends with: the watch, 100 ms, some bytes (none at the end of the
-- stream), or an error.
pub data Outcome : Type 0 where
  signal : Outcome
  elapsed : Outcome
  got : List ℕ → Outcome
  failed : BluefinError → Outcome

-- One turn: the watch, the lines in the channel, each with the error that its send meets, whether
-- the channel is disconnected behind them, the flush, and the wait.
pub record Turn : Type 0 where
  pub shutdown : Bool
  pub queued : List (List ℕ × Option BluefinError)
  pub disconnected : Bool
  pub flush_ends : Await
  pub outcome : Outcome

pub record Settings : Type 0 where
  pub diag : Bool
  pub interactive : Bool
  pub close_on_stdin_eof : Bool
  pub show_prompt : Bool

pub record Pipe : Type 0 where
  pub rx : Bool
  pub total_sent : ℕ
  pub total_recv : ℕ

-- How a part of a turn ends: it goes on, breaks, returns an error, or waits for ever.
pub data Flow : Type 0 where
  go : Pipe → Flow
  leave : Exit → Flow
  fail : BluefinError → Flow
  waits : Flow

-- What is said of a send, of a failed flush, and of the lines that were sent.
unfoldable pub send_told : Bool → List ℕ → ℕ → List Act
send_told diag line total =
    if diag then say (sent (length line) total) ∷ say (sent_dump line) ∷ [] else []

unfoldable pub flush_told : Option BluefinError → List Act
flush_told none = []
flush_told (some e) = say (flush_error e) ∷ []

unfoldable pub prompt_told : Bool → Bool → List Act
prompt_told did_send show_prompt =
    if did_send then drain ∷ (if show_prompt then say prompt ∷ [] else []) else []

-- The loop over `try_recv`: the acts, the total, and the error of a send.
unfoldable pub send_queued :
    Settings → ℕ → List (List ℕ × Option BluefinError) → List Act × ℕ × Option BluefinError
send_queued s total [] = ([], total, none)
send_queued s total ((line, some e) ∷ queue) = (send line ∷ say (send_error e) ∷ [], total, some e)
send_queued s total ((line, none) ∷ queue) =
    let n : ℕ = add_u64 total (length line) in
    let rest : List Act × ℕ × Option BluefinError = send_queued s n queue in
    (send line ∷ (send_told s.diag line n ++ rest.0), rest.1, rest.2)

-- The block `if stdin_eof`.
unfoldable pub at_stdin_eof : Settings → Pipe → Await → List Act × Flow
at_stdin_eof s p pending = (flush ∷ [], waits)
at_stdin_eof s p (returns flush_fails) =
    if s.close_on_stdin_eof && not s.interactive
    then (flush ∷ flush_told flush_fails, leave stdin_eof)
    else (flush ∷ (flush_told flush_fails ++ (say half_closing ∷ [])), go (record p { rx = false }))

-- What a turn does behind the loop over `try_recv`.
unfoldable pub after_queue :
    Settings → Pipe → Turn → List Act × ℕ × Option BluefinError → List Act × Flow
after_queue s p t (acts, total, some e) = (acts, fail e)
after_queue s p t (acts, total, none) =
    let told : List Act = prompt_told (not (is_empty t.queued)) s.show_prompt in
    let p' : Pipe = record p { total_sent = total } in
    let ended : List Act × Flow = at_stdin_eof s p' t.flush_ends in
    if t.disconnected then (acts ++ (told ++ ended.0), ended.1) else (acts ++ told, go p')

unfoldable pub from_stdin : Settings → Pipe → Turn → List Act × Flow
from_stdin s p t =
    if p.rx then after_queue s p t (send_queued s p.total_sent t.queued) else ([], go p)

-- The output of received bytes.
unfoldable pub peer_told : Bool → Bool → List ℕ → ℕ → List Act
peer_told diag interactive bytes total =
    if diag
    then say (received (length bytes) total) ∷ say (received_dump bytes) ∷ []
    else if interactive
    then say peer_tag ∷ write bytes ∷ []
    else write bytes ∷ []

-- The `match recv_outcome`.
unfoldable pub from_peer : Settings → Pipe → Outcome → List Act × Flow
from_peer s p signal = ([], leave shutdown_signal)
from_peer s p elapsed = ([], go p)
from_peer s p (failed e) = (recv ∷ say (recv_error e) ∷ [], fail e)
from_peer s p (got []) = (recv ∷ [], leave peer_closed)
from_peer s p (got (b ∷ bs)) =
    let n : ℕ = add_u64 p.total_recv (length (b ∷ bs)) in
    (recv ∷ drain ∷ peer_told s.diag s.interactive (b ∷ bs) n, go (record p { total_recv = n }))

-- The wait for the peer behind the part for stdin, if that goes on.
unfoldable pub then_peer : Settings → Outcome → List Act × Flow → List Act × Flow
then_peer s o (acts, go p) =
    let next : List Act × Flow = from_peer s p o in (acts ++ next.0, next.1)
then_peer s o (acts, leave why) = (acts, leave why)
then_peer s o (acts, fail e) = (acts, fail e)
then_peer s o (acts, waits) = (acts, waits)

-- The body of the loop.
unfoldable pub turn : Settings → Pipe → Turn → List Act × Flow
turn s p t =
    if t.shutdown
    then (drain ∷ [], leave shutdown_signal)
    else (let rest : List Act × Flow = then_peer s t.outcome (from_stdin s p t) in
        (drain ∷ rest.0, rest.1))

-- What follows the loop, by the error of `close`.
unfoldable pub wind_up : Exit → Option BluefinError → List Act
wind_up peer_closed close_fails =
    say (closing peer_closed) ∷ drain ∷ sleep ∷ drain ∷ say peer_fin_observed ∷ []
wind_up why none = say (closing why) ∷ drain ∷ close ∷ drain ∷ say fin_acked ∷ []
wind_up why (some e) =
    say (closing why) ∷ drain ∷ close ∷ say (close_error e) ∷ say fin_not_acked ∷ []

-- The run with what follows the loop: the peer's close ends it, and else the end of `close`.
unfoldable pub wound_up : List Act → Exit → Await → Option (List Act × Result (Unit {0}))
wound_up acts peer_closed close_ends = some (acts ++ wind_up peer_closed none, ok tt)
wound_up acts why pending = none
wound_up acts why (returns close_fails) = some (acts ++ wind_up why close_fails, ok tt)

-- The acts so far, in front of what goes on.
unfoldable pub behind :
    List Act → Option (List Act × Result (Unit {0})) → Option (List Act × Result (Unit {0}))
behind acts none = none
behind acts (some (later, res)) = some (acts ++ later, res)

-- What a turn leads to, with the loop behind it.
unfoldable pub proceed :
    Await
    → List Act × Flow
    → (Pipe → Option (List Act × Result (Unit {0})))
    → Option (List Act × Result (Unit {0}))
proceed close_ends (acts, go p') later = behind acts (later p')
proceed close_ends (acts, leave why) later = wound_up acts why close_ends
proceed close_ends (acts, fail e) later = some (acts, err e)
proceed close_ends (acts, waits) later = none

-- The loop and what follows it; `none` while it runs or waits.
unfoldable pub loop : Settings → Await → Pipe → List Turn → Option (List Act × Result (Unit {0}))
loop s close_ends p [] = none
loop s close_ends p (t ∷ ts) = proceed close_ends (turn s p t) (λ p'. loop s close_ends p' ts)

abbrev pub settings : (diag interactive close_on_stdin_eof has_stdin : Bool) → Settings
settings diag interactive close_on_stdin_eof has_stdin = record {
  diag = diag;
  interactive = interactive;
  close_on_stdin_eof = close_on_stdin_eof;
  show_prompt = interactive && has_stdin;
}

-- The first prompt.
unfoldable pub prompted : Bool → List Act
prompted show_prompt = if show_prompt then say prompt ∷ [] else []

-- `run_pipe`, with the channel of stdin or without.
unfoldable pub run_pipe :
    (diag interactive close_on_stdin_eof has_stdin : Bool)
    → Await
    → List Turn
    → Option (List Act × Result (Unit {0}))
run_pipe diag interactive close_on_stdin_eof has_stdin close_ends ts =
    let s : Settings = settings diag interactive close_on_stdin_eof has_stdin in
    behind (prompted s.show_prompt)
      (loop s close_ends (record { rx = has_stdin; total_sent = 0; total_recv = 0 }) ts)
