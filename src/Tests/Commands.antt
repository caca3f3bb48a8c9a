-- ===== src/Tests/Commands.antt =====
-- Runs of the command line tool.
use text.Mathlib.Text.{◌==◌}
use text.Mathlib.TextEquality.{eq_iff}
use bluefin.Prelude.{ℕ, suc, zero, String, ◌≡◌, ◌≢◌, refl, ap, arith}
use bluefin.Prelude.{true, false, List, [], ◌∷◌, Option, none, some, Result, ok}
use bluefin.Tool.Pipe
use bluefin.Tool.Pipe.{drain, recv, write, send, flush, say, closing, stdin_eof, close, fin_acked}
use bluefin.Tool.Pipe.{Act, Turn, pending, returns, elapsed, got, signal, run_pipe, settings}
use bluefin.Tool.Ending.{Ends}
use bluefin.Tool.Runs.{run_pipe-Ends}
use bluefin.Tool.Args.{Mode, mode, parse_args}
use bluefin.Tool.Items.{Item, IsItem, listening, diagnosing, binding, operand, parse_args-Reads}

-- `echo A | bluefintool host port`: one line, the end of stdin, and a byte of the peer before.
abbrev quiet_turn : Turn
quiet_turn = record {
  shutdown = false;
  queued = [];
  disconnected = false;
  flush_ends = returns none;
  outcome = got (66 ∷ []);
}

abbrev last_turn : Turn
last_turn = record {
  shutdown = false;
  queued = (65 ∷ [], none) ∷ [];
  disconnected = true;
  flush_ends = returns none;
  outcome = elapsed;
}

abbrev piped : Option (List Act × Result (Unit {0}))
piped = run_pipe false false true true (returns none) (quiet_turn ∷ last_turn ∷ [])

abbrev piped_acts : List Act
piped_acts =
    drain
    ∷ recv
    ∷ drain
    ∷ write (66 ∷ [])
    ∷ drain
    ∷ send (65 ∷ [])
    ∷ drain
    ∷ flush
    ∷ say (closing stdin_eof)
    ∷ drain
    ∷ close
    ∷ drain
    ∷ say fin_acked
    ∷ []

run-piped : piped ≡ some (piped_acts, ok tt)
unfolding run_pipe Pipe.prompted Pipe.behind Pipe.loop Pipe.proceed Pipe.turn Pipe.then_peer
    Pipe.from_stdin Pipe.after_queue Pipe.send_queued Pipe.send_told Pipe.at_stdin_eof
    Pipe.flush_told Pipe.prompt_told Pipe.from_peer Pipe.peer_told Pipe.wind_up Pipe.wound_up
run-piped = refl

run_pipe-Ends_example :
    Ends (settings false false true true) (quiet_turn ∷ last_turn ∷ []) piped_acts (ok tt)
run_pipe-Ends_example =
    run_pipe-Ends false false true true (returns none) (quiet_turn ∷ last_turn ∷ []) piped_acts
      (ok tt) ((λ h. cc), ((λ h. cc), tt)) run-piped

-- A flush that never returns, which no signal ends.
run-waits :
    run_pipe false false true true (returns none) ((record last_turn { flush_ends = pending }) ∷ [])
    ≡ none
unfolding run_pipe Pipe.prompted Pipe.behind Pipe.loop Pipe.proceed Pipe.turn Pipe.then_peer
    Pipe.from_stdin Pipe.after_queue Pipe.send_queued Pipe.send_told Pipe.at_stdin_eof
    Pipe.flush_told Pipe.prompt_told Pipe.from_peer Pipe.peer_told Pipe.wind_up
run-waits = refl

-- A notation of ports: as many strokes as the number says.
abbrev show : ℕ → String
show zero = ""
show (suc n) = String.◌∷◌ "1" (show n)

abbrev tally : String → ℕ
tally String.[] = 0
tally (String.◌∷◌ c s) = suc (tally s)

tally-show : (n : ℕ) → tally (show n) ≡ n
tally-show zero = refl
tally-show (suc n) = ap suc (tally-show n)

abbrev items : List Item
items = operand "111" ∷ diagnosing false ∷ binding true "0.0.0.0" ∷ listening false ∷ []

differ : (a b : String) → (a == b) ≡ false → a ≢ b
differ a b h e = let same : (a == b) ≡ true = (eq_iff a b).1 e in cc (h, same)

operand-IsItem : IsItem (operand "111")
operand-IsItem = (
  differ "111" "-l" refl,
  differ "111" "--listen" refl,
  differ "111" "-d" refl,
  differ "111" "--diagnostics" refl,
  differ "111" "-b" refl,
  differ "111" "--bind" refl,
  differ "111" "-s" refl,
  differ "111" "--source-port" refl,
  differ "111" "-h" refl,
  differ "111" "--help" refl,
)

parse_args-Reads_example :
    parse_args (λ s. some (tally s)) 12345 ("111" ∷ "-d" ∷ "--bind" ∷ "0.0.0.0" ∷ "-l" ∷ [])
    ≡ mode true (Mode.listen "0.0.0.0" 3)
parse_args-Reads_example =
    parse_args-Reads (λ s. some (tally s)) show (λ p h. ap some (tally-show p)) 12345 items true
      (Mode.listen "0.0.0.0" 3) (operand-IsItem, (tt, (tt, (tt, tt))))
      (refl, refl, refl, omega arith, ([], refl))
