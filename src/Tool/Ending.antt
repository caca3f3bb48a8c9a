-- ===== src/Tool/Ending.antt =====
-- Why a run of `run_pipe` ends, and what `wind_up` adds when it does.
use bluefin.Prelude.{ℕ, ◌≡◌, ◌≢◌, ◌⊎◌, inl, inr, refl, sym, ap, ◌∙◌}
use bluefin.Prelude.{Bool, true, false, not, ◌&&◌, if◌then◌else◌, Bool-cases}
use bluefin.Prelude.{List, [], ◌∷◌, ◌++◌, map, append_assoc}
use bluefin.Prelude.{Option, none, some, Result, ok, err, BluefinError}
use bluefin.Tool.Pipe.{
  Act, flush, close, drain, say, closing, Turn, Settings, Pipe, Exit, shutdown_signal, stdin_eof,
  peer_closed, signal, got, failed, wind_up,
}
use bluefin.Tool.Flow.{
  gather, gather-append, sent_by, written_by, closed_by, lines, chunk, SendFails, heard,
}

-- The channel of stdin, open or not: where it is not, nothing is queued.
abbrev pub IsStdin : Bool → List Turn → Type 0
IsStdin rx [] = Unit
IsStdin rx (t ∷ ts) = (rx ≡ false → t.queued ≡ []) × IsStdin (rx && not t.disconnected) ts

-- The lines and the chunks of a row of turns.
abbrev pub all_lines : List Turn → List (List ℕ)
all_lines [] = []
all_lines (t ∷ ts) = lines t ++ all_lines ts

abbrev pub all_chunks : List Turn → List (List ℕ)
all_chunks [] = []
all_chunks (t ∷ ts) = chunk t.outcome ++ all_chunks ts

-- Why the connection is closed in turn `t`, whose lines `x` were sent before `close`.
abbrev pub Cause : Settings → Turn → List (List ℕ) → List Act → Type 0
Cause s t x acts =
    (t.shutdown ≡ true)
    ⊎ (t.outcome ≡ signal)
    ⊎ ((t.disconnected ≡ true)
        × (s.close_on_stdin_eof ≡ true)
        × (s.interactive ≡ false)
        × (x ≡ lines t)
        × ((front mid back : List Act) × (acts ≡ front ++ (flush ∷ (mid ++ (close ∷ back))))
            × (gather sent_by mid ≡ [])))

abbrev pub Last : Settings → Turn → List (List ℕ) → List Act → Result (Unit {0}) → Type 0
Last s t x acts res =
    ((res ≡ ok tt) × (gather closed_by acts ≡ []) × (t.outcome ≡ got []) × (x ≡ lines t))
    ⊎ ((res ≡ ok tt)
        × (gather closed_by acts ≡ tt ∷ [])
        × ((front back : List Act) × (acts ≡ front ++ (close ∷ back)) × (gather sent_by back ≡ []))
        × Cause s t x acts)
    ⊎ ((e : BluefinError) × (res ≡ err e)
        × (gather closed_by acts ≡ [])
        × (SendFails e t.queued ⊎ (t.outcome ≡ failed e)))

abbrev pub Ends : Settings → List Turn → List Act → Result (Unit {0}) → Type 0
Ends s ts acts res =
    (used unread : List Turn) × (t : Turn) × (x rest : List (List ℕ)) × (ts ≡ used ++ (t ∷ unread))
    × (x ++ rest ≡ lines t)
    × (gather sent_by acts ≡ all_lines used ++ x)
    × (s.diag ≡ false → gather written_by acts ≡ all_chunks used)
    × Last s t x acts res

pub some_injective :
    {acts acts' : List Act} {r r' : Result (Unit {0})}
    → ◌≡◌ {A = Option (List Act × Result (Unit {0}))} (some (acts, r)) (some (acts', r'))
    → (acts ≡ acts') × (r ≡ r')
some_injective e = (cc, cc)

pub heard-lines : (p : Pipe) (t : Turn) → (p.rx ≡ false → t.queued ≡ []) → heard p t ≡ lines t
heard-lines p t h = elim (Bool-cases p.rx) [
  | inl on ↦ ap (λ b. if b then lines t else []) on
  | inr off ↦ ap (λ b. if b then lines t else []) off ∙ sym (ap (map (λ x. x.0)) (h off))
]

-- The acts behind the loop hand on no line and no chunk, and close but after the peer has.
pub wind_up-idle :
    (why : Exit) (fails : Option BluefinError)
    → (gather sent_by (wind_up why fails) ≡ []) × (gather written_by (wind_up why fails) ≡ [])
unfolding wind_up gather
wind_up-idle peer_closed fails = (refl, refl)
wind_up-idle shutdown_signal none = (refl, refl)
wind_up-idle shutdown_signal (some e) = (refl, refl)
wind_up-idle stdin_eof none = (refl, refl)
wind_up-idle stdin_eof (some e) = (refl, refl)

-- One close, with nothing sent around it.
abbrev ClosesOnce : List Act → Type 0
ClosesOnce acts =
    (gather closed_by acts ≡ tt ∷ [])
    × ((front back : List Act) × (acts ≡ front ++ (close ∷ back))
        × (gather sent_by front ≡ [])
        × (gather sent_by back ≡ []))

pub wind_up-ClosesOnce :
    (why : Exit) (fails : Option BluefinError) → why ≢ peer_closed → ClosesOnce (wind_up why fails)
unfolding wind_up gather
wind_up-ClosesOnce peer_closed fails h = absurd (h refl)
wind_up-ClosesOnce shutdown_signal none h =
    (refl, (say (closing shutdown_signal) ∷ drain ∷ [], _, refl, refl, refl))
wind_up-ClosesOnce shutdown_signal (some e) h =
    (refl, (say (closing shutdown_signal) ∷ drain ∷ [], _, refl, refl, refl))
wind_up-ClosesOnce stdin_eof none h =
    (refl, (say (closing stdin_eof) ∷ drain ∷ [], _, refl, refl, refl))
wind_up-ClosesOnce stdin_eof (some e) h =
    (refl, (say (closing stdin_eof) ∷ drain ∷ [], _, refl, refl, refl))

pub wind_up-peer_closed :
    (fails : Option BluefinError) → gather closed_by (wind_up peer_closed fails) ≡ []
unfolding wind_up gather
wind_up-peer_closed fails = refl

-- A row of acts without a close, in front of one that ends.
Cause-behind :
    (s : Settings) (t : Turn) (x : List (List ℕ)) (acts later : List Act)
    → Cause s t x later
    → Cause s t x (acts ++ later)
Cause-behind s t x acts later (inl a) = inl a
Cause-behind s t x acts later (inr (inl b)) = inr (inl b)
Cause-behind s t x acts later (inr (inr (d, c, i, l, (front, mid, back, e, z)))) = inr (
    inr (
      d,
      c,
      i,
      l,
      (acts ++ front, mid, back, ap (λ xs. acts ++ xs) e ∙ sym (append_assoc acts front _), z),
    ))

pub Last-behind :
    (s : Settings) (t : Turn) (x : List (List ℕ)) (acts later : List Act) (res : Result (Unit {0}))
    → gather closed_by acts ≡ []
    → Last s t x later res
    → Last s t x (acts ++ later) res
Last-behind s t x acts later res q (inl (r, c, o, l)) =
    inl (r, rw (gather-append closed_by acts later, q) c, o, l)
Last-behind s t x acts later res q (inr (inl (r, c, (front, back, e, z), why))) = inr (
    inl (
      r,
      rw (gather-append closed_by acts later, q) c,
      (acts ++ front, back, ap (λ xs. acts ++ xs) e ∙ sym (append_assoc acts front _), z),
      Cause-behind s t x acts later why,
    ))
Last-behind s t x acts later res q (inr (inr (e, r, c, f))) =
    inr (inr (e, r, rw (gather-append closed_by acts later, q) c, f))
