-- ===== src/Tool/Args.antt =====
-- bluefintool/src/main.rs: `parse_args`. The parser of a port is that of the standard library, an
-- argument here, and so is the random port.
use text.Mathlib.Text.{◌==◌}
use bluefin.Prelude.{ℕ, String, Bool, true, false, ◌||◌, if◌then◌else◌, ◌⊎◌, inl, inr}
use bluefin.Prelude.{List, [], ◌∷◌, ◌++◌, Option, none, some}

pub data Mode : Type 0 where
  listen : String → ℕ → Mode
  connect : String → ℕ → ℕ → Mode

-- The mode with the switch for diagnostics, or the code of the exit.
pub data Parsed : Type 0 where
  mode : Bool → Mode → Parsed
  exit : ℕ → Parsed

-- The variables of `parse_args`.
pub record Options : Type 0 where
  pub listens : Bool
  pub diagnostics : Bool
  pub bind : String
  pub source_port : Option ℕ
  pub positional : List String

abbrev pub no_options : Options
no_options = record {
  listens = false;
  diagnostics = false;
  bind = "127.0.0.1";
  source_port = none;
  positional = [];
}

-- What an argument asks for: the next one, a value, which may be refused, or the exit.
pub data Step : Type 0 where
  next : Options → Step
  value : (String → Option Options) → Step
  stop : ℕ → Step

module _ (parse_u16 : String → Option ℕ) where
  unfoldable pub with_source : Options → String → Option Options
  with_source o v = elim (parse_u16 v) [
    | none ↦ none
    | some p ↦ some (record o { source_port = some p })
  ]

  -- The `match arg.as_str()`.
  unfoldable pub on_arg : Options → String → Step
  on_arg o a =
      if a == "-l" || a == "--listen"
      then next (record o { listens = true })
      else if a == "-d" || a == "--diagnostics"
      then next (record o { diagnostics = true })
      else if a == "-b" || a == "--bind"
      then value (λ v. some (record o { bind = v }))
      else if a == "-s" || a == "--source-port"
      then value (with_source o)
      else if a == "-h" || a == "--help"
      then stop 0
      else next (record o { positional = o.positional ++ (a ∷ []) })

  -- The loop over the arguments: the options, or the code of the exit.
  unfoldable pub scan : Options → List String → Options ⊎ ℕ
  scan o [] = inl o
  scan o (a ∷ []) = elim (on_arg o a) [ next o' ↦ inl o' | value f ↦ inr 1 | stop code ↦ inr code ]
  scan o (a ∷ v ∷ rest) = elim (on_arg o a) [
    | next o' ↦ scan o' (v ∷ rest)
    | value f ↦ elim (f v) [ none ↦ inr 1 | some o' ↦ scan o' rest ]
    | stop code ↦ inr code
  ]

  unfoldable pub listen_mode : Options → Parsed
  listen_mode o = elim o.positional [
    | [] ↦ exit 1
    | p ∷ rest ↦ elim (parse_u16 p) [
      | none ↦ exit 1
      | some port ↦ mode o.diagnostics (listen o.bind port)
    ]
  ]

  unfoldable pub connect_to : Options → ℕ → String → String → Parsed
  connect_to o random host p = elim (parse_u16 p) [
    | none ↦ exit 1
    | some port ↦
        mode o.diagnostics
          (connect host port (elim o.source_port [ none ↦ random | some src ↦ src ]))
  ]

  unfoldable pub connect_mode : Options → ℕ → List String → Parsed
  connect_mode o random [] = exit 0
  connect_mode o random (host ∷ []) = exit 1
  connect_mode o random (host ∷ p ∷ []) = connect_to o random host p
  connect_mode o random (host ∷ p ∷ q ∷ rest) = exit 1

  unfoldable pub parse_args : ℕ → List String → Parsed
  parse_args random args = elim (scan no_options args) [
    | inl o ↦ if o.listens then listen_mode o else connect_mode o random o.positional
    | inr code ↦ exit code
  ]
