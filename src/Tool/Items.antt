-- ===== src/Tool/Items.antt =====
-- The command lines that `parse_args` of the command line tool reads: proofs.
use text.Mathlib.Text.{◌==◌}
use text.Mathlib.TextEquality.{eq_iff}
use bluefin.Prelude.{ℕ, String, ◌<◌, ◌^◌, ◌≡◌, ◌≢◌, ◌⊎◌, inl, inr, refl, sym, ap, ◌∙◌}
use bluefin.Prelude.{Bool, true, false, ◌||◌, if◌then◌else◌, Bool-cases, All}
use bluefin.Prelude.{List, [], ◌∷◌, ◌++◌, append-nil, append_assoc, Option, none, some}
use bluefin.Tool.Args.{
  Mode, mode, Options, no_options, next, value, on_arg, scan, with_source, parse_args, listen_mode,
  connect_mode, connect_to,
}

-- The parts of a command line; an option is spelled long or short.
pub data Item : Type 0 where
  listening : Bool → Item
  diagnosing : Bool → Item
  binding : Bool → String → Item
  sourced : Bool → ℕ → Item
  operand : String → Item

abbrev pub is_listening : List Item → Bool
is_listening [] = false
is_listening (listening long ∷ items) = true
is_listening (item ∷ items) = is_listening items

abbrev pub is_diagnosing : List Item → Bool
is_diagnosing [] = false
is_diagnosing (diagnosing long ∷ items) = true
is_diagnosing (item ∷ items) = is_diagnosing items

-- The last address and the last source port, if any.
abbrev pub last_bind : String → List Item → String
last_bind addr [] = addr
last_bind addr (binding long v ∷ items) = last_bind v items
last_bind addr (item ∷ items) = last_bind addr items

abbrev pub last_source : Option ℕ → List Item → Option ℕ
last_source port [] = port
last_source port (sourced long p ∷ items) = last_source (some p) items
last_source port (item ∷ items) = last_source port items

abbrev pub operands : List Item → List String
operands [] = []
operands (operand a ∷ items) = a ∷ operands items
operands (item ∷ items) = operands items

-- An operand is spelled like no option, and a source port is a port.
abbrev pub IsItem : Item → Type 0
IsItem (operand a) =
    (a ≢ "-l")
    × (a ≢ "--listen")
    × (a ≢ "-d")
    × (a ≢ "--diagnostics")
    × (a ≢ "-b")
    × (a ≢ "--bind")
    × (a ≢ "-s")
    × (a ≢ "--source-port")
    × (a ≢ "-h")
    × (a ≢ "--help")
IsItem (sourced long p) = p < 2 ^ 16
IsItem _ = Unit

not_eq : (a b : String) → a ≢ b → (a == b) ≡ false
not_eq a b h = elim (Bool-cases (a == b)) [
  | inl same ↦ absurd (h ((eq_iff a b).0 same))
  | inr other ↦ other
]

or_true : (b : Bool) → (b || true) ≡ true
or_true true = refl
or_true false = refl

or_false : (b : Bool) → (b || false) ≡ b
or_false true = refl
or_false false = refl

-- A port is written by `show`, and the parser reads it.
module _ (parse_u16 : String → Option ℕ) (show : ℕ → String)
    (reads : (p : ℕ) → p < 2 ^ 16 → parse_u16 (show p) ≡ some p) where
  abbrev pub spell : Item → List String
  spell (listening long) = (if long then "--listen" else "-l") ∷ []
  spell (diagnosing long) = (if long then "--diagnostics" else "-d") ∷ []
  spell (binding long v) = (if long then "--bind" else "-b") ∷ v ∷ []
  spell (sourced long p) = (if long then "--source-port" else "-s") ∷ show p ∷ []
  spell (operand a) = a ∷ []

  abbrev pub command_line : List Item → List String
  command_line [] = []
  command_line (item ∷ items) = spell item ++ command_line items

  abbrev extended : Options → List Item → Options
  extended o items = record {
    listens = o.listens || is_listening items;
    diagnostics = o.diagnostics || is_diagnosing items;
    bind = last_bind o.bind items;
    source_port = last_source o.source_port items;
    positional = o.positional ++ operands items;
  }

  scan-next :
      (o o' : Options) (a : String) (rest : List String)
      → on_arg parse_u16 o a ≡ next o'
      → scan parse_u16 o (a ∷ rest) ≡ scan parse_u16 o' rest
  unfolding scan
  scan-next o o' a [] e = rw (e, scan) refl
  scan-next o o' a (v ∷ rest) e = rw (e, scan) refl

  scan-value :
      (o o' : Options) (a v : String) (f : String → Option Options) (rest : List String)
      → on_arg parse_u16 o a ≡ value f
      → f v ≡ some o'
      → scan parse_u16 o (a ∷ v ∷ rest) ≡ scan parse_u16 o' rest
  unfolding scan
  scan-value o o' a v f rest e h = rw (e, h, scan) refl

  on_arg-operand :
      (o : Options) (a : String)
      → IsItem (operand a)
      → on_arg parse_u16 o a ≡ next (record o { positional = o.positional ++ (a ∷ []) })
  unfolding on_arg
  on_arg-operand o a (h0, h1, h2, h3, h4, h5, h6, h7, h8, h9) =
      rw
        (
          not_eq a "-l" h0,
          not_eq a "--listen" h1,
          not_eq a "-d" h2,
          not_eq a "--diagnostics" h3,
          not_eq a "-b" h4,
          not_eq a "--bind" h5,
          not_eq a "-s" h6,
          not_eq a "--source-port" h7,
          not_eq a "-h" h8,
          not_eq a "--help" h9,
        )
        refl

  -- One item more.
  abbrev with_item : Options → Item → Options
  with_item o (listening long) = record o { listens = true }
  with_item o (diagnosing long) = record o { diagnostics = true }
  with_item o (binding long v) = record o { bind = v }
  with_item o (sourced long p) = record o { source_port = some p }
  with_item o (operand a) = record o { positional = o.positional ++ (a ∷ []) }

  with_source-show :
      (o : Options) (p : ℕ)
      → p < 2 ^ 16
      → with_source parse_u16 o (show p) ≡ some (record o { source_port = some p })
  unfolding with_source
  with_source-show o p h = rw (reads p h, with_source) refl

  scan-spell :
      (o : Options) (item : Item) (rest : List String)
      → IsItem item
      → scan parse_u16 o (spell item ++ rest) ≡ scan parse_u16 (with_item o item) rest
  unfolding on_arg
  scan-spell o (listening true) rest h = scan-next o _ "--listen" rest refl
  scan-spell o (listening false) rest h = scan-next o _ "-l" rest refl
  scan-spell o (diagnosing true) rest h = scan-next o _ "--diagnostics" rest refl
  scan-spell o (diagnosing false) rest h = scan-next o _ "-d" rest refl
  scan-spell o (binding true v) rest h = scan-value o _ "--bind" v _ rest refl refl
  scan-spell o (binding false v) rest h = scan-value o _ "-b" v _ rest refl refl
  scan-spell o (sourced true p) rest h =
      scan-value o _ "--source-port" (show p) _ rest refl (with_source-show o p h)
  scan-spell o (sourced false p) rest h =
      scan-value o _ "-s" (show p) _ rest refl (with_source-show o p h)
  scan-spell o (operand a) rest h = scan-next o _ a rest (on_arg-operand o a h)

  extended-with_item :
      (o : Options) (item : Item) (items : List Item)
      → extended (with_item o item) items ≡ extended o (item ∷ items)
  extended-with_item o (listening long) items =
      ap (λ b. record (extended o (listening long ∷ items)) { listens = b })
        (sym (or_true o.listens))
  extended-with_item o (diagnosing long) items =
      ap (λ b. record (extended o (diagnosing long ∷ items)) { diagnostics = b })
        (sym (or_true o.diagnostics))
  extended-with_item o (binding long v) items = refl
  extended-with_item o (sourced long p) items = refl
  extended-with_item o (operand a) items =
      ap (λ xs. record (extended o (operand a ∷ items)) { positional = xs })
        (append_assoc o.positional (a ∷ []) (operands items))

  scan-command_line :
      (o : Options) (items : List Item)
      → All IsItem items
      → scan parse_u16 o (command_line items) ≡ inl (extended o items)
  unfolding scan
  scan-command_line o [] h =
      cc (or_false o.listens, or_false o.diagnostics, append-nil o.positional)
  scan-command_line o (item ∷ items) (h, hs) =
      scan-spell o item (command_line items) h
      ∙ scan-command_line (with_item o item) items hs
      ∙ ap inl (extended-with_item o item items)

  -- A row of items asks for a mode, where the random port is `random`.
  abbrev pub Means : ℕ → List Item → Bool → Mode → Type 0
  Means random items d (Mode.listen addr port) =
      (is_listening items ≡ true)
      × (is_diagnosing items ≡ d)
      × (last_bind "127.0.0.1" items ≡ addr)
      × (port < 2 ^ 16)
      × ((more : List String) × (operands items ≡ show port ∷ more))
  Means random items d (Mode.connect host port source) =
      (is_listening items ≡ false)
      × (is_diagnosing items ≡ d)
      × ((last_source none items ≡ some source)
          ⊎ ((last_source none items ≡ none) × (random ≡ source)))
      × (port < 2 ^ 16)
      × (operands items ≡ host ∷ show port ∷ [])

  -- `parse_args` reads every row of options and operands that asks for a mode, in any order, with
  -- long or short spelling, the last of an option that is repeated: it listens where `-l` stands, on
  -- the address of `-b` (127.0.0.1 without one) and the port that is the first operand; it connects
  -- to the host and the port that are the two operands, from the port of `-s` or a random one. An
  -- operand is spelled like no option, and the parser of ports reads what is written.
  pub parse_args-Reads :
      (random : ℕ) (items : List Item) (d : Bool) (m : Mode)
      → All IsItem items
      → Means random items d m
      → parse_args parse_u16 random (command_line items) ≡ mode d m
  unfolding parse_args listen_mode connect_mode connect_to
  parse_args-Reads random items d (Mode.listen addr port) h (l, g, b, fits, (more, e)) =
      rw
        (scan-command_line no_options items h, parse_args, l, listen_mode, e, reads port fits, g, b)
        refl
  parse_args-Reads random items d (Mode.connect host port source) h (l, g, inl s, fits, e) =
      rw
        (
          scan-command_line no_options items h,
          parse_args,
          l,
          connect_mode,
          e,
          connect_to,
          reads port fits,
          g,
          s,
        )
        refl
  parse_args-Reads random items d (Mode.connect host port source) h (l, g, inr (s, r), fits, e) =
      rw
        (
          scan-command_line no_options items h,
          parse_args,
          l,
          connect_mode,
          e,
          connect_to,
          reads port fits,
          g,
          s,
          r,
        )
        refl
