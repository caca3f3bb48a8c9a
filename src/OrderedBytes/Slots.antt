-- ===== src/OrderedBytes/Slots.antt =====
-- The circular buffer: the packets in a row from an index on, and what a cleared slot changes.
use bluefin.Prelude.{ℕ, zero, suc, ◌+◌, ◌<◌, ◌≤◌, ◌≡◌, ◌≢◌, refl, sym, ◌∙◌, ap, arith}
use bluefin.Prelude.{List, [], ◌∷◌, length, get_or, set, Option, none, some}
use bluefin.Prelude.{Option-cases, inl, inr}
use bluefin.Packet.{Packet}
use bluefin.OrderedBytes.Defs.{wrap_index}

-- The slot `offset` places behind `base`, going round at the end.
pub wrap_index-lt : (base offset : ℕ) → base < 2000 → offset ≤ 2000 → wrap_index base offset < 2000
unfolding wrap_index
wrap_index-lt base offset h k = ground arith

pub wrap_index-suc :
    (base offset : ℕ)
    → base < 2000
    → offset < 2000
    → wrap_index (wrap_index base offset) 1 ≡ wrap_index base (offset + 1)
unfolding wrap_index
wrap_index-suc base offset h k = ground arith

pub wrap_index-zero : (base : ℕ) → base < 2000 → wrap_index base 0 ≡ base
unfolding wrap_index
wrap_index-zero base h = ground arith

pub wrap_index-round : (base : ℕ) → base < 2000 → wrap_index base 2000 ≡ base
unfolding wrap_index
wrap_index-round base h = ground arith

-- Fewer than 2000 steps do not come back.
pub wrap_index-ne :
    (base offset : ℕ) → base < 2000 → 0 < offset → offset < 2000 → base ≢ wrap_index base offset
unfolding wrap_index
wrap_index-ne base offset h k l = ground arith

-- The packets in the slots from `index` on, up to the first empty one or `n` of them.
unfoldable pub in_row : ℕ → List (Option Packet) → ℕ → List Packet
in_row zero slots index = []
in_row (suc n) slots index =
    let rest : List Packet = in_row n slots (wrap_index index 1) in
    elim (get_or slots index none) [ none ↦ [] | some p ↦ p ∷ rest ]

pub length-in_row :
    (n : ℕ) (slots : List (Option Packet)) (index : ℕ) → length (in_row n slots index) ≤ n
unfolding in_row
length-in_row zero slots index = omega arith
length-in_row (suc n) slots index = ground (arith, length-in_row n slots (wrap_index index 1))

module _ {A : Type 0} where
  pub get_or-set_self :
      (xs : List A) (i : ℕ) (v d : A) → i < length xs → get_or (set xs i v) i d ≡ v
  get_or-set_self [] i v d h = absurd (omega arith)
  get_or-set_self (x ∷ xs) zero v d h = refl
  get_or-set_self (x ∷ xs) (suc i) v d h = get_or-set_self xs i v d (omega arith)

  pub get_or-set_ne :
      (xs : List A) (i j : ℕ) (v d : A) → i ≢ j → get_or (set xs i v) j d ≡ get_or xs j d
  get_or-set_ne [] i j v d h = refl
  get_or-set_ne (x ∷ xs) zero zero v d h = absurd (h refl)
  get_or-set_ne (x ∷ xs) zero (suc j) v d h = refl
  get_or-set_ne (x ∷ xs) (suc i) zero v d h = refl
  get_or-set_ne (x ∷ xs) (suc i) (suc j) v d h = get_or-set_ne xs i j v d (λ e. h (ap suc e))

pub in_row-none :
    (n : ℕ) (slots : List (Option Packet)) (index : ℕ)
    → get_or slots index none ≡ none
    → in_row n slots index ≡ []
unfolding in_row
in_row-none zero slots index e = refl
in_row-none (suc n) slots index e = rw (e, in_row)

pub in_row-some :
    (n : ℕ) (slots : List (Option Packet)) (index : ℕ) (p : Packet)
    → get_or slots index none ≡ some p
    → in_row (suc n) slots index ≡ p ∷ in_row n slots (wrap_index index 1)
unfolding in_row
in_row-some n slots index p e = rw (e, in_row)

-- With the slot at `index` cleared, the row behind it ends there at the latest.
module _ (slots : List (Option Packet)) (index : ℕ) (size : length slots ≡ 2000)
    (at : index < 2000) where
  in_row-cleared :
      (k d : ℕ)
      → d + k ≡ 1999
      → in_row (suc k) (set slots index none) (wrap_index index (d + 1))
        ≡ in_row k slots (wrap_index index (d + 1))
  in_row-cleared zero d e =
      let back : wrap_index index (d + 1) ≡ index =
        ap (wrap_index index) (omega arith) ∙ wrap_index-round index at in
      let there : in_row 1 (set slots index none) index ≡ [] =
        in_row-none 1 (set slots index none) index
          (get_or-set_self slots index none none (omega (arith, size))) in
      rw (back, there) (unfold in_row in refl)
  in_row-cleared (suc k) d e =
      let same : get_or (set slots index none) (wrap_index index (d + 1)) none
          ≡ get_or slots (wrap_index index (d + 1)) none =
        get_or-set_ne slots index (wrap_index index (d + 1)) none none
          (wrap_index-ne index (d + 1) at (omega arith) (omega arith)) in
      let on : wrap_index (wrap_index index (d + 1)) 1 ≡ wrap_index index (d + 1 + 1) =
        wrap_index-suc index (d + 1) at (omega arith) in
      elim (Option-cases (get_or slots (wrap_index index (d + 1)) none)) [
        | inl empty ↦
            in_row-none (suc (suc k)) (set slots index none) (wrap_index index (d + 1))
              (same ∙ empty)
            ∙ sym (in_row-none (suc k) slots (wrap_index index (d + 1)) empty)
        | inr (p, full) ↦
            rw
              (
                in_row-some (suc k) (set slots index none) (wrap_index index (d + 1)) p
                    (same ∙ full),
                in_row-some k slots (wrap_index index (d + 1)) p full,
                on,
              )
              (ap (◌∷◌ p) (in_row-cleared k (d + 1) (omega arith)))
      ]

  pub in_row-set-none :
      in_row 2000 (set slots index none) (wrap_index index 1)
      ≡ in_row 1999 slots (wrap_index index 1)
  in_row-set-none = in_row-cleared 1999 0 refl
