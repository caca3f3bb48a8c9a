-- ===== src/Prelude/Bits.antt =====
-- The masks and shifts of the wire format as arithmetic. Each is a table over a byte.
use Prim.Native.Nat.{ℕ, zero, suc, ◌+◌, ◌*◌, ◌/◌, ◌%◌, ◌<◌, bit_and, bit_or}
use mathlib.Core.Path.{◌≡◌, refl, sym, ◌∙◌}
use mathlib.Core.Logic.{inl, inr}
use mathlib.Core.Bool.{Bool, true, false}
use native.Mathlib.Omega.{arith}
use bluefin.Prelude.Tests.{◌==◌, ==_iff, if◌then◌else◌, Bool-cases, lt_or_ge}

-- Two functions agree on the numbers below `n`.
agree : ℕ → (ℕ → ℕ) → (ℕ → ℕ) → Bool
agree zero f g = true
agree (suc n) f g = if f n == g n then agree n f g else false

agree_at : (n : ℕ) (f g : ℕ → ℕ) → agree n f g ≡ true → (x : ℕ) → x < n → f x ≡ g x
unfolding agree
agree_at zero f g t x lt = absurd (omega arith)
agree_at (suc n) f g t x lt = elim (Bool-cases (f n == g n)) [
  | inl e ↦ elim (lt_or_ge x n) [
    | inl h ↦ agree_at n f g (sym (rw e) ∙ t) x h
    | inr h ↦ let last : x ≡ n = omega arith in rw last ((==_iff (f n) (g n)).0 e)
  ]
  | inr e ↦ absurd (ground (arith, t, e))
]

module _ (f g : ℕ → ℕ) where
  byte_table : agree 256 f g ≡ true → (x : ℕ) → x < 256 → f x ≡ g x
  byte_table = agree_at 256 f g

pub high_nibble : (x : ℕ) → x < 256 → bit_and x 0xf0 ≡ x / 16 * 16
unfolding agree
high_nibble = byte_table (λ x. bit_and x 0xf0) (λ x. x / 16 * 16) refl

pub low_nibble : (x : ℕ) → x < 256 → bit_and x 0x0f ≡ x % 16
unfolding agree
low_nibble = byte_table (λ x. bit_and x 0x0f) (λ x. x % 16) refl

pub top_bit : (x : ℕ) → x < 256 → bit_and x 0x80 ≡ x / 128 * 128
unfolding agree
top_bit = byte_table (λ x. bit_and x 0x80) (λ x. x / 128 * 128) refl

pub low_bits : (x : ℕ) → x < 256 → bit_and x 0x7f ≡ x % 128
unfolding agree
low_bits = byte_table (λ x. bit_and x 0x7f) (λ x. x % 128) refl

or_table : (x : ℕ) → x < 256 → bit_or (x / 16 * 16) (x % 16) ≡ x
unfolding agree
or_table = byte_table (λ x. bit_or (x / 16 * 16) (x % 16)) (λ x. x) refl

-- The two nibbles of a byte put together.
pub or_nibbles : (v c : ℕ) → v < 16 → c < 16 → bit_or (v * 16) c ≡ v * 16 + c
or_nibbles v c hv hc =
    let hi : (v * 16 + c) / 16 * 16 ≡ v * 16 = omega arith in
    let lo : (v * 16 + c) % 16 ≡ c = omega arith in
    rw (hi, lo) at (or_table (v * 16 + c) (omega arith))

flag_table : (x : ℕ) → x < 256 → bit_or (x / 128 * 128) (x % 128) ≡ x
unfolding agree
flag_table = byte_table (λ x. bit_or (x / 128 * 128) (x % 128)) (λ x. x) refl

-- A flag bit put on top of seven bits.
pub or_flag : (f m : ℕ) → f < 2 → m < 128 → bit_or (f * 128) m ≡ f * 128 + m
or_flag f m hf hm =
    let hi : (f * 128 + m) / 128 * 128 ≡ f * 128 = omega arith in
    let lo : (f * 128 + m) % 128 ≡ m = omega arith in
    rw (hi, lo) at (flag_table (f * 128 + m) (omega arith))
