-- ===== src/Ring/Contents.antt =====
-- The sequence of elements that a ring holds, and what a write to one slot changes of it.
use native.Mathlib.Nat.{mod-eq_of_lt, mod-eq-sub-mod, mod-mod, mod-add-mod}
use bluefin.Prelude.{ℕ, zero, suc, ◌+◌, ◌-◌, ◌%◌, ◌<◌, ◌≤◌, ◌≡◌, ◌≢◌, refl, ◌∙◌, ap, arith}
use bluefin.Prelude.{◌⊎◌, inl, inr, lt_or_ge, List, [], ◌∷◌, ◌++◌, get_or, set}
use bluefin.OrderedBytes.Slots.{get_or-set_ne}

module _ {A : Type 0} (default : A) (capacity : ℕ) where
  -- The `n` elements from position `i` on, going round.
  unfoldable pub contents : ℕ → List A → ℕ → List A
  contents zero buffer i = []
  contents (suc n) buffer i = get_or buffer (i % capacity) default ∷ contents n buffer (i + 1)

  pub contents-mod :
      (n : ℕ) (buffer : List A) (i : ℕ) → contents n buffer (i % capacity) ≡ contents n buffer i
  unfolding contents
  contents-mod zero buffer i = refl
  contents-mod (suc n) buffer i = rw (
    mod-mod i capacity,
    ← contents-mod n buffer (i % capacity + 1),
    mod-add-mod i capacity 1,
    contents-mod n buffer (i + 1),
  )

  pub contents-suc :
      (n : ℕ) (buffer : List A) (i : ℕ)
      → contents (suc n) buffer i
        ≡ contents n buffer i ++ (get_or buffer ((i + n) % capacity) default ∷ [])
  unfolding contents
  contents-suc zero buffer i = let e : i + 0 ≡ i = omega arith in rw e
  contents-suc (suc n) buffer i =
      let e : i + suc n ≡ i + 1 + n = omega arith in
      rw e (ap (◌∷◌ (get_or buffer (i % capacity) default)) (contents-suc n buffer (i + 1)))

  -- A write to a slot that none of the positions stands for.
  pub contents-set :
      (n : ℕ) (buffer : List A) (i t : ℕ) (v : A)
      → ((k : ℕ) → k < n → t ≢ (i + k) % capacity)
      → contents n (set buffer t v) i ≡ contents n buffer i
  unfolding contents
  contents-set zero buffer i t v ne = refl
  contents-set (suc n) buffer i t v ne =
      let first : t ≢ i % capacity =
        λ e. ne 0 (omega arith) (e ∙ ap (λ x. x % capacity) (omega arith)) in
      rw (
        get_or-set_ne buffer t (i % capacity) v default first,
        contents-set n buffer (i + 1) t v
            (λ k h e. ne (suc k) (omega arith) (e ∙ ap (λ x. x % capacity) (omega arith))),
      )

-- A position before the second round.
pub mod-cases : (a c : ℕ) → a < c + c → ((a < c) × (a % c ≡ a)) ⊎ ((c ≤ a) × (a % c ≡ a - c))
mod-cases a c h = elim (lt_or_ge a c) [
  | inl l ↦ inl (l, mod-eq_of_lt l)
  | inr l ↦ inr (l, mod-eq-sub-mod l ∙ mod-eq_of_lt (omega arith))
]

-- Two positions less than a round apart have different slots.
pub mod-ne :
    (h a b c : ℕ) → h < c → a < b → b < a + c → b ≤ c → h + a < c + c → (h + b) % c ≢ (h + a) % c
mod-ne h a b c hc ab bc bb ac e = elim (mod-cases (h + a) c ac) [
  | inl (x, ex) ↦ elim (mod-cases (h + b) c (omega arith)) [
    | inl (y, ey) ↦ omega (arith, e, ex, ey)
    | inr (y, ey) ↦ omega (arith, e, ex, ey)
  ]
  | inr (x, ex) ↦ elim (mod-cases (h + b) c (omega arith)) [
    | inl (y, ey) ↦ omega (arith, e, ex, ey)
    | inr (y, ey) ↦ omega (arith, e, ex, ey)
  ]
]
