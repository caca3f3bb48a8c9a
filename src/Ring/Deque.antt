-- ===== src/Ring/Deque.antt =====
-- The ring as a bounded deque.
use native.Mathlib.Nat.{mod-lt, mod-eq_of_lt, mod-add-mod, mod_self}
use bluefin.Prelude.{ℕ, suc, ◌+◌, ◌-◌, ◌%◌, ◌<◌, ◌≤◌, ◌≡◌, refl, sym, ◌∙◌, ap, arith}
use bluefin.Prelude.{◌==◌, true, false, ==_iff, ◌⊎◌, inl, inr, lt_or_ge, List, [], ◌∷◌}
use bluefin.Prelude.{◌++◌, get_or, set, length, length-set, Option, none, some}
use bluefin.OrderedBytes.Slots.{get_or-set_self}
use bluefin.Ring.Defs.{RingBuffer, is_empty, is_full, push_back, push_front, pop_front}
use bluefin.Ring.Defs.{head_before}
use bluefin.Ring.Contents.{contents, contents-mod, contents-suc, contents-set, mod-ne}

module _ {A : Type 0} (default : A) where
  abbrev pub elements : RingBuffer A → List A
  elements rb = contents default rb.capacity rb.len rb.buffer rb.head

  abbrev pub IsRing : RingBuffer A → Type 0
  IsRing rb =
      (length rb.buffer ≡ rb.capacity)
      × (rb.head < rb.capacity)
      × (rb.len ≤ rb.capacity)
      × (rb.tail ≡ (rb.head + rb.len) % rb.capacity)

  -- A push: refused when the ring is full, else the elements are `more`.
  abbrev pub Pushed : RingBuffer A → A → List A → RingBuffer A × Option A → Type 0
  Pushed rb value more res =
      ((rb.len ≡ rb.capacity) × (res ≡ (rb, some value)))
      ⊎ ((rb.len < rb.capacity) × (res.1 ≡ none) × (elements res.0 ≡ more) × IsRing res.0)

  -- `push_back` appends the element, or hands it back when the ring is full.
  pub push_back-Pushed :
      (rb : RingBuffer A) (value : A)
      → IsRing rb
      → Pushed rb value (elements rb ++ (value ∷ [])) (push_back default rb value)
  unfolding push_back is_full
  push_back-Pushed rb value (size, h, l, t) = elim (lt_or_ge rb.len rb.capacity) [
    | inr k ↦
        let full : rb.len ≡ rb.capacity = omega arith in
        let test : (rb.len == rb.capacity) ≡ true = (==_iff rb.len rb.capacity).1 full in
        inl (full, rw test)
    | inl k ↦
        let test : (rb.len == rb.capacity) ≡ false = ground arith in
        let at : rb.tail < length rb.buffer =
          omega (arith, size, t, mod-lt (rb.head + rb.len) {m = rb.capacity} (omega arith)) in
        let other =
          contents-set default rb.capacity rb.len rb.buffer rb.head rb.tail value (λ j lt e.
            mod-ne rb.head j rb.len rb.capacity h lt (omega arith) l (omega arith) (sym t ∙ e)) in
        let here : get_or (set rb.buffer rb.tail value) ((rb.head + rb.len) % rb.capacity) default
            ≡ value =
          ap (λ i. get_or (set rb.buffer rb.tail value) i default) (sym t)
          ∙ get_or-set_self rb.buffer rb.tail value default at in
        let one : rb.len + 1 ≡ suc rb.len = omega arith in
        let next : rb.head + rb.len + 1 ≡ rb.head + suc rb.len = omega arith in
        rw test (
          inr (
            k,
            refl,
            (rw one (
                contents-suc default rb.capacity rb.len (set rb.buffer rb.tail value) rb.head
                ∙ rw (other, here))),
            (
              length-set rb.buffer rb.tail value ∙ size,
              h,
              omega (arith, k),
              ap (λ i. (i + 1) % rb.capacity) t
                  ∙ mod-add-mod (rb.head + rb.len) rb.capacity 1
                  ∙ ap (λ i. i % rb.capacity) (omega arith),
            ),
          ))
  ]

  -- `pop_front` removes and returns the first element, or nothing when the ring is empty.
  pub pop_front-lem :
      (rb : RingBuffer A)
      → IsRing rb
      → ((elements rb ≡ []) × (pop_front default rb ≡ (rb, none)))
        ⊎ ((x : A) × (elements rb ≡ x ∷ elements (pop_front default rb).0)
            × ((pop_front default rb).1 ≡ some x)
            × IsRing (pop_front default rb).0)
  unfolding pop_front is_empty
  pop_front-lem rb (size, h, l, t) = elim (lt_or_ge 0 rb.len) [
    | inr k ↦
        let test : (rb.len == 0) ≡ true = (==_iff rb.len 0).1 (omega arith) in
        let none_held : rb.len ≡ 0 = omega arith in
        inl (rw none_held (unfold contents in refl), rw test)
    | inl k ↦
        let test : (rb.len == 0) ≡ false = ground arith in
        let n : ℕ = rb.len - 1 in
        let held : rb.len ≡ suc (rb.len - 1) = omega arith in
        let here : rb.head % rb.capacity ≡ rb.head = mod-eq_of_lt h in
        let other =
          contents-set default rb.capacity (rb.len - 1) rb.buffer (rb.head + 1) rb.head default
            (λ j lt e.
              mod-ne rb.head 0 (suc j) rb.capacity h (omega arith) (omega arith) (omega arith)
                (omega arith)
                (ap (λ i. i % rb.capacity) (omega arith)
                  ∙ sym e
                  ∙ sym here
                  ∙ ap (λ i. i % rb.capacity) (omega arith))) in
        let all : elements rb
            ≡ get_or rb.buffer rb.head default
              ∷ contents default rb.capacity (rb.len - 1) rb.buffer (rb.head + 1) =
          first_element rb held here in
        rw test (
          inr (
            get_or rb.buffer rb.head default,
            rw
                (
                  contents-mod default rb.capacity (rb.len - 1) (set rb.buffer rb.head default)
                      (rb.head + 1),
                  other,
                )
                all,
            refl,
            (
              length-set rb.buffer rb.head default ∙ size,
              mod-lt (rb.head + 1) (omega arith),
              omega (arith, l),
              t
                  ∙ ap (λ i. i % rb.capacity) (omega arith)
                  ∙ sym (mod-add-mod (rb.head + 1) rb.capacity (rb.len - 1)),
            ),
          ))
  ]
    where
      first_element :
          (rb : RingBuffer A)
          → rb.len ≡ suc (rb.len - 1)
          → rb.head % rb.capacity ≡ rb.head
          → elements rb
            ≡ get_or rb.buffer rb.head default
              ∷ contents default rb.capacity (rb.len - 1) rb.buffer (rb.head + 1)
      first_element rb held here =
          ap (λ n. contents default rb.capacity n rb.buffer rb.head) held
          ∙ unfold contents in rw here

  head_before-lem :
      (rb : RingBuffer A)
      → rb.head < rb.capacity
      → (head_before default rb < rb.capacity)
        × ((head_before default rb + 1) % rb.capacity ≡ rb.head)
  unfolding head_before
  head_before-lem rb h = elim (lt_or_ge 0 rb.head) [
    | inr k ↦
        let test : (rb.head == 0) ≡ true = (==_iff rb.head 0).1 (omega arith) in
        rw test (
          omega (arith, h),
          ap (λ i. i % rb.capacity) (omega (arith, h)) ∙ mod_self rb.capacity ∙ omega (arith, k),
        )
    | inl k ↦
        let test : (rb.head == 0) ≡ false = ground arith in
        rw test (omega (arith, h), ap (λ i. i % rb.capacity) (omega (arith, k)) ∙ mod-eq_of_lt h)
  ]

  -- The elements after a write just before the first.
  contents-before :
      (p : ℕ) (rb : RingBuffer A) (value : A)
      → p < rb.capacity
      → (p + 1) % rb.capacity ≡ rb.head
      → length rb.buffer ≡ rb.capacity
      → rb.len < rb.capacity
      → contents default rb.capacity (rb.len + 1) (set rb.buffer p value) p ≡ value ∷ elements rb
  contents-before p rb value lt back size k =
      let one : rb.len + 1 ≡ suc rb.len = omega arith in
      let here : p % rb.capacity ≡ p = mod-eq_of_lt lt in
      let other = contents-set default rb.capacity rb.len rb.buffer (p + 1) p value (λ j jl e.
        mod-ne p 0 (suc j) rb.capacity lt (omega arith) (omega arith) (omega arith) (omega arith) (
          ap (λ i. i % rb.capacity) (omega arith)
          ∙ sym e
          ∙ sym here
          ∙ ap (λ i. i % rb.capacity) (omega arith))) in
      let rest : contents default rb.capacity rb.len (set rb.buffer p value) (p + 1) ≡ elements rb =
        other
        ∙ sym (contents-mod default rb.capacity rb.len rb.buffer (p + 1))
        ∙ ap (λ i. contents default rb.capacity rb.len rb.buffer i) back in
      ap (λ n. contents default rb.capacity n (set rb.buffer p value) p) one
      ∙ unfold contents in
        rw (here, get_or-set_self rb.buffer p value default (omega (arith, size, lt)), rest)

  -- `push_front` puts the element before the others, or hands it back when the ring is full.
  pub push_front-Pushed :
      (rb : RingBuffer A) (value : A)
      → IsRing rb
      → Pushed rb value (value ∷ elements rb) (push_front default rb value)
  unfolding push_front is_full
  push_front-Pushed rb value (size, h, l, t) = elim (lt_or_ge rb.len rb.capacity) [
    | inr k ↦
        let full : rb.len ≡ rb.capacity = omega arith in
        let test : (rb.len == rb.capacity) ≡ true = (==_iff rb.len rb.capacity).1 full in
        inl (full, rw test)
    | inl k ↦
        let test : (rb.len == rb.capacity) ≡ false = ground arith in
        let (lt, back) = head_before-lem rb h in
        rw test (
          inr (
            k,
            refl,
            contents-before (head_before default rb) rb value lt back size k,
            (
              length-set rb.buffer (head_before default rb) value ∙ size,
              lt,
              omega (arith, k),
              t
                  ∙ ap (λ i. (i + rb.len) % rb.capacity) (sym back)
                  ∙ mod-add-mod (head_before default rb + 1) rb.capacity rb.len
                  ∙ ap (λ i. i % rb.capacity) (omega arith),
            ),
          ))
  ]
