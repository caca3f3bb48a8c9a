-- ===== src/Conn/Manager.antt =====
-- bluefin/src/net/connection.rs: `ConnectionManager`, a map from a pair of connection ids, and
-- `buffers` under it. `DashMap` is read as an association list in which the first entry of a key counts.
use bluefin.Prelude.{
  ℕ, ◌==◌, ==_iff, ◌&&◌, ◌≡◌, refl, ap, ap₂, arith, Bool, true, false, if◌then◌else◌,
}
use bluefin.Prelude.{Bool-cases, inl, inr, List, [], ◌∷◌, Option, none, some}

abbrev pub Key : Type 0
Key = ℕ × ℕ

unfoldable pub same_key : Key → Key → Bool
same_key a b = (a.0 == b.0) && (a.1 == b.1)

same_key-true : (a b : Key) → same_key a b ≡ true → (a.0 ≡ b.0) × (a.1 ≡ b.1)
unfolding same_key
same_key-true a b e = ground (arith, e)

same_key-eq : (a b c : Key) → same_key a b ≡ true → same_key a c ≡ same_key b c
unfolding same_key
same_key-eq a b c e =
    let (e0, e1) = same_key-true a b e in ap₂ (λ x y. (x == c.0) && (y == c.1)) e0 e1

pub same_key_refl : (k : Key) → same_key k k ≡ true
unfolding same_key
same_key_refl k = rw ((==_iff k.0 k.0).1 refl, (==_iff k.1 k.1).1 refl) refl

module _ {V : Type 0} where
  unfoldable pub get : List (Key × V) → Key → Option V
  get [] k = none
  get ((k', v) ∷ rest) k = if same_key k' k then some v else get rest k

  -- The map without the key, and what was there.
  unfoldable pub remove : List (Key × V) → Key → List (Key × V) × Option V
  remove [] k = ([], none)
  remove ((k', v) ∷ rest) k =
      let out : List (Key × V) × Option V = remove rest k in
      if same_key k' k then (out.0, some v) else ((k', v) ∷ out.0, out.1)

  unfoldable pub insert : List (Key × V) → Key → V → List (Key × V) × Option V
  insert entries k v =
      let out : List (Key × V) × Option V = remove entries k in ((k, v) ∷ out.0, out.1)

  remove-get : (entries : List (Key × V)) (k : Key) → (remove entries k).1 ≡ get entries k
  unfolding remove get
  remove-get [] k = refl
  remove-get ((k', v) ∷ rest) k = elim (Bool-cases (same_key k' k)) [
    | inl e ↦ rw e refl
    | inr e ↦ rw e (remove-get rest k)
  ]

  pub get-remove_same : (entries : List (Key × V)) (k : Key) → get (remove entries k).0 k ≡ none
  unfolding remove get
  get-remove_same [] k = refl
  get-remove_same ((k', v) ∷ rest) k = elim (Bool-cases (same_key k' k)) [
    | inl e ↦ rw e (get-remove_same rest k)
    | inr e ↦ rw e (rw e (get-remove_same rest k))
  ]

  pub get-remove_other :
      (entries : List (Key × V)) (k other : Key)
      → same_key k other ≡ false
      → get (remove entries k).0 other ≡ get entries other
  unfolding remove get
  get-remove_other [] k other d = refl
  get-remove_other ((k', v) ∷ rest) k other d = elim (Bool-cases (same_key k' k)) [
    | inl e ↦ rw (e, same_key-eq k' k other e, d) (get-remove_other rest k other d)
    | inr e ↦
        rw e (ap (λ o. if same_key k' other then some v else o) (get-remove_other rest k other d))
  ]

  pub get-insert_same :
      (entries : List (Key × V)) (k : Key) (v : V) → get (insert entries k v).0 k ≡ some v
  unfolding insert get
  get-insert_same entries k v = rw (same_key_refl k) refl

  pub get-insert_other :
      (entries : List (Key × V)) (k other : Key) (v : V)
      → same_key k other ≡ false
      → get (insert entries k v).0 other ≡ get entries other
  unfolding insert get
  get-insert_other entries k other v d = rw d (get-remove_other entries k other d)
