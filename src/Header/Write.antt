-- ===== src/Header/Write.antt =====
-- The in-place serialiser of the header, `serialise_into`, against the allocating one.
use bluefin.Prelude.{copy_at}
use bluefin.Prelude.{false, ◌*◌, ◌%◌, ℕ, ◌+◌, ◌<◌, ◌≤◌, ◌≡◌, refl, ◌∙◌, arith, lt→not-leb}
use bluefin.Prelude.{List, [], ◌∷◌, ◌++◌, length, drop, to_be_bytes}
use bluefin.Prelude.{Result, ok, err, panic, stuck, ◌>>=◌}
use bluefin.Prelude.{leb}
use bluefin.Prelude.Bytes.{length-to_be_bytes}
use bluefin.Prelude.Buffers.{copy_at-then, length-copy_at}
use bluefin.Prelude.Bits.{or_nibbles}
use bluefin.Header.Kind.{as_u8}
use bluefin.Header.Wire.{as_u8-lt}
use bluefin.Header.Security
use bluefin.Header.Defs.{Header, first_byte, serialise, serialise_into}

first_byte-lt : (h : Header) → first_byte h < 256
unfolding first_byte
first_byte-lt h =
    let e : h.version * 16 % 256 ≡ h.version % 16 * 16 = omega arith in
    let c : as_u8 h.type_field < 16 = as_u8-lt h.type_field in
    rw (e, or_nibbles (h.version % 16) (as_u8 h.type_field) (omega arith) c) (omega arith)

-- With room for 20 bytes the call writes those of `serialise`, keeps what lies behind them, and
-- answers 20.
pub serialise_into-ok :
    (h : Header) (buf : List ℕ)
    → 20 ≤ length buf
    → serialise_into h buf ≡ ok (serialise h ++ drop 20 buf, 20)
unfolding serialise_into serialise to_be_bytes Security.serialise
serialise_into-ok h buf n =
    let first : first_byte h % 256 ≡ first_byte h = omega (arith, first_byte-lt h) in
    rw first (
      copy_at-then buf _ 0 1 _ [] refl refl (omega arith)
      ∙ copy_at-then buf _ 1 3 _ (_ ∷ []) refl refl (omega arith)
      ∙ copy_at-then buf _ 3 4 _ (_ ∷ _ ∷ _ ∷ []) refl refl (omega arith)
      ∙ copy_at-then buf _ 4 8 _ (_ ∷ _ ∷ _ ∷ _ ∷ []) refl refl (omega arith)
      ∙ copy_at-then buf _ 8 12 _ (_ ∷ _ ∷ _ ∷ _ ∷ _ ∷ _ ∷ _ ∷ _ ∷ []) refl refl (omega arith)
      ∙ copy_at-then buf _ 12 20 _ (_ ∷ _ ∷ _ ∷ _ ∷ _ ∷ _ ∷ _ ∷ _ ∷ _ ∷ _ ∷ _ ∷ _ ∷ []) refl refl n)

module _ {ℓ} {B : Type ℓ} (n : ℕ) (f : List ℕ → Result B)
    (later : (b : List ℕ) → length b ≡ n → f b ≡ panic) where
  copy_at-panic : (at : ℕ) (src buf : List ℕ) → length buf ≡ n → (copy_at at src buf >>= f) ≡ panic
  copy_at-panic at src buf e = go (copy_at at src buf) refl
    where
      go : (r : Result (List ℕ)) → copy_at at src buf ≡ r → (r >>= f) ≡ panic
      go (ok out) p = later out (length-copy_at at src buf out p ∙ e)
      go (err x) p = absurd (unfold copy_at in ground arith)
      go panic p = refl
      go stuck p = absurd (unfold copy_at in ground arith)

-- Without that room the call panics.
pub serialise_into-panic :
    (h : Header) (buf : List ℕ) → length buf < 20 → serialise_into h buf ≡ panic
unfolding serialise_into
serialise_into-panic h buf n =
    copy_at-panic _ _
      (λ b e.
        copy_at-panic _ _
          (λ b e.
            copy_at-panic _ _
              (λ b e.
                copy_at-panic _ _ (λ b e. copy_at-panic _ _ (λ b e. last b e) 8 _ b e) 4 _ b e)
              3 _ b e)
          1 _ b e)
      0 _ buf refl
  where
    last :
        (b : List ℕ)
        → length b ≡ length buf
        → ◌≡◌ {A = Result (List ℕ × ℕ)}
            (copy_at 12 (to_be_bytes 8 h.packet_number) b >>= λ out. ok (out, 20))
            panic
    last b e =
        let no_room : leb (12 + length (to_be_bytes 8 h.packet_number)) (length b) ≡ false =
          lt→not-leb _ _ (omega (arith, length-to_be_bytes 8 h.packet_number)) in
        unfold copy_at in rw no_room
