-- ===== src/Prelude/Bytes.antt =====
-- Big-endian bytes: reading back what was written, and writing back what was read.
use Prim.Native.Nat.{ℕ, zero, suc, ◌+◌, ◌*◌, ◌/◌, ◌%◌, ◌^◌, ◌<◌}
use mathlib.Core.Path.{◌≡◌, refl, ◌∙◌}
use mathlib.Core.List.{List, [], ◌∷◌, ◌++◌, append_assoc}
use native.Mathlib.Omega.{arith}
use native.Mathlib.Nat.{pow-suc}
use bluefin.Prelude.Lists.{length, length-append, All, All-append}
use bluefin.Prelude.Words.{IsByte, to_be_bytes, from_be_bytes}

pub length-to_be_bytes : (n x : ℕ) → length (to_be_bytes n x) ≡ n
unfolding to_be_bytes
length-to_be_bytes zero x = refl
length-to_be_bytes (suc n) x =
    omega (
      arith,
      length-append (to_be_bytes n (x / 256)) (x % 256 ∷ []),
      length-to_be_bytes n (x / 256),
    )

pub to_be_bytes-IsByte : (n x : ℕ) → All IsByte (to_be_bytes n x)
unfolding to_be_bytes
to_be_bytes-IsByte zero x = tt
to_be_bytes-IsByte (suc n) x =
    All-append IsByte (to_be_bytes n (x / 256)) (x % 256 ∷ []) (to_be_bytes-IsByte n (x / 256))
      (omega arith, tt)

from_be_bytes-append :
    (acc : ℕ) (xs : List ℕ) (b : ℕ)
    → from_be_bytes acc (xs ++ (b ∷ [])) ≡ from_be_bytes acc xs * 256 + b
unfolding from_be_bytes
from_be_bytes-append acc [] b = refl
from_be_bytes-append acc (x ∷ xs) b = from_be_bytes-append (acc * 256 + x) xs b

-- A word of `n` bytes is read back from its bytes.
pub from_be_bytes-to_be_bytes : (n x : ℕ) → x < 256 ^ n → from_be_bytes 0 (to_be_bytes n x) ≡ x
unfolding to_be_bytes
from_be_bytes-to_be_bytes zero x h = unfold from_be_bytes in omega arith
from_be_bytes-to_be_bytes (suc n) x h =
    from_be_bytes-append 0 (to_be_bytes n (x / 256)) (x % 256)
    ∙ omega (arith, from_be_bytes-to_be_bytes n (x / 256) (omega (arith, pow-suc 256 n)))

to_be_bytes-from_be_bytes_acc :
    (bs : List ℕ) (k acc : ℕ)
    → All IsByte bs
    → to_be_bytes (length bs + k) (from_be_bytes acc bs) ≡ to_be_bytes k acc ++ bs
unfolding from_be_bytes
to_be_bytes-from_be_bytes_acc [] k acc h =
    let e : 0 + k ≡ k = omega arith in rw (e, mathlib.Core.List.append-nil)
to_be_bytes-from_be_bytes_acc (b ∷ bs) k acc h =
    let e : suc (length bs) + k ≡ length bs + suc k = omega arith in
    let hi : (acc * 256 + b) / 256 ≡ acc = omega (arith, h.0) in
    let lo : (acc * 256 + b) % 256 ≡ b = omega (arith, h.0) in
    rw e (
      to_be_bytes-from_be_bytes_acc bs (suc k) (acc * 256 + b) h.1
      ∙ unfold to_be_bytes in rw (hi, lo, append_assoc))

-- The bytes of the word that bytes stand for are these bytes.
pub to_be_bytes-from_be_bytes :
    (n : ℕ) (bs : List ℕ) → length bs ≡ n → All IsByte bs → to_be_bytes n (from_be_bytes 0 bs) ≡ bs
to_be_bytes-from_be_bytes n bs e h =
    let e' : n ≡ length bs + 0 = omega arith in
    rw e' (unfold to_be_bytes in to_be_bytes-from_be_bytes_acc bs 0 0 h)

from_be_bytes-lt_acc :
    (bs : List ℕ) (acc k : ℕ)
    → acc < 256 ^ k
    → All IsByte bs
    → from_be_bytes acc bs < 256 ^ (k + length bs)
unfolding from_be_bytes
from_be_bytes-lt_acc [] acc k h hb = let e : k + 0 ≡ k = omega arith in rw e h
from_be_bytes-lt_acc (b ∷ bs) acc k h hb =
    let e : k + suc (length bs) ≡ suc k + length bs = omega arith in
    rw e
      (from_be_bytes-lt_acc bs (acc * 256 + b) (suc k) (omega (arith, pow-suc 256 k, h, hb.0)) hb.1)

-- `n` bytes stand for a word of `n` bytes.
pub from_be_bytes-lt :
    (n : ℕ) (bs : List ℕ) → length bs ≡ n → All IsByte bs → from_be_bytes 0 bs < 256 ^ n
from_be_bytes-lt n bs e h =
    let e' : n ≡ 0 + length bs = omega arith in rw e' (from_be_bytes-lt_acc bs 0 0 (omega arith) h)
