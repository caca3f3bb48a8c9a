-- ===== src/Prelude/Buffers.antt =====
-- Writes into a slice of bytes. A write out of range panics.
use Prim.Native.Nat.{ℕ, ◌+◌, ◌≤◌}
use mathlib.Core.Path.{◌≡◌, sym, ◌∙◌, ap}
use mathlib.Core.Bool.{true}
use mathlib.Core.List.{List, ◌++◌, append_assoc}
use native.Mathlib.Omega.{arith}
use bluefin.Prelude.Tests.{leb, le→leb, if◌then◌else◌}
use bluefin.Prelude.Lists.{length, take, drop, length-append, length-take, length-drop, take-append}
use bluefin.Prelude.Lists.{drop-append, drop-drop}
use bluefin.Prelude.Errors.{Result, ok, panic, ◌>>=◌}

-- `buf[at..at + src.len()].copy_from_slice(src)`, which panics out of range.
unfoldable pub copy_at : ℕ → List ℕ → List ℕ → Result (List ℕ)
copy_at at src buf =
    if leb (at + length src) (length buf)
    then ok (take at buf ++ (src ++ drop (at + length src) buf))
    else panic

-- A write just behind what is done.
pub copy_at-append :
    (at : ℕ) (src done rest : List ℕ)
    → length done ≡ at
    → length src ≤ length rest
    → copy_at at src (done ++ rest) ≡ ok ((done ++ src) ++ drop (length src) rest)
unfolding copy_at
copy_at-append at src done rest e h =
    let fits : leb (at + length src) (length (done ++ rest)) ≡ true =
      le→leb _ _ (omega (arith, length-append done rest)) in
    let front : take at (done ++ rest) ≡ done = rw (← e) (take-append done rest) in
    let back : drop (at + length src) (done ++ rest) ≡ drop (length src) rest =
      rw (← drop-drop at (length src) (done ++ rest))
        (ap (drop (length src)) (rw (← e) (drop-append done rest))) in
    rw (fits, front, back) (ap ok (sym (append_assoc done src (drop (length src) rest))))

-- One write of a sequence: what is done so far grows by `src`, and the rest of the buffer stays.
module _ {ℓ} {B : Type ℓ} (buf : List ℕ) (f : List ℕ → Result B) where
  pub copy_at-then :
      (at next : ℕ) (src done : List ℕ)
      → length done ≡ at
      → at + length src ≡ next
      → next ≤ length buf
      → (copy_at at src (done ++ drop at buf) >>= f) ≡ f ((done ++ src) ++ drop next buf)
  copy_at-then at next src done e to h =
      let rest : drop (length src) (drop at buf) ≡ drop next buf =
        drop-drop at (length src) buf ∙ ap (λ k. drop k buf) to in
      rw (copy_at-append at src done (drop at buf) e (omega (arith, length-drop at buf)), rest)

-- A write that succeeds keeps the length of the buffer.
pub length-copy_at :
    (at : ℕ) (src buf out : List ℕ) → copy_at at src buf ≡ ok out → length out ≡ length buf
unfolding copy_at
length-copy_at at src buf out e = ground (
  arith,
  length-append (take at buf) (src ++ drop (at + length src) buf),
  length-append src (drop (at + length src) buf),
  length-take at buf,
  length-drop (at + length src) buf,
)
