-- ===== src/Packet/Total.antt =====
-- The datagram parsers end on every input, agree with each other, and panic on an unknown type.
use bluefin.Prelude.{ℕ, zero, suc, ◌+◌, ◌-◌, ◌*◌, ◌<◌, ◌≤◌, ◌≡◌, refl, ap, arith}
use bluefin.Prelude.{Bool, true, false, leb, ◌==◌, Bool-cases, inl, inr, ◌≢◌, le→leb, ==_iff}
use bluefin.Prelude.{List, [], ◌∷◌, ◌++◌, length, get_or, bit_and, length-append}
use bluefin.Prelude.{
  slice, length-slice, append-nil, ◌>>◌, read_error, if◌then◌else◌, append_assoc, Result, ok, err,
  panic, stuck, ◌>>=◌, guard,
}
use bluefin.Header
use bluefin.Header.{from_u8}
use bluefin.Header.Security
use bluefin.Packet.Defs.{Packet}
use bluefin.Packet.Parse.{
  next_packet, has_header, from_bytes_loop, from_bytes, from_bytes_into_loop, from_bytes_into,
}
use bluefin.Packet.RoundTrip.{has_header-true}
use bluefin.Packet.Datagram.{has_header-le}

next_packet-ne-stuck : (bytes : List ℕ) (cursor : ℕ) → next_packet bytes cursor ≢ stuck
unfolding next_packet Header.deserialise from_u8 Security.deserialise
next_packet-ne-stuck bytes cursor e = ground arith

next_packet-forward :
    (bytes : List ℕ) (cursor c : ℕ) (p : Packet)
    → cursor + 20 ≤ length bytes
    → next_packet bytes cursor ≡ ok (p, c)
    → (cursor + 20 ≤ c) × (c ≤ length bytes)
unfolding next_packet Header.deserialise from_u8 Security.deserialise
next_packet-forward bytes cursor c p h e = ground arith

from_bytes_loop-ne-stuck :
    (fuel : ℕ) (bytes : List ℕ) (cursor : ℕ) (acc : List Packet)
    → cursor ≤ length bytes
    → length bytes < cursor + 20 * fuel
    → from_bytes_loop fuel bytes cursor acc ≢ stuck
unfolding from_bytes_loop
from_bytes_loop-ne-stuck zero bytes cursor acc k h e = absurd (omega arith)
from_bytes_loop-ne-stuck (suc fuel) bytes cursor acc k h e =
    elim (Bool-cases (has_header bytes cursor)) [
      | inl more ↦
          go (from_bytes_loop-ne-stuck fuel) (has_header-le bytes cursor more)
            (next_packet bytes cursor) refl (rw (more, from_bytes_loop) at e)
      | inr done ↦ ground arith
    ]
  where
    go :
        ((bytes : List ℕ) (c : ℕ) (acc : List Packet)
          → c ≤ length bytes
          → length bytes < c + 20 * fuel
          → from_bytes_loop fuel bytes c acc ≢ stuck)
        → cursor + 20 ≤ length bytes
        → (step : Result (Packet × ℕ)) → next_packet bytes cursor ≡ step
        → (next_packet bytes cursor >>= λ step.
            from_bytes_loop fuel bytes step.1 (acc ++ (step.0 ∷ [])))
          ≡ stuck
        → ⊥
    go ih more (ok (p, c)) n e' =
        let forward : (cursor + 20 ≤ c) × (c ≤ length bytes) =
          next_packet-forward bytes cursor c p more n in
        ih bytes c (acc ++ (p ∷ [])) forward.1 (omega arith) (rw n at e')
    go ih more (err x) n e' = ground arith
    go ih more panic n e' = ground arith
    go ih more stuck n e' = next_packet-ne-stuck bytes cursor n

-- `from_bytes` returns a result on every input: the length of the datagram is fuel enough.
pub from_bytes-ne-stuck : (bytes : List ℕ) → from_bytes bytes ≢ stuck
unfolding from_bytes
from_bytes-ne-stuck bytes e = elim (Bool-cases (leb 20 (length bytes))) [
  | inl long ↦
      ground
        (arith, from_bytes_loop-ne-stuck (length bytes) bytes 0 [] (omega arith) (ground arith))
  | inr short ↦ ground arith
]

-- What the caller of `from_bytes_into` sees, told by what `from_bytes` returns: its vector grown by
-- the packets and their number, or the same error.
abbrev pub SameOutcome : List Packet → Result (List Packet) → List Packet × Result ℕ → Type 0
SameOutcome before (ok packets) r = r ≡ (before ++ packets, ok (length packets))
SameOutcome before (err e) r = r.1 ≡ err e
SameOutcome before panic r = r.1 ≡ panic
SameOutcome before stuck r = r.1 ≡ stuck

abbrev SameLoop : List Packet → Result (List Packet × ℕ) → List Packet × Result ℕ → Type 0
SameLoop before (ok (packets, c)) r = r ≡ (before ++ packets, ok c)
SameLoop before (err e) r = r.1 ≡ err e
SameLoop before panic r = r.1 ≡ panic
SameLoop before stuck r = r.1 ≡ stuck

from_bytes_into_loop-same :
    (fuel : ℕ) (buf : List ℕ) (cursor : ℕ) (before acc : List Packet)
    → SameLoop before
        (from_bytes_loop fuel buf cursor acc)
        (from_bytes_into_loop fuel buf cursor (before ++ acc))
unfolding from_bytes_loop from_bytes_into_loop
from_bytes_into_loop-same zero buf cursor before acc = refl
from_bytes_into_loop-same (suc fuel) buf cursor before acc =
    go (from_bytes_into_loop-same fuel) (has_header buf cursor) (next_packet buf cursor)
  where
    go :
        ((buf : List ℕ) (c : ℕ) (before acc : List Packet)
          → SameLoop before
              (from_bytes_loop fuel buf c acc)
              (from_bytes_into_loop fuel buf c (before ++ acc)))
        → (more : Bool) (step : Result (Packet × ℕ))
        → SameLoop before
            (elim more [
              | true ↦ step >>= λ step. from_bytes_loop fuel buf step.1 (acc ++ (step.0 ∷ []))
              | false ↦ ok (acc, cursor)
            ])
            (elim more [
              | true ↦ elim step [
                | ok step ↦ from_bytes_into_loop fuel buf step.1 (before ++ acc ++ (step.0 ∷ []))
                | err e ↦ (before ++ acc, err e)
                | panic ↦ (before ++ acc, panic)
                | stuck ↦ (before ++ acc, stuck)
              ]
              | false ↦ (before ++ acc, ok cursor)
            ])
    go ih true (ok (p, c)) =
        rw (append_assoc before acc (p ∷ [])) (ih buf c before (acc ++ (p ∷ [])))
    go ih true (err e) = refl
    go ih true panic = refl
    go ih true stuck = refl
    go ih false step = refl

-- `from_bytes_into` does to the caller's vector what `from_bytes` returns, on every input: on
-- success the vector grows by the packets of `from_bytes` and the answer is their number; otherwise
-- the answer is the same error.
pub from_bytes_into-from_bytes :
    (buf : List ℕ) (before : List Packet)
    → SameOutcome before (from_bytes buf) (from_bytes_into buf before)
unfolding from_bytes from_bytes_into
from_bytes_into-from_bytes buf before =
    go (leb 20 (length buf)) (from_bytes_loop (length buf) buf 0 [])
      (from_bytes_into_loop (length buf) buf 0 before)
      (rw append-nil at (from_bytes_into_loop-same (length buf) buf 0 before []))
  where
    go :
        (long : Bool) (r : Result (List Packet × ℕ)) (s : List Packet × Result ℕ)
        → SameLoop before r s
        → SameOutcome before
            (guard long (read_error "Array must be at least 20 bytes")
              >> (r >>= λ read.
                  guard
                    (read.1 == length buf)
                    (read_error "Was not able to read all bytes into bluefin packets")
                  >> ok read.0))
            (if long
              then (
                s.0,
                (s.1 >>= λ cursor.
                    guard
                      (cursor == length buf)
                      (read_error "Was not able to read all bytes into bluefin packets")
                    >> ok (length s.0 - length before)),
              )
              else (before, err (read_error "Array must be at least 20 bytes")))
    go true (ok (packets, c)) s h = elim (Bool-cases (c == length buf)) [
      | inl all ↦
          rw (h, all)
            (ap (λ (k : ℕ). (before ++ packets, ok k))
              (omega (arith, length-append before packets)))
      | inr part ↦ rw (h, part)
    ]
    go true (err e) s h = rw h
    go true panic s h = rw h
    go true stuck s h = rw h
    go false r s h = refl

from_u8-panic : (c : ℕ) → 6 < c → from_u8 c ≡ panic
unfolding from_u8
from_u8-panic c h = ground arith

deserialise-panic :
    (bytes : List ℕ)
    → length bytes ≡ 20
    → 6 < bit_and (get_or bytes 0 0) 0x0f
    → Header.deserialise bytes ≡ panic
unfolding Header.deserialise Security.deserialise
deserialise-panic bytes n h =
    rw ((==_iff (length bytes) 20).1 n, from_u8-panic (bit_and (get_or bytes 0 0) 0x0f) h)

-- A datagram of at least 20 bytes whose first packet has a type code above 6 makes the parser
-- panic.
pub from_bytes_unknown_type :
    (bytes : List ℕ)
    → 20 ≤ length bytes
    → 6 < bit_and (get_or bytes 0 0) 0x0f
    → from_bytes bytes ≡ panic
unfolding from_bytes from_bytes_loop next_packet
from_bytes_unknown_type [] n h = absurd (omega arith)
from_bytes_unknown_type (b ∷ bs) n h =
    let bad : Header.deserialise (slice (b ∷ bs) 0 (0 + 20)) ≡ panic =
      deserialise-panic (slice (b ∷ bs) 0 (0 + 20)) (length-slice 0 20 (b ∷ bs) (omega arith) n)
        h in
    rw (le→leb 20 (length (b ∷ bs)) n, from_bytes_loop, has_header-true (b ∷ bs) 0 n)
      (rw (bad, ◌>>=◌))
