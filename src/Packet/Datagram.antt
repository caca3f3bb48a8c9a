-- ===== src/Packet/Datagram.antt =====
-- The whole datagram: what `from_bytes` accepts, that its loop ends, and `from_bytes_into`.
use bluefin.Prelude.{ℕ, zero, suc, ◌+◌, ◌≤◌, ◌≡◌, refl, ◌∙◌, arith}
use bluefin.Prelude.{true, leb, Bool-cases, inl, inr}
use bluefin.Prelude.{List, [], ◌∷◌, ◌++◌, length, All, IsByte, take, All-append}
use bluefin.Prelude.{append-nil, append_assoc, take_all}
use bluefin.Prelude.{Result, ok, err, panic, stuck, ◌>>=◌}
use bluefin.Packet.Defs.{Packet, serialise}
use bluefin.Packet.Parse.{next_packet, has_header, from_bytes_loop, from_bytes}
use bluefin.Packet.Wire.{IsPacket, MayEnd, EndsWell, serialise_all}
use bluefin.Packet.Exact.{IsStep, next_packet-IsStep}

serialise_all-append :
    (ps qs : List Packet) → serialise_all (ps ++ qs) ≡ serialise_all ps ++ serialise_all qs
serialise_all-append [] qs = refl
serialise_all-append (p ∷ ps) qs =
    rw
      (serialise_all-append ps qs, append_assoc (serialise p) (serialise_all ps) (serialise_all qs))

EndsWell-append : (ps : List Packet) (p : Packet) → MayEnd p → EndsWell (ps ++ (p ∷ []))
EndsWell-append [] p h = h
EndsWell-append (q ∷ []) p h = h
EndsWell-append (q ∷ r ∷ ps) p h = EndsWell-append (r ∷ ps) p h

-- The invariant of the loop: what was read so far is what stands before the cursor.
pub record IsRead (bytes : List ℕ) (packets : List Packet) (cursor : ℕ) : Type 0 where
  pub inside : cursor ≤ length bytes
  pub bytes_read : serialise_all packets ≡ take cursor bytes
  pub fit : All IsPacket packets
  pub ends : length bytes ≤ cursor → EndsWell packets

IsRead-next :
    {bytes : List ℕ} {packets : List Packet} {cursor cursor' : ℕ} {p : Packet}
    → IsRead bytes packets cursor
    → IsStep bytes cursor p cursor'
    → IsRead bytes (packets ++ (p ∷ [])) cursor'
IsRead-next {packets = packets} {p = p} r s = record {
  inside = s.inside;
  bytes_read =
      serialise_all-append packets (p ∷ [])
      ∙ rw (append-nil (serialise p), r.bytes_read) s.bytes_read;
  fit = All-append IsPacket packets (p ∷ []) r.fit (s.fits, tt);
  ends = λ e. EndsWell-append packets p (s.may_end e);
}

pub has_header-le : (bytes : List ℕ) (c : ℕ) → has_header bytes c ≡ true → c + 20 ≤ length bytes
unfolding has_header
has_header-le bytes c h = ground arith

module _ (bytes : List ℕ) (b : All IsByte bytes) where
  from_bytes_loop-IsRead :
      (fuel cursor cursor' : ℕ) (acc packets : List Packet)
      → IsRead bytes acc cursor
      → from_bytes_loop fuel bytes cursor acc ≡ ok (packets, cursor')
      → IsRead bytes packets cursor'
  unfolding from_bytes_loop
  from_bytes_loop-IsRead zero cursor cursor' acc packets r e = absurd (ground arith)
  from_bytes_loop-IsRead (suc fuel) cursor cursor' acc packets r e =
      elim (Bool-cases (has_header bytes cursor)) [
        | inl more ↦
            go (from_bytes_loop-IsRead fuel) more (next_packet bytes cursor) refl
              (rw (more, from_bytes_loop) at e)
        | inr done ↦
            let same : (acc ≡ packets) × (cursor ≡ cursor') = ground arith in
            rw (← same.0, ← same.1) r
      ]
    where
      go :
          ((c c' : ℕ) (acc packets : List Packet)
            → IsRead bytes acc c
            → from_bytes_loop fuel bytes c acc ≡ ok (packets, c')
            → IsRead bytes packets c')
          → has_header bytes cursor ≡ true
          → (step : Result (Packet × ℕ)) → next_packet bytes cursor ≡ step
          → (next_packet bytes cursor >>= λ step.
              from_bytes_loop fuel bytes step.1 (acc ++ (step.0 ∷ [])))
            ≡ ok (packets, cursor')
          → IsRead bytes packets cursor'
      go ih more (ok (p, c)) n e' =
          ih c cursor' (acc ++ (p ∷ [])) packets
            (IsRead-next r
              (next_packet-IsStep bytes cursor c p b (has_header-le bytes cursor more) n))
            (rw n at e')
      go ih more (err x) n e' = absurd (ground arith)
      go ih more panic n e' = absurd (ground arith)
      go ih more stuck n e' = absurd (ground arith)

-- A datagram that `from_bytes` accepts is, byte for byte, the packets that it returns, written one
-- after the other; each fits the wire, and the last is not a data packet without payload.
pub from_bytes-exact :
    (bytes : List ℕ) (packets : List Packet)
    → All IsByte bytes
    → from_bytes bytes ≡ ok packets
    → (serialise_all packets ≡ bytes) × All IsPacket packets × EndsWell packets
unfolding from_bytes
from_bytes-exact bytes packets b e = go (from_bytes_loop (length bytes) bytes 0 []) refl
  where
    start : IsRead bytes [] 0
    start = record { inside = omega arith; bytes_read = refl; fit = tt; ends = λ _. tt }

    go :
        (r : Result (List Packet × ℕ))
        → from_bytes_loop (length bytes) bytes 0 [] ≡ r
        → (serialise_all packets ≡ bytes) × All IsPacket packets × EndsWell packets
    go (ok (ps, c)) q =
        let facts : (leb 20 (length bytes) ≡ true) × (ps ≡ packets) × (c ≡ length bytes) =
          ground arith in
        let end : from_bytes_loop (length bytes) bytes 0 [] ≡ ok (packets, length bytes) =
          rw (q, facts.1, facts.2) in
        let read : IsRead bytes packets (length bytes) =
          from_bytes_loop-IsRead bytes b (length bytes) 0 (length bytes) [] packets start end in
        (read.bytes_read ∙ take_all _ bytes (omega arith), read.fit, read.ends (omega arith))
    go (err x) q = absurd (ground arith)
    go panic q = absurd (ground arith)
    go stuck q = absurd (ground arith)
