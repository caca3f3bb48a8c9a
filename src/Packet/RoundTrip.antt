-- ===== src/Packet/RoundTrip.antt =====
-- A datagram written packet by packet is read back as these packets.
use bluefin.Prelude.{ℕ, zero, suc, ◌*◌, ◌+◌, ◌<◌, ◌≤◌, ◌≡◌, refl, sym, ◌∙◌, ap₂, arith, lt→ltb}
use bluefin.Prelude.{true, false, ◌==◌, le→leb, le→not-ltb, ==_iff, ◌≢◌}
use bluefin.Prelude.{List, [], ◌∷◌, ◌++◌, length, All, length-append, append-nil, append_assoc}
use bluefin.Prelude.{ok, ◌>>=◌}
use bluefin.Packet.Defs.{Packet, serialise}
use bluefin.Packet.Parse.{next_packet, has_header, from_bytes_loop, from_bytes}
use bluefin.Packet.Wire.{
  IsPacket, MayEnd, EndsWell, serialise_all, length-serialise_packet, next_packet-serialise,
}

pub has_header-true :
    (bytes : List ℕ) (cursor : ℕ) → cursor + 20 ≤ length bytes → has_header bytes cursor ≡ true
unfolding has_header
has_header-true bytes cursor h =
    rw (lt→ltb cursor (length bytes) (omega arith), le→leb (cursor + 20) (length bytes) h)

pub has_header-false :
    (bytes : List ℕ) (cursor : ℕ) → length bytes ≤ cursor → has_header bytes cursor ≡ false
unfolding has_header
has_header-false bytes cursor h = rw (le→not-ltb cursor (length bytes) h)

-- One round of the loop.
pub from_bytes_loop_step :
    (fuel : ℕ) (bytes : List ℕ) (cursor cursor' : ℕ) (acc : List Packet) (p : Packet)
    → cursor + 20 ≤ length bytes
    → next_packet bytes cursor ≡ ok (p, cursor')
    → from_bytes_loop (suc fuel) bytes cursor acc
      ≡ from_bytes_loop fuel bytes cursor' (acc ++ (p ∷ []))
unfolding from_bytes_loop
from_bytes_loop_step fuel bytes cursor cursor' acc p h e =
    rw (has_header-true bytes cursor h, from_bytes_loop) (rw (e, ◌>>=◌))

pub from_bytes_loop_end :
    (fuel : ℕ) (bytes : List ℕ) (cursor : ℕ) (acc : List Packet)
    → length bytes ≤ cursor
    → from_bytes_loop (suc fuel) bytes cursor acc ≡ ok (acc, cursor)
unfolding from_bytes_loop
from_bytes_loop_end fuel bytes cursor acc h = rw (has_header-false bytes cursor h, from_bytes_loop)

length-serialise_all : (ps : List Packet) → 20 * length ps ≤ length (serialise_all ps)
length-serialise_all [] = omega arith
length-serialise_all (p ∷ ps) = omega (
  arith,
  length-append (serialise p) (serialise_all ps),
  length-serialise_packet p,
  length-serialise_all ps,
)

EndsWell-head :
    (p : Packet) (ps : List Packet) → EndsWell (p ∷ ps) → length (serialise_all ps) ≡ 0 → MayEnd p
EndsWell-head p [] h e = h
EndsWell-head p (q ∷ ps) h e = absurd (omega (arith, length-serialise_all (q ∷ ps)))

EndsWell-tail : (p : Packet) (ps : List Packet) → EndsWell (p ∷ ps) → EndsWell ps
EndsWell-tail p [] h = tt
EndsWell-tail p (q ∷ ps) h = h

from_bytes_loop-serialise_all :
    (ps : List Packet) (fuel : ℕ) (pre : List ℕ) (acc : List Packet)
    → All IsPacket ps
    → EndsWell ps
    → length ps < fuel
    → from_bytes_loop fuel (pre ++ serialise_all ps) (length pre) acc
      ≡ ok (acc ++ ps, length pre + length (serialise_all ps))
from_bytes_loop-serialise_all ps zero pre acc v w h = absurd (omega arith)
from_bytes_loop-serialise_all [] (suc fuel) pre acc v w h =
    from_bytes_loop_end fuel (pre ++ []) (length pre) acc (omega (arith, length-append pre []))
    ∙ ap₂ (λ (xs : List Packet) (c : ℕ). ok (xs, c)) (sym (append-nil acc)) (omega arith)
from_bytes_loop-serialise_all (p ∷ ps) (suc fuel) pre acc v w h =
    let rest : List ℕ = serialise_all ps in
    let size : length (pre ++ serialise p) ≡ length pre + length (serialise p) =
      length-append pre (serialise p) in
    from_bytes_loop_step fuel (pre ++ (serialise p ++ serialise_all ps)) (length pre)
      (length pre + length (serialise p)) acc p
      (omega (
        arith,
        length-append pre (serialise p ++ serialise_all ps),
        length-append (serialise p) (serialise_all ps),
        length-serialise_packet p,
      ))
      (next_packet-serialise p pre (serialise_all ps) v.0 (EndsWell-head p ps w))
    ∙ rw (← size, ← append_assoc pre (serialise p) (serialise_all ps))
        (from_bytes_loop-serialise_all ps fuel (pre ++ serialise p) (acc ++ (p ∷ [])) v.1
            (EndsWell-tail p ps w) (omega arith)
          ∙ ap₂ (λ (xs : List Packet) (c : ℕ). ok (xs, c)) (append_assoc acc (p ∷ []) ps)
              (omega (arith, size, length-append (serialise p) (serialise_all ps))))

-- A datagram of one or more packets, written one after the other, is read back as these packets,
-- provided that each fits the wire and that the last is not a data packet without payload.
pub from_bytes-serialise_all :
    (ps : List Packet)
    → ps ≢ []
    → All IsPacket ps
    → EndsWell ps
    → from_bytes (serialise_all ps) ≡ ok ps
unfolding from_bytes
from_bytes-serialise_all [] ne v w = absurd (ne refl)
from_bytes-serialise_all (p ∷ ps) ne v w =
    let bytes : List ℕ = serialise_all (p ∷ ps) in
    let size : 20 * suc (length ps) ≤ length bytes = length-serialise_all (p ∷ ps) in
    let all_read : ((0 + length bytes) == length bytes) ≡ true =
      (==_iff (0 + length bytes) (length bytes)).1 (omega arith) in
    rw (
      le→leb 20 (length bytes) (omega (arith, size)),
      from_bytes_loop-serialise_all (p ∷ ps) (length bytes) [] [] v w (omega (arith, size)),
      all_read,
    )
