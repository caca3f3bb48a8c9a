-- ===== src/Packet/Wire.antt =====
-- A row of packets on the wire, and one step of the datagram parsers over it.
use bluefin.Prelude.{ℕ, zero, suc, ◌+◌, ◌<◌, ◌≡◌, refl, sym, ◌∙◌, ap, ap₂, arith}
use bluefin.Prelude.{
  false, if◌then◌else◌, leb, ◌||◌, ◌⊎◌, inl, inr, length_zero, Bool-cases, slice-append,
  take-append_front,
}
use bluefin.Prelude.{List, [], ◌∷◌, ◌++◌, length, All, IsByte, slice}
use bluefin.Prelude.{length-append}
use bluefin.Prelude.{append_assoc}
use bluefin.Prelude.{ok}
use bluefin.Header
use bluefin.Header.{Header}
use bluefin.Header.Wire.{IsWire, deserialise-serialise, length-serialise}
use bluefin.Packet.Defs.{Packet, serialise}
use bluefin.Packet.Parse.{has_payload, data_packet, next_packet}

-- The payload that the header announces.
abbrev pub payload_len : Header → ℕ
payload_len h = if has_payload h.type_field then h.type_specific_payload else 0

-- A packet that the wire can carry: its header's fields fit, its payload is made of bytes, and
-- has the length that its header announces.
pub record IsPacket (p : Packet) : Type 0 where
  pub header_fits : IsWire p.header
  pub bytes_fit : All IsByte p.payload
  pub announced : length p.payload ≡ payload_len p.header

-- The packet may stand at the end of a datagram: it is not a data packet without payload.
abbrev pub MayEnd : Packet → Type 0
MayEnd p = if has_payload p.header.type_field then 0 < length p.payload else Unit

abbrev pub EndsWell : List Packet → Type 0
EndsWell [] = Unit
EndsWell (p ∷ []) = MayEnd p
EndsWell (p ∷ q ∷ ps) = EndsWell (q ∷ ps)

abbrev pub serialise_all : List Packet → List ℕ
serialise_all [] = []
serialise_all (p ∷ ps) = serialise p ++ serialise_all ps

pub length-serialise_packet : (p : Packet) → length (serialise p) ≡ 20 + length p.payload
unfolding serialise
length-serialise_packet p =
    omega (arith, length-append (Header.serialise p.header) p.payload, length-serialise p.header)

-- One step at a header that was written, whatever the payload turns out to be.
next_packet-header :
    (h : Header) (pre rest : List ℕ)
    → IsWire h
    → next_packet (pre ++ (Header.serialise h ++ rest)) (length pre) ≡ (
        if has_payload h.type_field
        then data_packet (pre ++ (Header.serialise h ++ rest)) (length pre) h
        else ok (record { header = h; payload = [] }, length pre + 20))
unfolding next_packet
next_packet-header h pre rest v = rw (
  slice-append pre (Header.serialise h ++ rest) (length pre) 20 refl,
  take-append_front 20 (Header.serialise h) rest (length-serialise h),
  deserialise-serialise h v,
)

data_packet-serialise :
    (h : Header) (payload pre rest : List ℕ)
    → length payload ≡ h.type_specific_payload
    → (length rest ≡ 0 → 0 < length payload)
    → data_packet (pre ++ (Header.serialise h ++ (payload ++ rest))) (length pre) h
      ≡ ok (record { header = h; payload = payload }, length pre + 20 + h.type_specific_payload)
unfolding data_packet
data_packet-serialise h payload pre rest e last =
    let total : length (pre ++ (Header.serialise h ++ (payload ++ rest)))
        ≡ length pre + 20 + h.type_specific_payload + length rest =
      omega (
        arith,
        e,
        length-append pre (Header.serialise h ++ (payload ++ rest)),
        length-append (Header.serialise h) (payload ++ rest),
        length-append payload rest,
        length-serialise h,
      ) in
    let some_left : (0 < length rest) ⊎ (0 < length payload) = left_over (length rest) last in
    let enough : (leb (length (pre ++ (Header.serialise h ++ (payload ++ rest)))) (length pre + 20)
          || leb (length (pre ++ (Header.serialise h ++ (payload ++ rest))))
              (length pre + 19 + h.type_specific_payload))
        ≡ false =
      rw total (ground (arith, e)) in
    let cut : slice (pre ++ (Header.serialise h ++ (payload ++ rest))) (length pre + 20)
          (length pre + 20 + h.type_specific_payload)
        ≡ payload =
      rw (← append_assoc pre (Header.serialise h) (payload ++ rest)) (
        slice-append (pre ++ Header.serialise h) (payload ++ rest) (length pre + 20)
          h.type_specific_payload
          (omega (arith, length-append pre (Header.serialise h), length-serialise h))
        ∙ take-append_front h.type_specific_payload payload rest e) in
    rw (enough, cut)
  where
    left_over : (n : ℕ) → (n ≡ 0 → 0 < length payload) → (0 < n) ⊎ (0 < length payload)
    left_over zero f = inr (f refl)
    left_over (suc n) f = inl (omega arith)

-- A packet at the cursor is read as it was written, and the cursor moves behind it.
pub next_packet-serialise :
    (p : Packet) (pre rest : List ℕ)
    → IsPacket p
    → (length rest ≡ 0 → MayEnd p)
    → next_packet (pre ++ (serialise p ++ rest)) (length pre)
      ≡ ok (p, length pre + length (serialise p))
unfolding serialise
next_packet-serialise p pre rest v last =
    let size : length (serialise p) ≡ 20 + length p.payload = length-serialise_packet p in
    rw (append_assoc (Header.serialise p.header) p.payload rest) (
      next_packet-header p.header pre (p.payload ++ rest) v.header_fits
      ∙ elim (Bool-cases (has_payload p.header.type_field)) [
        | inl full ↦
            let n : length p.payload ≡ p.header.type_specific_payload = rw full at v.announced in
            rw full (
              data_packet-serialise p.header p.payload pre rest n (rw full at last)
              ∙ ap (λ (c : ℕ). ok (p, c)) (omega (arith, size)))
        | inr empty ↦
            let n : length p.payload ≡ 0 = rw empty at v.announced in
            rw empty (
              ap₂
                (λ (bytes : List ℕ) (c : ℕ). ok (record { header = p.header; payload = bytes }, c))
                (sym (length_zero p.payload n)) (omega (arith, size)))
      ])
