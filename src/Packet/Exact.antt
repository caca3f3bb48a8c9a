-- ===== src/Packet/Exact.antt =====
-- What the datagram parser accepts, and that it always ends.
use bluefin.Prelude.{ℕ, ◌+◌, ◌<◌, ◌≤◌, ◌≡◌, refl, arith}
use bluefin.Prelude.{true, false, Bool-cases, inl, inr}
use bluefin.Prelude.{List, [], ◌++◌, length, All, IsByte, slice, take}
use bluefin.Prelude.{take-slice, length-slice, append-nil, append_assoc}
use bluefin.Prelude.{All-take, All-drop}
use bluefin.Prelude.{Result, ok, err, panic, stuck}
use bluefin.Header
use bluefin.Header.{Header}
use bluefin.Header.Wire.{IsWire}
use bluefin.Header.Exact.{serialise-deserialise}
use bluefin.Packet.Defs.{Packet, serialise}
use bluefin.Packet.Parse.{has_payload, data_packet, next_packet}
use bluefin.Packet.Wire.{IsPacket, MayEnd}

-- What a step that succeeds tells: the packet is one that the wire can carry, its bytes are those
-- between the cursors, and it does not stand at the end if it may not.
pub record IsStep (bytes : List ℕ) (cursor : ℕ) (p : Packet) (cursor' : ℕ) : Type 0 where
  pub fits : IsPacket p
  pub bytes_read : take cursor bytes ++ serialise p ≡ take cursor' bytes
  pub forward : cursor + 20 ≤ cursor'
  pub inside : cursor' ≤ length bytes
  pub may_end : length bytes ≤ cursor' → MayEnd p

module _ (bytes : List ℕ) (b : All IsByte bytes) (cursor : ℕ) (h : cursor + 20 ≤ length bytes)
    (header : Header) (q : Header.deserialise (slice bytes cursor (cursor + 20)) ≡ ok header) where
  exact : (Header.serialise header ≡ slice bytes cursor (cursor + 20)) × IsWire header
  exact =
      serialise-deserialise (slice bytes cursor (cursor + 20)) header
        (All-take IsByte _ _ (All-drop IsByte cursor bytes b)) q

  header_read : take cursor bytes ++ Header.serialise header ≡ take (cursor + 20) bytes
  header_read = rw (exact.0) (take-slice cursor (cursor + 20) bytes (omega arith))

  empty-IsStep :
      has_payload header.type_field ≡ false
      → IsStep bytes cursor (record { header = header; payload = [] }) (cursor + 20)
  unfolding serialise
  empty-IsStep empty = record {
    fits = record { header_fits = exact.1; bytes_fit = tt; announced = rw empty };
    bytes_read = rw append-nil header_read;
    forward = omega arith;
    inside = h;
    may_end = λ _. rw empty tt;
  }

  data-IsStep :
      {p : Packet} {cursor' : ℕ}
      → has_payload header.type_field ≡ true
      → data_packet bytes cursor header ≡ ok (p, cursor')
      → IsStep bytes cursor p cursor'
  unfolding data_packet serialise
  data-IsStep {p} {cursor'} full e =
      let end : ℕ = cursor + 20 + header.type_specific_payload in
      let inside : (end ≤ length bytes)
          × (cursor + 20 < length bytes)
          × (end ≡ cursor')
          × (record { header = header; payload = slice bytes (cursor + 20) end } ≡ p) =
        ground arith in
      let cut : length (slice bytes (cursor + 20) end) ≡ header.type_specific_payload =
        omega (arith, length-slice (cursor + 20) end bytes (omega arith) inside.0) in
      rw (← inside.3, ← inside.2)
        (record {
          fits = record {
            header_fits = exact.1;
            bytes_fit = All-take IsByte _ _ (All-drop IsByte (cursor + 20) bytes b);
            announced = rw full cut;
          };
          bytes_read =
              rw (← append_assoc (take cursor bytes) (Header.serialise header) _, header_read)
                (take-slice (cursor + 20) end bytes (omega arith));
          forward = omega arith;
          inside = inside.0;
          may_end = λ last. rw full (omega (arith, cut, inside.1));
        })

  next-IsStep :
      {p : Packet} {cursor' : ℕ}
      → next_packet bytes cursor ≡ ok (p, cursor')
      → IsStep bytes cursor p cursor'
  unfolding next_packet
  next-IsStep {p} {cursor'} n = elim (Bool-cases (has_payload header.type_field)) [
    | inl full ↦ data-IsStep full (rw (q, full) at n)
    | inr empty ↦
        let e : ◌≡◌ {A = Result (Packet × ℕ)}
            (ok (record { header = header; payload = [] }, cursor + 20)) (ok (p, cursor')) =
          rw (q, empty) at n in
        let same : (record { header = header; payload = [] } ≡ p) × (cursor + 20 ≡ cursor') =
          ground arith in
        rw (← same.0, ← same.1) (empty-IsStep empty)
  ]

-- A step that succeeds.
pub next_packet-IsStep :
    (bytes : List ℕ) (cursor cursor' : ℕ) (p : Packet)
    → All IsByte bytes
    → cursor + 20 ≤ length bytes
    → next_packet bytes cursor ≡ ok (p, cursor')
    → IsStep bytes cursor p cursor'
next_packet-IsStep bytes cursor cursor' p b h n =
    go (Header.deserialise (slice bytes cursor (cursor + 20))) refl
  where
    go :
        (r : Result Header)
        → Header.deserialise (slice bytes cursor (cursor + 20)) ≡ r
        → IsStep bytes cursor p cursor'
    go (ok header) q = next-IsStep bytes b cursor h header q n
    go (err e) q = absurd (unfold next_packet in ground arith)
    go panic q = absurd (unfold next_packet in ground arith)
    go stuck q = absurd (unfold next_packet in ground arith)
