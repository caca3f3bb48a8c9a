-- ===== src/Writer/Chunk.antt =====
-- One packet of the writer, and what a row of them does to the state of `consume_data_into`.
use bluefin.Prelude.{ℕ, zero, suc, ◌+◌, ◌-◌, ◌*◌, ◌<◌, ◌≤◌, ◌≡◌, refl, sym, ◌∙◌, ap, arith, min}
use bluefin.Prelude.{
  List, [], ◌∷◌, ◌++◌, length, take, drop, replicate, All, joined, append_assoc, append-nil,
}
use bluefin.Prelude.{length-append, length-take, take-append-drop, add_u64, ok}
use bluefin.Header.Write.{serialise_into-ok}
use bluefin.Packet.{Packet, serialise}
use bluefin.Packet.Wire.{serialise_all}
use bluefin.Writer.Defs.{Packing, data_header, take_chunk, serialize_packet_direct}

abbrev pub data_packet : ℕ → ℕ → ℕ → List ℕ → Packet
data_packet src dst n chunk = record {
  header = data_header src dst n (length chunk);
  payload = chunk;
}

-- Data packets with consecutive numbers from `n` on.
unfoldable pub data_packets : ℕ → ℕ → ℕ → List (List ℕ) → List Packet
data_packets src dst n [] = []
data_packets src dst n (c ∷ cs) = data_packet src dst n c ∷ data_packets src dst (add_u64 n 1) cs

-- The packet number after `k` packets from `n` on.
unfoldable pub number_after : ℕ → ℕ → ℕ
number_after n zero = n
number_after n (suc k) = number_after (add_u64 n 1) k

-- A payload that the writer sends: not empty, and at most 1500 bytes.
abbrev pub IsChunk : List ℕ → Type 0
IsChunk c = (0 < length c) × (length c ≤ 1500)

-- From `s` to `s'` the chunks `cs` were packed.
abbrev pub Packs : ℕ → ℕ → Packing → List (List ℕ) → Packing → Type 0
Packs src dst s cs s' =
    (s'.ans ≡ s.ans ++ serialise_all (data_packets src dst s.next_packet_num cs))
    × (joined cs ++ (s'.running_payload ++ joined s'.queue) ≡ s.running_payload ++ joined s.queue)
    × (s'.payload_bytes_packed ≡ s.payload_bytes_packed + length (joined cs))
    × All IsChunk cs
    × (s'.bytes_remaining + (length (joined cs) + 20 * length cs) ≡ s.bytes_remaining)
    × (s'.next_packet_num ≡ number_after s.next_packet_num (length cs))

pub Packs-nil : (src dst : ℕ) (s : Packing) → Packs src dst s [] s
unfolding joined data_packets number_after
Packs-nil src dst s = (sym (append-nil s.ans), refl, omega arith, tt, omega arith, refl)

-- The state after one packet.
abbrev pub taken : Packing → ℕ
taken s = min (length s.running_payload) (min 1500 (s.bytes_remaining - 20))

abbrev pub chunked : ℕ → ℕ → Packing → Packing
chunked src dst s = record s {
  running_payload = drop (taken s) s.running_payload;
  bytes_remaining = s.bytes_remaining - (taken s + 20);
  payload_bytes_packed = s.payload_bytes_packed + taken s;
  ans =
      s.ans ++ serialise (data_packet src dst s.next_packet_num (take (taken s) s.running_payload));
  next_packet_num = add_u64 s.next_packet_num 1;
}

length-taken : (s : Packing) → length (take (taken s) s.running_payload) ≡ taken s
length-taken s = omega (arith, length-take (taken s) s.running_payload)

pub take_chunk-ok : (src dst : ℕ) (s : Packing) → take_chunk src dst s ≡ ok (chunked src dst s)
unfolding take_chunk serialize_packet_direct serialise
take_chunk-ok src dst s = rw (
  serialise_into-ok (data_header src dst s.next_packet_num (taken s)) (replicate 20 0)
      (omega arith),
  length-taken s,
  append-nil,
)

-- One packet and then more.
pub Packs-cons :
    (src dst : ℕ) (s : Packing) (cs : List (List ℕ)) (s' : Packing)
    → 0 < taken s
    → taken s + 20 ≤ s.bytes_remaining
    → Packs src dst (chunked src dst s) cs s'
    → Packs src dst s (take (taken s) s.running_payload ∷ cs) s'
unfolding joined data_packets number_after
Packs-cons src dst s cs s' pos room (a, j, p, c, r, n) =
    let chunk : List ℕ = take (taken s) s.running_payload in
    let rest : List ℕ = drop (taken s) s.running_payload in
    let size = length-taken s in
    (
      a ∙ append_assoc s.ans (serialise (data_packet src dst s.next_packet_num chunk)) _,
      append_assoc chunk (joined cs) (s'.running_payload ++ joined s'.queue)
          ∙ ap (λ xs. chunk ++ xs) j
          ∙ sym (append_assoc chunk rest (joined s.queue))
          ∙ ap (λ xs. xs ++ joined s.queue) (take-append-drop (taken s) s.running_payload),
      omega (arith, p, size, length-append chunk (joined cs)),
      ((omega (arith, size, pos), omega (arith, size)), c),
      omega (arith, r, size, room, length-append chunk (joined cs)),
      n,
    )
