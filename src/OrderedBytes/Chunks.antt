-- ===== src/OrderedBytes/Chunks.antt =====
-- bluefin/src/net/ordered_bytes.rs: `consume_bytes`, and the stream of bytes that it reads from.
use bluefin.Prelude.{ℕ, zero, suc, ◌+◌, ◌-◌, length_zero, ◌<◌, ◌≤◌, ◌≡◌, refl, sym, ◌∙◌, ap, arith}
use mathlib.Core.Path.{subst}
use bluefin.Prelude.{◌==◌, if◌then◌else◌}
use bluefin.Prelude.{List, [], ◌∷◌, ◌++◌, append_assoc, append-nil, length, length-append}
use bluefin.Prelude.{none, some, Option-cases, inl, inr, ◌⊎◌, Result, ok, err}
use bluefin.Prelude.{buffer_empty_error, joined, joined-append}
use bluefin.OrderedBytes.Defs.{OrderedBytes, ConsumeResult, max_buffer_size}
use bluefin.OrderedBytes.Consume.{Pushed, consume_bytes_loop, push_carry, consume_bytes}
use bluefin.OrderedBytes.Slots.{length-in_row, wrap_index-zero}
use bluefin.OrderedBytes.Stream.{carried, ready, stream, IsValid}
use bluefin.OrderedBytes.Pushes.{Pushes, consume_bytes_loop-lem}

-- What the call says of the chunks `chunks`.
unfoldable pub ReportsChunks : List (List ℕ) → Result ConsumeResult → Type 0
ReportsChunks chunks (ok r) = (r.bytes_consumed ≡ length (joined chunks)) × (0 < length chunks)
ReportsChunks chunks (err e) = (e ≡ buffer_empty_error) × (chunks ≡ [])
ReportsChunks chunks _ = ⊥

-- The chunks, joined, are the front of the stream, they are at most `max_packets`, but for the
-- carry-over that goes out in any case, and as many as there are up to that number.
abbrev pub Drains :
    OrderedBytes → List (List ℕ) → ℕ → OrderedBytes × List (List ℕ) × Result ConsumeResult → Type 0
Drains ob out max_packets res =
    (chunks : List (List ℕ)) × (res.1 ≡ out ++ chunks)
    × (joined chunks ++ stream res.0 ≡ stream ob)
    × ReportsChunks chunks res.2
    × ((length chunks ≤ max_packets)
        ⊎ ((c : List ℕ) × (max_packets ≡ 0) × (ob.carry_over_bytes ≡ some c) × (chunks ≡ c ∷ [])))
    × ((max_packets ≤ length chunks) ⊎ (ready res.0 ≡ []))
    × IsValid res.0

report_chunks :
    (a k : ℕ) (chunks : List (List ℕ)) (r : ConsumeResult)
    → k ≡ a + length chunks
    → r.bytes_consumed ≡ length (joined chunks)
    → ReportsChunks chunks (if k == a then err buffer_empty_error else ok r)
unfolding ReportsChunks
report_chunks a k [] r h e = ground (arith, h, e)
report_chunks a k (c ∷ cs) r h e = ground (arith, h, e)

-- The state `s` after the carry-over, whose chunks are `first`.
abbrev Carried : OrderedBytes → List (List ℕ) → List (List ℕ) → Pushed → Type 0
Carried ob out first s =
    (s.ordered ≡ record ob { carry_over_bytes = none })
    × (s.out ≡ out ++ first)
    × (s.ix ≡ 0)
    × (s.total_bytes ≡ length (joined first))
    × (joined first ≡ carried ob.carry_over_bytes)
    × ((first ≡ []) ⊎ ((c : List ℕ) × (ob.carry_over_bytes ≡ some c) × (first ≡ c ∷ [])))
    × (push_carry ob out ≡ s)

-- The carry-over counts against `max_packets`, but goes out even if that is 0.
within :
    (ob : OrderedBytes) (first more : List (List ℕ)) (max_packets : ℕ)
    → (first ≡ []) ⊎ ((c : List ℕ) × (ob.carry_over_bytes ≡ some c) × (first ≡ c ∷ []))
    → length more ≤ max_packets - length first
    → (length (first ++ more) ≤ max_packets)
      ⊎ ((c : List ℕ) × (max_packets ≡ 0)
          × (ob.carry_over_bytes ≡ some c)
          × (first ++ more ≡ c ∷ []))
within ob first more max_packets (inl e) h = inl (rw e (omega (arith, h, ap length e)))
within ob first more zero (inr (c, carry, e)) h =
    let none_left : more ≡ [] = length_zero more (omega (arith, h)) in
    inr (c, refl, carry, rw (e, none_left) refl)
within ob first more (suc n) (inr (c, carry, e)) h =
    inl (omega (arith, h, ap length e, length-append first more))

module _ (ob : OrderedBytes) (out : List (List ℕ)) (max_packets : ℕ) (first : List (List ℕ))
    (s : Pushed) (v : IsValid ob) (c : Carried ob out first s) where
  consume_bytes-end :
      (more : List (List ℕ)) (s' : Pushed)
      → consume_bytes_loop max_buffer_size ob.smallest_packet_number_index
          (length out)
          max_packets
          s
        ≡ s'
      → Pushes (length out) max_packets s more s'
      → Drains ob out max_packets (consume_bytes ob out max_packets)
  unfolding consume_bytes
  consume_bytes-end more s' run (o, js, t, l, stop, v') =
      let (so, sout, six, st, sj, s1, e) = c in
      let sout' : length s.out ≡ length out + length first = rw sout (length-append out first) in
      let all : length s'.out ≡ length out + length (first ++ more) =
        rw o (omega (arith, sout', length-append s.out more, length-append first more)) in
      let bytes : length (joined (first ++ more)) ≡ length (joined first) + length (joined more) =
        rw (joined-append first more) (length-append (joined first) (joined more)) in
      rw (e, run)
        (
          first ++ more,
          o ∙ ap (λ xs. xs ++ more) sout ∙ append_assoc out first more,
          rw
              (
                joined-append first more,
                append_assoc (joined first) (joined more) (stream s'.ordered),
                js,
                sj,
              )
              (ap (λ x. carried ob.carry_over_bytes ++ stream x) so
                ∙ unfold stream carried in refl),
          report_chunks (length out) (length s'.out) (first ++ more) _ all
              (t ∙ omega (arith, st, bytes)),
          within ob first more max_packets s1 (omega (arith, l, sout')),
          elim stop [ inl h ↦ inl (omega (arith, h, all)) | inr h ↦ inr h ],
          v',
        )

  consume_bytes-from : Drains ob out max_packets (consume_bytes ob out max_packets)
  consume_bytes-from =
      let (so, sout, six, st, sj, s1, e) = c in
      let (more, m) =
        consume_bytes_loop-lem max_buffer_size ob.smallest_packet_number_index (length out)
          max_packets s v.0 (rw six)
          (rw (six, so) (wrap_index-zero ob.smallest_packet_number_index v.0))
          (subst IsValid (sym so) v) (ap (λ o. o.carry_over_bytes) so)
          (rw sout (omega (arith, length-append out first)))
          (length-in_row 2000 s.ordered.packets s.ordered.smallest_packet_number_index) in
      consume_bytes-end more _ refl m

no_carry :
    (ob : OrderedBytes) → ob.carry_over_bytes ≡ none → ob ≡ record ob { carry_over_bytes = none }
no_carry ob e = ap (λ c. record ob { carry_over_bytes = c }) e

-- `consume_bytes` pushes chunks that, joined, are the front of the stream: at most
-- `max_packets` of them, or the carry-over alone if `max_packets` is 0, and no fewer than `max_packets`
-- unless no packet is left in a row. What is not pushed stays, in order. Without a chunk it is the error for an empty buffer, else the bytes of the
-- chunks are reported. The buffer stays valid.
pub consume_bytes-Drains :
    (ob : OrderedBytes) (out : List (List ℕ)) (max_packets : ℕ)
    → IsValid ob
    → Drains ob out max_packets (consume_bytes ob out max_packets)
consume_bytes-Drains ob out max_packets v = elim (Option-cases ob.carry_over_bytes) [
  | inl e ↦
      consume_bytes-from ob out max_packets []
        (record { ordered = ob; out = out; total_bytes = 0; ix = 0 }) v
        (
          no_carry ob e,
          sym (append-nil out),
          refl,
          (unfold joined in refl),
          (unfold joined in rw e (unfold carried in refl)),
          inl refl,
          (unfold push_carry in simp (e, push_carry)),
        )
  | inr (c, e) ↦
      consume_bytes-from ob out max_packets (c ∷ [])
        (record {
          ordered = record ob { carry_over_bytes = none };
          out = out ++ (c ∷ []);
          total_bytes = length c;
          ix = 0;
        })
        v
        (
          refl,
          refl,
          refl,
          (unfold joined in ap length (sym (append-nil c))),
          (unfold joined in rw e (unfold carried in append-nil c)),
          inr (c, e, refl),
          (unfold push_carry in simp (e, push_carry)),
        )
]
