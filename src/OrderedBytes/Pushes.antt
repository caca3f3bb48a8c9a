-- ===== src/OrderedBytes/Pushes.antt =====
-- bluefin/src/net/ordered_bytes.rs: the loop of `consume_bytes`.
use bluefin.Prelude.{ℕ, zero, suc, ◌+◌, ◌-◌, ◌<◌, ◌≤◌, ◌≡◌, refl, sym, ◌∙◌, ap, arith}
use bluefin.Prelude.{lt→ltb, le→not-ltb, lt_or_ge, length_zero}
use bluefin.Prelude.{List, [], ◌∷◌, ◌++◌, append_assoc, append-nil, length, length-append}
use bluefin.Prelude.{none, some, Option-cases, inl, inr, ◌⊎◌}
use bluefin.Prelude.{joined}
use bluefin.Packet.{Packet}
use bluefin.OrderedBytes.Defs.{OrderedBytes, wrap_index, slot}
use bluefin.OrderedBytes.Consume.{Pushed, clear_slot, consume_bytes_loop}
use bluefin.OrderedBytes.Slots.{in_row-none, wrap_index-suc}
use bluefin.OrderedBytes.Stream.{payloads, ready, stream, IsValid}
use bluefin.OrderedBytes.Loop.{tail, ready-some}
use bluefin.OrderedBytes.Loop.{ready-clear_slot, clear_slot-IsValid, stream-carry_none}

-- What the loop has pushed when it ends at `s'`, from `s` on: `more`, the front of the stream, until
-- there are `max_packets` chunks or no packet is ready.
abbrev pub Pushes : ℕ → ℕ → Pushed → List (List ℕ) → Pushed → Type 0
Pushes initial_len max_packets s more s' =
    (s'.out ≡ s.out ++ more)
    × (joined more ++ stream s'.ordered ≡ stream s.ordered)
    × (s'.total_bytes ≡ s.total_bytes + length (joined more))
    × (length more ≤ max_packets - (length s.out - initial_len))
    × ((max_packets ≤ length s'.out - initial_len) ⊎ (ready s'.ordered ≡ []))
    × IsValid s'.ordered

module _ (left base initial_len max_packets : ℕ) (s : Pushed) where
  loop-full :
      max_packets ≤ length s.out - initial_len
      → consume_bytes_loop (suc left) base initial_len max_packets s ≡ s
  unfolding consume_bytes_loop
  loop-full h = rw (le→not-ltb (length s.out - initial_len) max_packets h, consume_bytes_loop)

  loop-none :
      slot s.ordered (wrap_index base s.ix) ≡ none
      → length s.out - initial_len < max_packets
      → consume_bytes_loop (suc left) base initial_len max_packets s ≡ s
  unfolding consume_bytes_loop
  loop-none e h = rw (lt→ltb (length s.out - initial_len) max_packets h, e, consume_bytes_loop)

  abbrev pushed : Packet → Pushed
  pushed p = record {
    ordered = clear_slot s.ordered (wrap_index base s.ix) p.header.packet_number;
    out = s.out ++ (p.payload ∷ []);
    total_bytes = s.total_bytes + length p.payload;
    ix = s.ix + 1;
  }

  loop-some :
      (p : Packet)
      → slot s.ordered (wrap_index base s.ix) ≡ some p
      → length s.out - initial_len < max_packets
      → consume_bytes_loop (suc left) base initial_len max_packets s
        ≡ consume_bytes_loop left base initial_len max_packets (pushed p)
  unfolding consume_bytes_loop
  loop-some p e h = rw (lt→ltb (length s.out - initial_len) max_packets h, e, consume_bytes_loop)

-- A packet pushed, and then more.
Pushes-cons :
    (left base initial_len max_packets : ℕ) (s : Pushed) (p : Packet) (more : List (List ℕ))
    (s' : Pushed)
    → initial_len ≤ length s.out
    → length s.out - initial_len < max_packets
    → p.payload ++ stream (pushed left base initial_len max_packets s p).ordered ≡ stream s.ordered
    → Pushes initial_len max_packets (pushed left base initial_len max_packets s p) more s'
    → Pushes initial_len max_packets s (p.payload ∷ more) s'
Pushes-cons left base initial_len max_packets s p more s' h k e (o, st, t, l, stop, v) = (
  o ∙ append_assoc s.out (p.payload ∷ []) more,
  unfold joined in
      append_assoc p.payload (joined more) (stream s'.ordered) ∙ ap (◌++◌ p.payload) st ∙ e,
  unfold joined in omega (arith, t, length-append p.payload (joined more)),
  omega (arith, l, length-append s.out (p.payload ∷ [])),
  stop,
  v,
)

Pushes-nil :
    (initial_len max_packets : ℕ) (s : Pushed)
    → IsValid s.ordered
    → (max_packets ≤ length s.out - initial_len) ⊎ (ready s.ordered ≡ [])
    → Pushes initial_len max_packets s [] s
Pushes-nil initial_len max_packets s v stop = (
  sym (append-nil s.out),
  unfold joined in refl,
  unfold joined in omega arith,
  omega arith,
  stop,
  v,
)

cleared :
    (left base : ℕ) (s : Pushed) (p : Packet)
    → base < 2000
    → s.ix + suc left ≡ 2000
    → (w : wrap_index base s.ix ≡ s.ordered.smallest_packet_number_index) → (v : IsValid s.ordered)
    → s.ordered.carry_over_bytes ≡ none
    → (full : slot s.ordered s.ordered.smallest_packet_number_index ≡ some p)
    → let next : OrderedBytes =
        clear_slot s.ordered (wrap_index base s.ix) p.header.packet_number in
      (ready next ≡ tail s.ordered p v full)
      × IsValid next
      × (next.carry_over_bytes ≡ none)
      × (wrap_index base (s.ix + 1) ≡ next.smallest_packet_number_index)
cleared left base s p hb hi w v c full = rw w (
  ready-clear_slot s.ordered p v full p.header.packet_number,
  clear_slot-IsValid s.ordered p v full p.header.packet_number,
  unfold clear_slot in c,
  unfold clear_slot in sym (wrap_index-suc base s.ix hb (omega arith)) ∙ ap (λ i. wrap_index i 1) w,
)

pub consume_bytes_loop-lem :
    (left base initial_len max_packets : ℕ) (s : Pushed)
    → base < 2000
    → s.ix + left ≡ 2000
    → wrap_index base s.ix ≡ s.ordered.smallest_packet_number_index
    → IsValid s.ordered
    → s.ordered.carry_over_bytes ≡ none
    → initial_len ≤ length s.out
    → length (ready s.ordered) ≤ left
    → (more : List (List ℕ)) × Pushes initial_len max_packets s more
        (consume_bytes_loop left base initial_len max_packets s)
consume_bytes_loop-lem zero base initial_len max_packets s hb hi w v c h fit = (
  [],
  unfold consume_bytes_loop in
      Pushes-nil initial_len max_packets s v (inr (length_zero _ (omega arith))),
)
consume_bytes_loop-lem (suc left) base initial_len max_packets s hb hi w v c h fit =
    elim (lt_or_ge (length s.out - initial_len) max_packets) [
      | inr k ↦ (
        [],
        rw (loop-full left base initial_len max_packets s k)
            (Pushes-nil initial_len max_packets s v (inl k)),
      )
      | inl k ↦ elim (Option-cases (slot s.ordered s.ordered.smallest_packet_number_index)) [
        | inl empty ↦ (
          [],
          rw (loop-none left base initial_len max_packets s (rw w empty) k) (
              Pushes-nil initial_len max_packets s v
                (inr (in_row-none 2000 s.ordered.packets _ empty))),
        )
        | inr (p, full) ↦
            let next : OrderedBytes =
              clear_slot s.ordered (wrap_index base s.ix) p.header.packet_number in
            let (row, v1, c1, w1) = cleared left base s p hb (omega (arith, hi)) w v c full in
            let one : length (ready s.ordered) ≡ suc (length (tail s.ordered p v full)) =
              rw (ready-some s.ordered p v full) in
            let (more, m) =
              consume_bytes_loop-lem left base initial_len max_packets
                (pushed left base initial_len max_packets s p) hb (omega (arith, hi)) w1 v1 c1
                (omega (arith, h, length-append s.out (p.payload ∷ [])))
                (rw row (omega (arith, one, fit))) in
            let moved : p.payload ++ stream next ≡ stream s.ordered =
              rw
                (
                  stream-carry_none next c1,
                  row,
                  stream-carry_none s.ordered c,
                  ready-some s.ordered p v full,
                )
                (unfold payloads in refl) in
            (
              p.payload ∷ more,
              rw (loop-some left base initial_len max_packets s p (rw w full) k) (
                  Pushes-cons left base initial_len max_packets s p more
                    (consume_bytes_loop left base initial_len max_packets
                      (pushed left base initial_len max_packets s p))
                    h k moved m),
            )
      ]
    ]
