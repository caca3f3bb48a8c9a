-- ===== src/Transfer/Flushed.antt =====
-- bluefin/src/worker/writer.rs: the count of pending bytes, and what it means that it is zero.
use bluefin.Prelude.{ℕ, ◌%◌, ◌^◌, ◌<◌, ◌≡◌, refl, sym, ◌∙◌, ap, ap₂, arith}
use bluefin.Prelude.{append-nil}
use bluefin.Prelude.{List, [], ◌∷◌, ◌++◌, joined, All}
use bluefin.Prelude.{some, ok, ◌>>=◌}
use bluefin.Writer.Pump
use bluefin.Writer.Pump.{
  Pump, Packed, pack, Course, Step, send, round, store, transmission, reserve, mark,
}
use bluefin.Writer.Pump.{send_bytes, send_checked, on_send, data_channel_bound}
use bluefin.Transfer.Flush.{received, datagrams_of, total}
use bluefin.Transfer.Flush.{IsCounted, nil_of}
use bluefin.Transfer.Sound.{
  under_way, weight, IsSound, IsProper, transmit-IsSound, send-IsSound, round-IsSound,
}

pub step-IsSound :
    (c : Course) (s : Step)
    → IsProper s
    → IsSound c
    → (c' : Course) × (Pump.step c s ≡ ok c') × IsSound c'
unfolding Pump.step IsProper send_bytes Pump.read_data Pump.publish Pump.transmit
step-IsSound c (send payload) h sound =
    (_, refl, send-IsSound c payload c.pump.closed c.pump.has_sender _ h.0 h.1 sound)
step-IsSound c round h sound =
    let (p, e, sound', _, _, _) = round-IsSound c c.pump.channel refl sound in
    (record c { pump = p }, ap (λ r. r >>= λ p. ok (record c { pump = p })) e, sound')
step-IsSound c store h sound = (_, refl, sound)
step-IsSound c transmission h sound = (_, refl, transmit-IsSound c c.pump.sending refl sound)
step-IsSound c reserve h sound = (_, refl, unfold Pump.reserve_close_packet_num in sound)
step-IsSound c mark h sound = (_, refl, unfold Pump.mark_closed in sound)

run-from :
    (c : Course) (ss : List Step)
    → All IsProper ss
    → IsSound c
    → (c' : Course) × (Pump.run c ss ≡ ok c') × IsSound c'
unfolding Pump.run
run-from c [] h sound = (c, refl, sound)
run-from c (s ∷ ss) h sound =
    let (c', e, sound') = step-IsSound c s h.0 sound in
    let (c'', e', sound'') = run-from c' ss h.1 sound' in
    (c'', ap (λ r. r >>= λ x. Pump.run x ss) e ∙ e', sound'')

total-zero : (ds : List (List ℕ × ℕ)) → All IsCounted ds → total ds ≡ 0 → ds ≡ []
unfolding total
total-zero [] a e = refl
total-zero (d ∷ ds) a e = absurd (omega (arith, a.0.0, e))

flush-count : (p : Pump) → Pump.flush p ≡ some (ok tt) → p.pending_bytes ≡ 0
unfolding Pump.flush
flush-count p e = ground (arith, e)

pub flush-wire :
    (c : Course)
    → All IsCounted c.pump.sending
    → received c.pump.wire ++ under_way c.pump.sending c.pump.data_queue c.pump.channel
      ≡ joined c.accepted
    → Pump.flush c.pump ≡ some (ok tt)
    → weight c.pump.sending c.pump.data_queue c.pump.channel < 2 ^ 64
    → c.pump.pending_bytes ≡ weight c.pump.sending c.pump.data_queue c.pump.channel % 2 ^ 64
    → received c.pump.wire ≡ joined c.accepted
flush-wire c counted order flushed small count =
    let none_left : weight c.pump.sending c.pump.data_queue c.pump.channel ≡ 0 =
      omega (arith, flush-count c.pump flushed, small, count) in
    let sent : c.pump.sending ≡ [] = total-zero c.pump.sending counted (omega (arith, none_left)) in
    let queued : joined c.pump.data_queue ≡ [] = nil_of _ (omega (arith, none_left)) in
    let waiting : joined c.pump.channel ≡ [] = nil_of _ (omega (arith, none_left)) in
    sym (append-nil (received c.pump.wire))
    ∙ ap (λ x. received c.pump.wire ++ x)
        (sym (
          ap
            (λ ds.
              received (datagrams_of ds) ++ (joined c.pump.data_queue ++ joined c.pump.channel))
            sent
          ∙ ap₂ (λ x y. received (datagrams_of []) ++ (x ++ y)) queued waiting
          ∙ unfold datagrams_of in unfold received in refl))
    ∙ order

pub start-IsSound :
    (n src dst : ℕ)
    → n < 2 ^ 64
    → src < 2 ^ 32
    → dst < 2 ^ 32
    → IsSound (record { pump = Pump.start (Pump.new n src dst); accepted = [] })
unfolding Pump.start Pump.new received datagrams_of total joined
start-IsSound n src dst hn hs hd = (hs, hd, hn, tt, tt, tt, refl, omega arith)

-- A writer from its start, with any calls and any steps of its two tasks, in any order: no step panics
-- or runs out of fuel. The other side's parser finds in the datagrams on the wire the front of the
-- bytes of all accepted payloads, in order, and the rest is under way. If `flush`
-- returns, and fewer than 2^64 bytes are under way, every accepted byte is on the wire.
pub run-flushed :
    (n src dst : ℕ) (ss : List Step)
    → n < 2 ^ 64
    → src < 2 ^ 32
    → dst < 2 ^ 32
    → All IsProper ss
    → (c : Course) × (Pump.run (record { pump = Pump.start (Pump.new n src dst); accepted = [] }) ss
        ≡ ok c)
      × (received c.pump.wire ++ under_way c.pump.sending c.pump.data_queue c.pump.channel
          ≡ joined c.accepted)
      × (Pump.flush c.pump ≡ some (ok tt)
          → weight c.pump.sending c.pump.data_queue c.pump.channel < 2 ^ 64
          → received c.pump.wire ≡ joined c.accepted)
run-flushed n src dst ss hn hs hd proper =
    let (c, e, (_, _, _, _, _, counted, order, count)) =
      run-from (record { pump = Pump.start (Pump.new n src dst); accepted = [] }) ss proper
        (start-IsSound n src dst hn hs hd) in
    (c, e, order, λ flushed small. flush-wire c counted order flushed small count)
