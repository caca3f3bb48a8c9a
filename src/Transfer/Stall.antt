-- ===== src/Transfer/Stall.antt =====
-- bluefin/src/worker/writer.rs: a round of `read_data` packs twelve datagrams at most, and the next one
-- waits for another payload.
use mathlib.Core.Path.{subst}
use bluefin.Prelude.{ℕ, ◌*◌, ◌^◌, ◌<◌, ◌≤◌, ◌≡◌, refl, sym, ◌∙◌, ap, arith}
use bluefin.Prelude.{List, [], ◌∷◌, length, joined, drop, All, append-nil, none, ok, ◌>>=◌}
use bluefin.Writer.Pump
use bluefin.Writer.Pump.{Pump, Course, Step, send, round, store, transmission, reserve, mark}
use bluefin.Transfer.Flush.{total}
use bluefin.Transfer.Sound.{IsSound, weight, round-IsSound, transmit-IsSound}

-- The steps of the two tasks.
unfoldable pub IsTask : Step → Type 0
IsTask round = Unit
IsTask store = Unit
IsTask transmission = Unit
IsTask _ = ⊥

-- The channel is empty, and bytes are queued.
abbrev IsStuck : Course → Type 0
IsStuck c =
    IsSound c
    × (c.pump.channel ≡ [])
    × (0 < length (joined c.pump.data_queue))
    × (weight c.pump.sending c.pump.data_queue c.pump.channel < 2 ^ 64)

transmit-total :
    (p : Pump) (ds : List (List ℕ × ℕ))
    → p.sending ≡ ds
    → (total (Pump.transmit_first p ds).sending ≤ total p.sending)
      × ((Pump.transmit_first p ds).data_queue ≡ p.data_queue)
      × ((Pump.transmit_first p ds).channel ≡ p.channel)
unfolding Pump.transmit_first total
transmit-total p [] e = (omega arith, refl, refl)
transmit-total p (d ∷ ds) e = (subst (λ x. total ds ≤ total x) (sym e) (omega arith), refl, refl)

task-IsStuck :
    (c : Course) (s : Step)
    → IsTask s
    → IsStuck c
    → (c' : Course) × (Pump.step c s ≡ ok c') × IsStuck c'
unfolding Pump.step IsTask Pump.read_data Pump.read_round Pump.publish Pump.transmit
task-IsStuck c round h (sound, empty, queued, small) = (
  c,
  ap (λ channel. Pump.read_round c.pump channel >>= λ p. ok (record c { pump = p })) empty,
  (sound, empty, queued, small),
)
task-IsStuck c store h stuck_there = (_, refl, stuck_there)
task-IsStuck c transmission h (sound, empty, queued, small) =
    let (less, same, channel) = transmit-total c.pump c.pump.sending refl in
    (
      record c { pump = Pump.transmit_first c.pump c.pump.sending },
      refl,
      (
        transmit-IsSound c c.pump.sending refl sound,
        channel ∙ empty,
        subst (λ q. 0 < length (joined q)) (sym same) queued,
        omega (
          arith,
          less,
          small,
          ap (λ q. length (joined q)) same,
          ap (λ q. length (joined q)) channel,
        ),
      ),
    )
task-IsStuck c (send _) h stuck_there = absurd h
task-IsStuck c reserve h stuck_there = absurd h
task-IsStuck c mark h stuck_there = absurd h

tasks-IsStuck :
    (c : Course) (ss : List Step)
    → All IsTask ss
    → IsStuck c
    → (c' : Course) × (Pump.run c ss ≡ ok c') × IsStuck c'
unfolding Pump.run
tasks-IsStuck c [] h stuck_there = (c, refl, stuck_there)
tasks-IsStuck c (s ∷ ss) h stuck_there =
    let (c', e, there) = task-IsStuck c s h.0 stuck_there in
    let (c'', e', there') = tasks-IsStuck c' ss h.1 there in
    (c'', ap (λ r. r >>= λ x. Pump.run x ss) e ∙ e', there')

waits : (p : Pump) → 0 < p.pending_bytes → Pump.flush p ≡ none
unfolding Pump.flush
waits p h = ground (arith, h)

-- A payload of more than 12 times 15200 bytes is all that a writer has to send: after the round that
-- takes it, the two tasks may go on for as long as they like, and `flush` still waits when it looks at
-- the count again: it does not return before the next payload comes.
pub large_payload-stalls :
    (c : Course) (payload : List ℕ) (ss : List Step)
    → IsSound c
    → c.pump.channel ≡ payload ∷ []
    → c.pump.data_queue ≡ []
    → c.pump.sending ≡ []
    → 12 * 15200 < length payload
    → length payload < 2 ^ 64
    → All IsTask ss
    → (c' : Course) × (Pump.run c (round ∷ ss) ≡ ok c') × (Pump.flush c'.pump ≡ none)
unfolding Pump.run Pump.step Pump.read_data joined total
large_payload-stalls c payload ss sound full none_queued none_sending large small tasks =
    let (p, e, sound', channel, sent, kept) = round-IsSound c c.pump.channel refl sound in
    let empty : p.channel ≡ [] = channel ∙ ap (drop 20) full in
    let before : weight c.pump.sending c.pump.data_queue c.pump.channel ≡ length payload =
      ap (λ ds. weight ds c.pump.data_queue c.pump.channel) none_sending
      ∙ ap (λ q. weight [] q c.pump.channel) none_queued
      ∙ ap (weight [] []) full
      ∙ omega (arith, ap length (append-nil payload)) in
    let sending : total c.pump.sending ≡ 0 = ap total none_sending in
    let waiting : length (joined p.channel) ≡ 0 = ap (λ q. length (joined q)) empty in
    let (c', e', (sound'', empty', queued, fits)) =
      tasks-IsStuck (record c { pump = p }) ss tasks
        (
          sound',
          empty,
          omega (arith, kept, before, sent, sending, waiting, large),
          omega (arith, kept, before, small),
        ) in
    (
      c',
      ap (λ r. (r >>= λ p. ok (record c { pump = p })) >>= λ x. Pump.run x ss) e ∙ e',
      waits c'.pump (omega (arith, sound''.7, queued, fits)),
    )
