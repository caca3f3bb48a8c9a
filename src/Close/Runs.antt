-- ===== src/Close/Runs.antt =====
-- Sequences of the events that reach a `CloseBuffer`, in any order.
use mathlib.Core.Path.{subst}
use bluefin.Prelude.{ℕ, ◌≡◌, refl, sym, ◌∙◌, ap, ◌==◌, ==_iff, Bool, true, false}
use bluefin.Prelude.{List, [], ◌∷◌, Option, none, some, ◌⊎◌, inl, inr, Bool-cases, All}
use bluefin.Packet.{Packet}
use bluefin.Close.Defs.{CloseState, CloseBuffer, active, peer_fin_received, local_fin_sent, closed}
use bluefin.Close.Defs.{owe_fin_ack, buffer_in_fin, buffer_in_fin_ack, take_pending_fin_ack_send}
use bluefin.Close.Defs.{mark_closed, record_local_fin_sent, new}

-- A packet of the peer, the answer to a `Fin` taken to be sent, and the local side's close.
pub data Event : Type 0 where
  fin : Packet → Event
  fin_ack : Packet → Event
  send_fin_ack : Event
  local_fin : ℕ → Event
  close : Event

unfoldable pub step : CloseBuffer → Event → CloseBuffer
step b (fin p) = buffer_in_fin b p
step b (fin_ack p) = buffer_in_fin_ack b p
step b send_fin_ack = (take_pending_fin_ack_send b).0
step b (local_fin n) = record_local_fin_sent b n
step b close = mark_closed b

unfoldable pub run : CloseBuffer → List Event → CloseBuffer
run b [] = b
run b (e ∷ es) = run (step b e) es

-- A `Fin` of this number is among the events.
unfoldable pub HasFin : ℕ → List Event → Type 0
HasFin n [] = ⊥
HasFin n (fin p ∷ es) = (p.header.packet_number ≡ n) ⊎ HasFin n es
HasFin n (_ ∷ es) = HasFin n es

-- What every `Fin` that the buffer knows of has in common.
abbrev Knows : (ℕ → Type 0) → CloseBuffer → Type 0
Knows P b =
    ((n : ℕ) → b.pending_fin_ack_send ≡ some n → P n × (b.peer_fin_observed ≡ true))
    × ((n : ℕ) → b.state ≡ peer_fin_received n → P n × (b.peer_fin_observed ≡ true))
    × (b.peer_fin_observed ≡ true → (n : ℕ) × P n)

abbrev fin_number : CloseState → ℕ
fin_number (peer_fin_received n) = n
fin_number _ = 0

abbrev or_zero : Option ℕ → ℕ
or_zero none = 0
or_zero (some n) = n

abbrev IsFalse : Bool → Type 0
IsFalse true = ⊥
IsFalse false = Unit

abbrev IsNone : Option ℕ → Type 0
IsNone none = Unit
IsNone (some _) = ⊥

abbrev IsPeerFin : CloseState → Type 0
IsPeerFin (peer_fin_received n) = Unit
IsPeerFin _ = ⊥

-- What `buffer_in_fin` does: it owes an answer to a new `Fin`, or to one that comes again, or
-- nothing changes.
buffer_in_fin-cases :
    (b : CloseBuffer) (p : Packet)
    → (buffer_in_fin b p ≡ owe_fin_ack b p.header.packet_number)
      ⊎ (buffer_in_fin b p ≡ b)
      ⊎ ((b.state ≡ peer_fin_received p.header.packet_number)
          × (buffer_in_fin b p ≡ record b { pending_fin_ack_send = some p.header.packet_number }))
unfolding buffer_in_fin
buffer_in_fin-cases b p = go b.state refl
  where
    go :
        (s : CloseState)
        → b.state ≡ s
        → (buffer_in_fin b p ≡ owe_fin_ack b p.header.packet_number)
          ⊎ (buffer_in_fin b p ≡ b)
          ⊎ ((b.state ≡ peer_fin_received p.header.packet_number)
              × (buffer_in_fin b p
                  ≡ record b { pending_fin_ack_send = some p.header.packet_number }))
    go active e = inl (simp (e, buffer_in_fin))
    go (local_fin_sent n) e = inl (simp (e, buffer_in_fin))
    go closed e = inr (inl (simp (e, buffer_in_fin)))
    go (peer_fin_received n) e = elim (Bool-cases (n == p.header.packet_number)) [
      | inl h ↦ inr (
          inr (
            e ∙ ap peer_fin_received ((==_iff n p.header.packet_number).0 h),
            simp (e, h, buffer_in_fin),
          ))
      | inr h ↦ inr (inl (simp (e, h, buffer_in_fin)))
    ]

record_local_fin_sent-cases :
    (b : CloseBuffer) (n : ℕ)
    → (record_local_fin_sent b n ≡ b)
      ⊎ (record_local_fin_sent b n ≡ record b { state = local_fin_sent n })
unfolding record_local_fin_sent
record_local_fin_sent-cases b n = go b.state refl
  where
    go :
        (s : CloseState)
        → b.state ≡ s
        → (record_local_fin_sent b n ≡ b)
          ⊎ (record_local_fin_sent b n ≡ record b { state = local_fin_sent n })
    go active e = inr (simp (e, record_local_fin_sent))
    go (local_fin_sent _) e = inl (simp (e, record_local_fin_sent))
    go closed e = inl (simp (e, record_local_fin_sent))
    go (peer_fin_received _) e = inr (simp (e, record_local_fin_sent))

step-Knows :
    (P : ℕ → Type 0) (b : CloseBuffer) (e : Event)
    → Knows P b
    → ((n : ℕ) → HasFin n (e ∷ []) → P n)
    → Knows P (step b e)
unfolding step HasFin
step-Knows P b (fin p) k h =
    let this : P p.header.packet_number = h p.header.packet_number (inl refl) in
    elim (buffer_in_fin-cases b p) [
      | inl e ↦ rw e (
          unfold owe_fin_ack in
          (
            (λ n f. (subst P (ap or_zero f) this, refl)),
            (λ n f. (subst P (ap fin_number f) this, refl)),
            λ f. (p.header.packet_number, this),
          ))
      | inr (inl e) ↦ rw e k
      | inr (inr (s, e)) ↦ rw e ((λ n f. (subst P (ap or_zero f) this, (k.1 _ s).1)), k.1, k.2)
    ]
step-Knows P b (fin_ack p) k h = unfold buffer_in_fin_ack in k
step-Knows P b send_fin_ack k h =
    unfold take_pending_fin_ack_send in ((λ n f. absurd (subst IsNone f tt)), k.1, k.2)
step-Knows P b (local_fin n) k h = elim (record_local_fin_sent-cases b n) [
  | inl e ↦ rw e k
  | inr e ↦ rw e (k.0, (λ m f. absurd (subst IsPeerFin (sym f) tt)), k.2)
]
step-Knows P b close k h =
    unfold mark_closed in (k.0, (λ m f. absurd (subst IsPeerFin (sym f) tt)), k.2)

run-Knows :
    (P : ℕ → Type 0) (b : CloseBuffer) (es : List Event)
    → Knows P b
    → ((n : ℕ) → HasFin n es → P n)
    → Knows P (run b es)
unfolding run HasFin
run-Knows P b [] k h = k
run-Knows P b (fin p ∷ es) k h =
    run-Knows P (step b (fin p)) es
      (step-Knows P b (fin p) k (λ n f. elim f [ inl e ↦ h n (inl e) | inr x ↦ absurd x ]))
      (λ n f. h n (inr f))
run-Knows P b (fin_ack p ∷ es) k h =
    run-Knows P (step b (fin_ack p)) es (step-Knows P b (fin_ack p) k (λ n f. absurd f)) h
run-Knows P b (send_fin_ack ∷ es) k h =
    run-Knows P (step b send_fin_ack) es (step-Knows P b send_fin_ack k (λ n f. absurd f)) h
run-Knows P b (local_fin n ∷ es) k h =
    run-Knows P (step b (local_fin n)) es (step-Knows P b (local_fin n) k (λ m f. absurd f)) h
run-Knows P b (close ∷ es) k h =
    run-Knows P (step b close) es (step-Knows P b close k (λ n f. absurd f)) h

-- Whatever reaches a new buffer, and in which order: an answer is owed only to a `Fin` that arrived,
-- the end of the stream is then signalled too, and it is signalled only if a `Fin` arrived.
pub run-HasFin :
    (es : List Event)
    → ((n : ℕ)
        → (run new es).pending_fin_ack_send ≡ some n
        → HasFin n es × ((run new es).peer_fin_observed ≡ true))
      × ((run new es).peer_fin_observed ≡ true → (n : ℕ) × HasFin n es)
run-HasFin es =
    let k =
      run-Knows (λ n. HasFin n es) new es
        (unfold new in
          (
            (λ n f. absurd (subst IsNone f tt)),
            (λ n f. absurd (subst IsPeerFin (sym f) tt)),
            λ f. absurd (subst IsFalse f tt),
          ))
        (λ n f. f) in
    (k.0, k.2)

-- Closed, and with nothing new that is owed or signalled.
abbrev pub Stays : CloseBuffer → CloseBuffer → Type 0
Stays b b' =
    (b'.state ≡ closed)
    × (b'.peer_fin_observed ≡ b.peer_fin_observed)
    × ((b'.pending_fin_ack_send ≡ b.pending_fin_ack_send) ⊎ (b'.pending_fin_ack_send ≡ none))

-- Once the buffer is closed it stays so: no event makes it owe an answer again, and the signal of the
-- end of the stream does not change.
pub run-closed : (b : CloseBuffer) (es : List Event) → b.state ≡ closed → Stays b (run b es)
unfolding run step buffer_in_fin_ack take_pending_fin_ack_send mark_closed
run-closed b [] e = (e, refl, inl refl)
run-closed b (fin p ∷ es) e =
    let same : step b (fin p) ≡ b = unfold step buffer_in_fin in simp (e, buffer_in_fin) in
    subst (λ c. Stays b (run c es)) (sym same) (run-closed b es e)
run-closed b (fin_ack p ∷ es) e = run-closed (buffer_in_fin_ack b p) es e
run-closed b (send_fin_ack ∷ es) e =
    (let (s, o, d) = run-closed (take_pending_fin_ack_send b).0 es e in
      (s, o, elim d [ inl x ↦ inr x | inr x ↦ inr x ]))
run-closed b (local_fin n ∷ es) e =
    let same : step b (local_fin n) ≡ b =
      unfold step record_local_fin_sent in simp (e, record_local_fin_sent) in
    subst (λ c. Stays b (run c es)) (sym same) (run-closed b es e)
run-closed b (close ∷ es) e = run-closed (mark_closed b) es refl

-- The events that leave it open that the peer has sent a `Fin`.
unfoldable pub IsAnswer : Event → Type 0
IsAnswer send_fin_ack = Unit
IsAnswer (fin_ack _) = Unit
IsAnswer _ = ⊥

run-IsAnswer :
    (b : CloseBuffer) (n : ℕ) (es : List Event)
    → All IsAnswer es
    → b.state ≡ peer_fin_received n
    → (run b es).state ≡ peer_fin_received n
unfolding run IsAnswer step
run-IsAnswer b n [] h e = e
run-IsAnswer b n (fin _ ∷ es) h e = absurd h.0
run-IsAnswer b n (fin_ack p ∷ es) h e =
    run-IsAnswer (buffer_in_fin_ack b p) n es h.1 (unfold buffer_in_fin_ack in e)
run-IsAnswer b n (send_fin_ack ∷ es) h e =
    run-IsAnswer (take_pending_fin_ack_send b).0 n es h.1 (unfold take_pending_fin_ack_send in e)
run-IsAnswer b n (local_fin _ ∷ es) h e = absurd h.0
run-IsAnswer b n (close ∷ es) h e = absurd h.0

-- A `Fin` that the peer sends again, because the answer was lost, is answered again, however many
-- answers were sent or received in between.
pub buffer_in_fin_again :
    (b : CloseBuffer) (p : Packet) (es : List Event)
    → (b.state ≡ active) ⊎ ((n : ℕ) × (b.state ≡ local_fin_sent n))
    → All IsAnswer es
    → (run (step b (fin p)) es).state ≡ peer_fin_received p.header.packet_number
      × ((step (run (step b (fin p)) es) (fin p)).pending_fin_ack_send
          ≡ some p.header.packet_number)
buffer_in_fin_again b p es unclosed h =
    let first : (step b (fin p)).state ≡ peer_fin_received p.header.packet_number = elim unclosed [
      | inl e ↦ unfold step buffer_in_fin in rw e (unfold owe_fin_ack in refl)
      | inr (n, e) ↦ unfold step buffer_in_fin in rw e (unfold owe_fin_ack in refl)
    ] in
    let after = run-IsAnswer (step b (fin p)) p.header.packet_number es h first in
    (after, owed (run (step b (fin p)) es) p after)
  where
    owed :
        (c : CloseBuffer) (q : Packet)
        → c.state ≡ peer_fin_received q.header.packet_number
        → (step c (fin q)).pending_fin_ack_send ≡ some q.header.packet_number
    owed c q e =
        unfold step buffer_in_fin in
        rw (e, (==_iff q.header.packet_number q.header.packet_number).1 refl) refl
