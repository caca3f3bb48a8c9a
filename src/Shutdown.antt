-- ===== src/Shutdown.antt =====
-- bluefin/src/net/connection.rs: `BluefinConnection::close` behind its `flush`, which returns nothing but
-- `Ok`, once it returns. What arrives while `close` runs is an argument, and so are the io errors of
-- `send_fin`, and whether a wait of 200 ms ends by a notification.
use mathlib.Core.Path.{subst}
use bluefin.Prelude.{ℕ, ◌≡◌, ◌⊎◌, inl, inr, refl, sym, ◌∙◌, ap, ◌==◌, ==_iff}
use bluefin.Prelude.{Bool, true, false, if◌then◌else◌, List, [], ◌∷◌, ◌++◌, length}
use bluefin.Prelude.{append_assoc, append-nil, replicate}
use bluefin.Prelude.{Option, none, some, Option-cases, Result, ok, err, BluefinError, timed_out}
use bluefin.Header.Kind.{fin, fin_ack}
use bluefin.Packet.{Packet}
use bluefin.Close
use bluefin.Close.{
  CloseState, CloseBuffer, closed, buffer_in_fin, buffer_in_fin_ack, record_local_fin_sent,
}
use bluefin.Conn.Manager.{Key, get, remove, get-remove_same}
use bluefin.Writer.Pump
use bluefin.Writer.Pump.{Pump, reserve_close_packet_num}

-- What one attempt meets: the error of `send_fin`, if it has one, the packets before it looks, and
-- the packets while it waits.
pub record Attempt : Type 0 where
  pub fin_error : Option BluefinError
  pub before : List Packet
  pub during : List Packet
  pub notified : Bool

unfoldable pub arrives : CloseBuffer → List Packet → CloseBuffer
arrives b [] = b
arrives b (p ∷ ps) =
    arrives
      (elim p.header.type_field [
        | fin ↦ buffer_in_fin b p
        | fin_ack ↦ buffer_in_fin_ack b p
        | _ ↦ b
      ])
      ps

unfoldable pub is_acked : CloseBuffer → ℕ → Bool
is_acked b fin_pn = elim b.received_fin_ack_for [ none ↦ false | some pn ↦ pn == fin_pn ]

-- How the loop ends: `close` closes and deregisters the connection and returns the result, or it
-- returns the error of `send_fin` from where it stands.
pub data Stop : Type 0 where
  closes : Result (Unit {0}) → Stop
  breaks : BluefinError → Stop

unfoldable pub result_of : Stop → Result (Unit {0})
result_of (closes r) = r
result_of (breaks e) = err e

-- The map of the host without the connection, where it is closed.
unfoldable pub deregistered : {V : Type 0} → List (Key × V) → Key → Stop → List (Key × V)
deregistered connections key (closes r) = (remove connections key).0
deregistered connections key (breaks e) = connections

-- `?` on `send_fin`, before the rest of the loop.
unfoldable pub after_send :
    CloseBuffer
    → List ℕ
    → CloseBuffer × List ℕ × Stop
    → Option BluefinError
    → CloseBuffer × List ℕ × Stop
after_send b sent went none = went
after_send b sent went (some e) = (b, sent, breaks e)

-- The loop over the attempts: the buffer, the numbers of the `Fin`s that went out, and its end.
unfoldable pub attempts : ℕ → CloseBuffer → List Attempt → List ℕ → CloseBuffer × List ℕ × Stop
attempts fin_pn b [] sent = (
  Close.mark_closed b,
  sent,
  closes (err (timed_out "close: peer did not send FinAck within retransmit budget")),
)
attempts fin_pn b (a ∷ rest) sent =
    let looked : CloseBuffer = arrives b a.before in
    let waited : CloseBuffer = arrives looked a.during in
    let later : CloseBuffer × List ℕ × Stop = attempts fin_pn waited rest (sent ++ (fin_pn ∷ [])) in
    let went : CloseBuffer × List ℕ × Stop =
      if is_acked looked fin_pn
      then (Close.mark_closed looked, sent ++ (fin_pn ∷ []), closes (ok tt))
      else if a.notified
      then (if is_acked waited fin_pn
          then (Close.mark_closed waited, sent ++ (fin_pn ∷ []), closes (ok tt))
          else later)
      else later in
    after_send b sent went a.fin_error

-- What `close` changes: the writer, the close buffer and the map of its host.
pub record Ending (V : Type 0) : Type 0 where
  pub pump : Pump
  pub close_buff : CloseBuffer
  pub connections : List (Key × V)
  pub fins : List ℕ
  pub stop : Stop

-- `close` behind `flush`, with what its three attempts meet.
unfoldable pub close :
    {V : Type 0}
    → Pump
    → CloseBuffer
    → List (Key × V)
    → Key
    → Attempt
    → Attempt
    → Attempt
    → Ending V
close p b connections key first second third =
    let reserved : Pump × ℕ = reserve_close_packet_num (Pump.mark_closed p) in
    let out : CloseBuffer × List ℕ × Stop =
      attempts reserved.1 (record_local_fin_sent b reserved.1) (first ∷ second ∷ third ∷ []) [] in
    record {
      pump = reserved.0;
      close_buff = out.0;
      connections = deregistered connections key out.2;
      fins = out.1;
      stop = out.2;
    }

-- The packets of a row of attempts.
abbrev pub met : List Attempt → List Packet
met [] = []
met (a ∷ rest) = a.before ++ (a.during ++ met rest)

-- Every `Fin` of a row of attempts goes out.
abbrev pub AllSent : List Attempt → Type 0
AllSent [] = Unit
AllSent (a ∷ rest) = (a.fin_error ≡ none) × AllSent rest

-- No attempt sees the matching `FinAck`, neither behind its `Fin` nor when its wait is notified.
abbrev pub Unseen : ℕ → CloseBuffer → List Attempt → Type 0
Unseen fin_pn b [] = Unit
Unseen fin_pn b (a ∷ rest) =
    let looked : CloseBuffer = arrives b a.before in
    let waited : CloseBuffer = arrives looked a.during in
    (is_acked looked fin_pn ≡ false)
    × ((a.notified ≡ false) ⊎ (is_acked waited fin_pn ≡ false))
    × Unseen fin_pn waited rest

-- The attempts end with the `FinAck`, with the timeout behind the last attempt, or with the error of
-- `send_fin` in some attempt: then nothing has happened to the buffer but the packets that came.
abbrev pub Ends : ℕ → CloseBuffer → List Attempt → List ℕ → CloseBuffer × List ℕ × Stop → Type 0
Ends fin_pn b as_met sent out =
    ((out.2 ≡ closes (ok tt))
      × (out.0.state ≡ closed)
      × (out.0.received_fin_ack_for ≡ some fin_pn)
      × ((used rest : List Attempt) × (as_met ≡ used ++ rest)
          × AllSent used
          × (out.1 ≡ sent ++ replicate (length used) fin_pn)))
    ⊎ ((out.2 ≡ closes (err (timed_out "close: peer did not send FinAck within retransmit budget")))
        × (out.0.state ≡ closed)
        × AllSent as_met
        × Unseen fin_pn b as_met
        × (out.1 ≡ sent ++ replicate (length as_met) fin_pn))
    ⊎ ((used rest : List Attempt) × (a : Attempt) × (e : BluefinError) × (as_met
          ≡ used ++ (a ∷ rest))
        × AllSent used
        × (a.fin_error ≡ some e)
        × (out.2 ≡ breaks e)
        × (out.0 ≡ arrives b (met used))
        × (out.1 ≡ sent ++ replicate (length used) fin_pn))

acked-received :
    (r : Option ℕ) (fin_pn : ℕ)
    → (elim r [ none ↦ false | some pn ↦ pn == fin_pn ]) ≡ true
    → r ≡ some fin_pn
acked-received none fin_pn e = absurd (subst (λ b. if b then ⊥ else Unit {0}) e tt)
acked-received (some pn) fin_pn e = ap some ((==_iff pn fin_pn).0 e)

is_acked-received :
    (b : CloseBuffer) (fin_pn : ℕ) → is_acked b fin_pn ≡ true → b.received_fin_ack_for ≡ some fin_pn
unfolding is_acked
is_acked-received b fin_pn acked = acked-received b.received_fin_ack_for fin_pn acked

arrives-append :
    (b : CloseBuffer) (ps qs : List Packet) → arrives b (ps ++ qs) ≡ arrives (arrives b ps) qs
unfolding arrives
arrives-append b [] qs = refl
arrives-append b (p ∷ ps) qs =
    arrives-append
      (elim p.header.type_field [
        | fin ↦ buffer_in_fin b p
        | fin_ack ↦ buffer_in_fin_ack b p
        | _ ↦ b
      ])
      ps qs

-- A first attempt whose `Fin` went out and that did not end the loop.
Ends-cons :
    (fin_pn : ℕ) (b : CloseBuffer) (a : Attempt) (rest : List Attempt) (sent : List ℕ)
    (out : CloseBuffer × List ℕ × Stop)
    → a.fin_error ≡ none
    → is_acked (arrives b a.before) fin_pn ≡ false
    → (a.notified ≡ false) ⊎ (is_acked (arrives (arrives b a.before) a.during) fin_pn ≡ false)
    → Ends fin_pn (arrives (arrives b a.before) a.during) rest (sent ++ (fin_pn ∷ [])) out
    → Ends fin_pn b (a ∷ rest) sent out
Ends-cons fin_pn b a rest sent out went early late
      (inl (e, shut, acked, (used, unused, all, ok_sent, fins))) =
    inl (
      e,
      shut,
      acked,
      (
        a ∷ used,
        unused,
        ap (◌∷◌ a) all,
        (went, ok_sent),
        fins ∙ append_assoc sent (fin_pn ∷ []) (replicate (length used) fin_pn),
      ),
    )
Ends-cons fin_pn b a rest sent out went early late (inr (inl (e, shut, all_sent, unseen, fins))) =
    inr (
      inl (
        e,
        shut,
        (went, all_sent),
        (early, late, unseen),
        fins ∙ append_assoc sent (fin_pn ∷ []) (replicate (length rest) fin_pn),
      ))
Ends-cons fin_pn b a rest sent out went early late
      (inr (inr (used, unused, last, why, all, all_sent, broke, e, same, fins))) =
    inr (
      inr (
        a ∷ used,
        unused,
        last,
        why,
        ap (◌∷◌ a) all,
        (went, all_sent),
        broke,
        e,
        same
            ∙ sym (
                arrives-append b a.before (a.during ++ met used)
                ∙ arrives-append (arrives b a.before) a.during (met used)),
        fins ∙ append_assoc sent (fin_pn ∷ []) (replicate (length used) fin_pn),
      ))

acked-Ends :
    (fin_pn : ℕ) (b looked : CloseBuffer) (a : Attempt) (rest : List Attempt) (sent : List ℕ)
    → a.fin_error ≡ none
    → is_acked looked fin_pn ≡ true
    → Ends fin_pn b
        (a ∷ rest)
        sent
        (Close.mark_closed looked, sent ++ (fin_pn ∷ []), closes (ok tt))
unfolding Close.mark_closed
acked-Ends fin_pn b looked a rest sent went acked =
    inl (refl, refl, is_acked-received looked fin_pn acked, (a ∷ [], rest, refl, (went, tt), refl))

-- The ways through the tests of an attempt.
split_three :
    (P : Bool → Bool → Bool → Type 0) (x y z : Bool)
    → (x ≡ true → (y z : Bool) → P true y z)
    → (z ≡ true → P false true true)
    → (x ≡ false → z ≡ false → P false true false)
    → (x ≡ false → y ≡ false → (z : Bool) → P false false z)
    → P x y z
split_three P true y z now told other timeout = now refl y z
split_three P false true true now told other timeout = told refl
split_three P false true false now told other timeout = other refl refl
split_three P false false z now told other timeout = timeout refl refl z

-- An attempt whose `Fin` went out.
attempt-Ends :
    (fin_pn : ℕ) (b : CloseBuffer) (a : Attempt) (rest : List Attempt) (sent : List ℕ)
    (later : CloseBuffer × List ℕ × Stop)
    → a.fin_error ≡ none
    → Ends fin_pn (arrives (arrives b a.before) a.during) rest (sent ++ (fin_pn ∷ [])) later
    → (let looked : CloseBuffer = arrives b a.before in
        let waited : CloseBuffer = arrives looked a.during in
        Ends fin_pn b (a ∷ rest) sent (
          if is_acked looked fin_pn
          then (Close.mark_closed looked, sent ++ (fin_pn ∷ []), closes (ok tt))
          else if a.notified
          then (if is_acked waited fin_pn
              then (Close.mark_closed waited, sent ++ (fin_pn ∷ []), closes (ok tt))
              else later)
          else later))
attempt-Ends fin_pn b a rest sent later sends others =
    let looked : CloseBuffer = arrives b a.before in
    let waited : CloseBuffer = arrives looked a.during in
    let of : CloseBuffer → CloseBuffer × List ℕ × Stop =
      λ c. (Close.mark_closed c, sent ++ (fin_pn ∷ []), closes (ok tt)) in
    let now_then : (x y z : Bool) → CloseBuffer × List ℕ × Stop =
      λ x y z. if x then of looked else if y then (if z then of waited else later) else later in
    let goal : (x y z : Bool) → Type 0 = λ x y z. Ends fin_pn b (a ∷ rest) sent (now_then x y z) in
    split_three goal (is_acked looked fin_pn) a.notified (is_acked waited fin_pn)
      (λ e y z. acked-Ends fin_pn b looked a rest sent sends e)
      (λ e. acked-Ends fin_pn b waited a rest sent sends e)
      (λ e o. Ends-cons fin_pn b a rest sent later sends e (inr o) others)
      (λ e o z. Ends-cons fin_pn b a rest sent later sends e (inl o) others)

attempts-Ends :
    (fin_pn : ℕ) (b : CloseBuffer) (as_met : List Attempt) (sent : List ℕ)
    → Ends fin_pn b as_met sent (attempts fin_pn b as_met sent)
unfolding attempts after_send Close.mark_closed arrives
attempts-Ends fin_pn b [] sent = inr (inl (refl, refl, tt, tt, sym (append-nil sent)))
attempts-Ends fin_pn b (a ∷ rest) sent =
    let looked : CloseBuffer = arrives b a.before in
    let waited : CloseBuffer = arrives looked a.during in
    let later = attempts fin_pn waited rest (sent ++ (fin_pn ∷ [])) in
    let went : CloseBuffer × List ℕ × Stop =
      if is_acked looked fin_pn
      then (Close.mark_closed looked, sent ++ (fin_pn ∷ []), closes (ok tt))
      else if a.notified
      then (if is_acked waited fin_pn
          then (Close.mark_closed waited, sent ++ (fin_pn ∷ []), closes (ok tt))
          else later)
      else later in
    elim (Option-cases a.fin_error) [
      | inr (e, broke) ↦
          subst (λ o. Ends fin_pn b (a ∷ rest) sent (after_send b sent went o)) (sym broke)
            (inr (inr ([], rest, a, e, refl, tt, broke, refl, refl, sym (append-nil sent))))
      | inl sends ↦
          subst (λ o. Ends fin_pn b (a ∷ rest) sent (after_send b sent went o)) (sym sends)
            (attempt-Ends fin_pn b a rest sent later sends
              (attempts-Ends fin_pn waited rest (sent ++ (fin_pn ∷ []))))
    ]

-- The entry of the connection is gone, or the map is as before.
abbrev pub Registered : {V : Type 0} → List (Key × V) → Key → Stop → List (Key × V) → Type 0
Registered connections key (closes r) after = get after key ≡ none
Registered connections key (breaks e) after = after ≡ connections

deregistered-Registered :
    {V : Type 0} (connections : List (Key × V)) (key : Key) (stop : Stop)
    → Registered connections key stop (deregistered connections key stop)
unfolding deregistered
deregistered-Registered connections key (closes r) = get-remove_same connections key
deregistered-Registered connections key (breaks e) = refl

-- `close`, behind its `flush`, whatever arrives: the writer takes no more payloads, and the call ends in
-- one of three ways. It is `ok`, and the last `FinAck` that came has the reserved number. It is the
-- timeout, behind three `Fin`s, and no attempt has seen that `FinAck`, neither behind its `Fin` nor when
-- its wait was notified. In both cases the close buffer is closed and the host's map has no entry for
-- the connection. Or `send_fin` fails in some attempt: its error is the result, the map is as before,
-- and the close buffer has only taken in the packets that came. All `Fin`s have the reserved number,
-- one for each attempt that sent one.
pub close-Ends :
    {V : Type 0} (p : Pump) (b : CloseBuffer) (connections : List (Key × V)) (key : Key)
    (first second third : Attempt)
    → (let n : ℕ = p.next_packet_num_shared in
        let e : Ending V = close p b connections key first second third in
        (e.pump.closed ≡ true)
        × Ends n
            (record_local_fin_sent b n)
            (first ∷ second ∷ third ∷ [])
            []
            (e.close_buff, e.fins, e.stop)
        × Registered connections key e.stop e.connections)
unfolding close reserve_close_packet_num Pump.mark_closed
close-Ends p b connections key first second third =
    let out : CloseBuffer × List ℕ × Stop =
      attempts p.next_packet_num_shared (record_local_fin_sent b p.next_packet_num_shared)
        (first ∷ second ∷ third ∷ []) [] in
    (
      refl,
      attempts-Ends p.next_packet_num_shared (record_local_fin_sent b p.next_packet_num_shared)
          (first ∷ second ∷ third ∷ []) [],
      deregistered-Registered connections key out.2,
    )
