-- ===== src/Transfer/Numbers.antt =====
-- bluefin/src/worker/writer.rs: along any steps of the writer and its tasks, the datagrams on the wire
-- and before the socket hold packets with consecutive numbers.
use mathlib.Core.Path.{subst}
use bluefin.Prelude.{ℕ, ◌≡◌, refl, sym, ◌∙◌, ap}
use bluefin.Prelude.{List, [], ◌∷◌, ◌++◌, append_assoc, joined, joined-append, take, drop}
use bluefin.Prelude.{take-append-drop, All, All-append, IsByte, Result, ok, ◌>>=◌}
use bluefin.Prelude.{Bool, true, false}
use bluefin.Writer.Datagram.{All-front}
use bluefin.Writer.Pump
use bluefin.Writer.Pump.{Pump, Packed, pack, Course, Step, send, round, store}
use bluefin.Writer.Pump.{transmission, reserve, mark, send_bytes, send_checked, on_send}
use bluefin.Transfer.Flush.{datagrams_of, datagrams_of-++, ok-inj, pack-Packs}
use bluefin.Transfer.Sound.{IsSound, IsProper}
use bluefin.Transfer.Flushed.{step-IsSound}
use bluefin.Transfer.Laid.{Laid, Laid-append, pack-Laid}

-- The datagrams run on from the number `n` to the next one that the task uses.
abbrev pub IsLaid : ℕ → Course → Type 0
IsLaid n c =
    Laid c.pump.src_conn_id c.pump.dst_conn_id n (c.pump.wire ++ datagrams_of c.pump.sending)
      c.pump.next_packet_num

send-IsLaid :
    (n : ℕ) (c : Course) (payload : List ℕ) (is_closed has_sender room : Bool)
    → IsLaid n c
    → IsLaid n (on_send c payload (send_checked c.pump payload is_closed has_sender room))
unfolding on_send send_checked
send-IsLaid n c payload true has_sender room h = h
send-IsLaid n c payload false false room h = h
send-IsLaid n c payload false true true h = h
send-IsLaid n c payload false true false h = h

transmit-IsLaid :
    (n : ℕ) (c : Course) (sending : List (List ℕ × ℕ))
    → c.pump.sending ≡ sending
    → IsLaid n c
    → IsLaid n (record c { pump = Pump.transmit_first c.pump sending })
unfolding Pump.transmit_first datagrams_of
transmit-IsLaid n c [] e h = h
transmit-IsLaid n c (d ∷ rest) e h =
    subst (λ ds. Laid c.pump.src_conn_id c.pump.dst_conn_id n ds c.pump.next_packet_num)
      (ap (λ xs. c.pump.wire ++ datagrams_of xs) e
        ∙ sym (append_assoc c.pump.wire (d.0 ∷ []) (datagrams_of rest)))
      h

round-IsLaid :
    (n : ℕ) (c : Course) (channel : List (List ℕ)) (p : Pump)
    → c.pump.channel ≡ channel
    → IsSound c
    → Pump.read_round c.pump channel ≡ ok p
    → IsLaid n c
    → IsLaid n (record c { pump = p })
unfolding Pump.read_round datagrams_of
round-IsLaid n c [] p e sound run h =
    subst (λ x. IsLaid n (record c { pump = x })) (ok-inj _ p run) h
round-IsLaid n c (first ∷ rest) p e (hs, hd, hn, hq, hc, _, _, _) run h =
    let q : Pump = c.pump in
    let front : List (List ℕ) = take 20 (first ∷ rest) in
    let back : List (List ℕ) = drop 20 (first ∷ rest) in
    let whole : joined q.channel ≡ joined front ++ joined back =
      ap joined (e ∙ sym (take-append-drop 20 (first ∷ rest))) ∙ joined-append front back in
    let bytes : All IsByte (joined (q.data_queue ++ front)) =
      subst (All IsByte) (sym (joined-append q.data_queue front)) (
        All-append IsByte (joined q.data_queue) (joined front) hq
          (All-front (joined front) (joined back) (subst (All IsByte) whole hc))) in
    let s0 : Packed = record {
      queue = q.data_queue ++ front;
      next = q.next_packet_num;
      datagrams = [];
    } in
    let (s, packed, _, _, _) = pack-Packs q.src_conn_id q.dst_conn_id hs hd 12 s0 hn bytes tt in
    let more : Laid q.src_conn_id q.dst_conn_id q.next_packet_num (datagrams_of s.datagrams)
        s.next =
      pack-Laid q.src_conn_id q.dst_conn_id hs hd 12 q.next_packet_num s0 s hn bytes refl packed in
    let after : Packed → Pump = λ s. record q {
      channel = back;
      data_queue = s.queue;
      next_packet_num = s.next;
      sending = q.sending ++ s.datagrams;
    } in
    subst (λ x. IsLaid n (record c { pump = x }))
      (ok-inj (after s) p (sym (ap (λ r. r >>= λ s. ok (after s)) packed) ∙ run))
      (subst (λ ds. Laid q.src_conn_id q.dst_conn_id n ds s.next)
        (append_assoc q.wire (datagrams_of q.sending) (datagrams_of s.datagrams)
          ∙ ap (λ ds. q.wire ++ ds) (sym (datagrams_of-++ q.sending s.datagrams)))
        (Laid-append q.src_conn_id q.dst_conn_id n q.next_packet_num s.next
          (q.wire ++ datagrams_of q.sending) (datagrams_of s.datagrams) h more))

after_round-IsLaid :
    (n : ℕ) (c c' : Course) (r : Result Pump)
    → ((p : Pump) → r ≡ ok p → IsLaid n (record c { pump = p }))
    → (r >>= λ p. ok (record c { pump = p })) ≡ ok c'
    → IsLaid n c'
after_round-IsLaid n c c' (ok p) h run = subst (IsLaid n) (ok-inj _ c' run) (h p refl)
after_round-IsLaid n c c' (Result.err e) h run = cc
after_round-IsLaid n c c' Result.panic h run = cc
after_round-IsLaid n c c' Result.stuck h run = cc

pub step-IsLaid :
    (n : ℕ) (c c' : Course) (s : Step)
    → IsSound c
    → Pump.step c s ≡ ok c'
    → IsLaid n c
    → IsLaid n c'
unfolding Pump.step send_bytes Pump.read_data Pump.publish Pump.transmit
step-IsLaid n c c' (send payload) sound run h =
    subst (IsLaid n) (ok-inj _ c' run) (send-IsLaid n c payload c.pump.closed c.pump.has_sender _ h)
step-IsLaid n c c' round sound run h =
    after_round-IsLaid n c c' (Pump.read_round c.pump c.pump.channel)
      (λ p e. round-IsLaid n c c.pump.channel p refl sound e h) run
step-IsLaid n c c' store sound run h = subst (IsLaid n) (ok-inj _ c' run) h
step-IsLaid n c c' transmission sound run h =
    subst (IsLaid n) (ok-inj _ c' run) (transmit-IsLaid n c c.pump.sending refl h)
step-IsLaid n c c' reserve sound run h =
    subst (IsLaid n) (ok-inj _ c' run) (unfold Pump.reserve_close_packet_num in h)
step-IsLaid n c c' mark sound run h =
    subst (IsLaid n) (ok-inj _ c' run) (unfold Pump.mark_closed in h)

-- A whole run keeps both.
pub run-IsLaid :
    (n : ℕ) (c : Course) (ss : List Step)
    → All IsProper ss
    → IsSound c
    → IsLaid n c
    → (c' : Course) × (Pump.run c ss ≡ ok c') × IsSound c' × IsLaid n c'
unfolding Pump.run
run-IsLaid n c [] h sound laid = (c, refl, sound, laid)
run-IsLaid n c (s ∷ ss) (h, hs) sound laid =
    let (c', e, sound') = step-IsSound c s h sound in
    let (c'', e', sound'', laid'') =
      run-IsLaid n c' ss hs sound' (step-IsLaid n c c' s sound e laid) in
    (c'', ap (λ r. r >>= λ x. Pump.run x ss) e ∙ e', sound'', laid'')
