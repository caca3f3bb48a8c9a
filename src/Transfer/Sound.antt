-- ===== src/Transfer/Sound.antt =====
-- bluefin/src/worker/writer.rs: the accepted bytes and their count, through a call, a round of
-- `read_data` and a transmission.
use mathlib.Core.Path.{subst}
use bluefin.Prelude.{ℕ, ◌+◌, ◌*◌, ◌%◌, ◌^◌, ◌<◌, ◌≤◌, ◌≡◌, refl, sym, ◌∙◌, ap, arith}
use bluefin.Prelude.{Bool, true, false, if◌then◌else◌, add_u64, sub_u64}
use bluefin.Prelude.{lt→ltb, append_assoc, append-nil, length-append, joined-append}
use bluefin.Prelude.{
  List, [], ◌∷◌, ◌++◌, length, take, drop, take-append-drop, joined, All, All-append, IsByte,
}
use bluefin.Prelude.{ok, ◌>>=◌}
use bluefin.Writer.Pump
use bluefin.Writer.Pump.{
  Pump, Packed, pack, Course, Step, send, round, store, transmission, reserve, mark,
}
use bluefin.Writer.Pump.{send_bytes, send_checked, on_send, data_channel_bound}
use bluefin.Writer.Datagram.{All-front, All-back}
use bluefin.Transfer.Flush.{received, received-++, datagrams_of, datagrams_of-++, total, total-++}
use bluefin.Transfer.Flush.{IsCounted, pack-Packs}

-- The bytes on their way, in order: in datagrams, in the queue, in the channel.
abbrev pub under_way : List (List ℕ × ℕ) → List (List ℕ) → List (List ℕ) → List ℕ
under_way sending queue channel =
    received (datagrams_of sending) ++ (joined queue ++ joined channel)

abbrev pub weight : List (List ℕ × ℕ) → List (List ℕ) → List (List ℕ) → ℕ
weight sending queue channel = total sending + (length (joined queue) + length (joined channel))

-- Every accepted byte is on the wire or under way, in order, and the count is of those under way.
abbrev pub IsSound : Course → Type 0
IsSound c =
    (c.pump.src_conn_id < 2 ^ 32)
    × (c.pump.dst_conn_id < 2 ^ 32)
    × (c.pump.next_packet_num < 2 ^ 64)
    × All IsByte (joined c.pump.data_queue)
    × All IsByte (joined c.pump.channel)
    × All IsCounted c.pump.sending
    × (received c.pump.wire ++ under_way c.pump.sending c.pump.data_queue c.pump.channel
        ≡ joined c.accepted)
    × (c.pump.pending_bytes ≡ weight c.pump.sending c.pump.data_queue c.pump.channel % 2 ^ 64)

-- A payload is a slice of bytes.
unfoldable pub IsProper : Step → Type 0
IsProper (send payload) = All IsByte payload × (length payload < 2 ^ 64)
IsProper _ = Unit

sub_sum :
    (pending k rest : ℕ)
    → k ≤ 15200
    → pending ≡ (k + rest) % 2 ^ 64
    → sub_u64 pending k ≡ rest % 2 ^ 64
sub_sum pending k rest small e = omega (arith, small, e)

add_sum : (pending k rest : ℕ) → pending ≡ rest % 2 ^ 64 → add_u64 pending k ≡ (rest + k) % 2 ^ 64
add_sum pending k rest e = omega (arith, e)

undo :
    (pending k rest : ℕ)
    → k < 2 ^ 64
    → pending ≡ rest % 2 ^ 64
    → sub_u64 (add_u64 pending k) k ≡ rest % 2 ^ 64
undo pending k rest small e = omega (arith, small, e)

pub transmit-IsSound :
    (c : Course) (ds : List (List ℕ × ℕ))
    → c.pump.sending ≡ ds
    → IsSound c
    → IsSound (record c { pump = Pump.transmit_first c.pump ds })
unfolding Pump.transmit_first total datagrams_of
transmit-IsSound c [] e sound = sound
transmit-IsSound c (d ∷ rest) e (hs, hd, hn, hq, hc, counted, order, count) =
    let ((pos, size, fits), others) = subst (All IsCounted) e counted in
    let bytes : List ℕ = joined c.pump.data_queue ++ joined c.pump.channel in
    (
      hs,
      hd,
      hn,
      hq,
      hc,
      others,
      ap (λ x. x ++ under_way rest c.pump.data_queue c.pump.channel)
            (received-++ c.pump.wire (d.0 ∷ []))
          ∙ append_assoc (received c.pump.wire) (received (d.0 ∷ []))
              (under_way rest c.pump.data_queue c.pump.channel)
          ∙ ap (λ x. received c.pump.wire ++ x)
              (sym (append_assoc (received (d.0 ∷ [])) (received (datagrams_of rest)) bytes)
                ∙ ap (λ x. x ++ bytes) (sym (received-++ (d.0 ∷ []) (datagrams_of rest))))
          ∙ subst
              (λ ds.
                received c.pump.wire ++ under_way ds c.pump.data_queue c.pump.channel
                ≡ joined c.accepted)
              e order,
      ap (λ b. if b then sub_u64 c.pump.pending_bytes d.1 else c.pump.pending_bytes)
            (lt→ltb 0 d.1 pos)
          ∙ sub_sum c.pump.pending_bytes d.1 (weight rest c.pump.data_queue c.pump.channel) fits (
              subst
                (λ ds. c.pump.pending_bytes ≡ weight ds c.pump.data_queue c.pump.channel % 2 ^ 64) e
                count
              ∙ ap (λ k. k % 2 ^ 64) (omega arith)),
    )

pub send-IsSound :
    (c : Course) (payload : List ℕ) (is_closed has_sender room : Bool)
    → All IsByte payload
    → length payload < 2 ^ 64
    → IsSound c
    → IsSound (on_send c payload (send_checked c.pump payload is_closed has_sender room))
unfolding on_send send_checked
send-IsSound c payload true has_sender room hb hl sound = sound
send-IsSound c payload false false room hb hl sound = sound
send-IsSound c payload false true true hb hl (hs, hd, hn, hq, hc, counted, order, count) =
    let one : joined (payload ∷ []) ≡ payload = unfold joined in append-nil payload in
    let more : joined (c.pump.channel ++ (payload ∷ [])) ≡ joined c.pump.channel ++ payload =
      joined-append c.pump.channel (payload ∷ []) ∙ ap (λ x. joined c.pump.channel ++ x) one in
    let grown : joined (c.accepted ++ (payload ∷ [])) ≡ joined c.accepted ++ payload =
      joined-append c.accepted (payload ∷ []) ∙ ap (λ x. joined c.accepted ++ x) one in
    let front : List ℕ = received (datagrams_of c.pump.sending) in
    (
      hs,
      hd,
      hn,
      hq,
      subst (All IsByte) (sym more) (All-append IsByte (joined c.pump.channel) payload hc hb),
      counted,
      ap (λ x. received c.pump.wire ++ (front ++ (joined c.pump.data_queue ++ x))) more
          ∙ ap (λ x. received c.pump.wire ++ (front ++ x))
              (sym (append_assoc (joined c.pump.data_queue) (joined c.pump.channel) payload))
          ∙ ap (λ x. received c.pump.wire ++ x)
              (sym (append_assoc front (joined c.pump.data_queue ++ joined c.pump.channel) payload))
          ∙ sym (append_assoc (received c.pump.wire) _ payload)
          ∙ ap (λ x. x ++ payload) order
          ∙ sym grown,
      add_sum c.pump.pending_bytes (length payload)
            (weight c.pump.sending c.pump.data_queue c.pump.channel) count
          ∙ ap (λ k. k % 2 ^ 64)
              (let size = ap length more ∙ length-append (joined c.pump.channel) payload in
                omega (arith, size)),
    )
send-IsSound c payload false true false hb hl (hs, hd, hn, hq, hc, counted, order, count) =
    (hs, hd, hn, hq, hc, counted, order, undo c.pump.pending_bytes (length payload) _ hl count)

moves :
    (wire sent packed left queue front back channel : List ℕ)
    → channel ≡ front ++ back
    → packed ++ left ≡ queue ++ front
    → wire ++ ((sent ++ packed) ++ (left ++ back)) ≡ wire ++ (sent ++ (queue ++ channel))
moves wire sent packed left queue front back channel e f =
    ap (λ x. wire ++ x)
      (append_assoc sent packed (left ++ back)
        ∙ ap (λ x. sent ++ x)
            (sym (append_assoc packed left back)
              ∙ ap (λ x. x ++ back) f
              ∙ append_assoc queue front back
              ∙ ap (λ x. queue ++ x) (sym e)))

weighs :
    (sent packed both : ℕ) (left queue front back channel : List ℕ)
    → channel ≡ front ++ back
    → both ≡ sent + packed
    → packed + length left ≡ length queue + length front
    → sent + (length queue + length channel) ≡ both + (length left + length back)
weighs sent packed both left queue front back channel e f g =
    let size = ap length e ∙ length-append front back in omega (arith, size, f, g)

total-le : (ds : List (List ℕ × ℕ)) → All IsCounted ds → total ds ≤ 15200 * length ds
unfolding total
total-le [] a = omega arith
total-le (d ∷ ds) a = let e = total-le ds a.1 in omega (arith, e, a.0.2)

pub round-IsSound :
    (c : Course) (channel : List (List ℕ))
    → c.pump.channel ≡ channel
    → IsSound c
    → (p : Pump) × (Pump.read_round c.pump channel ≡ ok p)
      × IsSound (record c { pump = p })
      × (p.channel ≡ drop 20 channel)
      × (total p.sending ≤ total c.pump.sending + 12 * 15200)
      × (weight p.sending p.data_queue p.channel
          ≡ weight c.pump.sending c.pump.data_queue c.pump.channel)
unfolding Pump.read_round received datagrams_of total
round-IsSound c [] e sound = (c.pump, refl, sound, e, omega arith, refl)
round-IsSound c (first ∷ rest) e (hs, hd, hn, hq, hc, counted, order, count) =
    let p : Pump = c.pump in
    let front : List (List ℕ) = take 20 (first ∷ rest) in
    let back : List (List ℕ) = drop 20 (first ∷ rest) in
    let whole : joined p.channel ≡ joined front ++ joined back =
      ap joined (e ∙ sym (take-append-drop 20 (first ∷ rest))) ∙ joined-append front back in
    let queued : joined (p.data_queue ++ front) ≡ joined p.data_queue ++ joined front =
      joined-append p.data_queue front in
    let bytes : All IsByte (joined front ++ joined back) = subst (All IsByte) whole hc in
    let (s, packed, (moved, sum, counted', next), left, few) =
      pack-Packs p.src_conn_id p.dst_conn_id hs hd 12
        (record { queue = p.data_queue ++ front; next = p.next_packet_num; datagrams = [] }) hn
        (subst (All IsByte) (sym queued) (
          All-append IsByte (joined p.data_queue) (joined front) hq
            (All-front (joined front) (joined back) bytes)))
        tt in
    let kept : weight p.sending p.data_queue p.channel
        ≡ weight (p.sending ++ s.datagrams) s.queue back =
      weighs (total p.sending) (total s.datagrams) (total (p.sending ++ s.datagrams))
        (joined s.queue) (joined p.data_queue) (joined front) (joined back) (joined p.channel) whole
        (total-++ p.sending s.datagrams)
        (omega
          (arith, sum, ap length queued, length-append (joined p.data_queue) (joined front))) in
    (
      record p {
        channel = back;
        data_queue = s.queue;
        next_packet_num = s.next;
        sending = p.sending ++ s.datagrams;
      },
      ap
          (λ r. r >>= λ s. ok (record p {
            channel = back;
            data_queue = s.queue;
            next_packet_num = s.next;
            sending = p.sending ++ s.datagrams;
          }))
          packed,
      (
        hs,
        hd,
        next,
        left,
        All-back (joined front) (joined back) bytes,
        All-append IsCounted p.sending s.datagrams counted counted',
        ap (λ x. received p.wire ++ (x ++ (joined s.queue ++ joined back)))
              (ap received (datagrams_of-++ p.sending s.datagrams)
                ∙ received-++ (datagrams_of p.sending) (datagrams_of s.datagrams))
            ∙ moves (received p.wire) (received (datagrams_of p.sending))
                (received (datagrams_of s.datagrams)) (joined s.queue) (joined p.data_queue)
                (joined front) (joined back) (joined p.channel) whole (moved ∙ queued)
            ∙ order,
        count ∙ ap (λ k. k % 2 ^ 64) kept,
      ),
      refl,
      omega (arith, total-++ p.sending s.datagrams, few, total-le s.datagrams counted'),
      sym kept,
    )
