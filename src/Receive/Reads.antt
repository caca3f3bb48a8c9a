-- ===== src/Receive/Reads.antt =====
-- bluefin/src/worker/reader.rs: what `read` gives its caller, and when it tells the peer.
use mathlib.Core.Path.{subst}
use bluefin.Prelude.{ℕ, ◌+◌, ◌*◌, ◌<◌, ◌≤◌, ◌≡◌, inl, inr, refl, sym, ◌∙◌, ap, arith, min}
use bluefin.Prelude.{Bool, true, false, ◌==◌, if◌then◌else◌, Bool-cases, lt_or_ge, length-append}
use bluefin.Prelude.{List, [], ◌∷◌, ◌++◌, length, take, drop, All, none, some}
use bluefin.Prelude.{Result, ok, err, panic, stuck}
use native.Mathlib.Nat.{mul-add}
use bluefin.OrderedBytes
use bluefin.OrderedBytes.{OrderedBytes, ConsumeResult}
use bluefin.OrderedBytes.Stream.{IsValid, stream}
use bluefin.OrderedBytes.Read.{Reads, Reports, consume-Reads}
use bluefin.Conn
use bluefin.Conn.{ConnectionBuffer, with_addr}
use bluefin.Receive.Read.{Reader, Told, AckData, read, eof, new, tell, is_due, unwrap, hand_on}

module _ {Addr Waker : Type 0} where
  -- The caller's slice, what is left, and the result.
  abbrev pub Delivers :
      ConnectionBuffer Addr Waker × List ℕ × Told × Result (ℕ × Addr)
      → Addr
      → ℕ
      → List ℕ
      → List ℕ
      → Type 0
  Delivers out a n s buf =
      (out.1 ≡ take n s ++ drop n buf)
      × (stream out.0.ordered_bytes ≡ drop n s)
      × IsValid out.0.ordered_bytes
      × (out.3 ≡ (if n == 0 then panic else ok (n, a)))

  handed :
      (r : Reader) (c : ConnectionBuffer Addr Waker) (a : Addr) (n : ℕ) (s buf : List ℕ)
      (out : OrderedBytes × List ℕ × Result ConsumeResult)
      → Reads n s buf out
      → Delivers
          (hand_on r ((with_addr c a out).0, (with_addr c a out).1, unwrap (with_addr c a out).2))
          a
          n
          s
          buf
  unfolding hand_on with_addr unwrap Reports
  handed r c a n s buf (ob, slice, ok res) (written, kept, v, (e, pos)) =
      (written, kept, v, ground (arith, e, pos))
  handed r c a n s buf (ob, slice, err why) (written, kept, v, (e, z)) =
      (written, kept, v, rw z refl)
  handed r c a n s buf (ob, slice, panic) (written, kept, v, never) = absurd never
  handed r c a n s buf (ob, slice, stuck) (written, kept, v, never) = absurd never

  read-hand_on :
      (r : Reader) (seen : Bool) (c : ConnectionBuffer Addr Waker) (a : Addr) (len : ℕ)
      (buf : List ℕ)
      → eof seen c ≡ none
      → c.addr ≡ some a
      → read r seen c len buf
        ≡ hand_on r (
          (with_addr c a (OrderedBytes.consume c.ordered_bytes len buf)).0,
          (with_addr c a (OrderedBytes.consume c.ordered_bytes len buf)).1,
          unwrap (with_addr c a (OrderedBytes.consume c.ordered_bytes len buf)).2,
        )
  unfolding read Conn.consume
  read-hand_on r seen c a len buf more known = simp (more, known, read, Conn.consume)

  -- A read behind a ready future, of at least one byte into a slice that has room, while the stream is
  -- not at its end: the front of the stream goes to the front of the slice, as many bytes as there
  -- are up to `len`, and the rest of both is kept. The call returns their number with the peer's
  -- address, and it panics where there is no byte.
  pub read-Delivers :
      (r : Reader) (seen : Bool) (c : ConnectionBuffer Addr Waker) (a : Addr) (len : ℕ)
      (buf : List ℕ)
      → IsValid c.ordered_bytes
      → eof seen c ≡ none
      → c.addr ≡ some a
      → 0 < len
      → len ≤ length buf
      → Delivers
          (read r seen c len buf)
          a
          (min len (length (stream c.ordered_bytes)))
          (stream c.ordered_bytes)
          buf
  unfolding read Conn.consume
  read-Delivers r seen c a len buf v more known pos room =
      subst
        (λ out.
          Delivers out a (min len (length (stream c.ordered_bytes))) (stream c.ordered_bytes) buf)
        (sym (read-hand_on r seen c a len buf more known))
        (handed r c a _ (stream c.ordered_bytes) buf (OrderedBytes.consume c.ordered_bytes len buf)
          (consume-Reads c.ordered_bytes len buf v pos room))

-- The reads of a connection, one after the other, and all acks that they send.
unfoldable pub tell_all : Reader → List ConsumeResult → Reader × List AckData
tell_all r [] = (r, [])
tell_all r (res ∷ rest) =
    let now : Told = tell r res in
    let later : Reader × List AckData = tell_all now.reader rest in (later.0, now.acks ++ later.1)

unfoldable pub total_packets : List ConsumeResult → ℕ
total_packets [] = 0
total_packets (res ∷ rest) = res.num_packets_consumed + total_packets rest

-- A result that counts packets says where they begin.
abbrev pub IsNumbered : ConsumeResult → Type 0
IsNumbered res = 0 < res.num_packets_consumed → 0 < res.base_packet_number

-- The limit stays, the count stays below it, and an ack costs as many packets as the limit says.
abbrev Cadence : Reader → ℕ → Reader → List AckData → Type 0
Cadence r consumed r' acks =
    (r'.packets_consumed_before_ack ≡ r.packets_consumed_before_ack)
    × (r'.packets_consumed < r.packets_consumed_before_ack)
    × (r.packets_consumed_before_ack * length acks + r'.packets_consumed
        ≤ r.packets_consumed + consumed)

is_due-le :
    (r : Reader) (res : ConsumeResult)
    → is_due r res ≡ true
    → r.packets_consumed_before_ack ≤ r.packets_consumed + res.num_packets_consumed
unfolding is_due
is_due-le r res e = ground (arith, e)

is_due-gt :
    (r : Reader) (res : ConsumeResult)
    → IsNumbered res
    → r.packets_consumed < r.packets_consumed_before_ack
    → is_due r res ≡ false
    → r.packets_consumed + res.num_packets_consumed < r.packets_consumed_before_ack
unfolding is_due
is_due-gt r res numbered below e = elim (lt_or_ge 0 res.num_packets_consumed) [
  | inr h ↦ omega (arith, h, below)
  | inl h ↦ let base : 0 < res.base_packet_number = numbered h in ground (arith, e, h, base)
]

tell-Cadence :
    (r : Reader) (res : ConsumeResult)
    → IsNumbered res
    → r.packets_consumed < r.packets_consumed_before_ack
    → Cadence r res.num_packets_consumed (tell r res).reader (tell r res).acks
unfolding tell
tell-Cadence r res numbered below = elim (Bool-cases (is_due r res)) [
  | inl e ↦
      let due : r.packets_consumed_before_ack ≤ r.packets_consumed + res.num_packets_consumed =
        is_due-le r res e in
      rw e (refl, omega (arith, below), omega (arith, due))
  | inr e ↦ rw e (refl, is_due-gt r res numbered below e, omega arith)
]

tell_all-from :
    (r : Reader) (results : List ConsumeResult)
    → All IsNumbered results
    → r.packets_consumed < r.packets_consumed_before_ack
    → Cadence r (total_packets results) (tell_all r results).0 (tell_all r results).1
unfolding tell_all total_packets
tell_all-from r [] a below = (refl, below, omega arith)
tell_all-from r (res ∷ rest) a below =
    let (limit, less, bound) = tell-Cadence r res a.0 below in
    let (limit', less', bound') = tell_all-from (tell r res).reader rest a.1 (rw limit less) in
    let wide : r.packets_consumed_before_ack * length (tell_all (tell r res).reader rest).1
          + (tell_all (tell r res).reader rest).0.packets_consumed
        ≤ (tell r res).reader.packets_consumed + total_packets rest =
      subst
        (λ k.
          k * length (tell_all (tell r res).reader rest).1
            + (tell_all (tell r res).reader rest).0.packets_consumed
          ≤ (tell r res).reader.packets_consumed + total_packets rest)
        limit bound' in
    let split : r.packets_consumed_before_ack
          * length ((tell r res).acks ++ (tell_all (tell r res).reader rest).1)
        ≡ r.packets_consumed_before_ack * length (tell r res).acks
          + r.packets_consumed_before_ack * length (tell_all (tell r res).reader rest).1 =
      ap (λ k. r.packets_consumed_before_ack * k)
        (length-append (tell r res).acks (tell_all (tell r res).reader rest).1)
      ∙ mul-add r.packets_consumed_before_ack _ _ in
    (
      limit' ∙ limit,
      subst (λ k. (tell_all (tell r res).reader rest).0.packets_consumed < k) limit less',
      omega (arith, bound, wide, split),
    )

-- The reader sends an ack only when 200 packets have been read since the last one: over any reads
-- whose results say where their packets begin, beginning with a new reader, 200 times the number of
-- acks, plus the packets that are still counted, are at most the packets that were read, and fewer
-- than 200 packets are counted at the end.
pub tell_all-Cadence :
    (wired : Bool) (results : List ConsumeResult)
    → All IsNumbered results
    → ((tell_all (new wired) results).0.packets_consumed < 200)
      × (200 * length (tell_all (new wired) results).1
            + (tell_all (new wired) results).0.packets_consumed
          ≤ total_packets results)
unfolding new
tell_all-Cadence wired results a =
    let (limit, below, bound) = tell_all-from (new wired) results a (omega arith) in
    (below, omega (arith, bound))
