-- ===== src/OrderedBytes/Read.antt =====
-- `consume` delivers the front of the stream and keeps the rest.
use bluefin.Prelude.{ℕ, ◌+◌, ◌-◌, ◌<◌, ◌≤◌, ◌≡◌, refl, ◌∙◌, ap, arith, min}
use bluefin.Prelude.{le→leb, lt→not-leb, ◌==◌, if◌then◌else◌, lt_or_ge}
use bluefin.Prelude.{List, [], ◌++◌, append_assoc, length, take, drop}
use bluefin.Prelude.{none, some, Option-cases, inl, inr, Result, ok, err}
use bluefin.Prelude.{buffer_empty_error, length-append, length-take, length-drop, drop-drop}
use bluefin.Prelude.Buffers.{copy_at-append}
use bluefin.OrderedBytes.Defs.{OrderedBytes, ConsumeResult, max_buffer_size}
use bluefin.OrderedBytes.Consume.{consume_packets, consume}
use bluefin.OrderedBytes.Slots.{length-in_row, wrap_index-zero}
use bluefin.OrderedBytes.Stream.{payloads, carried, ready, stream, IsValid}
use bluefin.OrderedBytes.Loop.{consume_loop-lem}
use bluefin.OrderedBytes.Stream.{take-append_less, drop-append_less}
use bluefin.OrderedBytes.Stream.{take-append_more, drop-append_more}

-- What the call says of `n` bytes read.
unfoldable pub Reports : ℕ → Result ConsumeResult → Type 0
Reports n (ok r) = (r.bytes_consumed ≡ n) × (0 < n)
Reports n (err e) = (e ≡ buffer_empty_error) × (n ≡ 0)
Reports n _ = ⊥

-- `n` bytes of the stream `r` are in the caller's slice, and the rest is still there.
abbrev pub Reads : ℕ → List ℕ → List ℕ → OrderedBytes × List ℕ × Result ConsumeResult → Type 0
Reads n r buf out =
    (out.1 ≡ take n r ++ drop n buf) × (stream out.0 ≡ drop n r) × IsValid out.0 × Reports n out.2

report :
    (n k : ℕ) (r : ConsumeResult)
    → k ≡ n
    → r.bytes_consumed ≡ k
    → Reports n (if k == 0 then err buffer_empty_error else ok r)
unfolding Reports
report n k r e f = ground (arith, e, f)

-- The loop and what follows it, when `done` is written.
consume_packets-lem :
    (ob : OrderedBytes) (len : ℕ) (done rest : List ℕ)
    → IsValid ob
    → ob.carry_over_bytes ≡ none
    → length done ≤ len
    → len ≤ length (done ++ rest)
    → Reads
        (min len (length (done ++ payloads (ready ob))))
        (done ++ payloads (ready ob))
        (done ++ rest)
        (consume_packets ob len (done ++ rest) (length done))
unfolding consume_packets
consume_packets-lem ob len done rest v c h room =
    let (s, run, (b, n, sr, v')) =
      consume_loop-lem max_buffer_size ob.smallest_packet_number_index len ob done rest
        (length done) 0 v.0 refl (wrap_index-zero ob.smallest_packet_number_index v.0) v c refl
        (omega (arith, length-append done rest, room))
        (length-in_row 2000 ob.packets ob.smallest_packet_number_index) in
    let m : ℕ = min (len - length done) (length (payloads (ready ob))) in
    let all : min len (length (done ++ payloads (ready ob))) ≡ length done + m =
      omega (arith, length-append done (payloads (ready ob))) in
    rw (all, run, consume_packets)
      (
        b
            ∙ rw (
              take-append_more done (payloads (ready ob)) m,
              drop-append_more done rest m,
              append_assoc done (take m (payloads (ready ob))) (drop m rest),
            ),
        rw (drop-append_more done (payloads (ready ob)) m) sr,
        v',
        report (length done + m) s.num_bytes _ n refl,
      )

module _ (ob : OrderedBytes) (len : ℕ) (buf : List ℕ) (room : len ≤ length buf) where
  consume-none : ob.carry_over_bytes ≡ none → consume ob len buf ≡ consume_packets ob len buf 0
  unfolding consume
  consume-none e = simp (e, consume)

  consume-whole :
      (bytes : List ℕ)
      → ob.carry_over_bytes ≡ some bytes
      → length bytes ≤ len
      → consume ob len buf
        ≡ consume_packets
            (record ob { carry_over_bytes = none })
            len
            (bytes ++ drop (length bytes) buf)
            (length bytes)
  unfolding consume
  consume-whole bytes e h = rw (
    e,
    le→leb (length bytes) len h,
    copy_at-append 0 bytes [] buf refl (omega (arith, h, room)),
    consume,
  )

  consume-part :
      (bytes : List ℕ)
      → ob.carry_over_bytes ≡ some bytes
      → len < length bytes
      → consume ob len buf ≡ (
        record ob { carry_over_bytes = some (drop len bytes) },
        take len bytes ++ drop len buf,
        ok (record { num_packets_consumed = 0; base_packet_number = 0; bytes_consumed = len }),
      )
  unfolding consume
  consume-part bytes e h =
      let size : length (take len bytes) ≡ len = omega (arith, length-take len bytes, h) in
      rw (
        e,
        lt→not-leb (length bytes) len h,
        copy_at-append 0 (take len bytes) [] buf refl (omega (arith, size, room)),
        size,
        consume,
      )

-- On a valid buffer and a slice of `len` bytes or more, for a `len` above 0, `consume` writes the front of the stream,
-- as many of the `len` bytes as there are, to the front of the slice, keeps the rest of the stream
-- and the rest of the slice, and reports the number of bytes; or the error for an empty buffer, if
-- there are none. The buffer stays valid, and the call does not panic.
pub consume-Reads :
    (ob : OrderedBytes) (len : ℕ) (buf : List ℕ)
    → IsValid ob
    → 0 < len
    → len ≤ length buf
    → Reads (min len (length (stream ob))) (stream ob) buf (consume ob len buf)
consume-Reads ob len buf v pos room = elim (Option-cases ob.carry_over_bytes) [
  | inl e ↦
      let all : stream ob ≡ payloads (ready ob) = unfold stream in rw e (unfold carried in refl) in
      rw (consume-none ob len buf room e, all)
        (consume_packets-lem ob len [] buf v e (omega arith) room)
  | inr (bytes, e) ↦
      let all : stream ob ≡ bytes ++ payloads (ready ob) =
        unfold stream in rw e (unfold carried in refl) in
      elim (lt_or_ge len (length bytes)) [
        | inl part ↦
            let m : min len (length (stream ob)) ≡ len =
              rw all (omega (arith, length-append bytes (payloads (ready ob)))) in
            rw (m, consume-part ob len buf room bytes e part, all)
              (
                rw (take-append_less len bytes (payloads (ready ob)) (omega arith)),
                rw (drop-append_less len bytes (payloads (ready ob)) (omega arith))
                    (unfold stream carried in refl),
                v,
                unfold Reports in (refl, pos),
              )
        | inr whole ↦
            rw (consume-whole ob len buf room bytes e whole, all)
              (let n : ℕ = min len (length (bytes ++ payloads (ready ob))) in
                let k : ℕ = n - length bytes in
                let split : n ≡ length bytes + k =
                  omega (arith, length-append bytes (payloads (ready ob)), whole) in
                let same : drop n (bytes ++ drop (length bytes) buf) ≡ drop n buf = rw split (
                  drop-append_more bytes (drop (length bytes) buf) k
                  ∙ drop-drop (length bytes) k buf) in
                let d =
                  consume_packets-lem (record ob { carry_over_bytes = none }) len bytes
                    (drop (length bytes) buf) v refl whole
                    (omega (
                      arith,
                      room,
                      whole,
                      length-append bytes (drop (length bytes) buf),
                      length-drop (length bytes) buf,
                    )) in
                (
                  d.0 ∙ ap (λ rest. take n (bytes ++ payloads (ready ob)) ++ rest) same,
                  d.1,
                  d.2,
                  d.3,
                ))
      ]
]
