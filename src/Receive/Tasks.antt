-- ===== src/Receive/Tasks.antt =====
-- bluefin/src/worker/conn_reader.rs: the loops of the tasks around the socket, over what its `recv`
-- returns: a datagram, or an error of the socket.
use mathlib.Core.Path.{subst}
use bluefin.Prelude.{ℕ, ◌≡◌, refl, sym, ◌∙◌, ap, ◌==◌, if◌then◌else◌, String}
use bluefin.Prelude.{List, [], ◌∷◌, ◌++◌, append-nil, append_assoc, map, All, Option, none, some}
use bluefin.Prelude.{Result, ok, err, panic, stuck, BluefinError, std_io_error, ◌>>=◌}
use bluefin.Packet.{Packet, from_bytes, from_bytes_into}
use bluefin.Packet.Total.{SameOutcome, from_bytes_into-from_bytes}
use bluefin.Receive.Defs.{ConnectionManagedBuffers, Buffered, buffer_in_packets}
use bluefin.Receive.Data.{rx_impl}

pub data Recv : Type 0 where
  datagram : List ℕ → Recv
  socket_error : String → Recv

-- `tx_impl`: the vectors that go into the channel, and the result, `none` while it runs. What a send
-- into a channel without receiver returns is dropped.
unfoldable pub send_parsed :
    List Packet × Result ℕ
    → List (List Packet) × Option (Result (Unit {0}))
    → List (List Packet) × Option (Result (Unit {0}))
send_parsed (packets, ok n) later = (packets ∷ later.0, later.1)
send_parsed (packets, err e) later = ([], some (err e))
send_parsed (packets, panic) later = ([], some panic)
send_parsed (packets, stuck) later = ([], some stuck)

unfoldable pub tx_impl : List Recv → List (List Packet) × Option (Result (Unit {0}))
tx_impl [] = ([], none)
tx_impl (socket_error why ∷ rest) = ([], some (err (std_io_error why)))
tx_impl (datagram buf ∷ rest) = send_parsed (from_bytes_into buf []) (tx_impl rest)

module _ {Addr Waker : Type 0} where
  -- One datagram of `recv_and_buffer_inline`: `continue` where it does not parse.
  unfoldable pub buffer_parsed :
      ConnectionManagedBuffers Addr Waker
      → List Packet × Result ℕ
      → Result (ConnectionManagedBuffers Addr Waker)
  buffer_parsed m (packets, ok n) = buffer_in_packets m packets >>= λ out. ok out.0
  buffer_parsed m (packets, err e) = ok m
  buffer_parsed m (packets, panic) = panic
  buffer_parsed m (packets, stuck) = stuck

  -- The loop: the buffers, and the error of the socket that ends it, if one does.
  unfoldable pub recv_and_buffer_inline :
      ConnectionManagedBuffers Addr Waker
      → List Recv
      → Result (ConnectionManagedBuffers Addr Waker × Option BluefinError)
  recv_and_buffer_inline m [] = ok (m, none)
  recv_and_buffer_inline m (socket_error why ∷ rest) = ok (m, some (std_io_error why))
  recv_and_buffer_inline m (datagram buf ∷ rest) =
      buffer_parsed m (from_bytes_into buf []) >>= λ m'. recv_and_buffer_inline m' rest

-- `start`: one task that buffers inline, or as many tasks as there are cores and one that buffers.
pub data Started : Type 0 where
  inline : Started
  producers : ℕ → Started

unfoldable pub start : ℕ → Started
start n = if n == 1 then inline else producers n

-- The packets of the datagrams that parse.
abbrev pub parsed_by : Result (List Packet) → List (List Packet)
parsed_by (ok packets) = packets ∷ []
parsed_by _ = []

unfoldable pub parsed : List (List ℕ) → List (List Packet)
parsed [] = []
parsed (buf ∷ bufs) = parsed_by (from_bytes buf) ++ parsed bufs

-- A datagram that parses, or is refused with an error; the others panic.
abbrev pub Refused : Result (List Packet) → Type 0
Refused (err e) = Unit
Refused _ = ⊥

abbrev pub Harmless : Result (List Packet) → Type 0
Harmless (ok packets) = Unit
Harmless (err e) = Unit
Harmless _ = ⊥

abbrev pub Parses : Result (List Packet) → Type 0
Parses (ok packets) = Unit
Parses _ = ⊥

module _ {Addr Waker : Type 0} where
  buffer_step :
      (r : Result (Buffered Addr Waker)) (more : List (List Packet))
      (next : ConnectionManagedBuffers Addr Waker
        → Result (ConnectionManagedBuffers Addr Waker × Option BluefinError))
      → ((m' : ConnectionManagedBuffers Addr Waker)
          → next m' ≡ (rx_impl m' more >>= λ x. ok (x, none)))
      → ((r >>= λ out. ok out.0) >>= next)
        ≡ ((r >>= λ out. rx_impl out.0 more) >>= λ x. ok (x, none))
  buffer_step (ok out) more next ih = ih out.0
  buffer_step (err e) more next ih = refl
  buffer_step panic more next ih = refl
  buffer_step stuck more next ih = refl

  buffer_parsed-step :
      (m : ConnectionManagedBuffers Addr Waker) (r : Result (List Packet))
      (out : List Packet × Result ℕ) (more : List (List Packet))
      (next : ConnectionManagedBuffers Addr Waker
        → Result (ConnectionManagedBuffers Addr Waker × Option BluefinError))
      → SameOutcome [] r out
      → Harmless r
      → ((m' : ConnectionManagedBuffers Addr Waker)
          → next m' ≡ (rx_impl m' more >>= λ x. ok (x, none)))
      → (buffer_parsed m out >>= next) ≡ (rx_impl m (parsed_by r ++ more) >>= λ x. ok (x, none))
  unfolding buffer_parsed rx_impl
  buffer_parsed-step m (ok packets) out more next e h ih =
      ap (λ o. buffer_parsed m o >>= next) e
      ∙ buffer_step (buffer_in_packets m packets) more next ih
  buffer_parsed-step m (err why) (ps, res) more next e h ih =
      ap (λ o. buffer_parsed m (ps, o) >>= next) e ∙ ih m
  buffer_parsed-step m panic out more next e h ih = absurd h
  buffer_parsed-step m stuck out more next e h ih = absurd h

  pub inline-rx_impl :
      (m : ConnectionManagedBuffers Addr Waker) (bufs : List (List ℕ))
      → All (λ b. Harmless (from_bytes b)) bufs
      → recv_and_buffer_inline m (map datagram bufs)
        ≡ (rx_impl m (parsed bufs) >>= λ x. ok (x, none))
  unfolding recv_and_buffer_inline parsed rx_impl
  inline-rx_impl m [] h = refl
  inline-rx_impl m (b ∷ bs) (h, hs) =
      buffer_parsed-step m (from_bytes b) (from_bytes_into b []) (parsed bs)
        (λ m'. recv_and_buffer_inline m' (map datagram bs)) (from_bytes_into-from_bytes b []) h
        (λ m'. inline-rx_impl m' bs hs)

send_parsed-ok :
    (r : Result (List Packet)) (out : List Packet × Result ℕ)
    (later : List (List Packet) × Option (Result (Unit {0})))
    → SameOutcome [] r out
    → Parses r
    → send_parsed out later ≡ (parsed_by r ++ later.0, later.1)
unfolding send_parsed
send_parsed-ok (ok packets) out later e h = ap (λ o. send_parsed o later) e
send_parsed-ok (err why) out later e h = absurd h
send_parsed-ok panic out later e h = absurd h
send_parsed-ok stuck out later e h = absurd h

tx_impl-front :
    (front : List (List ℕ)) (rest : List Recv)
    → All (λ b. Parses (from_bytes b)) front
    → tx_impl (map datagram front ++ rest) ≡ (parsed front ++ (tx_impl rest).0, (tx_impl rest).1)
unfolding tx_impl parsed
tx_impl-front [] rest h = refl
tx_impl-front (b ∷ bs) rest (h, hs) =
    ap (send_parsed (from_bytes_into b [])) (tx_impl-front bs rest hs)
    ∙ send_parsed-ok (from_bytes b) (from_bytes_into b [])
        (parsed bs ++ (tx_impl rest).0, (tx_impl rest).1) (from_bytes_into-from_bytes b []) h
    ∙ ap (λ x. (x, (tx_impl rest).1))
        (sym (append_assoc (parsed_by (from_bytes b)) (parsed bs) (tx_impl rest).0))

send_parsed-err :
    (r : Result (List Packet)) (out : List Packet × Result ℕ) (e : BluefinError)
    (later : List (List Packet) × Option (Result (Unit {0})))
    → SameOutcome [] r out
    → r ≡ err e
    → send_parsed out later ≡ ([], some (err e))
unfolding send_parsed
send_parsed-err r (packets, res) e later same refused =
    let failed : res ≡ err e = subst (λ r'. SameOutcome [] r' (packets, res)) refused same in
    ap (λ x. send_parsed (packets, x) later) failed

parsed-++ : (xs ys : List (List ℕ)) → parsed (xs ++ ys) ≡ parsed xs ++ parsed ys
unfolding parsed
parsed-++ [] ys = refl
parsed-++ (b ∷ xs) ys =
    ap (λ x. parsed_by (from_bytes b) ++ x) (parsed-++ xs ys)
    ∙ sym (append_assoc (parsed_by (from_bytes b)) (parsed xs) (parsed ys))

pub Parses-Harmless : (r : Result (List Packet)) → Parses r → Harmless r
Parses-Harmless (ok packets) h = tt
Parses-Harmless (err e) h = absurd h
Parses-Harmless panic h = absurd h
Parses-Harmless stuck h = absurd h

All-Harmless :
    (front : List (List ℕ)) (bad : List ℕ) (later : List (List ℕ)) (e : BluefinError)
    → All (λ b. Parses (from_bytes b)) front
    → from_bytes bad ≡ err e
    → All (λ b. Harmless (from_bytes b)) later
    → All (λ b. Harmless (from_bytes b)) (front ++ (bad ∷ later))
All-Harmless [] bad later e h refused hs = (subst Harmless (sym refused) tt, hs)
All-Harmless (b ∷ front) bad later e (h, hs) refused ls =
    (Parses-Harmless (from_bytes b) h, All-Harmless front bad later e hs refused ls)

-- The two ways to read a connection's socket, on datagrams `front` that parse, one that is refused
-- with the error `e`, and others that do not make the parser panic. The task of `tx_impl` hands the
-- packets of `front` to the channel, a vector for each datagram, and ends with `e`, whatever follows.
-- `recv_and_buffer_inline` does with the buffers what `rx_impl` does with the vectors of all datagrams
-- that parse, behind the refused one too, and goes on.
pub inline-tx_impl :
    {Addr Waker : Type 0} (m : ConnectionManagedBuffers Addr Waker) (front : List (List ℕ))
    (bad : List ℕ) (later : List (List ℕ)) (e : BluefinError)
    → All (λ b. Parses (from_bytes b)) front
    → from_bytes bad ≡ err e
    → All (λ b. Harmless (from_bytes b)) later
    → (tx_impl (map datagram front ++ (datagram bad ∷ map datagram later))
        ≡ (parsed front, some (err e)))
      × (recv_and_buffer_inline m (map datagram (front ++ (bad ∷ later)))
          ≡ (rx_impl m (parsed front ++ parsed later) >>= λ x. ok (x, none)))
unfolding tx_impl parsed
inline-tx_impl m front bad later e h refused hs = (
  tx_impl-front front (datagram bad ∷ map datagram later) h
      ∙ ap (λ (r : List (List Packet) × Option (Result (Unit {0}))). (parsed front ++ r.0, r.1))
          (send_parsed-err (from_bytes bad) (from_bytes_into bad []) e
            (tx_impl (map datagram later)) (from_bytes_into-from_bytes bad []) refused)
      ∙ ap (λ x. (x, some (err e))) (append-nil (parsed front)),
  inline-rx_impl m (front ++ (bad ∷ later)) (All-Harmless front bad later e h refused hs)
      ∙ ap (λ ds. rx_impl m ds >>= λ x. ok (x, none))
          (parsed-++ front (bad ∷ later)
            ∙ ap (λ r. parsed front ++ (parsed_by r ++ parsed later)) refused),
)
