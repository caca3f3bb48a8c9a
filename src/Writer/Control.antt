-- ===== src/Writer/Control.antt =====
-- bluefin/src/worker/writer.rs: the packets of the close, each alone in its datagram, and what the
-- parser of the receiver makes of it. What the socket answers is an argument.
use bluefin.Prelude.{ℕ, ◌^◌, ◌<◌, ◌≡◌, refl, sym, ap, ◌∙◌, zero, suc, false, arith}
use bluefin.Prelude.{String, Bool, List, [], ◌∷◌, ◌++◌, append-nil, replicate}
use bluefin.Prelude.{Option, none, some, Result, ok, err, panic, stuck, std_io_error}
use bluefin.Header
use bluefin.Header.{Header}
use bluefin.Header.Kind.{PacketType, fin, fin_ack}
use bluefin.Header.Write.{serialise_into-ok}
use bluefin.Packet
use bluefin.Packet.{Packet, from_bytes}
use bluefin.Packet.Parse.{has_payload}
use bluefin.Packet.Wire.{IsPacket, serialise_all}
use bluefin.Packet.RoundTrip.{from_bytes-serialise_all}
use bluefin.Receive.Defs.{DiagnosticEvent, fin_sent, fin_ack_sent, diag_try_send}

-- One round of the send loop: the socket takes the bytes, or does not and is waited for, a wait that
-- may fail.
pub data SendTry : Type 0 where
  taken : SendTry
  writable : SendTry
  broken : String → SendTry

-- The loop over `try_send`; `none` while it still waits.
unfoldable pub control_loop : List ℕ → List SendTry → Option (List (List ℕ) × Result (Unit {0}))
control_loop buf [] = none
control_loop buf (taken ∷ tries) = some (buf ∷ [], ok tt)
control_loop buf (writable ∷ tries) = control_loop buf tries
control_loop buf (broken why ∷ tries) = some ([], err (std_io_error why))

unfoldable pub control_header : ℕ → ℕ → PacketType → ℕ → Header
control_header src dst type n =
    Header.with_packet_number (Header.new src dst type 0 Header.Security.default) n

-- The loop behind the write of the header into the 20 bytes.
unfoldable pub send_written :
    Result (List ℕ × ℕ) → List SendTry → Option (List (List ℕ) × Result (Unit {0}))
send_written (ok out) tries = control_loop out.0 tries
send_written (err e) tries = some ([], err e)
send_written panic tries = some ([], panic)
send_written stuck tries = some ([], stuck)

unfoldable pub send_control_packet :
    ℕ → ℕ → PacketType → ℕ → List SendTry → Option (List (List ℕ) × Result (Unit {0}))
send_control_packet src dst type n tries =
    send_written (Header.serialise_into (control_header src dst type n) (replicate 20 0)) tries

-- The event behind a send that succeeds.
unfoldable pub report :
    Bool
    → DiagnosticEvent
    → List (List ℕ) × Result (Unit {0})
    → List (List ℕ) × List DiagnosticEvent × Result (Unit {0})
report wired event (out, ok done) = (out, diag_try_send wired event, ok tt)
report wired event (out, err e) = (out, [], err e)
report wired event (out, panic) = (out, [], panic)
report wired event (out, stuck) = (out, [], stuck)

-- The report, once the loop has ended.
unfoldable pub reported :
    Bool
    → DiagnosticEvent
    → Option (List (List ℕ) × Result (Unit {0}))
    → Option (List (List ℕ) × List DiagnosticEvent × Result (Unit {0}))
reported wired event none = none
reported wired event (some done) = some (report wired event done)

unfoldable pub send_fin :
    Bool
    → ℕ
    → ℕ
    → ℕ
    → List SendTry
    → Option (List (List ℕ) × List DiagnosticEvent × Result (Unit {0}))
send_fin wired src dst n tries =
    reported wired (fin_sent n) (send_control_packet src dst fin n tries)

unfoldable pub send_fin_ack :
    Bool
    → ℕ
    → ℕ
    → ℕ
    → List SendTry
    → Option (List (List ℕ) × List DiagnosticEvent × Result (Unit {0}))
send_fin_ack wired src dst n tries =
    reported wired (fin_ack_sent n) (send_control_packet src dst fin_ack n tries)

abbrev pub control_packet : ℕ → ℕ → PacketType → ℕ → Packet
control_packet src dst type n = record { header = control_header src dst type n; payload = [] }

-- The socket is full for `k` rounds.
control_loop-waits :
    (k : ℕ) (buf : List ℕ) (tries : List SendTry)
    → control_loop buf (replicate k writable ++ tries) ≡ control_loop buf tries
unfolding control_loop
control_loop-waits zero buf tries = refl
control_loop-waits (suc k) buf tries = control_loop-waits k buf tries

send_control_packet-loop :
    (src dst : ℕ) (type : PacketType) (n k : ℕ) (tries : List SendTry)
    → send_control_packet src dst type n (replicate k writable ++ tries)
      ≡ control_loop (Header.serialise (control_header src dst type n)) tries
unfolding send_control_packet send_written
send_control_packet-loop src dst type n k tries =
    rw
      (
        serialise_into-ok (control_header src dst type n) (replicate 20 0) (omega arith),
        append-nil (Header.serialise (control_header src dst type n)),
      )
      (control_loop-waits k _ tries)

from_bytes-control :
    (src dst : ℕ) (type : PacketType) (n : ℕ)
    → has_payload type ≡ false
    → src < 2 ^ 32
    → dst < 2 ^ 32
    → n < 2 ^ 64
    → from_bytes (Header.serialise (control_header src dst type n))
      ≡ ok (control_packet src dst type n ∷ [])
unfolding control_header Header.with_packet_number Header.new Header.Security.default
    Packet.serialise
from_bytes-control src dst type n bare hs hd hn =
    let p : Packet = control_packet src dst type n in
    let fits : IsPacket p = record {
      header_fits = record {
        version_fits = omega arith;
        payload_fits = omega arith;
        mask_fits = omega arith;
        source_fits = hs;
        destination_fits = hd;
        packet_number_fits = hn;
      };
      bytes_fit = tt;
      announced = rw bare refl;
    } in
    let wire : serialise_all (p ∷ []) ≡ Header.serialise p.header = append-nil _ ∙ append-nil _ in
    ap from_bytes (sym wire) ∙ from_bytes-serialise_all (p ∷ []) (λ e. cc) (fits, tt) (rw bare tt)

-- What a send of the header-only packet does once the socket takes it, or fails, after `k` full rounds.
abbrev pub Heard :
    Bool
    → PacketType
    → ℕ
    → ℕ
    → ℕ
    → DiagnosticEvent
    → (List SendTry → Option (List (List ℕ) × List DiagnosticEvent × Result (Unit {0})))
    → ℕ
    → List SendTry
    → String
    → Type 0
Heard wired type src dst n event send k later why =
    (buf : List ℕ) × (send (replicate k writable ++ (taken ∷ later))
      ≡ some (buf ∷ [], diag_try_send wired event, ok tt))
    × (from_bytes buf ≡ ok (control_packet src dst type n ∷ []))
    × (send (replicate k writable ++ (broken why ∷ later)) ≡ some ([], [], err (std_io_error why)))

-- Of the packets of the close, both `send_fin` and `send_fin_ack`: however many rounds the socket is
-- full, once it takes the bytes exactly one datagram has gone out, the call is `ok` with its one
-- event, and the parser reads that datagram as the one bare packet of that type and number. Should
-- the wait fail first, nothing goes out, no event is told and the error is the result. The ids are
-- below 2^32 and the number below 2^64.
pub send_fin-Heard :
    (wired : Bool) (src dst n k : ℕ) (later : List SendTry) (why : String)
    → src < 2 ^ 32
    → dst < 2 ^ 32
    → n < 2 ^ 64
    → Heard wired fin src dst n (fin_sent n) (send_fin wired src dst n) k later why
      × Heard wired fin_ack src dst n (fin_ack_sent n) (send_fin_ack wired src dst n) k later why
unfolding send_fin send_fin_ack report reported has_payload control_loop
send_fin-Heard wired src dst n k later why hs hd hn = (
  (
    Header.serialise (control_header src dst fin n),
    rw (send_control_packet-loop src dst fin n k (taken ∷ later)) refl,
    from_bytes-control src dst fin n refl hs hd hn,
    rw (send_control_packet-loop src dst fin n k (broken why ∷ later)) refl,
  ),
  (
    Header.serialise (control_header src dst fin_ack n),
    rw (send_control_packet-loop src dst fin_ack n k (taken ∷ later)) refl,
    from_bytes-control src dst fin_ack n refl hs hd hn,
    rw (send_control_packet-loop src dst fin_ack n k (broken why ∷ later)) refl,
  ),
)
