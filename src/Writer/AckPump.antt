-- ===== src/Writer/AckPump.antt =====
-- bluefin/src/worker/writer.rs: `send_ack` and the task `read_ack`. Whether the socket takes a datagram
-- when it is tried is an argument, by the number of the try in the round.
use bluefin.Prelude.{ℕ, zero, suc, Bool, true, false, ◌&&◌, if◌then◌else◌}
use bluefin.Prelude.{List, [], ◌∷◌, ◌++◌, take, drop, Option, none, some}
use bluefin.Prelude.{Result, ok, err, ◌>>=◌, write_error}
use bluefin.Writer.Acks.{AckData, consume_acks_into}

pub record AckPump : Type 0 where
  pub src_conn_id : ℕ
  pub dst_conn_id : ℕ
  pub has_sender : Bool
  pub channel : List AckData
  pub ack_queue : List AckData
  pub pending_send : Option (List ℕ)
  pub wire : List (List ℕ)

unfoldable pub new : ℕ → ℕ → AckPump
new src_conn_id dst_conn_id = record {
  src_conn_id = src_conn_id;
  dst_conn_id = dst_conn_id;
  has_sender = true;
  channel = [];
  ack_queue = [];
  pending_send = none;
  wire = [];
}

-- `send_ack`; the channel has no bound, and the task that reads it does not end.
unfoldable pub send_ack : AckPump → AckData → AckPump × Result (Unit {0})
send_ack p a =
    if p.has_sender
    then (record p { channel = p.channel ++ (a ∷ []) }, ok tt)
    else (p, err (write_error "Ack sender is not available"))

-- What a call of `consume_acks_into` leaves, by whether the socket takes its datagram.
unfoldable pub outcome : AckPump → List AckData → List ℕ → Bool → Bool → AckPump
outcome p queue datagram false taken = record p { ack_queue = queue }
outcome p queue datagram true true = record p {
  ack_queue = queue;
  wire = p.wire ++ (datagram ∷ []);
}
outcome p queue datagram true false = record p { ack_queue = queue; pending_send = some datagram }

-- The datagrams of a round, which end with the first one that the socket does not take.
unfoldable pub send_loop : ℕ → (ℕ → Bool) → AckPump → Result AckPump
send_loop zero takes p = ok p
send_loop (suc rounds) takes p =
    consume_acks_into p.ack_queue p.src_conn_id p.dst_conn_id [] >>= λ out.
    elim (out.2 && takes (suc rounds)) [
      | true ↦ send_loop rounds takes (outcome p out.0 out.1 out.2 true)
      | false ↦ ok (outcome p out.0 out.1 out.2 false)
    ]

-- Up to 20 acks are queued, and up to 12 datagrams tried; the task waits where there are none.
unfoldable pub batch : (ℕ → Bool) → AckPump → List AckData → Result AckPump
batch takes p [] = ok p
batch takes p (a ∷ acks) =
    send_loop 12 takes
      (record p { channel = drop 20 (a ∷ acks); ack_queue = p.ack_queue ++ take 20 (a ∷ acks) })

-- A round of `read_ack`: a datagram that is left over goes first.
unfoldable pub read_round : (ℕ → Bool) → AckPump → Option (List ℕ) → Result AckPump
read_round takes p none = batch takes p p.channel
read_round takes p (some datagram) = elim (takes 0) [
  | true ↦
      batch takes (record p { pending_send = none; wire = p.wire ++ (datagram ∷ []) }) p.channel
  | false ↦ ok p
]

unfoldable pub read_ack : (ℕ → Bool) → AckPump → Result AckPump
read_ack takes p = read_round takes p p.pending_send

pub data Step : Type 0 where
  send : AckData → Step
  round : (ℕ → Bool) → Step

-- The calls and the rounds, in any order.
unfoldable pub run : AckPump → List Step → Result AckPump
run p [] = ok p
run p (send a ∷ ss) = run (send_ack p a).0 ss
run p (round takes ∷ ss) = read_ack takes p >>= λ p'. run p' ss
