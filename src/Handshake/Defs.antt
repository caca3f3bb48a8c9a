-- ===== src/Handshake/Defs.antt =====
-- bluefin-proto/src/handshake/state_machine.rs and context.rs: `HandshakeHandler`. The random
-- numbers that `rng()` draws are arguments.
use bluefin.Prelude.{ℕ, List, [], ◌∷◌, ◌++◌, Option, none, some}
use bluefin.Prelude.{Result, ok, err, panic, invalid_state}

pub data BluefinHost : Type 0 where
  client : BluefinHost
  pack_leader : BluefinHost
  pack_follower : BluefinHost

pub data State : Type 0 where
  server_start : State
  pending_accept : State
  recv_client_hello : State
  sent_server_hello : State
  recv_client_ack : State
  client_start : State
  requesting_accept : State
  sent_client_hello : State
  recv_server_hello : State
  sent_client_ack : State
  conn : State

pub record PendingAccept : Type 0 where
  pub src_conn_id : ℕ
  pub packet_number : ℕ

pub record Transmit : Type 0 where
  pub src_conn_id : ℕ
  pub packet_number : ℕ

pub record HandshakeHandler : Type 0 where
  pub state : State
  pub pending_accepts : List PendingAccept
  pub transmit_queue : List Transmit

-- `todo!()` panics.
unfoldable pub new : BluefinHost → Result HandshakeHandler
new client = ok (record { state = client_start; pending_accepts = []; transmit_queue = [] })
new pack_leader = ok (record { state = server_start; pending_accepts = []; transmit_queue = [] })
new pack_follower = panic

-- `begin`, with the random id and packet number. The text of the error also names the state.
unfoldable pub begin : ℕ → ℕ → HandshakeHandler → HandshakeHandler × Result (Unit {0})
begin id number h = elim h.state [
  | server_start ↦ (
    record h {
      pending_accepts =
          h.pending_accepts ++ (record { src_conn_id = id; packet_number = number } ∷ []);
      state = pending_accept;
    },
    ok tt,
  )
  | client_start ↦ (
    record h {
      transmit_queue =
          h.transmit_queue ++ (record { src_conn_id = id; packet_number = number } ∷ []);
      state = requesting_accept;
    },
    ok tt,
  )
  | _ ↦ (h, err (invalid_state "Cannot begin handshake at state"))
]

unfoldable pub poll_tx_client_hello : HandshakeHandler → HandshakeHandler × Result (Option Transmit)
poll_tx_client_hello h = elim h.state [
  | requesting_accept ↦ elim h.transmit_queue [
    | [] ↦ (h, ok none)
    | t ∷ queue ↦ (record h { transmit_queue = queue }, ok (some t))
  ]
  | _ ↦ (h, err (invalid_state "Cannot poll tx client hello"))
]
