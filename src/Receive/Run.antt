-- ===== src/Receive/Run.antt =====
-- bluefin/src/worker/reader.rs: one round of `ReaderTxChannel::run`, for a datagram that the socket
-- has given.
use bluefin.Prelude.{ℕ, Bool, true, false, not, ◌&&◌, ◌||◌, if◌then◌else◌}
use bluefin.Prelude.{List, [], ◌∷◌, Option, none, some, Result, ok, err, panic, stuck}
use bluefin.Packet.{Packet, from_bytes}
use bluefin.Handshake.{BluefinHost, pack_leader, is_client_ack_packet}
use bluefin.Conn.Manager.{Key, get, insert}
use bluefin.Receive.Defs.{ConnectionManagedBuffers}
use bluefin.Receive.Route.{HelloState, HelloAction, not_hello, routed, queued, handle_hello_single}
use bluefin.Receive.Route.{build_conn_buff_key, buffer_in_all, is_ack}

-- Of the two locks that a round takes, which is poisoned by a panic of a task that held it.
pub record Locks : Type 0 where
  pub conn_poisoned : Bool
  pub ack_poisoned : Bool

-- The connections of a host, and what its workers share with `accept()`.
pub record Host (Addr : Type 0) (Waker : Type 0) : Type 0 where
  pub hellos : HelloState Addr
  pub connections : List (Key × ConnectionManagedBuffers Addr Waker)

-- The id of this side: the slot that the hello got at a server, else what the packet says.
unfoldable pub src_conn_id_of : BluefinHost → ℕ → Packet → ℕ
src_conn_id_of pack_leader id p = id
src_conn_id_of _ id p = p.header.destination_connection_id

unfoldable pub key_of : Bool → ℕ → Packet → Key
key_of is_hello src_conn_id p =
    build_conn_buff_key is_hello src_conn_id p.header.source_connection_id

-- Whether `lock().unwrap()` panics for some packet, of the ack buffer or of the buffer of the connection.
unfoldable pub is_poisoned : Bool → BluefinHost → Locks → List Packet → Bool
is_poisoned is_hello host l [] = false
is_poisoned is_hello host l (p ∷ ps) =
    let later : Bool = is_poisoned is_hello host l ps in
    (if not (is_client_ack_packet host p) && (not is_hello && is_ack p.header.type_field)
      then l.ack_poisoned
      else l.conn_poisoned)
    || later

-- `locks` are those of the buffers under a key, when the round comes to them.
module _ {Addr Waker : Type 0} (locks : Key → Locks) where
  unfoldable pub delivered :
      BluefinHost
      → Host Addr Waker
      → Bool
      → Key
      → Addr
      → List Packet
      → Option (ConnectionManagedBuffers Addr Waker)
      → Result (Host Addr Waker × List Waker)
  delivered host h is_hello key a packets none = ok (h, [])
  delivered host h is_hello key a packets (some m) =
      let out : ConnectionManagedBuffers Addr Waker × List Waker =
        buffer_in_all is_hello host a m packets in
      if is_poisoned is_hello host (locks key) packets
      then panic
      else ok (record h { connections = (insert h.connections key out.0).0 }, out.1)

  -- The packets go to the buffers under the key, if there are any. The buffers are shared, so the
  -- entry changes where it stands. A panic ends the task.
  unfoldable pub deliver :
      BluefinHost
      → Host Addr Waker
      → Bool
      → Key
      → Addr
      → List Packet
      → Result (Host Addr Waker × List Waker)
  deliver host h is_hello key a packets =
      delivered host h is_hello key a packets (get h.connections key)

  unfoldable pub after_action :
      BluefinHost
      → Host Addr Waker
      → Addr
      → Packet
      → HelloState Addr × Result HelloAction
      → Result (Host Addr Waker × List Waker)
  after_action host h a p (s, ok not_hello) =
      deliver host (record h { hellos = s }) false
        (key_of false p.header.destination_connection_id p) a (p ∷ [])
  after_action host h a p (s, ok (routed id)) =
      deliver host (record h { hellos = s }) true (key_of true (src_conn_id_of host id p) p) a
        (p ∷ [])
  after_action host h a p (s, ok queued) = ok (record h { hellos = s }, [])
  after_action host h a p (s, err e) = err e
  after_action host h a p (s, panic) = panic
  after_action host h a p (s, stuck) = stuck

  unfoldable pub on_packets :
      BluefinHost → Host Addr Waker → Addr → List Packet → Result (Host Addr Waker × List Waker)
  on_packets host h a [] = ok (h, [])
  on_packets host h a (p ∷ []) = after_action host h a p (handle_hello_single host h.hellos p a)
  on_packets host h a (p ∷ q ∷ rest) =
      deliver host h false (key_of false p.header.destination_connection_id p) a (p ∷ q ∷ rest)

  -- The round: a datagram that does not parse is passed over.
  unfoldable pub run_round :
      BluefinHost → Host Addr Waker → List ℕ → Addr → Result (Host Addr Waker × List Waker)
  run_round host h bytes a = elim (from_bytes bytes) [
    | ok packets ↦ on_packets host h a packets
    | err _ ↦ ok (h, [])
    | panic ↦ panic
    | stuck ↦ stuck
  ]
