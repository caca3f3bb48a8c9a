-- ===== src/Receive/Route.antt =====
-- bluefin/src/worker/reader.rs: `ReaderTxChannel`, which finds the connection of a datagram, and
-- `HelloState` of bluefin/src/net/mod.rs. The two locks are not visible: a step is a whole round.
use bluefin.Prelude.{ℕ, ltb, Bool, true, false, not, ◌&&◌, if◌then◌else◌}
use bluefin.Prelude.{List, [], ◌∷◌, ◌++◌, length, none, some, Result, ok, err, panic, stuck}
use bluefin.Prelude.{no_such_waker_error}
use bluefin.Header.Kind.{PacketType, ack}
use bluefin.Packet.{Packet}
use bluefin.Handshake.{
  BluefinHost, client, pack_leader, pack_follower, is_hello_packet, is_client_ack_packet,
}
use bluefin.Conn
use bluefin.Conn.{ConnectionBuffer, AckBuffer, Called, buffer_in_bytes, buffer_in_addr}
use bluefin.Conn.{set_dst_conn_id, buffer_in_ack_packet, wake}
use bluefin.Receive.Defs.{ConnectionManagedBuffers}

abbrev pub max_queued_hellos : ℕ
max_queued_hellos = 64

pub record HelloState (Addr : Type 0) : Type 0 where
  pub pending_accept_ids : List ℕ
  pub hello_queue : List (Packet × Addr)

pub data HelloAction : Type 0 where
  not_hello : HelloAction
  routed : ℕ → HelloAction
  queued : HelloAction

module _ {Addr : Type 0} where
  -- The packet stays with the caller unless the action is `queued`. `unimplemented!` panics.
  unfoldable pub handle_hello_single :
      BluefinHost → HelloState Addr → Packet → Addr → HelloState Addr × Result HelloAction
  handle_hello_single host s p a =
      if not (is_hello_packet host p) then (s, ok not_hello) else elim host [
        | pack_leader ↦ elim s.pending_accept_ids [
          | id ∷ ids ↦ (record s { pending_accept_ids = ids }, ok (routed id))
          | [] ↦
              if ltb (length s.hello_queue) max_queued_hellos
              then (record s { hello_queue = s.hello_queue ++ ((p, a) ∷ []) }, ok queued)
              else (s, ok queued)
        ]
        | client ↦ (s, ok (routed 0))
        | pack_follower ↦ (s, panic)
      ]

unfoldable pub build_conn_buff_key : Bool → ℕ → ℕ → ℕ × ℕ
build_conn_buff_key is_hello src_conn_id dst_conn_id =
    if is_hello then (src_conn_id, 0) else (src_conn_id, dst_conn_id)

unfoldable pub is_ack : PacketType → Bool
is_ack ack = true
is_ack _ = false

module _ {Waker : Type 0} where
  unfoldable pub buffer_to_ack_buffer :
      AckBuffer Waker → Packet → AckBuffer Waker × List Waker × Result (Unit {0})
  buffer_to_ack_buffer b p =
      let out : AckBuffer Waker × Result (Unit {0}) = buffer_in_ack_packet b p in
      elim out.1 [
        | ok _ ↦ elim (wake out.0) [
          | ok w ↦ (out.0, w ∷ [], ok tt)
          | err e ↦ (out.0, [], err e)
          | panic ↦ (out.0, [], panic)
          | stuck ↦ (out.0, [], stuck)
        ]
        | err e ↦ (out.0, [], err e)
        | panic ↦ (out.0, [], panic)
        | stuck ↦ (out.0, [], stuck)
      ]

module _ {Addr Waker : Type 0} where
  -- The last lines: the peer's id is kept, and the waker woken.
  unfoldable pub note_peer :
      ConnectionBuffer Addr Waker
      → Packet
      → ConnectionBuffer Addr Waker × List Waker × Result (Unit {0})
  note_peer c p =
      let noted : ConnectionBuffer Addr Waker = set_dst_conn_id c p.header.source_connection_id in
      elim c.waker [ some w ↦ (noted, w ∷ [], ok tt) | none ↦ (noted, [], err no_such_waker_error) ]

  -- `?` on the result of a buffer.
  unfoldable pub and_note :
      Called Addr Waker (Unit {0})
      → (ConnectionBuffer Addr Waker → ConnectionBuffer Addr Waker)
      → Packet
      → ConnectionBuffer Addr Waker × List Waker × Result (Unit {0})
  and_note (c, ok _) next p = note_peer (next c) p
  and_note (c, err e) next p = (c, [], err e)
  and_note (c, panic) next p = (c, [], panic)
  and_note (c, stuck) next p = (c, [], stuck)

  unfoldable pub buffer_to_conn_buffer :
      ConnectionBuffer Addr Waker
      → Packet
      → Addr
      → Bool
      → Bool
      → ConnectionBuffer Addr Waker × List Waker × Result (Unit {0})
  buffer_to_conn_buffer c p a is_hello is_client_ack =
      if not is_hello && not is_client_ack
      then and_note (buffer_in_bytes c p) (λ c'. c') p
      else and_note (Conn.buffer_in_packet c p) (λ c'. (buffer_in_addr c' a).0) p

  unfoldable pub buffer_in_data :
      Bool
      → BluefinHost
      → Packet
      → Addr
      → ConnectionManagedBuffers Addr Waker
      → ConnectionManagedBuffers Addr Waker × List Waker × Result (Unit {0})
  buffer_in_data is_hello host p a m =
      let client_ack : Bool = is_client_ack_packet host p in
      if not client_ack && (not is_hello && is_ack p.header.type_field)
      then (let out : AckBuffer Waker × List Waker × Result (Unit {0}) =
            buffer_to_ack_buffer m.ack_buff p in
          (record m { ack_buff = out.0 }, out.1, out.2))
      else (let out : ConnectionBuffer Addr Waker × List Waker × Result (Unit {0}) =
            buffer_to_conn_buffer m.conn_buff p a is_hello client_ack in
          (record m { conn_buff = out.0 }, out.1, out.2))

  -- The loop over the packets; every result is dropped.
  unfoldable pub buffer_in_all :
      Bool
      → BluefinHost
      → Addr
      → ConnectionManagedBuffers Addr Waker
      → List Packet
      → ConnectionManagedBuffers Addr Waker × List Waker
  buffer_in_all is_hello host a m [] = (m, [])
  buffer_in_all is_hello host a m (p ∷ ps) =
      let out : ConnectionManagedBuffers Addr Waker × List Waker × Result (Unit {0}) =
        buffer_in_data is_hello host p a m in
      let rest : ConnectionManagedBuffers Addr Waker × List Waker =
        buffer_in_all is_hello host a out.0 ps in
      (rest.0, out.1 ++ rest.1)
