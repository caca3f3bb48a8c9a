-- ===== src/Hosts/Start.antt =====
-- bluefin/src/net/server.rs and client.rs: where each side expects the other's data to begin.
use mathlib.Core.Path.{subst}
use bluefin.Prelude.{ℕ, ◌+◌, ◌^◌, ◌<◌, ◌≡◌, refl, sym, arith, add_u64}
use bluefin.Prelude.{Bool, true, false, Bool-cases, ==_iff, ltb, lt→ltb, inl, inr, some, ok, err}
use bluefin.Prelude.{unexpected_packet_number_error}
use bluefin.Packet.{Packet}
use bluefin.Handshake.{client, pack_leader}
use bluefin.OrderedBytes
use bluefin.Conn
use bluefin.Conn.{
  ConnectionBuffer, poll_handshake, set_waker_if_changed, buffer_in_addr, set_dst_conn_id,
}
use bluefin.Conn.{buffer_in_bytes, start_number}
use bluefin.Receive.Route.{buffer_to_conn_buffer, and_note, note_peer}
use bluefin.Hosts.Defs.{accept_ack, accept_first_number, connect_first_number}

module _ {Addr Waker : Type 0} (will_wake : Waker → Waker → Bool) (w : Waker) where
  -- A call registers its waker, and a packet of the handshake reaches its buffer.
  unfoldable pub handshake_packet :
      ConnectionBuffer Addr Waker → Packet → Addr → Bool → Bool → ConnectionBuffer Addr Waker
  handshake_packet c p a is_hello is_client_ack =
      (buffer_to_conn_buffer (set_waker_if_changed will_wake c w) p a is_hello is_client_ack).0

  again :
      (c : ConnectionBuffer Addr Waker)
      → set_waker_if_changed will_wake (record c { waker = some w }) w ≡ record c { waker = some w }
  unfolding set_waker_if_changed
  again c = elim (Bool-cases (will_wake w w)) [
    | inl same ↦ rw same refl
    | inr other ↦ rw other refl
  ]

  -- An `accept` that waits for its hello: it takes the hello `p` and then the client's ack, and the
  -- data that the server waits for afterwards begins where the client's data begins.
  pub accept-first_number :
      (id : ℕ) (p q : Packet) (a b : Addr)
      → q.header.packet_number ≡ add_u64 p.header.packet_number 1
      → (let c : ConnectionBuffer Addr Waker =
            handshake_packet (Conn.new id pack_leader) p a true false in
          let c' : ConnectionBuffer Addr Waker =
            handshake_packet (poll_handshake will_wake c w).0 q b false true in
          ((poll_handshake will_wake c w).1 ≡ some (p, a))
          × ((poll_handshake will_wake c' w).1 ≡ some (q, a))
          × (accept_ack p.header.packet_number q ≡ ok tt)
          × (c'.ordered_bytes.smallest_packet_number ≡ connect_first_number p.header.packet_number))
  unfolding handshake_packet poll_handshake start_number note_peer and_note accept_first_number
      connect_first_number accept_ack Conn.new Conn.buffer_in_packet Conn.set_waker_if_changed
      Conn.set_dst_conn_id buffer_to_conn_buffer buffer_in_addr OrderedBytes.set_start_packet_number
      OrderedBytes.new
  accept-first_number id p q a b e =
      let taken : ConnectionBuffer Addr Waker =
        (poll_handshake will_wake (handshake_packet (Conn.new id pack_leader) p a true false)
          w).0 in
      (let (acked, answered, begins) =
          subst
            (λ c.
              ((poll_handshake will_wake (buffer_to_conn_buffer c q b false true).0 w).1
                ≡ some (q, a))
              × (accept_ack p.header.packet_number q ≡ ok tt)
              × ((buffer_to_conn_buffer c q b false true).0.ordered_bytes.smallest_packet_number
                  ≡ connect_first_number p.header.packet_number))
            (sym (again taken))
            (
              refl,
              rw ((==_iff q.header.packet_number (add_u64 p.header.packet_number 1)).1 e) refl,
              refl,
            ) in
        (refl, acked, answered, begins))

  -- A `connect` that waits for the server's hello: it takes the hello, and the data that the client
  -- waits for afterwards begins where the server's data begins.
  pub connect-first_number :
      (id : ℕ) (p : Packet) (a : Addr)
      → (let c : ConnectionBuffer Addr Waker =
            handshake_packet (Conn.new id client) p a true false in
          ((poll_handshake will_wake c w).1 ≡ some (p, a))
          × (c.ordered_bytes.smallest_packet_number ≡ accept_first_number p.header.packet_number))
  unfolding handshake_packet poll_handshake start_number note_peer and_note accept_first_number
      connect_first_number accept_ack Conn.new Conn.buffer_in_packet Conn.set_waker_if_changed
      Conn.set_dst_conn_id buffer_to_conn_buffer buffer_in_addr OrderedBytes.set_start_packet_number
      OrderedBytes.new
  connect-first_number id p a = (refl, refl)

  -- An `accept` that finds its hello in the queue has never put it into its buffer. The buffer
  -- takes its first number from the client's ack, `n + 1`: it waits for `n + 3`, and refuses the
  -- client's first data packet, `n + 2`, as a packet of the past.
  pub accept_queued-refuses :
      (id n : ℕ) (q d : Packet) (b : Addr)
      → n + 3 < 2 ^ 64
      → q.header.packet_number ≡ add_u64 n 1
      → d.header.packet_number ≡ connect_first_number n
      → (let c : ConnectionBuffer Addr Waker =
            handshake_packet (Conn.new id pack_leader) q b false true in
          ((poll_handshake will_wake c w).1 ≡ some (q, b))
          × (accept_ack n q ≡ ok tt)
          × (buffer_in_bytes c d ≡ (c, err unexpected_packet_number_error)))
  unfolding handshake_packet poll_handshake start_number note_peer and_note accept_first_number
      connect_first_number accept_ack Conn.new Conn.buffer_in_packet Conn.set_waker_if_changed
      Conn.set_dst_conn_id buffer_to_conn_buffer buffer_in_addr OrderedBytes.set_start_packet_number
      OrderedBytes.new buffer_in_bytes OrderedBytes.buffer_in_packet
  accept_queued-refuses id n q d b bound e f =
      (refl, rw ((==_iff q.header.packet_number (add_u64 n 1)).1 e) refl, rw before refl)
    where
      before : ltb d.header.packet_number (add_u64 q.header.packet_number 2) ≡ true
      before = lt→ltb _ _ (omega (arith, bound, e, f))
