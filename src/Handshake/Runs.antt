-- ===== src/Handshake/Runs.antt =====
-- The calls of a handshake handler, and who accepts which packet.
use bluefin.Prelude.{ℕ, ◌≡◌, refl, arith, true, false}
use bluefin.Prelude.{none, some, ok}
use bluefin.Packet.{Packet}
use bluefin.Handshake.Defs.{client, pack_leader, HandshakeHandler}
use bluefin.Handshake.Defs.{new, begin, poll_tx_client_hello}
use bluefin.Handshake.Hello.{is_hello_packet, is_client_ack_packet}

-- A client's handshake: one `begin` queues exactly one hello, with the random id and number, the
-- next poll hands it out, and later polls hand out nothing. A second `begin` is refused and
-- changes nothing.
pub begin_client :
    (id number : ℕ)
    → (h : HandshakeHandler) × (new client ≡ ok h)
      × ((begin id number h).1 ≡ ok tt)
      × ((poll_tx_client_hello (begin id number h).0).1
          ≡ ok (some (record { src_conn_id = id; packet_number = number })))
      × ((poll_tx_client_hello (poll_tx_client_hello (begin id number h).0).0).1 ≡ ok none)
      × ((begin id number (begin id number h).0).0 ≡ (begin id number h).0)
unfolding new begin poll_tx_client_hello
begin_client id number = (_, refl, refl, refl, refl, refl)

-- A hello that opens a connection on a pack leader is one for it alone: no client takes it for the
-- answer to its own hello, and the pack leader does not take it for the ack that ends a handshake.
pub is_hello_packet-pack_leader :
    (p : Packet)
    → is_hello_packet pack_leader p ≡ true
    → (is_hello_packet client p ≡ false) × (is_client_ack_packet pack_leader p ≡ false)
unfolding is_hello_packet is_client_ack_packet
is_hello_packet-pack_leader p e = ground (arith, e)
