-- ===== src/Conn/Defs.antt =====
-- bluefin/src/net/connection.rs: `ConnectionBuffer` and the poll of `HandshakeConnectionBuffer`.
-- `SocketAddr`, `Waker` and `will_wake` are parameters.
use bluefin.Prelude.{ℕ, Bool, true, false, if◌then◌else◌, is_some, List, add_u64}
use bluefin.Prelude.{
  Option, none, some, Result, ok, err, panic, stuck, unexpected, buffer_full_error,
}
use bluefin.Packet.{Packet}
use bluefin.OrderedBytes
use bluefin.OrderedBytes.{OrderedBytes, ConsumeResult}
use bluefin.Handshake.{BluefinHost, client, pack_leader, pack_follower}

pub record ConnectionBuffer (Addr : Type 0) (Waker : Type 0) : Type 0 where
  pub ordered_bytes : OrderedBytes
  pub addr : Option Addr
  pub waker : Option Waker
  pub packet : Option Packet
  pub dst_conn_id : ℕ
  pub host_type : BluefinHost
  pub start_packet_number_is_set : Bool

-- The buffer after a call, and the result.
abbrev pub Called : Type 0 → Type 0 → Type 0 → Type 0
Called Addr Waker A = ConnectionBuffer Addr Waker × Result A

-- The first packet of a handshake says where the data begins: two behind a client's hello, whose
-- ack comes between, and one behind a server's.
unfoldable pub start_number : BluefinHost → OrderedBytes → ℕ → OrderedBytes
start_number pack_leader ob packet_num =
    OrderedBytes.set_start_packet_number ob (add_u64 packet_num 2)
start_number client ob packet_num = OrderedBytes.set_start_packet_number ob (add_u64 packet_num 1)
start_number pack_follower ob packet_num = ob

module _ {Addr Waker : Type 0} where
  unfoldable pub new : ℕ → BluefinHost → ConnectionBuffer Addr Waker
  new src_conn_id host = record {
    ordered_bytes = OrderedBytes.new src_conn_id 0;
    addr = none;
    waker = none;
    packet = none;
    dst_conn_id = 0;
    host_type = host;
    start_packet_number_is_set = false;
  }

  unfoldable pub set_dst_conn_id : ConnectionBuffer Addr Waker → ℕ → ConnectionBuffer Addr Waker
  set_dst_conn_id c id = record c { dst_conn_id = id }

  unfoldable pub buffer_in_addr : ConnectionBuffer Addr Waker → Addr → Called Addr Waker (Unit {0})
  buffer_in_addr c a =
      if is_some c.addr
      then (c, err (unexpected "Address already exists"))
      else (record c { addr = some a }, ok tt)

  unfoldable pub buffer_in_bytes :
      ConnectionBuffer Addr Waker → Packet → Called Addr Waker (Unit {0})
  buffer_in_bytes c p =
      let out : OrderedBytes × Result (Unit {0}) =
        OrderedBytes.buffer_in_packet c.ordered_bytes p in
      (record c { ordered_bytes = out.0 }, out.1)

  unfoldable pub buffer_in_packet :
      ConnectionBuffer Addr Waker → Packet → Called Addr Waker (Unit {0})
  buffer_in_packet c p =
      if is_some c.packet
      then (
        c,
        err (
            buffer_full_error "Buffer already contains a packet. Could not buffer another packet."),
      )
      else (
        (if c.start_packet_number_is_set then record c { packet = some p } else record c {
          packet = some p;
          ordered_bytes = start_number c.host_type c.ordered_bytes p.header.packet_number;
          start_packet_number_is_set = true;
        }),
        ok tt,
      )

  -- The result of the ordered bytes, with the peer's address.
  unfoldable pub with_addr :
      {B : Type 0}
      → ConnectionBuffer Addr Waker
      → Addr
      → OrderedBytes × B × Result ConsumeResult
      → ConnectionBuffer Addr Waker × B × Result (ConsumeResult × Addr)
  with_addr c a (ob, out, ok r) = (record c { ordered_bytes = ob }, out, ok (r, a))
  with_addr c a (ob, out, err e) = (record c { ordered_bytes = ob }, out, err e)
  with_addr c a (ob, out, panic) = (record c { ordered_bytes = ob }, out, panic)
  with_addr c a (ob, out, stuck) = (record c { ordered_bytes = ob }, out, stuck)

  -- `consume`, with the caller's slice.
  unfoldable pub consume :
      ConnectionBuffer Addr Waker
      → ℕ
      → List ℕ
      → ConnectionBuffer Addr Waker × List ℕ × Result (ConsumeResult × Addr)
  consume c bytes_to_read buf = elim c.addr [
    | none ↦ (c, buf, err (unexpected "Cannot consume buffer because addr is field is none"))
    | some a ↦ with_addr c a (OrderedBytes.consume c.ordered_bytes bytes_to_read buf)
  ]

  unfoldable pub consume_bytes :
      ConnectionBuffer Addr Waker
      → List (List ℕ)
      → ℕ
      → ConnectionBuffer Addr Waker × List (List ℕ) × Result (ConsumeResult × Addr)
  consume_bytes c chunks max_packets = elim c.addr [
    | none ↦ (c, chunks, err (unexpected "Cannot consume buffer because addr is field is none"))
    | some a ↦ with_addr c a (OrderedBytes.consume_bytes c.ordered_bytes chunks max_packets)
  ]

  unfoldable pub peek : ConnectionBuffer Addr Waker → Result (Unit {0})
  peek c = elim c.addr [
    | none ↦ err (unexpected "Cannot consume buffer because addr is field is none")
    | some a ↦ OrderedBytes.peek c.ordered_bytes
  ]

  unfoldable pub set_waker : ConnectionBuffer Addr Waker → Waker → ConnectionBuffer Addr Waker
  set_waker c w = record c { waker = some w }

  unfoldable pub set_waker_if_changed :
      (Waker → Waker → Bool) → ConnectionBuffer Addr Waker → Waker → ConnectionBuffer Addr Waker
  set_waker_if_changed will_wake c w = elim c.waker [
    | some existing ↦ if will_wake existing w then c else record c { waker = some w }
    | none ↦ record c { waker = some w }
  ]

  -- `poll` of `HandshakeConnectionBuffer`: the packet with the address, or `none` for pending. The
  -- packet is taken even where there is no address.
  unfoldable pub poll_handshake :
      (Waker → Waker → Bool)
      → ConnectionBuffer Addr Waker
      → Waker
      → ConnectionBuffer Addr Waker × Option (Packet × Addr)
  poll_handshake will_wake c w =
      let taken : ConnectionBuffer Addr Waker = record c { packet = none } in
      elim c.packet [
        | none ↦ (set_waker_if_changed will_wake taken w, none)
        | some p ↦ elim c.addr [
          | none ↦ (set_waker_if_changed will_wake taken w, none)
          | some a ↦ (taken, some (p, a))
        ]
      ]
