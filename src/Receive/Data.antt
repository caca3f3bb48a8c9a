-- ===== src/Receive/Data.antt =====
-- bluefin/src/worker/conn_reader.rs: `rx_impl`, and what data packets do to the buffers of their
-- connection.
use bluefin.Prelude.{◌+◌, ◌^◌, ◌<◌, ◌≤◌, ◌≡◌, refl, sym, ◌∙◌, ap}
use bluefin.Prelude.{List, [], ◌∷◌, ◌++◌, length, All, Option, none}
use bluefin.Prelude.{Result, ok, BluefinError, ◌>>=◌}
use bluefin.Header.Kind.{PacketType, ack, fin, fin_ack, unencrypted_data, unencrypted_client_hello}
use bluefin.Header.Kind.{unencrypted_server_hello, client_ack}
use bluefin.Packet.{Packet}
use bluefin.OrderedBytes
use bluefin.OrderedBytes.{OrderedBytes}
use bluefin.OrderedBytes.Stream.{IsValid, stream, payloads}
use bluefin.OrderedBytes.Reassemble.{Has, Numbered, buffer_all}
use bluefin.OrderedBytes.Rows.{IsEmpty, buffer_all-stream}
use bluefin.Conn.{ConnectionBuffer, buffer_in_bytes}
use bluefin.Receive.Defs.{ConnectionManagedBuffers, Effects, buffer_data, buffer_in_data_packets}
use bluefin.Receive.Defs.{buffer_in_packets, route_packets}

-- `rx_impl` over the vectors of packets that come through the channel, the results dropped.
unfoldable pub rx_impl :
    {Addr Waker : Type 0}
    → ConnectionManagedBuffers Addr Waker
    → List (List Packet)
    → Result (ConnectionManagedBuffers Addr Waker)
rx_impl m [] = ok m
rx_impl m (packets ∷ rest) = buffer_in_packets m packets >>= λ out. rx_impl out.0 rest

-- A datagram whose first packet is of the data class.
unfoldable pub IsDataType : PacketType → Type 0
IsDataType ack = ⊥
IsDataType fin = ⊥
IsDataType fin_ack = ⊥
IsDataType _ = Unit

unfoldable pub IsData : List Packet → Type 0
IsData [] = Unit
IsData (p ∷ _) = IsDataType p.header.type_field

-- The packets of all datagrams, in the order of arrival.
unfoldable pub all_packets : List (List Packet) → List Packet
all_packets [] = []
all_packets (d ∷ ds) = d ++ all_packets ds

buffer_all-++ :
    (ob : OrderedBytes) (ps qs : List Packet)
    → buffer_all ob (ps ++ qs) ≡ buffer_all (buffer_all ob ps) qs
unfolding buffer_all
buffer_all-++ ob [] qs = refl
buffer_all-++ ob (p ∷ ps) qs = buffer_all-++ (OrderedBytes.buffer_in_packet ob p).0 ps qs

module _ {Addr Waker : Type 0} where
  pub buffer_data-buffer_all :
      (c : ConnectionBuffer Addr Waker) (e : Option BluefinError) (ps : List Packet)
      → (buffer_data c e ps).0 ≡ record c { ordered_bytes = buffer_all c.ordered_bytes ps }
  unfolding buffer_data buffer_all buffer_in_bytes
  buffer_data-buffer_all c e [] = refl
  buffer_data-buffer_all c e (p ∷ ps) =
      buffer_data-buffer_all
        (record c { ordered_bytes = (OrderedBytes.buffer_in_packet c.ordered_bytes p).0 }) _ ps

  -- What a datagram of data leaves of the buffers.
  abbrev pub with_data :
      ConnectionManagedBuffers Addr Waker → List Packet → ConnectionManagedBuffers Addr Waker
  with_data m ps = record m {
    conn_buff = record m.conn_buff { ordered_bytes = buffer_all m.conn_buff.ordered_bytes ps };
  }

  abbrev BuffersData : ConnectionManagedBuffers Addr Waker → List Packet → Type 0
  BuffersData m ps =
      (fx : Effects Waker) × (res : Result (Unit {0})) × (buffer_in_packets m ps
        ≡ ok (with_data m ps, fx, res))

  route_packets-data :
      (t : PacketType) (m : ConnectionManagedBuffers Addr Waker) (ps : List Packet)
      → IsDataType t
      → route_packets t m ps
        ≡ ok (
          record m { conn_buff = (buffer_in_data_packets m.conn_buff ps).0 },
          (buffer_in_data_packets m.conn_buff ps).1,
          (buffer_in_data_packets m.conn_buff ps).2,
        )
  unfolding route_packets IsDataType
  route_packets-data ack m ps h = absurd h
  route_packets-data fin m ps h = absurd h
  route_packets-data fin_ack m ps h = absurd h
  route_packets-data unencrypted_data m ps h = refl
  route_packets-data unencrypted_client_hello m ps h = refl
  route_packets-data unencrypted_server_hello m ps h = refl
  route_packets-data client_ack m ps h = refl

  pub buffer_in_packets-data :
      (m : ConnectionManagedBuffers Addr Waker) (ps : List Packet) → IsData ps → BuffersData m ps
  unfolding buffer_in_packets IsData buffer_all buffer_in_data_packets
  buffer_in_packets-data m [] h = (record { woken = []; fin_acks = []; events = [] }, ok tt, refl)
  buffer_in_packets-data m (p ∷ ps) h = (
    (buffer_in_data_packets m.conn_buff (p ∷ ps)).1,
    (buffer_in_data_packets m.conn_buff (p ∷ ps)).2,
    route_packets-data p.header.type_field m (p ∷ ps) h
        ∙ ap
            (λ c. ok (
              record m { conn_buff = c },
              (buffer_in_data_packets m.conn_buff (p ∷ ps)).1,
              (buffer_in_data_packets m.conn_buff (p ∷ ps)).2,
            ))
            (buffer_data-buffer_all m.conn_buff none (p ∷ ps)),
  )

  pub rx_impl-with_data :
      (m : ConnectionManagedBuffers Addr Waker) (ds : List (List Packet))
      → All IsData ds
      → rx_impl m ds ≡ ok (with_data m (all_packets ds))
  unfolding rx_impl all_packets buffer_all
  rx_impl-with_data m [] a = refl
  rx_impl-with_data m (d ∷ ds) a =
      ap (λ r. r >>= λ out. rx_impl out.0 ds) (buffer_in_packets-data m d a.0).2
      ∙ rx_impl-with_data (with_data m d) ds a.1
      ∙ ap (λ ob. ok (record m { conn_buff = record m.conn_buff { ordered_bytes = ob } }))
          (sym (buffer_all-++ m.conn_buff.ordered_bytes d (all_packets ds)))

  -- Datagrams of data reach a connection whose buffer is empty: together they carry packets with
  -- consecutive numbers from the first one that the buffer waits for on, at most 2000, each at least
  -- once, in any order and cut into datagrams in any way. Then the task does not panic, the payloads
  -- lie ready in the order of the numbers, and the buffers for acks and for the close are as before.
  pub rx_impl-stream :
      (m : ConnectionManagedBuffers Addr Waker) (ds : List (List Packet)) (ps : List Packet)
      → All IsData ds
      → IsValid m.conn_buff.ordered_bytes
      → IsEmpty m.conn_buff.ordered_bytes
      → Numbered m.conn_buff.ordered_bytes.smallest_packet_number ps
      → 0 < length ps
      → length ps ≤ 2000
      → m.conn_buff.ordered_bytes.smallest_packet_number + length ps ≤ 2 ^ 64
      → All (λ q. Has q ps) (all_packets ds)
      → All (λ p. Has p (all_packets ds)) ps
      → (m' : ConnectionManagedBuffers Addr Waker) × (rx_impl m ds ≡ ok m')
        × (stream m'.conn_buff.ordered_bytes ≡ payloads ps)
        × (m'.ack_buff ≡ m.ack_buff)
        × (m'.close_buff ≡ m.close_buff)
  rx_impl-stream m ds ps data_class v empty num some_sent few bound from all = (
    with_data m (all_packets ds),
    rx_impl-with_data m ds data_class,
    (buffer_all-stream ps (all_packets ds) m.conn_buff.ordered_bytes v empty num some_sent few bound
        from all).1,
    refl,
    refl,
  )
