-- ===== src/Tests/Delivery.antt =====
-- Runs from the writer of one host to the buffers of the other, and of the tasks around the socket.
use bluefin.Prelude.{ℕ, ◌+◌, ◌^◌, ◌<◌, ◌≤◌, ◌≡◌, inl, inr, refl, arith}
use bluefin.Prelude.{List, [], ◌∷◌, ◌++◌, map, length, joined, All, true, false}
use bluefin.Prelude.{some, none, ok, err, read_error, ◌>>=◌}
use bluefin.Header.Kind.{unencrypted_data}
use bluefin.Handshake.{pack_leader}
use bluefin.Packet.{Packet, from_bytes}
use bluefin.OrderedBytes
use bluefin.OrderedBytes.Stream.{stream}
use bluefin.OrderedBytes.Rows.{new-IsValid, new-IsEmpty}
use bluefin.Close
use bluefin.Conn
use bluefin.Receive.Defs.{ConnectionManagedBuffers}
use bluefin.Receive.Data.{rx_impl, all_packets}
use bluefin.Receive.Tasks.{
  datagram, recv_and_buffer_inline, tx_impl, parsed, inline-tx_impl, Parses, Parses-Harmless,
}
use bluefin.Transfer.Sound.{IsProper, under_way}
use bluefin.Transfer.Arrivals.{packets_in}
use bluefin.Transfer.Delivered.{run-delivered}
use bluefin.Writer.Pump
use bluefin.Writer.Pump.{Course, Step, send, round, transmission}

-- Buffers of connection 7 that wait for packet 10, with the waker 5, of a peer at address 3.
abbrev buffers : ConnectionManagedBuffers ℕ ℕ
buffers = record {
  conn_buff = record {
    ordered_bytes = OrderedBytes.new 7 10;
    addr = some 3;
    waker = some 5;
    packet = none;
    dst_conn_id = 1;
    host_type = pack_leader;
    start_packet_number_is_set = true;
  };
  ack_buff = Conn.new_ack_buffer 20;
  close_buff = Close.new;
  fin_ack_tx = true;
  diag_tx = false;
}

abbrev steps : List Step
steps = send (65 ∷ 66 ∷ []) ∷ round ∷ transmission ∷ send (67 ∷ []) ∷ []

abbrev wire_datagram : List ℕ
wire_datagram =
    3 ∷ 0 ∷ 2 ∷ 0 ∷ 0 ∷ 0 ∷ 0 ∷ 1 ∷ 0 ∷ 0 ∷ 0 ∷ 7 ∷ 0 ∷ 0 ∷ 0 ∷ 0 ∷ 0 ∷ 0 ∷ 0 ∷ 10 ∷ 65 ∷ 66 ∷ []

abbrev course : Course
course = record {
  pump = record {
    src_conn_id = 1;
    dst_conn_id = 7;
    has_sender = true;
    closed = false;
    channel = (67 ∷ []) ∷ [];
    data_queue = [];
    next_packet_num = 11;
    next_packet_num_shared = 10;
    sending = [];
    wire = wire_datagram ∷ [];
    pending_bytes = 1;
  };
  accepted = (65 ∷ 66 ∷ []) ∷ (67 ∷ []) ∷ [];
}

run-course :
    Pump.run (record { pump = Pump.start (Pump.new 10 1 7); accepted = [] }) steps ≡ ok course
unfolding Pump.run Pump.step Pump.start Pump.new Pump.read_data Pump.read_round Pump.pack
    Pump.transmit Pump.send_bytes Pump.send_checked Pump.on_send Pump.transmit_first Pump.packed_one
    bluefin.Writer.consume_data_into bluefin.Writer.fill bluefin.Writer.finish
    bluefin.Writer.take_chunks bluefin.Writer.take_chunk bluefin.Writer.serialize_packet_direct
    bluefin.Header.Defs.serialise_into bluefin.Prelude.copy_at bluefin.Prelude.to_be_bytes
    bluefin.Writer.push_back_rest bluefin.Header.Defs.first_byte bluefin.Writer.Defs.data_header
    bluefin.Header.Security.serialise bluefin.Header.Defs.with_packet_number bluefin.Header.Defs.new
    bluefin.Header.Kind.as_u8 bluefin.Header.Security.default
run-course = refl

length-packets_in : length (packets_in course.pump.wire) ≡ 1
unfolding parsed all_packets from_bytes bluefin.Packet.Parse.from_bytes_loop
    bluefin.Packet.Parse.has_header bluefin.Packet.Parse.next_packet
    bluefin.Packet.Parse.data_packet bluefin.Packet.Parse.has_payload
    bluefin.Header.Defs.deserialise bluefin.Header.Kind.from_u8 bluefin.Header.Security.deserialise
    bluefin.Prelude.from_be_bytes
length-packets_in = refl

wire-Parses : Parses (from_bytes wire_datagram)
unfolding from_bytes bluefin.Packet.Parse.from_bytes_loop bluefin.Packet.Parse.has_header
    bluefin.Packet.Parse.next_packet bluefin.Packet.Parse.data_packet
    bluefin.Packet.Parse.has_payload bluefin.Header.Defs.deserialise bluefin.Header.Kind.from_u8
    bluefin.Header.Security.deserialise bluefin.Prelude.from_be_bytes
wire-Parses = tt

steps-IsProper : All IsProper steps
unfolding IsProper
steps-IsProper = ((omega arith, omega arith), (tt, (tt, ((omega arith, omega arith), tt))))

-- The one datagram arrives twice.
run-delivered_example :
    (m' : ConnectionManagedBuffers ℕ ℕ) × (recv_and_buffer_inline buffers
        (map datagram (wire_datagram ∷ wire_datagram ∷ []))
      ≡ ok (m', none))
    × (stream m'.conn_buff.ordered_bytes
          ++ under_way course.pump.sending course.pump.data_queue course.pump.channel
        ≡ joined course.accepted)
unfolding OrderedBytes.new
run-delivered_example =
    run-delivered buffers (new-IsValid 7 10) (new-IsEmpty 7 10) 1 7 steps course
      (wire_datagram ∷ wire_datagram ∷ []) (omega arith) (omega arith) (omega arith) steps-IsProper
      run-course (inl refl, (inl refl, tt)) (inl refl, tt) (omega (arith, length-packets_in))
      (omega (arith, length-packets_in)) (omega (arith, length-packets_in))

inline-tx_impl_example :
    (tx_impl (datagram wire_datagram ∷ datagram [] ∷ datagram wire_datagram ∷ [])
      ≡ (parsed (wire_datagram ∷ []), some (err (read_error "Array must be at least 20 bytes"))))
    × (recv_and_buffer_inline buffers
          (datagram wire_datagram ∷ datagram [] ∷ datagram wire_datagram ∷ [])
        ≡ (rx_impl buffers (parsed (wire_datagram ∷ []) ++ parsed (wire_datagram ∷ [])) >>= λ x.
            ok (x, none)))
inline-tx_impl_example =
    inline-tx_impl buffers (wire_datagram ∷ []) [] (wire_datagram ∷ [])
      (read_error "Array must be at least 20 bytes") (wire-Parses, tt) (unfold from_bytes in refl)
      (Parses-Harmless (from_bytes wire_datagram) wire-Parses, tt)
