-- ===== src/Lib.antt =====
-- Bluefin, a reliable transport protocol over UDP.
--
-- A sender's payloads are packed into packets of at most 1500 bytes with consecutive numbers, and up
-- to ten of these into a datagram (bluefin/src/worker/writer.rs). The receiver parses datagrams
-- (bluefin/src/core), puts the packets in order in a circular buffer and hands out their bytes
-- (bluefin/src/net/ordered_bytes.rs). Acknowledged packet numbers are kept in a sliding window
-- (bluefin/src/utils/window.rs). A connection begins with a handshake of hellos and ends with an
-- exchange of FIN and FIN-ACK (bluefin/src/net/close_handler.rs). Tasks take the datagrams of a socket
-- to the buffers of their connection (bluefin/src/worker/reader.rs and conn_reader.rs), and the data of
-- a connection from its callers to the socket (writer.rs).
--
-- Files:
-- - Prelude: shared names; lists over native numbers, words and big-endian bytes, slices, and the
--   results of fallible code: `ok`, `err` with a `BluefinError` (bluefin-proto/src/error.rs), `panic`
--   for a Rust panic, `stuck` for a loop of the model without fuel.
-- - Header (bluefin/src/core/header.rs): `BluefinHeader` with `serialise`, `serialise_into` and
--   `deserialise`, the packet types and the security byte.
-- - Packet (bluefin/src/core/packet.rs): `BluefinPacket`, its builder, `from_bytes` and
--   `from_bytes_into`, which parse a datagram.
-- - Window (bluefin/src/utils/window.rs): `SlidingWindow` with `insert_packet_number`, `insert_range`
--   and `consume`.
-- - OrderedBytes (bluefin/src/net/ordered_bytes.rs): `OrderedBytes` with `buffer_in_packet`,
--   `consume` and `consume_bytes`.
-- - Writer (bluefin/src/worker/writer.rs): `consume_data_into`, `consume_data`,
--   `consume_acks_into` and `consume_acks` of `WriterHandler`. Writer.Pump has the handle and the task
--   `read_data` as one state with the two channels, and their steps: `send_bytes`, `read_data`,
--   `publish` (the last line of a round), `transmit` (the sender task), `flush` and the close number;
--   Writer.AckPump has `send_ack` and the task `read_ack` in the same way; Writer.Control has
--   `send_fin` and `send_fin_ack` against any answers of the socket.
-- - Close (bluefin/src/net/close_handler.rs): `CloseBuffer` and its transitions, as steps on events.
-- - Handshake (bluefin-proto/src/handshake/state_machine.rs, bluefin/src/net/mod.rs): the handshake
--   handler, and the tests for hellos.
-- - Conn (bluefin/src/net/connection.rs, ack_handler.rs): `ConnectionBuffer` and `AckBuffer` with the
--   polls of their futures, and the map `ConnectionManager`.
-- - Receive: Defs, Data, Closing and Eof are about bluefin/src/worker/conn_reader.rs; Read and Reads
--   about `ReaderRxChannel`, Tasks about the loops of conn_reader.rs around the socket, Route, Run and
--   Routes about `ReaderTxChannel` of bluefin/src/worker/reader.rs;
--   Hellos about `HelloState` (bluefin/src/net/mod.rs) between the reader and `accept`.
-- - Hosts (bluefin/src/net/server.rs, client.rs): `accept` and `connect`, cut at their awaits, and the
--   packet numbers that the two sides agree on.
-- - Shutdown and Connection (bluefin/src/net/connection.rs): `BluefinConnection::close` behind its
--   `flush`; the connection with its other methods, and two connections that close.
-- - Transfer: the way of the bytes through these parts, from the sender's queue to the receiver's
--   buffer; Flush, Sound, Flushed and Stall are about the pending bytes of the writer, Single and Stale
--   about the number for `close`, Laid, Numbers, Arrivals and Delivered about the datagrams between the
--   two hosts.
-- - Tool (bluefintool/src/main.rs): the command line tool; Args has `parse_args`, and Pipe `run_pipe`,
--   turn by turn, over what stdin, the shutdown watch and the connection answer.
-- - Ring (bluefin/src/utils/ring_buffer.rs): `RingBuffer`, a ring of fixed capacity.
-- - Tests: runs on concrete input.
--
-- Conventions: a `&mut` argument is an argument and a component of the result. A byte is a number
-- below 256 where a theorem needs it. u64 arithmetic wraps at 2 ^ 64, as in a release build. Bytes
-- and VecDeque are lists; the sharing of a `Bytes` is not visible in any operation modelled here.
--
-- Fuel: a parser loop has as much fuel as the datagram has bytes; every round takes 20 bytes or more.
-- The loops of the writer have fuel for each byte of room and each queued payload; every round takes
-- 20 bytes of room or a payload. The theorems state that the fuel suffices. The loops over the
-- reassembly buffer run 2000 rounds, which is the bound of the source itself.
--
-- Concurrency: what a task or a call does under a lock, or between two awaits, is one step, and a
-- theorem about tasks is about all orders of their steps. What arrives while `close` waits, and
-- whether a wait ends by its notification, are arguments, and so are the io errors of its `send_fin`,
-- and the locks of a connection that a panic has poisoned when a round of `ReaderTxChannel` needs them;
-- no other lock is taken to be poisoned. The test for a closed writer and the send into its channel are
-- one step. A poll has the test `will_wake` of wakers
-- and the task's waker as arguments; a waker that is woken is listed.
--
-- Not modelled: sockets and system calls, the channels of tokio and flume beyond the order and the
-- number of their elements, the random numbers (arguments here), Display and Debug texts, and the
-- texts of errors where they print numbers. Of the writer the wait of `send_bytes_async`, and of the
-- hosts `bind`, the time limits of the handshake and the start of the tasks are left out; so are the
-- benchmarks, and of the tool the texts that it prints.
pub mod Prelude
pub mod Header
pub mod Packet
pub mod Window
pub mod Tests
pub mod Tool
pub mod OrderedBytes
pub mod Close
pub mod Writer
pub mod Handshake
pub mod Ring
pub mod Transfer
pub mod Conn
pub mod Receive
pub mod Hosts
pub mod Shutdown
pub mod Connection
