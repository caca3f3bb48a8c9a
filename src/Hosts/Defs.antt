-- ===== src/Hosts/Defs.antt =====
-- bluefin/src/net/server.rs and client.rs: `accept` and `connect`, cut at their awaits. The random ids
-- and packet numbers are arguments. A packet that is built goes to the socket. The buffers that a call
-- holds are those of its entry in the map, whose parts are shared.
use bluefin.Prelude.{ℕ, ◌==◌, add_u64, Bool, false, if◌then◌else◌, is_some}
use bluefin.Prelude.{List, Option, none, some, Result, ok, err, panic, stuck, ◌>>=◌}
use bluefin.Prelude.{connection_already_exists, no_such_connection_error}
use bluefin.Prelude.{unexpected_packet_number_error, unexpected}
use bluefin.Header.Kind.{unencrypted_client_hello, unencrypted_server_hello, client_ack}
use bluefin.Packet.{Packet}
use bluefin.Handshake.{BluefinHost, client, pack_leader, build_empty_encrypted_packet}
use bluefin.Close
use bluefin.Conn
use bluefin.Conn.{new_ack_buffer}
use bluefin.Conn.Manager.{Key, insert, remove}
use bluefin.Receive.Defs.{ConnectionManagedBuffers}
use bluefin.Receive.Hellos.{claim_hello}
use bluefin.Receive.Route.{HelloState}
use bluefin.Receive.Run.{Host}

-- The fields that `set_num_reader_workers` of both sides looks at.
unfoldable pub set_num_reader_workers : ℕ → ℕ → ℕ × Result (Unit {0})
set_num_reader_workers old n =
    if n == 0 then (old, err (unexpected "Cannot have zero reader values")) else (n, ok tt)

module _ {Addr Waker : Type 0} where
  unfoldable pub new_buffers : ℕ → BluefinHost → ℕ → Bool → ConnectionManagedBuffers Addr Waker
  new_buffers src_conn_id host smallest_ack diag_tx = record {
    conn_buff = Conn.new src_conn_id host;
    ack_buff = new_ack_buffer smallest_ack;
    close_buff = Close.new;
    fin_ack_tx = false;
    diag_tx = diag_tx;
  }

  -- `conn_manager.insert(key, …)`, and the error where the key was taken: the entry is replaced then.
  unfoldable pub register :
      Host Addr Waker
      → Key
      → ConnectionManagedBuffers Addr Waker
      → Host Addr Waker × Result (Unit {0})
  register h key m =
      let out : List (Key × ConnectionManagedBuffers Addr Waker)
          × Option (ConnectionManagedBuffers Addr Waker) =
        insert h.connections key m in
      (
        record h { connections = out.0 },
        if is_some out.1 then err connection_already_exists else ok tt,
      )

  -- The hello entry goes, and the connection's entry comes.
  unfoldable pub rekey : Host Addr Waker → Key → Key → Host Addr Waker × Result (Unit {0})
  rekey h hello_key key =
      let out : List (Key × ConnectionManagedBuffers Addr Waker)
          × Option (ConnectionManagedBuffers Addr Waker) =
        remove h.connections hello_key in
      elim out.1 [
        | none ↦ (record h { connections = out.0 }, err no_such_connection_error)
        | some m ↦ register (record h { connections = out.0 }) key m
      ]

  -- `accept` up to its first await: a hello that has waited, or `none`.
  unfoldable pub accept_begin :
      ℕ → ℕ → Bool → Host Addr Waker → Host Addr Waker × Result (Option (Packet × Addr))
  accept_begin src_conn_id packet_number diag_tx h =
      let made : Host Addr Waker × Result (Unit {0}) =
        register h (src_conn_id, 0)
          (new_buffers src_conn_id pack_leader (add_u64 packet_number 1) diag_tx) in
      let claimed : HelloState Addr × Option (Packet × Addr) =
        claim_hello made.0.hellos src_conn_id in
      elim made.1 [
        | ok _ ↦ (record made.0 { hellos = claimed.0 }, ok claimed.1)
        | err e ↦ (made.0, err e)
        | panic ↦ (made.0, panic)
        | stuck ↦ (made.0, stuck)
      ]

  -- Both sides at the other's hello: the connection gets its key, and a packet is built.
  unfoldable pub answer_hello :
      ℕ → Host Addr Waker → Packet → Result Packet → Host Addr Waker × Result Packet
  answer_hello src_conn_id h packet answer =
      let moved : Host Addr Waker × Result (Unit {0}) =
        rekey h (src_conn_id, 0) (src_conn_id, packet.header.source_connection_id) in
      if packet.header.packet_number == 0
      then (h, err unexpected_packet_number_error)
      else (moved.0, moved.1 >>= λ done. answer)

  -- `accept` from the client's hello to the server's.
  unfoldable pub accept_hello : ℕ → ℕ → Host Addr Waker → Packet → Host Addr Waker × Result Packet
  accept_hello src_conn_id packet_number h packet = answer_hello src_conn_id h packet (
      build_empty_encrypted_packet src_conn_id packet.header.source_connection_id packet_number
        unencrypted_server_hello)

  -- `connect` up to its await: the client's hello.
  unfoldable pub connect_begin : ℕ → ℕ → Bool → Host Addr Waker → Host Addr Waker × Result Packet
  connect_begin src_conn_id packet_number diag_tx h =
      let made : Host Addr Waker × Result (Unit {0}) =
        register h (src_conn_id, 0)
          (new_buffers src_conn_id client (add_u64 packet_number 2) diag_tx) in
      (
        made.0,
        made.1 >>= λ done.
            build_empty_encrypted_packet src_conn_id 0 packet_number unencrypted_client_hello,
      )

  -- `connect` from the server's hello to its ack.
  unfoldable pub connect_hello : ℕ → ℕ → Host Addr Waker → Packet → Host Addr Waker × Result Packet
  connect_hello src_conn_id packet_number h packet = answer_hello src_conn_id h packet (
      build_empty_encrypted_packet src_conn_id packet.header.source_connection_id
        (add_u64 packet_number 1) client_ack)

-- The end of `accept`: the ack is the next packet of the client.
unfoldable pub accept_ack : ℕ → Packet → Result (Unit {0})
accept_ack client_packet_num ack =
    if ack.header.packet_number == add_u64 client_packet_num 1
    then ok tt
    else err unexpected_packet_number_error

-- The number of the first data packet, which `BluefinConnection::new` gets: at the server, with the
-- number of its hello, and at the client.
unfoldable pub accept_first_number : ℕ → ℕ
accept_first_number packet_number = add_u64 packet_number 1

unfoldable pub connect_first_number : ℕ → ℕ
connect_first_number packet_number = add_u64 packet_number 2
