-- ===== src/Handshake/Hello.antt =====
-- bluefin/src/net/mod.rs: which packets open a connection, and the header-only packets of one.
use bluefin.Prelude.{ℕ, ◌==◌, Bool, true, false, ◌&&◌, ◌||◌, not, if◌then◌else◌, Result, ◌>>=◌}
use bluefin.Header
use bluefin.Header.Kind.{PacketType, unencrypted_client_hello, unencrypted_server_hello, client_ack}
use bluefin.Packet.{Packet, build, builder, with_header}
use bluefin.Handshake.Defs.{BluefinHost, client, pack_leader}

-- `==` on hosts and on packet types.
abbrev is_client : BluefinHost → Bool
is_client client = true
is_client _ = false

abbrev is_pack_leader : BluefinHost → Bool
is_pack_leader pack_leader = true
is_pack_leader _ = false

abbrev is_client_hello : PacketType → Bool
is_client_hello unencrypted_client_hello = true
is_client_hello _ = false

abbrev is_server_hello : PacketType → Bool
is_server_hello unencrypted_server_hello = true
is_server_hello _ = false

abbrev is_client_ack : PacketType → Bool
is_client_ack client_ack = true
is_client_ack _ = false

unfoldable pub is_hello_packet : BluefinHost → Packet → Bool
is_hello_packet host packet =
    let other_id : ℕ = packet.header.source_connection_id in
    let this_id : ℕ = packet.header.destination_connection_id in
    if is_pack_leader host && not (is_client_hello packet.header.type_field)
    then false
    else if is_client host && not (is_server_hello packet.header.type_field)
    then false
    else if is_client host && ((other_id == 0) || (this_id == 0))
    then false
    else if is_pack_leader host && (other_id == 0)
    then false
    else if is_pack_leader host && not (this_id == 0)
    then false
    else true

unfoldable pub is_client_ack_packet : BluefinHost → Packet → Bool
is_client_ack_packet host packet =
    let other_id : ℕ = packet.header.source_connection_id in
    let this_id : ℕ = packet.header.destination_connection_id in
    if is_pack_leader host
      && (is_client_ack packet.header.type_field && (not (other_id == 0) && not (this_id == 0)))
    then true
    else false

unfoldable pub build_empty_encrypted_packet : ℕ → ℕ → ℕ → PacketType → Result Packet
build_empty_encrypted_packet src_conn_id dst_conn_id packet_number packet_type = do
  security_fields ← Header.Security.new false 0
  build (
      with_header builder (
        Header.with_packet_number (Header.new src_conn_id dst_conn_id packet_type 0 security_fields)
          packet_number))
