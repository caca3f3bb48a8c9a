-- ===== src/Header/Kind.antt =====
-- bluefin/src/core/header.rs: the packet types and their four-bit codes.
use bluefin.Prelude.{ℕ, ◌==◌, if◌then◌else◌}
use bluefin.Prelude.{Result, ok, panic}

pub data PacketType : Type 0 where
  unencrypted_client_hello : PacketType
  unencrypted_server_hello : PacketType
  client_ack : PacketType
  unencrypted_data : PacketType
  ack : PacketType
  fin : PacketType
  fin_ack : PacketType

-- `self as u8`.
unfoldable pub as_u8 : PacketType → ℕ
as_u8 unencrypted_client_hello = 0
as_u8 unencrypted_server_hello = 1
as_u8 client_ack = 2
as_u8 unencrypted_data = 3
as_u8 ack = 4
as_u8 fin = 5
as_u8 fin_ack = 6

unfoldable pub from_u8 : ℕ → Result PacketType
from_u8 value =
    if value == 0x00
    then ok unencrypted_client_hello
    else if value == 0x01
    then ok unencrypted_server_hello
    else if value == 0x02
    then ok client_ack
    else if value == 0x03
    then ok unencrypted_data
    else if value == 0x04
    then ok ack
    else if value == 0x05
    then ok fin
    else if value == 0x06
    then ok fin_ack
    else panic
