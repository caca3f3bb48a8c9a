-- ===== src/Prelude/Errors.antt =====
-- bluefin-proto/src/error.rs: the error type, and the results of fallible code.
use Prim.Native.String.{String}
use mathlib.Core.Bool.{Bool, true, false}

pub data BluefinError : Type 0 where
  serialise_error : BluefinError
  deserialise_error : String → BluefinError
  buffer_does_not_exist : BluefinError
  buffer_full_error : String → BluefinError
  buffer_empty_error : BluefinError
  could_not_accept_connection_error : String → BluefinError
  handshake_error : String → BluefinError
  invalid_header_error : String → BluefinError
  large_payload_error : String → BluefinError
  read_error : String → BluefinError
  write_error : String → BluefinError
  cannot_open_stream_error : BluefinError
  too_many_open_connections_error : BluefinError
  no_such_connection_error : BluefinError
  connection_already_exists : BluefinError
  stream_already_exists : BluefinError
  no_such_waker_error : BluefinError
  invalid_socket_error : BluefinError
  unexpected_packet_number_error : BluefinError
  cannot_buffer_error : String → BluefinError
  no_such_stream_error : BluefinError
  std_io_error : String → BluefinError
  unexpected : String → BluefinError
  timed_out : String → BluefinError
  invalid_state : String → BluefinError
  connection_closed : BluefinError

-- `BluefinResult`, with the two other ways in which a call may end: a Rust panic, and, for a loop
-- of the model on fuel, that the fuel ran out.
pub data Result {ℓ} (A : Type ℓ) : Type ℓ where
  ok : A → Result A
  err : BluefinError → Result A
  panic : Result A
  stuck : Result A

infixl 5 ◌>>=◌ ◌>>◌
abbrev pub ◌>>=◌ {ℓ κ} : {A : Type ℓ} → {B : Type κ} → Result A → (A → Result B) → Result B
panic >>= next = panic
stuck >>= next = stuck
err why >>= next = err why
ok value >>= next = next value

abbrev pub ◌>>◌ {ℓ} : {B : Type ℓ} → Result (Unit {0}) → Result B → Result B
first >> second = first >>= λ done. second

-- An early return of an error.
abbrev pub guard : Bool → BluefinError → Result (Unit {0})
guard true e = ok tt
guard false e = err e

-- A check that panics: an index out of range, an `unwrap` or an `assert`.
abbrev pub assert : Bool → Result (Unit {0})
assert true = ok tt
assert false = panic

pub IsOk {ℓ} : {A : Type ℓ} → Result A → Type 0
IsOk (ok a) = Unit
IsOk _ = ⊥
