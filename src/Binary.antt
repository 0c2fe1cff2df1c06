-- ===== src/Binary.antt =====
-- src/protocol/binary.rs: the binary protocol. `BinaryProtocol` holds nothing but its stream, so its methods
-- are methods of the stream. A length is cast to the width of its header field by `%`.
pub mod Requests
pub mod Decode
pub mod Gets
pub mod Exchange
pub mod Storing
pub mod Admin
pub mod Framing
pub mod Total
use rust_memcache.Prelude.{
  ℕ, ◌+◌, ◌%◌, ◌^◌, Bytes, bytes, Bool, List, [], ◌∷◌, Option, none, some, length, ltb,
  if◌then◌else◌,
}
use rust_memcache.Outcome.{Outcome, ok, panic}
use rust_memcache.Exec.{Exec, pure, lift, ◌>>=◌, ◌>>◌}
use rust_memcache.Stream
use rust_memcache.Stream.{Stream, write_all, write_fmt}
use rust_memcache.HashMap.{HashMap}
use rust_memcache.Value.{ToMemcacheValue, FromMemcacheValueExt}
use rust_memcache.Packet.{
  Magic, Opcode, opcode_u8, magic_u8, PacketHeader, default_header, StoreExtras, CounterExtras,
  write_be, write_header, response_err, parse_response, expect_ok, parse_cas_response,
  parse_version_response, parse_get_response, parse_gets_response, parse_delete_response,
  parse_touch_response, parse_counter_response, Stats, parse_stats_response,
  parse_start_auth_response,
}

abbrev pub as_u16 : ℕ → ℕ
as_u16 n = n % 2 ^ 16

abbrev pub as_u32 : ℕ → ℕ
as_u32 n = n % 2 ^ 32

abbrev pub BinaryProtocol : Type 0
BinaryProtocol = Stream

-- The header of a request with no key and no body.
abbrev pub request_header : Opcode → PacketHeader
request_header opcode = record default_header {
  magic = magic_u8 Magic.request;
  opcode = opcode_u8 opcode;
}

unfoldable pub auth : Bytes → Bytes → Exec BinaryProtocol (Unit {0})
auth username password = do
  let key = bytes "PLAIN"
  write_header (record (request_header Opcode.start_auth) {
    key_length = as_u16 (length key);
    total_body_length = as_u32 (length key + length username + length password + 2);
  })
  write_all key
  write_fmt ((0 ∷ []) ∷ username ∷ (0 ∷ []) ∷ password ∷ [])
  Stream.flush
  parse_start_auth_response >> pure tt

unfoldable pub version : Exec BinaryProtocol Bytes
version = do write_header (request_header Opcode.version); Stream.flush; parse_version_response

unfoldable pub flush : Exec BinaryProtocol (Unit {0})
flush = do write_header (request_header Opcode.flush); Stream.flush; expect_ok

unfoldable pub flush_with_delay : ℕ → Exec BinaryProtocol (Unit {0})
flush_with_delay delay = do
  write_header (record (request_header Opcode.flush) { extras_length = 4; total_body_length = 4 })
  write_be 4 delay
  Stream.flush
  expect_ok

-- The header of a request whose body is its key.
abbrev pub key_header : Opcode → Bytes → PacketHeader
key_header opcode key = record (request_header opcode) {
  key_length = as_u16 (length key);
  total_body_length = as_u32 (length key);
}

module _ {V : Type 0} (from : FromMemcacheValueExt V) where
  unfoldable pub get : Bytes → Exec BinaryProtocol (Option V)
  get key = do
    write_header (key_header Opcode.get key)
    write_all key
    Stream.flush
    parse_get_response from

-- The first loop of `gets`: one quiet request for each key.
unfoldable pub write_get_kqs : List Bytes → Exec BinaryProtocol (Unit {0})
write_get_kqs [] = pure tt
write_get_kqs (key ∷ keys) = do
  write_header (key_header Opcode.get_kq key)
  write_all key
  write_get_kqs keys

module _ {V : Type 0} (from : FromMemcacheValueExt V) where
  -- There is no `flush` of the stream here.
  unfoldable pub gets : List Bytes → Exec BinaryProtocol (HashMap Bytes V)
  unfolding write_get_kqs
  gets keys = do
    write_get_kqs keys
    write_header (request_header Opcode.noop)
    parse_gets_response from (length keys)

abbrev pub cas_or_zero : Option ℕ → ℕ
cas_or_zero none = 0
cas_or_zero (some c) = c

module _ {V : Type 0} (to : ToMemcacheValue V) where
  unfoldable pub send_request : Opcode → Bytes → V → ℕ → Option ℕ → Exec BinaryProtocol (Unit {0})
  send_request opcode key value expiration cas = do
    let extras : StoreExtras = record { flags = to.get_flags value; expiration = expiration }
    write_header (record (request_header opcode) {
      key_length = as_u16 (length key);
      extras_length = 8;
      total_body_length = as_u32 (8 + length key + to.get_length value);
      cas = cas_or_zero cas;
    })
    write_be 4 extras.flags
    write_be 4 extras.expiration
    write_all key
    to.write_to value
    Stream.flush

  unfoldable pub store : Opcode → Bytes → V → ℕ → Option ℕ → Exec BinaryProtocol (Unit {0})
  unfolding send_request
  store opcode key value expiration cas = do send_request opcode key value expiration cas; expect_ok

  unfoldable pub cas : Bytes → V → ℕ → ℕ → Exec BinaryProtocol Bool
  cas key value expiration id = do
    send_request Opcode.set key value expiration (some id)
    parse_cas_response

  unfoldable pub set : Bytes → V → ℕ → Exec BinaryProtocol (Unit {0})
  set key value expiration = store Opcode.set key value expiration none

  unfoldable pub add : Bytes → V → ℕ → Exec BinaryProtocol (Unit {0})
  add key value expiration = store Opcode.add key value expiration none

  unfoldable pub replace : Bytes → V → ℕ → Exec BinaryProtocol (Unit {0})
  replace key value expiration = store Opcode.replace key value expiration none

  -- The common part of `append` and `prepend`.
  unfoldable pub send_concat : Opcode → Bytes → V → Exec BinaryProtocol (Unit {0})
  send_concat opcode key value = do
    write_header (record (request_header opcode) {
      key_length = as_u16 (length key);
      total_body_length = as_u32 (length key + to.get_length value);
    })
    write_all key
    to.write_to value
    Stream.flush

  unfoldable pub append : Bytes → V → Exec BinaryProtocol (Unit {0})
  append key value = do send_concat Opcode.append key value; expect_ok

  -- The status of the response is not looked at.
  unfoldable pub prepend : Bytes → V → Exec BinaryProtocol (Unit {0})
  prepend key value = do send_concat Opcode.prepend key value; parse_response >> pure tt

unfoldable pub delete : Bytes → Exec BinaryProtocol Bool
delete key = do
  write_header (key_header Opcode.delete key)
  write_all key
  Stream.flush
  parse_delete_response

-- The request of `increment` and `decrement`.
unfoldable pub send_counter : Opcode → Bytes → ℕ → Exec BinaryProtocol (Unit {0})
send_counter opcode key amount = do
  let extras : CounterExtras = record { amount = amount; initial_value = 0; expiration = 0 }
  write_header (record (request_header opcode) {
    key_length = as_u16 (length key);
    extras_length = 20;
    total_body_length = as_u32 (20 + length key);
  })
  write_be 8 extras.amount
  write_be 8 extras.initial_value
  write_be 4 extras.expiration
  write_all key
  Stream.flush

unfoldable pub increment : Bytes → ℕ → Exec BinaryProtocol ℕ
unfolding send_counter
increment key amount = do send_counter Opcode.increment key amount; parse_counter_response

unfoldable pub decrement : Bytes → ℕ → Exec BinaryProtocol ℕ
unfolding send_counter
decrement key amount = do send_counter Opcode.decrement key amount; parse_counter_response

-- An addition of `u32`s.
unfoldable pub add_u32 : ℕ → ℕ → Outcome ℕ
add_u32 a b = if ltb (a + b) (2 ^ 32) then ok (a + b) else panic

-- `key.len() as u32 + 4` adds after the cast.
unfoldable pub touch : Bytes → ℕ → Exec BinaryProtocol Bool
unfolding add_u32
touch key expiration = do
  total ← lift (add_u32 (as_u32 (length key)) 4)
  write_header (record (request_header Opcode.touch) {
    key_length = as_u16 (length key);
    extras_length = 4;
    total_body_length = total;
  })
  write_be 4 expiration
  write_all key
  Stream.flush
  parse_touch_response

unfoldable pub stats : Exec BinaryProtocol Stats
stats = do write_header (request_header Opcode.stat); Stream.flush; parse_stats_response
