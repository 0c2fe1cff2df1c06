-- ===== src/Packet.antt =====
-- src/protocol/binary_packet.rs: the header of the binary protocol, and the parsers of its responses.
-- Arithmetic that overflows panics, as it does in a build with overflow checks.
pub mod RoundTrip
pub mod Replies
pub mod Total
use rust_memcache.Prelude.{
  ℕ, zero, suc, ◌+◌, ◌-◌, Bytes, bytes, Bool, true, false, [], ◌∷◌, length, take, ltb, ◌==◌, ◌&&◌,
  Option, none, some, if◌then◌else◌,
}
use rust_memcache.Error.{
  MemcacheError, ServerError, bad_magic, bad_response, server_error, command_error, io_error,
  unexpected_eof, command_error_from, is_key_not_found, is_missing_or_exists,
}
use rust_memcache.Outcome.{Outcome, ok, err, panic, stuck}
use rust_memcache.Exec.{Exec, pure, raise, lift, on_result, ◌>>=◌, ◌>>◌}
use rust_memcache.Wire.{to_be, from_be}
use rust_memcache.Stream.{Stream, read_exact, write_all, supply}
use rust_memcache.HashMap
use rust_memcache.HashMap.{HashMap, key_bytes}
use rust_memcache.Text.Utf8.{string_from_utf8}
use rust_memcache.Value.{FromMemcacheValueExt}

abbrev pub ok_status : ℕ
ok_status = 0x0

pub data Opcode : Type 0 where
  get set add replace delete increment decrement flush stat noop version get_kq append : Opcode
  prepend touch start_auth : Opcode

-- `opcode as u8`
unfoldable pub opcode_u8 : Opcode → ℕ
opcode_u8 get = 0x00
opcode_u8 set = 0x01
opcode_u8 add = 0x02
opcode_u8 replace = 0x03
opcode_u8 delete = 0x04
opcode_u8 increment = 0x05
opcode_u8 decrement = 0x06
opcode_u8 flush = 0x08
opcode_u8 stat = 0x10
opcode_u8 noop = 0x0a
opcode_u8 version = 0x0b
opcode_u8 get_kq = 0x0d
opcode_u8 append = 0x0e
opcode_u8 prepend = 0x0f
opcode_u8 touch = 0x1c
opcode_u8 start_auth = 0x21

pub data Magic : Type 0 where
  request response : Magic

unfoldable pub magic_u8 : Magic → ℕ
magic_u8 request = 0x80
magic_u8 response = 0x81

pub record PacketHeader : Type 0 where
  pub magic : ℕ
  pub opcode : ℕ
  pub key_length : ℕ
  pub extras_length : ℕ
  pub data_type : ℕ
  pub vbucket_id_or_status : ℕ
  pub total_body_length : ℕ
  pub opaque : ℕ
  pub cas : ℕ

-- `Default::default()`
abbrev pub default_header : PacketHeader
default_header = record {
  magic = 0;
  opcode = 0;
  key_length = 0;
  extras_length = 0;
  data_type = 0;
  vbucket_id_or_status = 0;
  total_body_length = 0;
  opaque = 0;
  cas = 0;
}

pub record StoreExtras : Type 0 where
  pub flags : ℕ
  pub expiration : ℕ

pub record CounterExtras : Type 0 where
  pub amount : ℕ
  pub initial_value : ℕ
  pub expiration : ℕ

-- `write_u8`, `write_u16`, … of byteorder write all the bytes of the number.
abbrev pub write_be : ℕ → ℕ → Exec Stream (Unit {0})
write_be w n = write_all (to_be w n)

abbrev pub read_be : ℕ → Exec Stream ℕ
read_be w = do bs ← read_exact w; pure (from_be bs)

-- `PacketHeader::write`
unfoldable pub write_header : PacketHeader → Exec Stream (Unit {0})
write_header h = do
  write_be 1 h.magic
  write_be 1 h.opcode
  write_be 2 h.key_length
  write_be 1 h.extras_length
  write_be 1 h.data_type
  write_be 2 h.vbucket_id_or_status
  write_be 4 h.total_body_length
  write_be 4 h.opaque
  write_be 8 h.cas

-- `PacketHeader::read`
read_fields : ℕ → Exec Stream PacketHeader
read_fields magic = do
  opcode ← read_be 1
  key_length ← read_be 2
  extras_length ← read_be 1
  data_type ← read_be 1
  vbucket_id_or_status ← read_be 2
  total_body_length ← read_be 4
  opaque ← read_be 4
  cas ← read_be 8
  pure (record {
    magic = magic;
    opcode = opcode;
    key_length = key_length;
    extras_length = extras_length;
    data_type = data_type;
    vbucket_id_or_status = vbucket_id_or_status;
    total_body_length = total_body_length;
    opaque = opaque;
    cas = cas;
  })

unfoldable pub read_header : Exec Stream PacketHeader
unfolding read_fields magic_u8
read_header = do
  magic ← read_be 1
  if magic == magic_u8 response then read_fields magic else raise (server_error (bad_magic magic))

pub record Response : Type 0 where
  pub header : PacketHeader
  pub key : Bytes
  pub extras : Bytes
  pub value : Bytes

-- `Response::err`
unfoldable pub response_err : Response → Outcome Response
unfolding command_error_from
response_err r =
    if r.header.vbucket_id_or_status == ok_status
    then ok r
    else err (command_error (command_error_from r.header.vbucket_id_or_status))

unfoldable pub checked_sub : ℕ → ℕ → Outcome ℕ
checked_sub a b = if ltb a b then panic else ok (a - b)

unfoldable pub parse_response : Exec Stream Response
unfolding checked_sub
parse_response = do
  header ← read_header
  extras ← read_exact header.extras_length
  key ← read_exact header.key_length
  without_key ← lift (checked_sub header.total_body_length header.key_length)
  value_length ← lift (checked_sub without_key header.extras_length)
  value ← read_exact value_length
  pure (record { header = header; key = key; extras = extras; value = value })

-- `parse_response(..)?.err().map(|_| ())`
abbrev pub expect_ok : Exec Stream (Unit {0})
expect_ok = do r ← parse_response; lift (response_err r) >> pure tt

unfoldable pub parse_cas_response : Exec Stream Bool
unfolding response_err is_missing_or_exists
parse_cas_response = do
  r ← parse_response
  on_result (response_err r) (λ _. pure true)
      (λ e. if is_missing_or_exists e then ok false else err e)

unfoldable pub parse_version_response : Exec Stream Bytes
unfolding response_err
parse_version_response = do
  r ← parse_response
  r' ← lift (response_err r)
  lift (string_from_utf8 r'.value)

-- `Cursor::new(bs).read_u32::<BigEndian>()` and `read_u64`
unfoldable pub cursor_read : ℕ → Bytes → Outcome ℕ
cursor_read w bs =
    if ltb (length bs) w then err (io_error unexpected_eof) else ok (from_be (take w bs))

module _ {V : Type 0} (from : FromMemcacheValueExt V) where
  unfoldable pub parse_get_response : Exec Stream (Option V)
  unfolding response_err cursor_read is_key_not_found
  parse_get_response = do
    r ← parse_response
    on_result (response_err r)
        (λ r'. do
          flags ← lift (cursor_read 4 r'.extras)
          v ← lift (from.from_memcache_value r'.value flags (some r'.header.cas))
          pure (some v))
        (λ e. if is_key_not_found e then ok none else err e)

  unfoldable pub gets_item :
      (HashMap Bytes V → Exec Stream (HashMap Bytes V))
      → HashMap Bytes V
      → Response
      → Exec Stream (HashMap Bytes V)
  gets_item next result r = if r.header.opcode == opcode_u8 noop then pure result else do
    flags ← lift (cursor_read 4 r.extras)
    key ← lift (string_from_utf8 r.key)
    v ← lift (from.from_memcache_value r.value flags (some r.header.cas))
    next (HashMap.insert key v result)

  -- The loop of `parse_gets_response`, with the rounds that are left.
  unfoldable pub gets_loop : ℕ → HashMap Bytes V → Exec Stream (HashMap Bytes V)
  gets_loop zero result =
      raise (server_error (bad_response (bytes "Expected end of gets response")))
  gets_loop (suc rounds) result = do
    r ← parse_response
    r' ← lift (response_err r)
    gets_item (gets_loop rounds) result r'

  unfoldable pub parse_gets_response : ℕ → Exec Stream (HashMap Bytes V)
  unfolding gets_loop gets_item response_err cursor_read opcode_u8
  parse_gets_response max_responses = gets_loop (suc max_responses) []

-- `parse_delete_response` and `parse_touch_response` have the same body.
unfoldable pub parse_delete_response : Exec Stream Bool
unfolding response_err is_key_not_found
parse_delete_response = do
  r ← parse_response
  on_result (response_err r) (λ _. pure true) (λ e. if is_key_not_found e then ok false else err e)

unfoldable pub parse_touch_response : Exec Stream Bool
unfolding response_err is_key_not_found
parse_touch_response = do
  r ← parse_response
  on_result (response_err r) (λ _. pure true) (λ e. if is_key_not_found e then ok false else err e)

unfoldable pub parse_counter_response : Exec Stream ℕ
unfolding response_err cursor_read
parse_counter_response = do
  r ← parse_response
  r' ← lift (response_err r)
  lift (cursor_read 8 r'.value)

abbrev pub Stats : Type 0
Stats = HashMap Bytes Bytes

is_empty : Bytes → Bool
is_empty [] = true
is_empty (b ∷ bs) = false

-- The loop of `parse_stats_response`, on fuel: each response takes a byte at least.
stats_loop : ℕ → Stats → Exec Stream Stats
stats_loop zero result s = (stuck, s)
stats_loop (suc fuel) result s =
    (do
      r ← parse_response
      r' ← lift (response_err r)
      key ← lift (string_from_utf8 r'.key)
      value ← lift (string_from_utf8 r'.value)
      let next = stats_loop fuel (HashMap.insert key value result)
      if is_empty key && is_empty value then pure result else next)
      s

unfoldable pub parse_stats_response : Exec Stream Stats
unfolding stats_loop response_err is_empty
parse_stats_response s = stats_loop (suc (supply s)) [] s

unfoldable pub parse_start_auth_response : Exec Stream Bool
unfolding response_err
parse_start_auth_response = do r ← parse_response; lift (response_err r) >> pure true
