-- ===== src/Ascii.antt =====
-- src/protocol/ascii.rs: the ASCII protocol. `AsciiProtocol` holds nothing but its reader, so its methods are
-- methods of the reader; `self.reader.get_mut()` is the reader's stream.
pub mod Responses
pub mod HeaderLine
pub mod Lines
pub mod StoreReply
pub mod Storing
pub mod Silence
pub mod Deleting
pub mod Faults
pub mod Counting
pub mod Retrieval
pub mod Gets
pub mod Commands
pub mod Answers
pub mod Total
use rust_memcache.Prelude.{
  ℕ, zero, suc, ◌+◌, ◌^◌, Bytes, bytes, bytes_eq, starts_with, Bool, true, false, not, List, [],
  ◌∷◌, ◌++◌, Option, none, some, length, drop, take, ltb, if◌then◌else◌,
}
use mathlib.Core.Option.{IsSome}
use rust_memcache.Error.{
  MemcacheError, ClientError, client_error, server_error, command_error, bad_response, key_exists,
  key_not_found, is_key_not_found, is_missing_or_exists,
}
use rust_memcache.Outcome
use rust_memcache.Outcome.{Outcome, ok, err, panic, stuck, handle, map_ok}
use rust_memcache.Exec.{Exec, pure, raise, lift, on_result, ◌>>=◌, ◌>>◌}
use rust_memcache.Response.{try_from}
use rust_memcache.Stream
use rust_memcache.Stream.{Stream, write_fmt, supply}
use rust_memcache.HashMap
use rust_memcache.HashMap.{HashMap, key_bytes}
use rust_memcache.Text.{trim_start_matches, trim_end_matches, split_spaces}
use rust_memcache.Text.Decimal.{to_decimal, parse_uint}
use rust_memcache.Text.Utf8.{string_from_utf8}
use rust_memcache.Value.{ToMemcacheValue, FromMemcacheValueExt, string_value}
use rust_memcache.Packet.{Stats}
use rust_memcache.Reader.{CappedLineReader, read_line, read_exact, on_stream}
use Commands.{Options, default_options, StoreCommand, command_text, crlf, check_cas, store_pieces}
use Responses.{
  Header, bad, version_response, ok_response, found_response, store_response, u64_response,
  header_response,
}

abbrev pub AsciiProtocol : Type 0
AsciiProtocol = CappedLineReader

-- `vec![0u8; length + 2]`: a vector holds at most `isize::MAX` bytes, and more is a panic.
unfoldable pub value_buffer : ℕ → Outcome ℕ
value_buffer n = if ltb (n + 2) (2 ^ 63) then ok (n + 2) else panic

module _ {V : Type 0} (to : ToMemcacheValue V) where
  unfoldable pub store : StoreCommand → Bytes → V → Options → Exec AsciiProtocol Bool
  unfolding check_cas store_pieces
  store command key value options = do
    lift (check_cas command options.cas)
    let noreply : Bytes = if options.noreply then bytes " noreply" else []
    on_stream (
        write_fmt (
          store_pieces command key (to.get_flags value) options.exptime (to.get_length value)
            options.cas noreply))
    on_stream (to.write_to value)
    on_stream (Stream.write crlf)
    on_stream Stream.flush
    if options.noreply then pure true else read_line store_response

  unfoldable pub cas : Bytes → V → ℕ → ℕ → Exec AsciiProtocol Bool
  unfolding store is_missing_or_exists
  cas key value expiration id r =
      let options = record default_options { exptime = expiration; cas = some id } in
      let (o, r') = store StoreCommand.cas key value options r in
      (handle o ok (λ e. if is_missing_or_exists e then ok false else err e), r')

  -- `.map(|_| ())`: "NOT_STORED" is dropped here.
  unfoldable pub set : Bytes → V → ℕ → Exec AsciiProtocol (Unit {0})
  unfolding store
  set key value expiration =
      store StoreCommand.set key value (record default_options { exptime = expiration }) >> pure tt

  unfoldable pub add : Bytes → V → ℕ → Exec AsciiProtocol (Unit {0})
  unfolding store
  add key value expiration =
      store StoreCommand.add key value (record default_options { exptime = expiration }) >> pure tt

  unfoldable pub replace : Bytes → V → ℕ → Exec AsciiProtocol (Unit {0})
  unfolding store
  replace key value expiration =
      store StoreCommand.replace key value (record default_options { exptime = expiration })
      >> pure tt

  unfoldable pub append : Bytes → V → Exec AsciiProtocol (Unit {0})
  unfolding store
  append key value = store StoreCommand.append key value default_options >> pure tt

  unfoldable pub prepend : Bytes → V → Exec AsciiProtocol (Unit {0})
  unfolding store
  prepend key value = store StoreCommand.prepend key value default_options >> pure tt

unfoldable pub auth : Bytes → Bytes → Exec AsciiProtocol (Unit {0})
unfolding set
auth username password = set string_value (bytes "auth") (username ++ (bytes " " ++ password)) 0

-- The count that `write` returns is not looked at.
unfoldable pub version : Exec AsciiProtocol Bytes
version = do
  on_stream (Stream.write (bytes "version\r\n"))
  on_stream Stream.flush
  read_line version_response

unfoldable pub flush : Exec AsciiProtocol (Unit {0})
flush = do on_stream (write_fmt (bytes "flush_all\r\n" ∷ [])); read_line ok_response

unfoldable pub flush_with_delay : ℕ → Exec AsciiProtocol (Unit {0})
flush_with_delay delay = do
  on_stream (write_fmt (bytes "flush_all " ∷ to_decimal delay ∷ crlf ∷ []))
  on_stream Stream.flush
  read_line ok_response

module _ {V : Type 0} (from : FromMemcacheValueExt V) where
  -- What follows the header of a value: the value and its CR LF.
  unfoldable pub read_value : Header → Exec AsciiProtocol (Option (Bytes × V))
  unfolding value_buffer
  read_value h = do
    n ← lift (value_buffer h.length)
    value ← read_exact n
    if not (bytes_eq (drop h.length value) crlf)
        then (do text ← lift (string_from_utf8 value); lift (bad text))
        else (do
          v ← lift (from.from_memcache_value (take h.length value) h.flags h.cas)
          pure (some (h.key, v)))

  unfoldable pub read_if_value : Option Header → Exec AsciiProtocol (Option (Bytes × V))
  read_if_value none = pure none
  read_if_value (some h) = read_value h

  unfoldable pub parse_get_response : Bool → Exec AsciiProtocol (Option (Bytes × V))
  unfolding read_if_value
  parse_get_response has_cas = do result ← read_line (header_response has_cas); read_if_value result

  -- What `get` does after the first response.
  unfoldable pub get_rest : Bytes → Option (Bytes × V) → Exec AsciiProtocol (Option V)
  get_rest key none = pure none
  get_rest key (some (k, v)) =
      if not (bytes_eq k key) then lift (bad (bytes "key doesn't match in the response")) else do
        next ← parse_get_response false
        elim next [
          | none ↦ pure (some v)
          | some kv ↦ lift (bad (bytes "Expected end of get response"))
        ]

  -- The stream is not flushed here.
  unfoldable pub get : Bytes → Exec AsciiProtocol (Option V)
  unfolding get_rest
  get key = do
    on_stream (write_fmt (bytes "get " ∷ key ∷ crlf ∷ []))
    first ← parse_get_response false
    get_rest key first

  gets_item :
      (HashMap Bytes V → Exec AsciiProtocol (HashMap Bytes V))
      → HashMap Bytes V
      → Option (Bytes × V)
      → Exec AsciiProtocol (HashMap Bytes V)
  gets_item next result none = pure result
  gets_item next result (some (key, value)) = next (HashMap.insert key value result)

  -- The loop of `gets`, with the rounds that are left.
  gets_loop : ℕ → HashMap Bytes V → Exec AsciiProtocol (HashMap Bytes V)
  gets_loop zero result = lift (bad (bytes "Expected end of gets response"))
  gets_loop (suc rounds) result = do
    item ← parse_get_response true
    gets_item (gets_loop rounds) result item

-- `keys.join(" ")`
unfoldable pub join_spaces : List Bytes → Bytes
join_spaces [] = []
join_spaces (key ∷ []) = key
join_spaces (key ∷ other ∷ keys) = key ++ (bytes " " ++ join_spaces (other ∷ keys))

module _ {V : Type 0} (from : FromMemcacheValueExt V) where
  -- The stream is not flushed here.
  unfoldable pub gets : List Bytes → Exec AsciiProtocol (HashMap Bytes V)
  unfolding gets_loop gets_item join_spaces
  gets keys = do
    on_stream (write_fmt (bytes "gets " ∷ join_spaces keys ∷ crlf ∷ []))
    gets_loop from (suc (length keys)) []

unfoldable pub delete : Bytes → Exec AsciiProtocol Bool
delete key = do
  on_stream (write_fmt (bytes "delete " ∷ key ∷ crlf ∷ []))
  on_stream Stream.flush
  read_line (found_response (bytes "DELETED\r\n"))

-- The stream is not flushed here.
unfoldable pub increment : Bytes → ℕ → Exec AsciiProtocol ℕ
increment key amount = do
  on_stream (write_fmt (bytes "incr " ∷ key ∷ bytes " " ∷ to_decimal amount ∷ crlf ∷ []))
  read_line u64_response

unfoldable pub decrement : Bytes → ℕ → Exec AsciiProtocol ℕ
decrement key amount = do
  on_stream (write_fmt (bytes "decr " ∷ key ∷ bytes " " ∷ to_decimal amount ∷ crlf ∷ []))
  read_line u64_response

unfoldable pub touch : Bytes → ℕ → Exec AsciiProtocol Bool
touch key expiration = do
  on_stream (write_fmt (bytes "touch " ∷ key ∷ bytes " " ∷ to_decimal expiration ∷ crlf ∷ []))
  on_stream Stream.flush
  read_line (found_response (bytes "TOUCHED\r\n"))

-- The callback of `stats`: whether the loop goes on, and the map. A line other than "END" ends the loop.
stat_entry : Bytes → Stats → List Bytes → Outcome (Bool × Stats)
stat_entry s stats (word ∷ key ∷ value ∷ rest) =
    ok (true, HashMap.insert key (trim_start_matches (bytes "STAT " ++ key) s) stats)
stat_entry s stats _ = bad s

unfoldable pub stats_response : Stats → Bytes → Outcome (Bool × Stats)
unfolding stat_entry
stats_response stats response =
    if not (bytes_eq response (bytes "END\r\n"))
    then ok (false, stats)
    else Outcome.◌>>=◌ (try_from response) (λ s.
      if not (starts_with s (bytes "STAT"))
      then bad s
      else stat_entry s stats (split_spaces (trim_end_matches crlf s)))

stats_loop : ℕ → Stats → Exec AsciiProtocol Stats
stats_loop zero stats r = (stuck, r)
stats_loop (suc fuel) stats r =
    let again = λ (stats' : Stats). stats_loop fuel stats' in
    (read_line (stats_response stats) >>= λ status.
    if status.0 then again status.1 else pure status.1)
      r

-- No response goes on with the loop, so that one round is enough.
unfoldable pub stats : Exec AsciiProtocol Stats
unfolding stats_loop stats_response
stats r =
    (on_stream (Stream.write (bytes "stats\r\n"))
        >> on_stream Stream.flush
        >> stats_loop (suc (supply r.inner)) [])
      r
