-- ===== src/Protocol.antt =====
-- src/protocol/mod.rs: a protocol is one of the two. `enum_dispatch` makes each method of `Protocol` the
-- method of the variant.
pub mod Total
use rust_memcache.Prelude.{ℕ, Bytes, Bool, List, Option}
use rust_memcache.Outcome.{Outcome}
use rust_memcache.Exec.{Exec}
use rust_memcache.Stream
use rust_memcache.Stream.{Stream}
use rust_memcache.HashMap.{HashMap}
use rust_memcache.Value.{ToMemcacheValue, FromMemcacheValueExt}
use rust_memcache.Packet.{Stats}
use rust_memcache.Reader.{on_stream}
use rust_memcache.Ascii
use rust_memcache.Ascii.{AsciiProtocol}
use rust_memcache.Binary
use rust_memcache.Binary.{BinaryProtocol}

pub data Protocol : Type 0 where
  ascii : AsciiProtocol → Protocol
  binary : BinaryProtocol → Protocol

-- The outcome, with the protocol put back into its variant.
abbrev pub variant : {S A : Type 0} → (S → Protocol) → Outcome A × S → Outcome A × Protocol
variant back (r, s) = (r, back s)

unfoldable pub dispatch :
    {A : Type 0} → Exec AsciiProtocol A → Exec BinaryProtocol A → Exec Protocol A
dispatch m n (ascii p) = variant ascii (m p)
dispatch m n (binary p) = variant binary (n p)

unfoldable pub auth : Bytes → Bytes → Exec Protocol (Unit {0})
auth username password = dispatch (Ascii.auth username password) (Binary.auth username password)

unfoldable pub version : Exec Protocol Bytes
version = dispatch Ascii.version Binary.version

unfoldable pub flush : Exec Protocol (Unit {0})
flush = dispatch Ascii.flush Binary.flush

unfoldable pub flush_with_delay : ℕ → Exec Protocol (Unit {0})
flush_with_delay delay = dispatch (Ascii.flush_with_delay delay) (Binary.flush_with_delay delay)

module _ {V : Type 0} (from : FromMemcacheValueExt V) where
  unfoldable pub get : Bytes → Exec Protocol (Option V)
  get key = dispatch (Ascii.get from key) (Binary.get from key)

  unfoldable pub gets : List Bytes → Exec Protocol (HashMap Bytes V)
  gets keys = dispatch (Ascii.gets from keys) (Binary.gets from keys)

module _ {V : Type 0} (to : ToMemcacheValue V) where
  unfoldable pub set : Bytes → V → ℕ → Exec Protocol (Unit {0})
  set key value expiration =
      dispatch (Ascii.set to key value expiration) (Binary.set to key value expiration)

  unfoldable pub cas : Bytes → V → ℕ → ℕ → Exec Protocol Bool
  cas key value expiration id =
      dispatch (Ascii.cas to key value expiration id) (Binary.cas to key value expiration id)

  unfoldable pub add : Bytes → V → ℕ → Exec Protocol (Unit {0})
  add key value expiration =
      dispatch (Ascii.add to key value expiration) (Binary.add to key value expiration)

  unfoldable pub replace : Bytes → V → ℕ → Exec Protocol (Unit {0})
  replace key value expiration =
      dispatch (Ascii.replace to key value expiration) (Binary.replace to key value expiration)

  unfoldable pub append : Bytes → V → Exec Protocol (Unit {0})
  append key value = dispatch (Ascii.append to key value) (Binary.append to key value)

  unfoldable pub prepend : Bytes → V → Exec Protocol (Unit {0})
  prepend key value = dispatch (Ascii.prepend to key value) (Binary.prepend to key value)

unfoldable pub delete : Bytes → Exec Protocol Bool
delete key = dispatch (Ascii.delete key) (Binary.delete key)

unfoldable pub increment : Bytes → ℕ → Exec Protocol ℕ
increment key amount = dispatch (Ascii.increment key amount) (Binary.increment key amount)

unfoldable pub decrement : Bytes → ℕ → Exec Protocol ℕ
decrement key amount = dispatch (Ascii.decrement key amount) (Binary.decrement key amount)

unfoldable pub touch : Bytes → ℕ → Exec Protocol Bool
touch key expiration = dispatch (Ascii.touch key expiration) (Binary.touch key expiration)

unfoldable pub stats : Exec Protocol Stats
stats = dispatch Ascii.stats Binary.stats

-- The `match **conn` of `Client::set_read_timeout` and `Client::set_write_timeout`.
unfoldable pub set_read_timeout : Option ℕ → Exec Protocol (Unit {0})
set_read_timeout timeout =
    dispatch (on_stream (Stream.set_read_timeout timeout)) (Stream.set_read_timeout timeout)

unfoldable pub set_write_timeout : Option ℕ → Exec Protocol (Unit {0})
set_write_timeout timeout =
    dispatch (on_stream (Stream.set_write_timeout timeout)) (Stream.set_write_timeout timeout)
