-- ===== src/Protocol/Total.antt =====
-- Whatever the network does, every method of a protocol ends, and leaves a protocol that is fit for use.
use rust_memcache.Prelude.{ℕ, Bytes, List, Option}
use rust_memcache.Exec.{Exec}
use rust_memcache.Exec.Total.{Halts, Total}
use rust_memcache.Stream.Total as StreamTotal
use rust_memcache.Stream.Total.{Whatever}
use rust_memcache.Value.{ToMemcacheValue, FromMemcacheValueExt}
use rust_memcache.Value.Total.{Encodes, Decodes}
use rust_memcache.Reader.View.{IsValid}
use rust_memcache.Reader.Total.{Total-on_stream}
use rust_memcache.Ascii.{AsciiProtocol}
use rust_memcache.Ascii.Total as AsciiTotal
use rust_memcache.Binary.{BinaryProtocol}
use rust_memcache.Binary.Total as BinaryTotal
use rust_memcache.Protocol.{
  Protocol, ascii, binary, dispatch, auth, version, flush, flush_with_delay, get, gets, set, cas,
  add, replace, append, prepend, delete, increment, decrement, touch, stats, set_read_timeout,
  set_write_timeout,
}

-- The reader of the ASCII protocol is valid. The binary protocol has nothing but its stream.
abbrev pub IsSound : Protocol → Type 0
IsSound (ascii r) = IsValid r
IsSound (binary s) = Unit

module _ {A : Type 0} {m : Exec AsciiProtocol A} {n : Exec BinaryProtocol A} (t : Total IsValid m)
    (u : Total Whatever n) where
  dispatched : (p : Protocol) → IsSound p → Halts IsSound (dispatch m n p)
  unfolding dispatch
  dispatched (ascii r) v = let x = t.at r v in record { done = x.done; keeps = x.keeps }
  dispatched (binary s) v = record { done = (u.at s tt).done; keeps = tt }

  Total-dispatch : Total IsSound (dispatch m n)
  Total-dispatch = record { at = dispatched }

pub Total-auth : (username password : Bytes) → Total IsSound (auth username password)
unfolding auth
Total-auth username password =
    Total-dispatch (AsciiTotal.Total-auth username password)
      (BinaryTotal.Total-auth username password)

pub Total-version : Total IsSound (version)
unfolding version
Total-version = Total-dispatch (AsciiTotal.Total-version) (BinaryTotal.Total-version)

pub Total-flush : Total IsSound (flush)
unfolding flush
Total-flush = Total-dispatch (AsciiTotal.Total-flush_all) (BinaryTotal.Total-flush_all)

pub Total-flush_with_delay : (delay : ℕ) → Total IsSound (flush_with_delay delay)
unfolding flush_with_delay
Total-flush_with_delay delay =
    Total-dispatch (AsciiTotal.Total-flush_with_delay delay)
      (BinaryTotal.Total-flush_with_delay delay)

pub Total-delete : (key : Bytes) → Total IsSound (delete key)
unfolding delete
Total-delete key = Total-dispatch (AsciiTotal.Total-delete key) (BinaryTotal.Total-delete key)

pub Total-increment : (key : Bytes) (amount : ℕ) → Total IsSound (increment key amount)
unfolding increment
Total-increment key amount =
    Total-dispatch (AsciiTotal.Total-increment key amount) (BinaryTotal.Total-increment key amount)

pub Total-decrement : (key : Bytes) (amount : ℕ) → Total IsSound (decrement key amount)
unfolding decrement
Total-decrement key amount =
    Total-dispatch (AsciiTotal.Total-decrement key amount) (BinaryTotal.Total-decrement key amount)

pub Total-touch : (key : Bytes) (expiration : ℕ) → Total IsSound (touch key expiration)
unfolding touch
Total-touch key expiration =
    Total-dispatch (AsciiTotal.Total-touch key expiration) (BinaryTotal.Total-touch key expiration)

pub Total-stats : Total IsSound (stats)
unfolding stats
Total-stats = Total-dispatch (AsciiTotal.Total-stats) (BinaryTotal.Total-stats)

module _ {V : Type 0} (from : FromMemcacheValueExt V) (d : Decodes from) where
  pub Total-get : (key : Bytes) → Total IsSound (get from key)
  unfolding get
  Total-get key =
      Total-dispatch (AsciiTotal.Total-get from d key) (BinaryTotal.Total-get from d key)

  pub Total-gets : (keys : List Bytes) → Total IsSound (gets from keys)
  unfolding gets
  Total-gets keys =
      Total-dispatch (AsciiTotal.Total-gets from d keys) (BinaryTotal.Total-gets from d keys)

module _ {V : Type 0} (to : ToMemcacheValue V) (t : Encodes to) where
  pub Total-set :
      (key : Bytes) (value : V) (expiration : ℕ) → Total IsSound (set to key value expiration)
  unfolding set
  Total-set key value expiration =
      Total-dispatch (AsciiTotal.Total-set to t key value expiration)
        (BinaryTotal.Total-set to t key value expiration)

  pub Total-cas :
      (key : Bytes) (value : V) (expiration id : ℕ) → Total IsSound (cas to key value expiration id)
  unfolding cas
  Total-cas key value expiration id =
      Total-dispatch (AsciiTotal.Total-cas to t key value expiration id)
        (BinaryTotal.Total-cas to t key value expiration id)

  pub Total-add :
      (key : Bytes) (value : V) (expiration : ℕ) → Total IsSound (add to key value expiration)
  unfolding add
  Total-add key value expiration =
      Total-dispatch (AsciiTotal.Total-add to t key value expiration)
        (BinaryTotal.Total-add to t key value expiration)

  pub Total-replace :
      (key : Bytes) (value : V) (expiration : ℕ) → Total IsSound (replace to key value expiration)
  unfolding replace
  Total-replace key value expiration =
      Total-dispatch (AsciiTotal.Total-replace to t key value expiration)
        (BinaryTotal.Total-replace to t key value expiration)

  pub Total-append : (key : Bytes) (value : V) → Total IsSound (append to key value)
  unfolding append
  Total-append key value =
      Total-dispatch (AsciiTotal.Total-append to t key value)
        (BinaryTotal.Total-append to t key value)

  pub Total-prepend : (key : Bytes) (value : V) → Total IsSound (prepend to key value)
  unfolding prepend
  Total-prepend key value =
      Total-dispatch (AsciiTotal.Total-prepend to t key value)
        (BinaryTotal.Total-prepend to t key value)

pub Total-set_read_timeout : (timeout : Option ℕ) → Total IsSound (set_read_timeout timeout)
unfolding set_read_timeout
Total-set_read_timeout timeout =
    Total-dispatch (Total-on_stream (StreamTotal.Total-set_read_timeout timeout))
      (StreamTotal.Total-set_read_timeout timeout)

pub Total-set_write_timeout : (timeout : Option ℕ) → Total IsSound (set_write_timeout timeout)
unfolding set_write_timeout
Total-set_write_timeout timeout =
    Total-dispatch (Total-on_stream (StreamTotal.Total-set_write_timeout timeout))
      (StreamTotal.Total-set_write_timeout timeout)
