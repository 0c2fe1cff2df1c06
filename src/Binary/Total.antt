-- ===== src/Binary/Total.antt =====
-- Whatever the network does, every operation of the binary protocol ends.
use rust_memcache.Prelude.{ℕ, ◌+◌, Bytes, List, [], ◌∷◌, Option, none, some, length, ltb, ◌^◌}
use rust_memcache.Outcome.{ok, panic}
use rust_memcache.Exec.{Exec, ◌>>◌}
use rust_memcache.Exec.Total.{IsDone, IsDone-if, Total, Total-pure, Total-lift, Total-bind}
use rust_memcache.Wire.{to_be}
use rust_memcache.Stream
use rust_memcache.Stream.{Stream, write_all, write_fmt}
use rust_memcache.Stream.Total.{Whatever, Total-write_all, Total-write_fmt, Total-flush}
use rust_memcache.Value.{ToMemcacheValue, FromMemcacheValueExt}
use rust_memcache.Value.Total.{Decodes, Encodes}
use rust_memcache.Packet.{PacketHeader, Opcode, write_header}
use rust_memcache.Packet.Total.{
  Total-parse_response, Total-expect_ok, Total-parse_cas_response, Total-parse_version_response,
  Total-parse_get_response, Total-parse_gets_response, Total-parse_delete_response,
  Total-parse_touch_response, Total-parse_counter_response, Total-parse_stats_response,
  Total-parse_start_auth_response,
}
use rust_memcache.Binary.{
  auth, version, flush, flush_with_delay, get, write_get_kqs, gets, send_request, store, cas, set,
  add, replace, send_concat, append, prepend, delete, send_counter, increment, decrement, add_u32,
  touch, stats,
}

module _ {A : Type 0} {n : Exec Stream A} (t : Total Whatever n) where
  then_write : (bs : Bytes) → Total Whatever (write_all bs >> n)
  then_write bs = Total-bind (Total-write_all bs) (λ _. t)

  then_flush : Total Whatever (Stream.flush >> n)
  then_flush = Total-bind Total-flush (λ _. t)

Total-write_header : (h : PacketHeader) → Total Whatever (write_header h)
unfolding write_header
Total-write_header h =
    then_write
      (then_write
        (then_write
          (then_write
            (then_write
              (then_write (then_write (then_write (Total-write_all (to_be 8 h.cas)) _) _) _) _)
            _)
          _)
        _)
      _

then_header :
    {A : Type 0} {n : Exec Stream A}
    → Total Whatever n
    → (h : PacketHeader) → Total Whatever (write_header h >> n)
then_header t h = Total-bind (Total-write_header h) (λ _. t)

pub Total-auth : (username password : Bytes) → Total Whatever (auth username password)
unfolding auth
Total-auth username password =
    then_header
      (then_write
        (Total-bind (Total-write_fmt _)
          (λ _. then_flush (Total-bind Total-parse_start_auth_response (λ _. Total-pure tt))))
        _)
      _

pub Total-version : Total Whatever version
unfolding version
Total-version = then_header (then_flush Total-parse_version_response) _

pub Total-flush_all : Total Whatever flush
unfolding flush
Total-flush_all = then_header (then_flush Total-expect_ok) _

pub Total-flush_with_delay : (delay : ℕ) → Total Whatever (flush_with_delay delay)
unfolding flush_with_delay
Total-flush_with_delay delay = then_header (then_write (then_flush Total-expect_ok) _) _

Total-write_get_kqs : (keys : List Bytes) → Total Whatever (write_get_kqs keys)
unfolding write_get_kqs
Total-write_get_kqs [] = Total-pure tt
Total-write_get_kqs (key ∷ keys) = then_header (then_write (Total-write_get_kqs keys) _) _

module _ {V : Type 0} (from : FromMemcacheValueExt V) (d : Decodes from) where
  pub Total-get : (key : Bytes) → Total Whatever (get from key)
  unfolding get
  Total-get key = then_header (then_write (then_flush (Total-parse_get_response from d)) _) _

  pub Total-gets : (keys : List Bytes) → Total Whatever (gets from keys)
  unfolding gets
  Total-gets keys =
      Total-bind (Total-write_get_kqs keys)
        (λ _. then_header (Total-parse_gets_response from d (length keys)) _)

module _ {V : Type 0} (to : ToMemcacheValue V) (t : Encodes to) where
  Total-send_request :
      (opcode : Opcode) (key : Bytes) (value : V) (expiration : ℕ) (c : Option ℕ)
      → Total Whatever (send_request to opcode key value expiration c)
  unfolding send_request
  Total-send_request opcode key value expiration c =
      then_header
        (then_write (then_write (then_write (Total-bind (t value) (λ _. Total-flush)) _) _) _) _

  Total-store :
      (opcode : Opcode) (key : Bytes) (value : V) (expiration : ℕ) (c : Option ℕ)
      → Total Whatever (store to opcode key value expiration c)
  unfolding store
  Total-store opcode key value expiration c =
      Total-bind (Total-send_request opcode key value expiration c) (λ _. Total-expect_ok)

  pub Total-cas :
      (key : Bytes) (value : V) (expiration id : ℕ)
      → Total Whatever (cas to key value expiration id)
  unfolding cas
  Total-cas key value expiration id =
      Total-bind (Total-send_request Opcode.set key value expiration (some id))
        (λ _. Total-parse_cas_response)

  pub Total-set :
      (key : Bytes) (value : V) (expiration : ℕ) → Total Whatever (set to key value expiration)
  unfolding set
  Total-set key value expiration = Total-store Opcode.set key value expiration none

  pub Total-add :
      (key : Bytes) (value : V) (expiration : ℕ) → Total Whatever (add to key value expiration)
  unfolding add
  Total-add key value expiration = Total-store Opcode.add key value expiration none

  pub Total-replace :
      (key : Bytes) (value : V) (expiration : ℕ) → Total Whatever (replace to key value expiration)
  unfolding replace
  Total-replace key value expiration = Total-store Opcode.replace key value expiration none

  Total-send_concat :
      (opcode : Opcode) (key : Bytes) (value : V) → Total Whatever (send_concat to opcode key value)
  unfolding send_concat
  Total-send_concat opcode key value =
      then_header (then_write (Total-bind (t value) (λ _. Total-flush)) _) _

  pub Total-append : (key : Bytes) (value : V) → Total Whatever (append to key value)
  unfolding append
  Total-append key value =
      Total-bind (Total-send_concat Opcode.append key value) (λ _. Total-expect_ok)

  pub Total-prepend : (key : Bytes) (value : V) → Total Whatever (prepend to key value)
  unfolding prepend
  Total-prepend key value =
      Total-bind (Total-send_concat Opcode.prepend key value)
        (λ _. Total-bind Total-parse_response (λ _. Total-pure tt))

pub Total-delete : (key : Bytes) → Total Whatever (delete key)
unfolding delete
Total-delete key = then_header (then_write (then_flush Total-parse_delete_response) _) _

Total-send_counter :
    (opcode : Opcode) (key : Bytes) (amount : ℕ) → Total Whatever (send_counter opcode key amount)
unfolding send_counter
Total-send_counter opcode key amount =
    then_header (then_write (then_write (then_write (then_write Total-flush _) _) _) _) _

pub Total-increment : (key : Bytes) (amount : ℕ) → Total Whatever (increment key amount)
unfolding increment
Total-increment key amount =
    Total-bind (Total-send_counter Opcode.increment key amount) (λ _. Total-parse_counter_response)

pub Total-decrement : (key : Bytes) (amount : ℕ) → Total Whatever (decrement key amount)
unfolding decrement
Total-decrement key amount =
    Total-bind (Total-send_counter Opcode.decrement key amount) (λ _. Total-parse_counter_response)

add_u32-IsDone : (a b : ℕ) → IsDone (add_u32 a b)
unfolding add_u32
add_u32-IsDone a b = IsDone-if (ltb (a + b) (2 ^ 32)) (ok (a + b)) panic tt tt

pub Total-touch : (key : Bytes) (expiration : ℕ) → Total Whatever (touch key expiration)
unfolding touch
Total-touch key expiration =
    Total-bind (Total-lift _ (add_u32-IsDone _ 4))
      (λ total. then_header (then_write (then_write (then_flush Total-parse_touch_response) _) _) _)

pub Total-stats : Total Whatever stats
unfolding stats
Total-stats = then_header (then_flush Total-parse_stats_response) _
