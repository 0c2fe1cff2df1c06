-- ===== src/Ascii/Total.antt =====
-- Whatever the network does, every operation of the ASCII protocol ends, and leaves the buffer of its reader
-- fit for use.
use rust_memcache.Prelude.{
  ℕ, zero, suc, ◌^◌, ◌≡◌, refl, Bytes, bytes, bytes_eq, Bool, true, false, not, List, [], Option,
  none, some, length, ltb, ◌+◌, drop, take, Bool-cases, inl, inr,
}
use rust_memcache.Error.{is_missing_or_exists}
use rust_memcache.Outcome.{ok, panic}
use rust_memcache.Exec.{Exec, pure, lift, ◌>>◌}
use rust_memcache.Exec.Total.{
  IsDone, IsDone-if, IsDone-handle, Total, Total-pure, Total-lift, Total-if, Total-bind,
  Total-bind-Yields, Yields,
}
use rust_memcache.Stream
use rust_memcache.Stream.{Stream, write_fmt, supply}
use rust_memcache.Stream.Total.{Total-write_fmt, Total-write_all, Total-write, Total-flush}
use rust_memcache.HashMap
use rust_memcache.HashMap.{HashMap, key_bytes}
use rust_memcache.Text.Total.{string_from_utf8-IsDone}
use rust_memcache.Value.{ToMemcacheValue, FromMemcacheValueExt, string_value}
use rust_memcache.Value.Total.{Decodes, Encodes}
use rust_memcache.Packet.{Stats}
use rust_memcache.Reader.{on_stream}
use rust_memcache.Reader.View.{IsValid}
use rust_memcache.Reader.Total.{Total-on_stream, Total-reader_read_exact, Total-read_line}
use rust_memcache.Reader.Yields.{read_line-Yields}
use rust_memcache.Ascii.{
  AsciiProtocol, value_buffer, store, cas, set, add, replace, append, prepend, auth, version, flush,
  flush_with_delay, read_value, read_if_value, parse_get_response, get_rest, get, gets_item,
  gets_loop, gets, delete, increment, decrement, touch, stats_response, stats_loop, stats,
}
use rust_memcache.Ascii.Commands.{StoreCommand, Options, default_options, crlf}
use rust_memcache.Ascii.Responses.{Header, bad}
use rust_memcache.Ascii.Deleting.{end_text, stats_end, stats_stops}
use rust_memcache.Ascii.Answers.{
  version_response-IsDone, ok_response-IsDone, found_response-IsDone, store_response-IsDone,
  u64_response-IsDone, header_response-IsDone, check_cas-IsDone,
}

module _ {A : Type 0} {n : Exec AsciiProtocol A} (t : Total IsValid n) where
  then_write : (bs : Bytes) → Total IsValid (on_stream (Stream.write bs) >> n)
  then_write bs = Total-bind (Total-on_stream (Total-write bs)) (λ _. t)

  then_write_fmt : (pieces : List Bytes) → Total IsValid (on_stream (write_fmt pieces) >> n)
  then_write_fmt pieces = Total-bind (Total-on_stream (Total-write_fmt pieces)) (λ _. t)

  then_flush : Total IsValid (on_stream Stream.flush >> n)
  then_flush = Total-bind (Total-on_stream Total-flush) (λ _. t)

  then_drop : Total IsValid (n >> pure tt)
  then_drop = Total-bind t (λ _. Total-pure tt)

module _ {V : Type 0} (to : ToMemcacheValue V) (t : Encodes to) where
  Total-store :
      (command : StoreCommand) (key : Bytes) (value : V) (options : Options)
      → Total IsValid (store to command key value options)
  unfolding store
  Total-store command key value options =
      Total-bind (Total-lift _ (check_cas-IsDone command options.cas)) (λ _.
        then_write_fmt
          (Total-bind (Total-on_stream (t value)) (λ _.
            then_write
              (then_flush (
                Total-if options.noreply (Total-pure true)
                  (Total-read_line _ store_response-IsDone)))
              _))
          _)

  pub Total-cas :
      (key : Bytes) (value : V) (expiration id : ℕ) → Total IsValid (cas to key value expiration id)
  unfolding cas
  Total-cas key value expiration id = record {
    at = λ r v.
        let options = record default_options { exptime = expiration; cas = some id } in
        let x = (Total-store StoreCommand.cas key value options).at r v in
        record {
          done =
              IsDone-handle _ _ _ x.done (λ b. tt)
                (λ e. IsDone-if (is_missing_or_exists e) _ _ tt tt);
          keeps = x.keeps;
        };
  }

  pub Total-set :
      (key : Bytes) (value : V) (expiration : ℕ) → Total IsValid (set to key value expiration)
  unfolding set
  Total-set key value expiration =
      then_drop
        (Total-store StoreCommand.set key value (record default_options { exptime = expiration }))

  pub Total-add :
      (key : Bytes) (value : V) (expiration : ℕ) → Total IsValid (add to key value expiration)
  unfolding add
  Total-add key value expiration =
      then_drop
        (Total-store StoreCommand.add key value (record default_options { exptime = expiration }))

  pub Total-replace :
      (key : Bytes) (value : V) (expiration : ℕ) → Total IsValid (replace to key value expiration)
  unfolding replace
  Total-replace key value expiration =
      then_drop (
        Total-store StoreCommand.replace key value
          (record default_options { exptime = expiration }))

  pub Total-append : (key : Bytes) (value : V) → Total IsValid (append to key value)
  unfolding append
  Total-append key value = then_drop (Total-store StoreCommand.append key value default_options)

  pub Total-prepend : (key : Bytes) (value : V) → Total IsValid (prepend to key value)
  unfolding prepend
  Total-prepend key value = then_drop (Total-store StoreCommand.prepend key value default_options)

pub Total-auth : (username password : Bytes) → Total IsValid (auth username password)
unfolding auth
Total-auth username password = Total-set string_value Total-write_all _ _ 0

pub Total-version : Total IsValid version
unfolding version
Total-version = then_write (then_flush (Total-read_line _ version_response-IsDone)) _

pub Total-flush_all : Total IsValid flush
unfolding flush
Total-flush_all = then_write_fmt (Total-read_line _ ok_response-IsDone) _

pub Total-flush_with_delay : (delay : ℕ) → Total IsValid (flush_with_delay delay)
unfolding flush_with_delay
Total-flush_with_delay delay = then_write_fmt (then_flush (Total-read_line _ ok_response-IsDone)) _

value_buffer-IsDone : (n : ℕ) → IsDone (value_buffer n)
unfolding value_buffer
value_buffer-IsDone n = IsDone-if (ltb (n + 2) (2 ^ 63)) (ok (n + 2)) panic tt tt

module _ {V : Type 0} (from : FromMemcacheValueExt V) (d : Decodes from) where
  read_value-Total : (h : Header) → Total IsValid (read_value from h)
  unfolding read_value
  read_value-Total h = Total-bind (Total-lift _ (value_buffer-IsDone h.length)) (λ n.
      Total-bind (Total-reader_read_exact n) (λ value.
        Total-if (not (bytes_eq (drop h.length value) crlf))
          (Total-bind (Total-lift _ (string_from_utf8-IsDone value)) (λ text. Total-lift _ tt))
          (Total-bind (Total-lift _ (d (take h.length value) h.flags h.cas)) (λ v. Total-pure _))))

  read_if_value-Total : (o : Option Header) → Total IsValid (read_if_value from o)
  unfolding read_if_value
  read_if_value-Total none = Total-pure none
  read_if_value-Total (some h) = read_value-Total h

  Total-parse_get_response : (has_cas : Bool) → Total IsValid (parse_get_response from has_cas)
  unfolding parse_get_response
  Total-parse_get_response has_cas =
      Total-bind (Total-read_line _ (header_response-IsDone has_cas)) read_if_value-Total

  ended :
      (v : V) (next : Option (Bytes × V))
      → Total IsValid (elim next as (λ x. Exec AsciiProtocol (Option V)) [
        | none ↦ pure (some v)
        | some kv ↦ lift (bad (bytes "Expected end of get response"))
      ])
  ended v none = Total-pure (some v)
  ended v (some kv) = Total-lift _ tt

  get_rest-Total :
      (key : Bytes) (first : Option (Bytes × V)) → Total IsValid (get_rest from key first)
  unfolding get_rest
  get_rest-Total key none = Total-pure none
  get_rest-Total key (some (k, v)) =
      Total-if (not (bytes_eq k key)) (Total-lift _ tt)
        (Total-bind (Total-parse_get_response false) (ended v))

  pub Total-get : (key : Bytes) → Total IsValid (get from key)
  unfolding get
  Total-get key =
      then_write_fmt (Total-bind (Total-parse_get_response false) (get_rest-Total key)) _

  gets_item-Total :
      (next : HashMap Bytes V → Exec AsciiProtocol (HashMap Bytes V)) (result : HashMap Bytes V)
      (item : Option (Bytes × V))
      → ((m : HashMap Bytes V) → Total IsValid (next m))
      → Total IsValid (gets_item from next result item)
  unfolding gets_item
  gets_item-Total next result none t = Total-pure result
  gets_item-Total next result (some (key, value)) t = t (HashMap.insert key value result)

  gets_loop-Total :
      (rounds : ℕ) (result : HashMap Bytes V) → Total IsValid (gets_loop from rounds result)
  unfolding gets_loop
  gets_loop-Total zero result = Total-lift _ tt
  gets_loop-Total (suc rounds) result =
      Total-bind (Total-parse_get_response true)
        (λ item. gets_item-Total (gets_loop from rounds) result item (gets_loop-Total rounds))

  pub Total-gets : (keys : List Bytes) → Total IsValid (gets from keys)
  unfolding gets
  Total-gets keys = then_write_fmt (gets_loop-Total (suc (length keys)) []) _

pub Total-delete : (key : Bytes) → Total IsValid (delete key)
unfolding delete
Total-delete key =
    then_write_fmt (then_flush (Total-read_line _ (found_response-IsDone (bytes "DELETED\r\n")))) _

pub Total-increment : (key : Bytes) (amount : ℕ) → Total IsValid (increment key amount)
unfolding increment
Total-increment key amount = then_write_fmt (Total-read_line _ u64_response-IsDone) _

pub Total-decrement : (key : Bytes) (amount : ℕ) → Total IsValid (decrement key amount)
unfolding decrement
Total-decrement key amount = then_write_fmt (Total-read_line _ u64_response-IsDone) _

pub Total-touch : (key : Bytes) (expiration : ℕ) → Total IsValid (touch key expiration)
unfolding touch
Total-touch key expiration =
    then_write_fmt (then_flush (Total-read_line _ (found_response-IsDone (bytes "TOUCHED\r\n")))) _

-- No line makes the loop of `stats` go on.
stats_line :
    (result : Stats) (line : Bytes)
    → IsDone (stats_response result line)
      × Yields (λ status. status.0 ≡ false) (stats_response result line)
stats_line result line = elim (Bool-cases (bytes_eq line end_text)) [
  | inl e ↦ rw (stats_end result line e, IsDone, Yields) (tt, tt)
  | inr e ↦ rw (stats_stops result line e, IsDone, Yields) (tt, refl)
]

stats_loop-Total : (fuel : ℕ) (result : Stats) → Total IsValid (stats_loop (suc fuel) result)
unfolding stats_loop
stats_loop-Total fuel result = record {
  at = λ r v.
      (Total-bind-Yields (λ status. status.0 ≡ false)
          (Total-read_line (stats_response result) (λ line. (stats_line result line).0))
          (read_line-Yields (stats_response result) _ (λ line. (stats_line result line).1))
          (λ status e. rw e (Total-pure status.1))).at
        r v;
}

pub Total-stats : Total IsValid stats
unfolding stats
Total-stats = record {
  at = λ r v.
      (Total-bind (then_write (Total-on_stream Total-flush) (bytes "stats\r\n"))
          (λ _. stats_loop-Total (supply r.inner) [])).at
        r v;
}
