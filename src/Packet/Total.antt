-- ===== src/Packet/Total.antt =====
-- Whatever the network does, every parser of a binary response ends.
use rust_memcache.Prelude.{
  ℕ, zero, suc, ◌+◌, ◌-◌, Bytes, [], Bool, true, false, ltb, length, take, ◌==◌, ◌&&◌,
  if◌then◌else◌, none, some, arith,
}
use rust_memcache.Error.{
  MemcacheError, command_error, io_error, unexpected_eof, command_error_from, is_key_not_found,
  is_missing_or_exists,
}
use rust_memcache.Outcome.{Outcome, ok, err, panic}
use rust_memcache.Exec.{Exec, lift, on_result, ◌>>=◌}
use rust_memcache.Exec.Total.{
  IsDone, IsDone-if, Total, Total-pure, Total-raise, Total-lift, Total-if, Total-bind,
  Total-on_result,
}
use rust_memcache.Wire.{from_be}
use rust_memcache.Stream.{Stream, read_exact, supply}
use rust_memcache.Stream.Total.{Whatever}
use rust_memcache.Stream.Supply.{
  Takes, Takes-pure, Takes-raise, Takes-lift, Takes-bind, Takes-fewer, Takes-read_exact,
  Takes-Total, Under, Total-behind,
}
use rust_memcache.HashMap
use rust_memcache.HashMap.{HashMap, key_bytes}
use rust_memcache.Text.Total.{string_from_utf8-IsDone}
use rust_memcache.Value.{FromMemcacheValueExt}
use rust_memcache.Value.Total.{Decodes}
use rust_memcache.Packet.{
  Magic, ok_status, Response, read_be, read_fields, read_header, magic_u8, checked_sub,
  response_err, parse_response, expect_ok, parse_cas_response, parse_version_response, cursor_read,
  parse_get_response, gets_item, gets_loop, parse_gets_response, parse_delete_response,
  parse_touch_response, parse_counter_response, Stats, stats_loop, is_empty, parse_stats_response,
  parse_start_auth_response, Opcode, opcode_u8,
}

Takes-be : (w : ℕ) → Takes w (read_be w)
Takes-be w =
    Takes-fewer (w + 0) (omega arith)
      (Takes-bind w 0 (Takes-read_exact w) (λ bs. Takes-pure (from_be bs)))

some_be : (w : ℕ) → Takes 0 (read_be w)
some_be w = Takes-fewer w (omega arith) (Takes-be w)

read_fields-Takes : (magic : ℕ) → Takes 0 (read_fields magic)
unfolding read_fields
read_fields-Takes magic = Takes-bind 0 0 (some_be 1) (λ opcode.
    Takes-bind 0 0 (some_be 2) (λ key_length. Takes-bind 0 0 (some_be 1) (λ extras_length.
      Takes-bind 0 0 (some_be 1) (λ data_type. Takes-bind 0 0 (some_be 2) (λ status.
        Takes-bind 0 0 (some_be 4) (λ total_body_length.
          Takes-bind 0 0 (some_be 4)
            (λ opaque. Takes-bind 0 0 (some_be 8) (λ cas. Takes-pure _))))))))

Takes-if :
    {A : Type 0} (b : Bool) {m n : Exec Stream A}
    → Takes 0 m
    → Takes 0 n
    → Takes 0 (if b then m else n)
Takes-if true p q = p
Takes-if false p q = q

pub read_header-Takes : Takes 1 read_header
unfolding read_header
read_header-Takes = Takes-bind 1 0 (Takes-be 1) (λ magic.
    Takes-if (magic == magic_u8 Magic.response) (read_fields-Takes magic) (Takes-raise 0 _))

some_exact : (n : ℕ) → Takes 0 (read_exact n)
some_exact n = Takes-fewer n (omega arith) (Takes-read_exact n)

checked_sub-IsDone : (a b : ℕ) → IsDone (checked_sub a b)
unfolding checked_sub
checked_sub-IsDone a b = IsDone-if (ltb a b) panic (ok (a - b)) tt tt

pub parse_response-Takes : Takes 1 parse_response
unfolding parse_response
parse_response-Takes = Takes-bind 1 0 read_header-Takes (λ header.
    Takes-bind 0 0 (some_exact header.extras_length) (λ extras.
      Takes-bind 0 0 (some_exact header.key_length) (λ key.
        Takes-bind 0 0
          (Takes-lift _ (checked_sub-IsDone header.total_body_length header.key_length))
          (λ without_key.
            Takes-bind 0 0 (Takes-lift _ (checked_sub-IsDone without_key header.extras_length))
              (λ n. Takes-bind 0 0 (some_exact n) (λ value. Takes-pure _))))))

pub response_err-IsDone : (r : Response) → IsDone (response_err r)
unfolding response_err
response_err-IsDone r =
    IsDone-if (r.header.vbucket_id_or_status == ok_status) (ok r)
      (err (command_error (command_error_from r.header.vbucket_id_or_status))) tt tt

cursor_read-IsDone : (w : ℕ) (bs : Bytes) → IsDone (cursor_read w bs)
unfolding cursor_read
cursor_read-IsDone w bs =
    IsDone-if (ltb (length bs) w) (err (io_error unexpected_eof)) (ok (from_be (take w bs))) tt tt

pub Total-parse_response : Total Whatever parse_response
Total-parse_response = Takes-Total 1 parse_response-Takes

-- A response, and what is made of one whose status is a success.
module _ {A : Type 0} {f : Response → Exec Stream A}
    (t : (r : Response) → Total Whatever (f r)) where
  checked : Total Whatever (do r ← parse_response; r' ← lift (response_err r); f r')
  checked =
      Total-bind Total-parse_response (λ r. Total-bind (Total-lift _ (response_err-IsDone r)) t)

  matched :
      (g : MemcacheError → Outcome A)
      → ((e : MemcacheError) → IsDone (g e))
      → Total Whatever (do r ← parse_response; on_result (response_err r) f g)
  matched g d =
      Total-bind Total-parse_response
        (λ r. Total-on_result (response_err r) g (response_err-IsDone r) t d)

-- A failure that is an answer, by its kind.
excused :
    {A : Type 0} (kind : MemcacheError → Bool) (a : A) (e : MemcacheError)
    → IsDone (if kind e then ok a else err e)
excused kind a e = IsDone-if (kind e) (ok a) (err e) tt tt

pub Total-expect_ok : Total Whatever expect_ok
Total-expect_ok = checked (λ r. Total-pure tt)

pub Total-parse_cas_response : Total Whatever parse_cas_response
unfolding parse_cas_response
Total-parse_cas_response = matched (λ r. Total-pure true) _ (excused is_missing_or_exists false)

pub Total-parse_version_response : Total Whatever parse_version_response
unfolding parse_version_response
Total-parse_version_response = checked (λ r. Total-lift _ (string_from_utf8-IsDone r.value))

pub Total-parse_delete_response : Total Whatever parse_delete_response
unfolding parse_delete_response
Total-parse_delete_response = matched (λ r. Total-pure true) _ (excused is_key_not_found false)

pub Total-parse_touch_response : Total Whatever parse_touch_response
unfolding parse_touch_response
Total-parse_touch_response = matched (λ r. Total-pure true) _ (excused is_key_not_found false)

pub Total-parse_counter_response : Total Whatever parse_counter_response
unfolding parse_counter_response
Total-parse_counter_response = checked (λ r. Total-lift _ (cursor_read-IsDone 8 r.value))

pub Total-parse_start_auth_response : Total Whatever parse_start_auth_response
unfolding parse_start_auth_response
Total-parse_start_auth_response = checked (λ r. Total-pure true)

module _ {V : Type 0} (from : FromMemcacheValueExt V) (d : Decodes from) where
  pub Total-parse_get_response : Total Whatever (parse_get_response from)
  unfolding parse_get_response
  Total-parse_get_response =
      matched
        (λ r. Total-bind (Total-lift _ (cursor_read-IsDone 4 r.extras)) (λ flags.
          Total-bind (Total-lift _ (d r.value flags (some r.header.cas)))
            (λ v. Total-pure (some v))))
        _ (excused is_key_not_found none)

  gets_item-Total :
      (next : HashMap Bytes V → Exec Stream (HashMap Bytes V)) (result : HashMap Bytes V)
      (r : Response)
      → ((m : HashMap Bytes V) → Total Whatever (next m))
      → Total Whatever (gets_item from next result r)
  unfolding gets_item
  gets_item-Total next result r t =
      Total-if (r.header.opcode == opcode_u8 Opcode.noop) (Total-pure result) (
        Total-bind (Total-lift _ (cursor_read-IsDone 4 r.extras)) (λ flags.
          Total-bind (Total-lift _ (string_from_utf8-IsDone r.key)) (λ key.
            Total-bind (Total-lift _ (d r.value flags (some r.header.cas)))
              (λ v. t (HashMap.insert key v result)))))

  gets_loop-Total :
      (rounds : ℕ) (result : HashMap Bytes V) → Total Whatever (gets_loop from rounds result)
  unfolding gets_loop
  gets_loop-Total zero result = Total-raise _
  gets_loop-Total (suc rounds) result =
      checked (λ r. gets_item-Total (gets_loop from rounds) result r (gets_loop-Total rounds))

  pub Total-parse_gets_response : (n : ℕ) → Total Whatever (parse_gets_response from n)
  unfolding parse_gets_response
  Total-parse_gets_response n = gets_loop-Total (suc n) []

-- Each response takes a byte at least, so that the fuel is enough.
stats_loop-Total : (fuel : ℕ) (result : Stats) → Total (Under fuel) (stats_loop fuel result)
unfolding stats_loop
stats_loop-Total zero result = record { at = λ s h. absurd (omega arith) }
stats_loop-Total (suc fuel) result = Total-behind fuel parse_response-Takes (λ r.
    Total-bind (Total-lift _ (response_err-IsDone r)) (λ r'.
      Total-bind (Total-lift _ (string_from_utf8-IsDone r'.key)) (λ key.
        Total-bind (Total-lift _ (string_from_utf8-IsDone r'.value)) (λ value.
          Total-if (is_empty key && is_empty value) (Total-pure result)
            (stats_loop-Total fuel (HashMap.insert key value result))))))

pub Total-parse_stats_response : Total Whatever parse_stats_response
unfolding parse_stats_response
Total-parse_stats_response = record {
  at = λ s h. record {
    done = ((stats_loop-Total (suc (supply s)) []).at s (omega arith)).done;
    keeps = tt;
  };
}
