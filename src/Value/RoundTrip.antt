-- ===== src/Value/RoundTrip.antt =====
-- What is stored is read back: numbers and booleans.
use rust_memcache.Prelude.{
  ℕ, ◌^◌, ◌<◌, ◌≡◌, refl, ap, ◌∙◌, Bytes, bytes, Bool, true, false, ◌++◌, arith, All-map, length,
  bytes_eq,
}
use rust_memcache.Outcome.{ok, ◌>>=◌}
use rust_memcache.Exec.Talks.{Ends}
use rust_memcache.Stream.{Stream}
use rust_memcache.Stream.Exchange.{Ready}
use rust_memcache.Stream.Exact.{Talks-write_all}
use rust_memcache.Text.Utf8.{is_utf8, string_from_utf8, ascii-is_utf8}
use rust_memcache.Text.Decimal.{to_decimal, parse_uint}
use rust_memcache.Text.Decimal.RoundTrip.{IsDigit, to_decimal-All, parse_uint-to_decimal}
use rust_memcache.Text.Decimal.Signed.{
  ℤ, InRange, int_to_string, parse_int, parse_int-int_to_string, int_to_string-ascii,
}
use rust_memcache.Value.{
  int_value, from_int, ToMemcacheValue, FromMemcacheValue, uint_value, from_uint, bool_value,
  from_bool, bool_to_string, parse_bool,
}

-- On a channel that is fit for use, `v` is written as `text`, as long as `get_length` says, and `text` is
-- read as `v`.
pub record Reads {V : Type 0} (to : ToMemcacheValue V) (from : FromMemcacheValue V) (v : V)
    (s : Stream) (w a text : Bytes) : Type 0 where
  pub written : Ends Ready (to.write_to v s) (ok tt) (w ++ text) a
  pub counted : to.get_length v ≡ length text
  pub read : from.from_memcache_value text (to.get_flags v) ≡ ok v

decimal-utf8 : (n : ℕ) → string_from_utf8 (to_decimal n) ≡ ok (to_decimal n)
unfolding string_from_utf8
decimal-utf8 n =
    rw
      (ascii-is_utf8 (to_decimal n)
        (All-map IsDigit (λ c. c < 128) (to_decimal n) (λ c h. omega arith) (to_decimal-All n)))
      refl

-- A number of an unsigned type of `b` bits is written on a ready socket as its decimal digits, with the
-- length that is announced for it, and those digits are read back as the same number by the same type.
pub uint-Reads :
    (b n : ℕ) (s : Stream) (w a : Bytes)
    → n < 2 ^ b
    → Ready s w a
    → Reads uint_value (from_uint b) n s w a (to_decimal n)
uint-Reads b n s w a h ready = record {
  written = (Talks-write_all (to_decimal n)).at s w a ready;
  counted = refl;
  read = ap (λ o. o >>= parse_uint (2 ^ b)) (decimal-utf8 n) ∙ parse_uint-to_decimal (2 ^ b) n h;
}

int_to_string-utf8 : (z : ℤ) → string_from_utf8 (int_to_string z) ≡ ok (int_to_string z)
unfolding string_from_utf8
int_to_string-utf8 z = rw (ascii-is_utf8 (int_to_string z) (int_to_string-ascii z)) refl

-- A number of a signed type of `b` bits and a sign is written on a ready socket in decimal, with a minus
-- sign if it is negative and with the length that is announced for it, and that text is read back as the
-- same number by the same type.
pub int-Reads :
    (b : ℕ) (z : ℤ) (s : Stream) (w a : Bytes)
    → InRange (2 ^ b) z
    → Ready s w a
    → Reads int_value (from_int b) z s w a (int_to_string z)
int-Reads b z s w a h ready = record {
  written = (Talks-write_all (int_to_string z)).at s w a ready;
  counted = refl;
  read =
      ap (λ o. o >>= parse_int (2 ^ b)) (int_to_string-utf8 z)
      ∙ parse_int-int_to_string (2 ^ b) z h;
}

-- A boolean is written on a ready socket as "true" or "false", with the length that is announced for it,
-- and is read back as the same boolean.
pub bool-Reads :
    (v : Bool) (s : Stream) (w a : Bytes)
    → Ready s w a
    → Reads bool_value from_bool v s w a (bool_to_string v)
unfolding bool_to_string parse_bool bytes_eq string_from_utf8 is_utf8
bool-Reads true s w a ready = record {
  written = (Talks-write_all (bytes "true")).at s w a ready;
  counted = refl;
  read = refl;
}
bool-Reads false s w a ready = record {
  written = (Talks-write_all (bytes "false")).at s w a ready;
  counted = refl;
  read = refl;
}
