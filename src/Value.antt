-- ===== src/Value.antt =====
-- src/value.rs: what can be stored, and what a stored value can be read as. A type's implementation of a
-- trait is a record of its functions. The floating point types are `number_value` and `from_number` with the
-- printer and the parser of the standard library.
pub mod RoundTrip
pub mod Total
use rust_memcache.Prelude.{
  ℕ, Bytes, Option, Bool, true, false, bytes, bytes_eq, length, ◌^◌, if◌then◌else◌,
}
use rust_memcache.Error.{parse_error, bool}
use rust_memcache.Outcome.{Outcome, ok, err, ◌>>=◌}
use rust_memcache.Exec.{Exec}
use rust_memcache.Stream.{Stream, write_all}
use rust_memcache.Text.Utf8.{string_from_utf8}
use rust_memcache.Text.Decimal.{to_decimal, parse_uint}
use rust_memcache.Text.Decimal.Signed.{ℤ, int_to_string, parse_int}

-- `Flags::Bytes as u32`
abbrev pub flags_bytes : ℕ
flags_bytes = 0

-- `trait ToMemcacheValue<Stream>`
pub record ToMemcacheValue (V : Type 0) : Type 0 where
  pub get_flags : V → ℕ
  pub get_length : V → ℕ
  pub write_to : V → Exec Stream (Unit {0})

-- `&[u8]`
abbrev pub bytes_value : ToMemcacheValue Bytes
bytes_value = record {
  get_flags = λ v. flags_bytes;
  get_length = λ v. length v;
  write_to = write_all;
}

-- `&str`, `String` and `&String`: the bytes of the text.
abbrev pub string_value : ToMemcacheValue Bytes
string_value = record {
  get_flags = λ v. flags_bytes;
  get_length = λ v. length v;
  write_to = write_all;
}

-- `impl_to_memcache_value_for_number!`: the text that `to_string` gives.
abbrev pub number_value : {V : Type 0} → (V → Bytes) → ToMemcacheValue V
number_value to_string = record {
  get_flags = λ v. flags_bytes;
  get_length = λ v. length (to_string v);
  write_to = λ v. write_all (to_string v);
}

unfoldable pub bool_to_string : Bool → Bytes
bool_to_string true = bytes "true"
bool_to_string false = bytes "false"

-- `bool::from_str`
unfoldable pub parse_bool : Bytes → Outcome Bool
parse_bool s =
    if bytes_eq s (bytes "true")
    then ok true
    else if bytes_eq s (bytes "false")
    then ok false
    else err (parse_error (bool (bytes "provided string was not `true` or `false`")))

-- `trait FromMemcacheValueExt`
pub record FromMemcacheValueExt (V : Type 0) : Type 0 where
  pub from_memcache_value : Bytes → ℕ → Option ℕ → Outcome V

-- `trait FromMemcacheValue`
pub record FromMemcacheValue (V : Type 0) : Type 0 where
  pub from_memcache_value : Bytes → ℕ → Outcome V

-- `impl<V: FromMemcacheValue> FromMemcacheValueExt for V`: the cas id is dropped.
abbrev pub without_cas : {V : Type 0} → FromMemcacheValue V → FromMemcacheValueExt V
without_cas f = record {
  from_memcache_value = λ value flags cas. f.from_memcache_value value flags;
}

-- `(Vec<u8>, u32, Option<u64>)`
abbrev pub from_raw : FromMemcacheValueExt (Bytes × ℕ × Option ℕ)
from_raw = record { from_memcache_value = λ value flags cas. ok (value, flags, cas) }

-- `(Vec<u8>, u32)`
abbrev pub from_flagged : FromMemcacheValue (Bytes × ℕ)
from_flagged = record { from_memcache_value = λ value flags. ok (value, flags) }

-- `Vec<u8>`
abbrev pub from_bytes : FromMemcacheValue Bytes
from_bytes = record { from_memcache_value = λ value flags. ok value }

-- `String`
abbrev pub from_string : FromMemcacheValue Bytes
from_string = record { from_memcache_value = λ value flags. string_from_utf8 value }

-- `impl_from_memcache_value_for_number!`: a `String` first, then `from_str`.
abbrev pub from_number : {V : Type 0} → (Bytes → Outcome V) → FromMemcacheValue V
from_number from_str = record {
  from_memcache_value = λ value flags. from_string.from_memcache_value value 0 >>= from_str;
}

-- `u8`, `u16`, `u32` and `u64` by their width.
abbrev pub uint_value : ToMemcacheValue ℕ
uint_value = number_value to_decimal

abbrev pub from_uint : ℕ → FromMemcacheValue ℕ
from_uint w = from_number (parse_uint (2 ^ w))

-- `i8`, `i16`, `i32` and `i64` by their width, where `w` counts the bits without the sign.
abbrev pub int_value : ToMemcacheValue ℤ
int_value = number_value int_to_string

abbrev pub from_int : ℕ → FromMemcacheValue ℤ
from_int w = from_number (parse_int (2 ^ w))

abbrev pub bool_value : ToMemcacheValue Bool
bool_value = number_value bool_to_string

abbrev pub from_bool : FromMemcacheValue Bool
from_bool = from_number parse_bool
