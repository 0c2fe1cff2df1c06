-- ===== src/Value/Total.antt =====
-- Values whose conversions end. The types of src/value.rs are such values.
use rust_memcache.Prelude.{ℕ, ◌^◌, Bytes, Option, bytes, bytes_eq}
use rust_memcache.Outcome.{Outcome}
use rust_memcache.Exec.Total.{IsDone, IsDone-if, IsDone-bind, Total}
use rust_memcache.Stream.Total.{Whatever, Total-write_all}
use rust_memcache.Text.Decimal.{parse_uint}
use rust_memcache.Text.Decimal.Signed.{parse_int}
use rust_memcache.Text.Total.{string_from_utf8-IsDone, parse_uint-IsDone, parse_int-IsDone}
use rust_memcache.Value.{
  ToMemcacheValue, FromMemcacheValueExt, without_cas, from_raw, from_string, from_number, from_uint,
  from_int, from_bool, parse_bool, number_value,
}

abbrev pub Decodes : {V : Type 0} → FromMemcacheValueExt V → Type 0
Decodes from =
    (value : Bytes) (flags : ℕ) (cas : Option ℕ) → IsDone (from.from_memcache_value value flags cas)

abbrev pub Encodes : {V : Type 0} → ToMemcacheValue V → Type 0
Encodes {V} to = (v : V) → Total Whatever (to.write_to v)

pub from_raw-Decodes : Decodes from_raw
from_raw-Decodes value flags cas = tt

from_string-Decodes : Decodes (without_cas from_string)
from_string-Decodes value flags cas = string_from_utf8-IsDone value

module _ {V : Type 0} where
  pub number_value-Encodes : (to_string : V → Bytes) → Encodes (number_value to_string)
  number_value-Encodes to_string v = Total-write_all (to_string v)

  from_number-Decodes :
      (from_str : Bytes → Outcome V)
      → ((s : Bytes) → IsDone (from_str s))
      → Decodes (without_cas (from_number from_str))
  from_number-Decodes from_str d value flags cas =
      IsDone-bind _ from_str (string_from_utf8-IsDone value) d

pub from_uint-Decodes : (w : ℕ) → Decodes (without_cas (from_uint w))
from_uint-Decodes w = from_number-Decodes (parse_uint (2 ^ w)) (parse_uint-IsDone (2 ^ w))

from_int-Decodes : (w : ℕ) → Decodes (without_cas (from_int w))
from_int-Decodes w = from_number-Decodes (parse_int (2 ^ w)) (parse_int-IsDone (2 ^ w))

parse_bool-IsDone : (s : Bytes) → IsDone (parse_bool s)
unfolding parse_bool
parse_bool-IsDone s =
    IsDone-if (bytes_eq s (bytes "true")) _ _ tt (IsDone-if (bytes_eq s (bytes "false")) _ _ tt tt)

from_bool-Decodes : Decodes (without_cas from_bool)
from_bool-Decodes = from_number-Decodes parse_bool parse_bool-IsDone
