-- ===== src/Text/Decimal.antt =====
-- Decimal numbers: `to_string` and `parse` of the unsigned integer types.
pub mod RoundTrip
pub mod Signed
use rust_memcache.Prelude.{
  ℕ, zero, suc, ◌+◌, ◌-◌, ◌*◌, ◌/◌, ◌%◌, ◌<◌, ◌≤◌, Bytes, [], ◌∷◌, ◌++◌, leb, ltb, ◌==◌, ◌&&◌, ◌||◌,
  not, if◌then◌else◌, ◌≡◌, refl, All, arith,
}
use rust_memcache.Error.{
  ParseIntError, empty, invalid_digit, pos_overflow, MemcacheError, parse_error, int,
}
use rust_memcache.Outcome.{Outcome, ok, err}

-- Each round divides by ten, so `n` rounds are enough.
digits_loop : ℕ → ℕ → Bytes
digits_loop zero n = (48 + n % 10) ∷ []
digits_loop (suc fuel) n =
    let front = digits_loop fuel (n / 10) in
    if ltb n 10 then (48 + n) ∷ [] else front ++ ((48 + n % 10) ∷ [])

-- `n.to_string()`
unfoldable pub to_decimal : ℕ → Bytes
unfolding digits_loop
to_decimal n = digits_loop n n

-- The digits of `from_str_radix(_, 10)` for a type whose values are below `bound`. A character that is no
-- digit is found before the product with it would overflow.
unfoldable pub parse_digits : ℕ → ℕ → Bytes → Outcome ℕ
parse_digits bound acc [] = ok acc
parse_digits bound acc (c ∷ cs) =
    let rest = parse_digits bound (acc * 10 + (c - 48)) cs in
    if not (leb 48 c && leb c 57)
    then err (parse_error (int invalid_digit))
    else if leb bound (acc * 10 + (c - 48))
    then err (parse_error (int pos_overflow))
    else rest

-- `s.parse::<uN>()?`: one leading `+` may stand before the digits.
unfoldable pub parse_uint : ℕ → Bytes → Outcome ℕ
unfolding parse_digits
parse_uint bound [] = err (parse_error (int empty))
parse_uint bound (c ∷ []) =
    if c == b'+' || c == b'-'
    then err (parse_error (int invalid_digit))
    else parse_digits bound 0 (c ∷ [])
parse_uint bound (c ∷ d ∷ cs) =
    if c == b'+' then parse_digits bound 0 (d ∷ cs) else parse_digits bound 0 (c ∷ d ∷ cs)
