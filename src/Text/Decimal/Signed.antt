-- ===== src/Text/Decimal/Signed.antt =====
-- `to_string` and `parse` of the signed integer types.
use rust_memcache.Prelude.{
  ℕ, zero, suc, ◌<◌, Bytes, [], ◌∷◌, ◌==◌, if◌then◌else◌, ◌≡◌, refl, ap, sym, false, ne→==, All-map,
  ◌∙◌, All, arith,
}
use rust_memcache.Error.{pos_overflow, neg_overflow, parse_error, int}
use rust_memcache.Outcome.{Outcome, ok, err, panic, stuck, map_ok}
use rust_memcache.Text.Decimal.{to_decimal, parse_digits, parse_uint}
use rust_memcache.Text.Decimal.RoundTrip.{
  IsDigit, to_decimal-All, to_decimal_cons, parse_uint-to_decimal, parse_digits-to_decimal,
}

-- `negsuc n` is the number `-(n + 1)`.
pub data ℤ : Type 0 where
  pos negsuc : ℕ → ℤ

-- The numbers of a type whose values are below `bound`, and not below `-bound`.
abbrev pub InRange : ℕ → ℤ → Type 0
InRange bound (pos n) = n < bound
InRange bound (negsuc n) = n < bound

-- `n.to_string()`
unfoldable pub int_to_string : ℤ → Bytes
int_to_string (pos n) = to_decimal n
int_to_string (negsuc n) = b'-' ∷ to_decimal (suc n)

abbrev negated : ℕ → ℤ
negated zero = pos zero
negated (suc n) = negsuc n

-- The digits behind a minus sign, which are subtracted: too many are an overflow at the lower end.
unfoldable pub negative : Outcome ℕ → Outcome ℤ
negative (ok n) = ok (negated n)
negative (err (parse_error (int pos_overflow))) = err (parse_error (int neg_overflow))
negative (err e) = err e
negative panic = panic
negative stuck = stuck

-- `s.parse::<iN>()?`: one leading `-` may stand before digits; all else is as for the unsigned types.
unfoldable pub parse_int : ℕ → Bytes → Outcome ℤ
unfolding negative
parse_int bound [] = map_ok pos (parse_uint bound [])
parse_int bound (c ∷ []) = map_ok pos (parse_uint bound (c ∷ []))
parse_int bound (c ∷ d ∷ cs) =
    if c == b'-'
    then negative (parse_digits (suc bound) 0 (d ∷ cs))
    else map_ok pos (parse_uint bound (c ∷ d ∷ cs))

parse_int_digits :
    (bound c : ℕ) (cs : Bytes)
    → IsDigit c
    → parse_int bound (c ∷ cs) ≡ map_ok pos (parse_uint bound (c ∷ cs))
unfolding parse_int
parse_int_digits bound c [] h = refl
parse_int_digits bound c (d ∷ cs) h =
    let e : (c == b'-') ≡ false = ne→== c b'-' (omega (arith, h.0)) in rw e refl

-- The digits of a number behind a minus sign.
parse_int_minus :
    (bound n : ℕ) (c : ℕ) (cs : Bytes)
    → n < bound
    → to_decimal (suc n) ≡ c ∷ cs
    → parse_int bound (b'-' ∷ c ∷ cs) ≡ ok (negsuc n)
unfolding parse_int
parse_int_minus bound n c cs h e =
    ap (λ s. negative (parse_digits (suc bound) 0 s)) (sym e)
    ∙ ap negative (parse_digits-to_decimal (suc bound) (suc n) (omega arith))

parse_int_plus :
    (bound n : ℕ) (s : Bytes)
    → n < bound
    → to_decimal n ≡ s
    → All IsDigit s
    → ((c : ℕ) × (cs : Bytes) × (to_decimal n ≡ c ∷ cs))
    → parse_int bound s ≡ ok (pos n)
parse_int_plus bound n [] h e d (c, cs, f) = cc
parse_int_plus bound n (x ∷ xs) h e d f =
    parse_int_digits bound x xs d.0
    ∙ ap (λ s. map_ok pos (parse_uint bound s)) (sym e)
    ∙ ap (map_ok pos) (parse_uint-to_decimal bound n h)

-- A number of the type is read back as it was printed.
pub parse_int-int_to_string :
    (bound : ℕ) (z : ℤ) → InRange bound z → parse_int bound (int_to_string z) ≡ ok z
unfolding int_to_string
parse_int-int_to_string bound (pos n) h =
    parse_int_plus bound n (to_decimal n) h refl (to_decimal-All n) (to_decimal_cons n)
parse_int-int_to_string bound (negsuc n) h =
    let (c, cs, e) = to_decimal_cons (suc n) in
    ap (λ s. parse_int bound (b'-' ∷ s)) e ∙ parse_int_minus bound n c cs h e

-- A printed number is ASCII text.
pub int_to_string-ascii : (z : ℤ) → All (λ c. c < 128) (int_to_string z)
unfolding int_to_string
int_to_string-ascii (pos n) =
    All-map IsDigit (λ c. c < 128) (to_decimal n) (λ c h. omega arith) (to_decimal-All n)
int_to_string-ascii (negsuc n) = (
  omega arith,
  All-map IsDigit (λ c. c < 128) (to_decimal (suc n)) (λ c h. omega arith) (to_decimal-All (suc n)),
)
