-- ===== src/Text/Total.antt =====
-- The readers of texts end.
use rust_memcache.Prelude.{ℕ, suc, Bytes, [], ◌∷◌, ◌==◌, ◌||◌, ◌&&◌, not, leb, ◌*◌, ◌+◌, ◌-◌, arith}
use rust_memcache.Outcome.{Outcome, ok, err, panic, stuck}
use rust_memcache.Exec.Total.{IsDone, IsDone-if, IsDone-map_ok}
use rust_memcache.Text.Utf8.{is_utf8, str_from_utf8, string_from_utf8}
use rust_memcache.Text.Decimal.{parse_digits, parse_uint}
use rust_memcache.Text.Decimal.Signed.{pos, negative, parse_int}

pub str_from_utf8-IsDone : (bs : Bytes) → IsDone (str_from_utf8 bs)
unfolding str_from_utf8
str_from_utf8-IsDone bs = IsDone-if (is_utf8 bs) _ _ tt tt

pub string_from_utf8-IsDone : (bs : Bytes) → IsDone (string_from_utf8 bs)
unfolding string_from_utf8
string_from_utf8-IsDone bs = IsDone-if (is_utf8 bs) _ _ tt tt

parse_digits-IsDone : (bound n : ℕ) (cs : Bytes) → IsDone (parse_digits bound n cs)
unfolding parse_digits
parse_digits-IsDone bound n [] = tt
parse_digits-IsDone bound n (c ∷ cs) = IsDone-if (not (leb 48 c && leb c 57)) _ _ tt (
    IsDone-if (leb bound (n * 10 + (c - 48))) _ _ tt
      (parse_digits-IsDone bound (n * 10 + (c - 48)) cs))

pub parse_uint-IsDone : (bound : ℕ) (cs : Bytes) → IsDone (parse_uint bound cs)
unfolding parse_uint
parse_uint-IsDone bound [] = tt
parse_uint-IsDone bound (c ∷ []) =
    IsDone-if (c == b'+' || c == b'-') _ _ tt (parse_digits-IsDone bound 0 (c ∷ []))
parse_uint-IsDone bound (c ∷ d ∷ cs) =
    IsDone-if (c == b'+') _ _ (parse_digits-IsDone bound 0 (d ∷ cs))
      (parse_digits-IsDone bound 0 (c ∷ d ∷ cs))

negative-IsDone : (o : Outcome ℕ) → IsDone o → IsDone (negative o)
unfolding negative
negative-IsDone (ok n) d = tt
negative-IsDone (err e) d = ground arith
negative-IsDone panic d = tt
negative-IsDone stuck d = d

pub parse_int-IsDone : (bound : ℕ) (cs : Bytes) → IsDone (parse_int bound cs)
unfolding parse_int
parse_int-IsDone bound [] = IsDone-map_ok pos _ (parse_uint-IsDone bound [])
parse_int-IsDone bound (c ∷ []) = IsDone-map_ok pos _ (parse_uint-IsDone bound (c ∷ []))
parse_int-IsDone bound (c ∷ d ∷ cs) =
    IsDone-if (c == b'-') _ _ (negative-IsDone _ (parse_digits-IsDone (suc bound) 0 (d ∷ cs)))
      (IsDone-map_ok pos _ (parse_uint-IsDone bound (c ∷ d ∷ cs)))
