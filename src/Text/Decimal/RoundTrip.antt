-- ===== src/Text/Decimal/RoundTrip.antt =====
-- Parsing what was printed.
use rust_memcache.Prelude.{
  ℕ, zero, suc, ◌+◌, ◌-◌, ◌*◌, ◌/◌, ◌%◌, ◌<◌, ◌≤◌, Bytes, [], ◌∷◌, ◌++◌, ltb, ◌≡◌, refl, ◌∙◌, All,
  arith, ◌^◌, true, length, length-append, lt→ltb, Bool-cases, inl, inr, ltb→lt, ltb→le, All-append,
}
use rust_memcache.Outcome.{ok, ◌>>=◌}
use rust_memcache.Text.Decimal.{digits_loop, to_decimal, parse_digits, parse_uint}

abbrev pub IsDigit : ℕ → Type 0
IsDigit c = (48 ≤ c) × (c ≤ 57)

parse_digits-append :
    (bound acc : ℕ) (xs ys : Bytes)
    → parse_digits bound acc (xs ++ ys)
      ≡ (parse_digits bound acc xs >>= λ a. parse_digits bound a ys)
unfolding parse_digits
parse_digits-append bound acc [] ys = refl
parse_digits-append bound acc (x ∷ xs) ys =
    ground (arith, parse_digits-append bound (acc * 10 + (x - 48)) xs ys)

parse_digit :
    (bound acc d : ℕ)
    → d < 10
    → acc * 10 + d < bound
    → parse_digits bound acc ((48 + d) ∷ []) ≡ ok (acc * 10 + d)
unfolding parse_digits
parse_digit bound acc d h k = ground arith

last_digit : (bound n : ℕ) → n < bound → parse_digits bound (n / 10) ((48 + n % 10) ∷ []) ≡ ok n
last_digit bound n h =
    let e : n / 10 * 10 + n % 10 ≡ n = omega arith in
    rw e at (parse_digit bound (n / 10) (n % 10) (omega arith) (omega arith))

small_digit : (bound n : ℕ) → n < 10 → n < bound → parse_digits bound 0 ((48 + n) ∷ []) ≡ ok n
small_digit bound n h k =
    let e : 0 * 10 + n ≡ n = omega arith in rw e at (parse_digit bound 0 n h (omega arith))

parse_digits-digits_loop :
    (fuel bound n : ℕ) → n ≤ fuel → n < bound → parse_digits bound 0 (digits_loop fuel n) ≡ ok n
unfolding digits_loop
parse_digits-digits_loop zero bound n h k =
    let e : n ≡ 0 = omega arith in rw e (parse_digit bound 0 0 (omega arith) (omega arith))
parse_digits-digits_loop (suc fuel) bound n h k = elim (Bool-cases (ltb n 10)) [
  | inl small ↦ rw small (small_digit bound n (ltb→lt n 10 small) k)
  | inr big ↦
      rw
        (
          big,
          parse_digits-append bound 0 (digits_loop fuel (n / 10)) _,
          parse_digits-digits_loop fuel bound (n / 10) (omega (arith, ltb→le n 10 big))
              (omega arith),
        )
        (last_digit bound n k)
]

-- The digits of a printed number are read as that number.
pub parse_digits-to_decimal : (bound n : ℕ) → n < bound → parse_digits bound 0 (to_decimal n) ≡ ok n
unfolding to_decimal
parse_digits-to_decimal bound n h = parse_digits-digits_loop n bound n (omega arith) h

digits_loop-All : (fuel n : ℕ) → All IsDigit (digits_loop fuel n)
unfolding digits_loop
digits_loop-All zero n = omega arith
digits_loop-All (suc fuel) n = elim (Bool-cases (ltb n 10)) [
  | inl small ↦ rw small (omega (arith, ltb→lt n 10 small))
  | inr big ↦ rw big (
      All-append IsDigit (digits_loop fuel (n / 10)) _ (digits_loop-All fuel (n / 10))
        (omega arith))
]

-- Printed numbers are digits only.
pub to_decimal-All : (n : ℕ) → All IsDigit (to_decimal n)
unfolding to_decimal
to_decimal-All n = digits_loop-All n n

digits_ne : (xs : Bytes) (c : ℕ) → (d : ℕ) × (ds : Bytes) × (xs ++ (c ∷ []) ≡ d ∷ ds)
digits_ne [] c = (c, [], refl)
digits_ne (x ∷ xs) c = (x, xs ++ (c ∷ []), refl)

digits_loop_cons : (fuel n : ℕ) → (c : ℕ) × (cs : Bytes) × (digits_loop fuel n ≡ c ∷ cs)
unfolding digits_loop
digits_loop_cons zero n = (48 + n % 10, [], refl)
digits_loop_cons (suc fuel) n = elim (Bool-cases (ltb n 10)) [
  | inl small ↦ (48 + n, [], rw small)
  | inr big ↦ rw big (digits_ne (digits_loop fuel (n / 10)) (48 + n % 10))
]

-- Without a sign the whole text is read as digits.
parse_uint_digits :
    (bound c : ℕ) (cs : Bytes) → 48 ≤ c → parse_uint bound (c ∷ cs) ≡ parse_digits bound 0 (c ∷ cs)
unfolding parse_uint
parse_uint_digits bound c [] h = ground arith
parse_uint_digits bound c (d ∷ cs) h = ground arith

parse_uint-All_digits :
    (bound n : ℕ) (s : Bytes)
    → ((c : ℕ) × (cs : Bytes) × (s ≡ c ∷ cs))
    → All IsDigit s
    → parse_digits bound 0 s ≡ ok n
    → parse_uint bound s ≡ ok n
parse_uint-All_digits bound n [] (c, cs, e) h k = cc
parse_uint-All_digits bound n (x ∷ xs) e h k = parse_uint_digits bound x xs h.0.0 ∙ k

-- A number of the type is read back as it was printed.
pub parse_uint-to_decimal : (bound n : ℕ) → n < bound → parse_uint bound (to_decimal n) ≡ ok n
unfolding to_decimal
parse_uint-to_decimal bound n h =
    parse_uint-All_digits bound n (digits_loop n n) (digits_loop_cons n n) (digits_loop-All n n)
      (parse_digits-digits_loop n bound n (omega arith) h)

parse_digits-lt :
    (bound acc : ℕ) (s : Bytes) (n : ℕ) → acc < bound → parse_digits bound acc s ≡ ok n → n < bound
unfolding parse_digits
parse_digits-lt bound acc [] n h e = ground arith
parse_digits-lt bound acc (c ∷ s) n h e =
    ground (arith, parse_digits-lt bound (acc * 10 + (c - 48)) s n)

-- What is read fits the type.
pub parse_uint-lt :
    (bound : ℕ) (s : Bytes) (n : ℕ) → 0 < bound → parse_uint bound s ≡ ok n → n < bound
unfolding parse_uint
parse_uint-lt bound [] n h e = cc
parse_uint-lt bound (c ∷ []) n h e = ground (arith, parse_digits-lt bound 0 (c ∷ []) n h)
parse_uint-lt bound (c ∷ d ∷ cs) n h e =
    ground (arith, parse_digits-lt bound 0 (d ∷ cs) n h, parse_digits-lt bound 0 (c ∷ d ∷ cs) n h)

pub to_decimal_cons : (n : ℕ) → (c : ℕ) × (cs : Bytes) × (to_decimal n ≡ c ∷ cs)
unfolding to_decimal
to_decimal_cons n = digits_loop_cons n n

abbrev tens : ℕ → ℕ
tens zero = 10
tens (suc k) = 10 * tens k

digits_loop-length : (k fuel n : ℕ) → n < tens k → length (digits_loop fuel n) ≤ suc k
unfolding digits_loop
digits_loop-length k zero n h = omega arith
digits_loop-length zero (suc fuel) n h =
    let small : ltb n 10 ≡ true = lt→ltb n 10 h in rw small (omega arith)
digits_loop-length (suc k) (suc fuel) n h = elim (Bool-cases (ltb n 10)) [
  | inl small ↦ rw small (omega arith)
  | inr big ↦ rw big (
      omega (
        arith,
        digits_loop-length k fuel (n / 10) (omega arith),
        length-append {0} (digits_loop fuel (n / 10)) ((48 + n % 10) ∷ []),
      ))
]

-- A number of 64 bits has 20 digits at most.
pub to_decimal-length : (n : ℕ) → n < 2 ^ 64 → length (to_decimal n) ≤ 20
unfolding to_decimal
to_decimal-length n h = digits_loop-length 19 n n (omega arith)
