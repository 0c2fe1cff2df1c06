-- ===== src/Ascii/HeaderLine.antt =====
-- The header line of a value, "VALUE <key> <flags> <length> [<cas>]", is read as it was written.
use rust_memcache.Prelude.{
  ℕ, ◌^◌, ◌<◌, ◌≡◌, ◌≢◌, ap, ◌∙◌, Bytes, bytes, bytes_eq, starts_with, Bool, true, false, [], ◌∷◌,
  ◌++◌, append_assoc, none, some, All, All-map, arith,
}
use rust_memcache.Outcome.{ok}
use rust_memcache.Response.{try_from}
use rust_memcache.Text.{trim_end_matches, split_spaces}
use rust_memcache.Text.Words.{split_word, split_last, trim_line}
use rust_memcache.Text.Decimal.{to_decimal}
use rust_memcache.Text.Decimal.RoundTrip.{
  IsDigit, to_decimal-All, to_decimal_cons, parse_uint-to_decimal,
}
use rust_memcache.Ascii.Responses.{header_response, parse_parts, next_or_err, next_cas, no_more}

-- What a header line must show of itself: no space or line end in the key.
abbrev pub IsKeyChar : ℕ → Type 0
IsKeyChar c = (c ≢ 32) × (c ≢ 13)

digit_ne : (c d : ℕ) → d < 48 → IsDigit c → c ≢ d
digit_ne c d h i = omega arith

pub decimal_without : (n d : ℕ) → d < 48 → All (λ c. c ≢ d) (to_decimal n)
decimal_without n d h =
    All-map IsDigit (λ c. c ≢ d) (to_decimal n) (λ c. digit_ne c d h) (to_decimal-All n)

-- The text of the header up to its last number, and that number.
abbrev pub header_front : Bytes → ℕ → Bytes
header_front key flags = bytes "VALUE " ++ (key ++ (32 ∷ (to_decimal flags ++ (32 ∷ []))))

abbrev pub cas_front : Bytes → ℕ → ℕ → Bytes
cas_front key flags n = header_front key flags ++ (to_decimal n ++ (32 ∷ []))

abbrev pub value_line : Bytes → ℕ → ℕ → Bytes
value_line key flags n = (header_front key flags ++ to_decimal n) ++ bytes "\r\n"

abbrev pub cas_line : Bytes → ℕ → ℕ → ℕ → Bytes
cas_line key flags n cas = (cas_front key flags n ++ to_decimal cas) ++ bytes "\r\n"

-- A number at the end of a line stops the trimming.
pub trim_number :
    (xs : Bytes) (n : ℕ)
    → trim_end_matches (bytes "\r\n") ((xs ++ to_decimal n) ++ bytes "\r\n") ≡ xs ++ to_decimal n
trim_number xs n =
    let (y, ys, e) = to_decimal_cons n in
    trim_as (to_decimal n) y ys e (decimal_without n 10 (omega arith))
  where
    trim_as :
        (ds : Bytes) (y : ℕ) (ys : Bytes)
        → ds ≡ y ∷ ys
        → All (λ c. c ≢ 10) ds
        → trim_end_matches (bytes "\r\n") ((xs ++ ds) ++ bytes "\r\n") ≡ xs ++ ds
    trim_as [] y ys e h = cc
    trim_as (d ∷ ds) y ys e h = trim_line xs d ds h

-- A line that starts with "VALUE" is no error line, and goes on to its parts.
header_parts :
    (has_cas : Bool) (rest body : Bytes)
    → trim_end_matches (bytes "\r\n") (bytes "VALUE " ++ rest) ≡ body
    → header_response has_cas (bytes "VALUE " ++ rest)
      ≡ parse_parts has_cas (bytes "VALUE " ++ rest) (split_spaces body)
unfolding header_response try_from bytes_eq starts_with
header_parts has_cas rest body e = rw e

pub no_space : (key : Bytes) → All IsKeyChar key → All (λ c. c ≢ 32) key
no_space key h = All-map IsKeyChar (λ c. c ≢ 32) key (λ c i. i.0) h

pub split_number : (n : ℕ) → split_spaces (to_decimal n) ≡ to_decimal n ∷ []
split_number n = split_last (to_decimal n) (decimal_without n 32 (omega arith))

pub split_to_number :
    (n : ℕ) (rest : Bytes)
    → split_spaces (to_decimal n ++ (32 ∷ rest)) ≡ to_decimal n ∷ split_spaces rest
split_to_number n rest = split_word (to_decimal n) rest (decimal_without n 32 (omega arith))

split_header :
    (key : Bytes) (flags : ℕ) (rest : Bytes)
    → All IsKeyChar key
    → split_spaces (header_front key flags ++ rest)
      ≡ bytes "VALUE" ∷ key ∷ to_decimal flags ∷ split_spaces rest
split_header key flags rest h =
    let e : header_front key flags ++ rest
        ≡ bytes "VALUE" ++ (32 ∷ (key ++ (32 ∷ (to_decimal flags ++ (32 ∷ rest))))) =
      simp append_assoc in
    rw e (
      split_word (bytes "VALUE") _ (omega arith)
      ∙ ap (λ l. bytes "VALUE" ∷ l)
          (split_word key _ (no_space key h) ∙ ap (λ l. key ∷ l) (split_to_number flags rest)))

parse_parts_lem :
    (buf key : Bytes) (flags n : ℕ)
    → flags < 2 ^ 32
    → n < 2 ^ 64
    → parse_parts false buf (bytes "VALUE" ∷ key ∷ to_decimal flags ∷ to_decimal n ∷ [])
      ≡ ok (some (record { key = key; flags = flags; length = n; cas = none }))
unfolding parse_parts next_or_err next_cas no_more
parse_parts_lem buf key flags n f l =
    rw (parse_uint-to_decimal (2 ^ 32) flags f, parse_uint-to_decimal (2 ^ 64) n l)

parse_parts_cas :
    (buf key : Bytes) (flags n cas : ℕ)
    → flags < 2 ^ 32
    → n < 2 ^ 64
    → cas < 2 ^ 64
    → parse_parts true buf
        (bytes "VALUE" ∷ key ∷ to_decimal flags ∷ to_decimal n ∷ to_decimal cas ∷ [])
      ≡ ok (some (record { key = key; flags = flags; length = n; cas = some cas }))
unfolding parse_parts next_or_err next_cas no_more
parse_parts_cas buf key flags n cas f l c = rw (
  parse_uint-to_decimal (2 ^ 32) flags f,
  parse_uint-to_decimal (2 ^ 64) n l,
  parse_uint-to_decimal (2 ^ 64) cas c,
)

-- The header line of a value without cas id, "VALUE <key> <flags> <length>" and CR LF, is read as its key,
-- flags and length. The key has no space or CR, the flags fit 32 bits and the length 64 bits.
pub header_response-value_line :
    (key : Bytes) (flags n : ℕ)
    → All IsKeyChar key
    → flags < 2 ^ 32
    → n < 2 ^ 64
    → header_response false (value_line key flags n)
      ≡ ok (some (record { key = key; flags = flags; length = n; cas = none }))
header_response-value_line key flags n h f l =
    header_parts false _ _ (trim_number (header_front key flags) n)
    ∙ ap (parse_parts false (value_line key flags n)) (
        split_header key flags (to_decimal n) h
        ∙ ap (λ p. bytes "VALUE" ∷ key ∷ to_decimal flags ∷ p) (split_number n))
    ∙ parse_parts_lem (value_line key flags n) key flags n f l

-- The header line of a value with cas id, "VALUE <key> <flags> <length> <cas>" and CR LF, is read as its
-- key, flags, length and cas id. The key has no space or CR, the flags fit 32 bits, the length and the cas
-- id 64 bits.
pub header_response-cas_line :
    (key : Bytes) (flags n cas : ℕ)
    → All IsKeyChar key
    → flags < 2 ^ 32
    → n < 2 ^ 64
    → cas < 2 ^ 64
    → header_response true (cas_line key flags n cas)
      ≡ ok (some (record { key = key; flags = flags; length = n; cas = some cas }))
header_response-cas_line key flags n cas h f l c =
    header_parts true _ _ (trim_number (cas_front key flags n) cas)
    ∙ ap (parse_parts true (cas_line key flags n cas)) (
        ap split_spaces (
          append_assoc (header_front key flags) _ (to_decimal cas)
          ∙ ap (λ r. header_front key flags ++ r)
              (append_assoc (to_decimal n) (32 ∷ []) (to_decimal cas)))
        ∙ split_header key flags (to_decimal n ++ (32 ∷ to_decimal cas)) h
        ∙ ap (λ p. bytes "VALUE" ∷ key ∷ to_decimal flags ∷ p)
            (split_to_number n (to_decimal cas) ∙ ap (λ p. to_decimal n ∷ p) (split_number cas)))
    ∙ parse_parts_cas (cas_line key flags n cas) key flags n cas f l c
