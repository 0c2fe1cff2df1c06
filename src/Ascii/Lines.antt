-- ===== src/Ascii/Lines.antt =====
-- Texts that end in CR LF are lines as the reader takes them.
use rust_memcache.Prelude.{
  ℕ, ◌+◌, ◌≡◌, ◌≢◌, ◌≤◌, ◌<◌, ap, ◌∙◌, All-append, All-map, Bytes, bytes, true, [], ◌∷◌, ◌++◌, some,
  All, arith, length, ne→==, length-append,
}
use rust_memcache.Text.Utf8.{is_utf8, is_utf8-append, ascii-is_utf8}
use rust_memcache.Text.Decimal.{to_decimal}
use rust_memcache.Reader.{capacity, get_line_from, get_line}
use rust_memcache.Reader.Line.{IsLine}
use rust_memcache.Ascii.HeaderLine.{
  IsKeyChar, decimal_without, value_line, cas_line, header_front, cas_front,
}
use rust_memcache.Text.Decimal.RoundTrip.{IsDigit, to_decimal-All}

get_line_from-crlf :
    (i : ℕ) (body : Bytes)
    → All (λ c. c ≢ 13) body
    → get_line_from i (body ++ bytes "\r\n") ≡ some (i + length body + 2)
unfolding get_line_from
get_line_from-crlf i [] h = ap some (omega arith)
get_line_from-crlf i (b ∷ body) h =
    rw (ne→== b 13 h.0, get_line_from-crlf (i + 1) body h.1) (ap some (omega arith))

-- A text with no CR, and CR LF behind it.
pub crlf-IsLine :
    (body : Bytes)
    → All (λ c. c ≢ 13) body
    → is_utf8 body ≡ true
    → length body + 2 ≤ capacity
    → IsLine (body ++ bytes "\r\n")
unfolding get_line
crlf-IsLine body h u l = record {
  ends =
      get_line_from-crlf 0 body h ∙ ap some (omega (arith, length-append {0} body (bytes "\r\n")));
  text = is_utf8-append body (bytes "\r\n") u (ascii-is_utf8 (bytes "\r\n") (omega arith));
  fits = omega (arith, length-append {0} body (bytes "\r\n"));
}

pub number_no_cr : (n : ℕ) → All (λ c. c ≢ 13) (to_decimal n)
number_no_cr n = decimal_without n 13 (omega arith)

pub number-is_utf8 : (n : ℕ) → is_utf8 (to_decimal n) ≡ true
number-is_utf8 n =
    ascii-is_utf8 (to_decimal n)
      (All-map IsDigit (λ c. c < 128) (to_decimal n) (λ c h. omega arith) (to_decimal-All n))

-- A text followed by a space and a number, and one followed by a space and a text.
spaced :
    (xs ys : Bytes)
    → All (λ c. c ≢ 13) xs
    → All (λ c. c ≢ 13) ys
    → All (λ c. c ≢ 13) (xs ++ (ys ++ (32 ∷ [])))
spaced xs ys h k = All-append _ xs _ h (All-append _ ys (32 ∷ []) k (omega arith))

spaced-is_utf8 :
    (xs ys : Bytes)
    → is_utf8 xs ≡ true
    → is_utf8 ys ≡ true
    → is_utf8 (xs ++ (ys ++ (32 ∷ []))) ≡ true
spaced-is_utf8 xs ys h k =
    is_utf8-append xs _ h (is_utf8-append ys (32 ∷ []) k (ascii-is_utf8 (32 ∷ []) (omega arith)))

module _ (key : Bytes) (flags : ℕ) (chars : All IsKeyChar key) (text : is_utf8 key ≡ true) where
  front_no_cr : All (λ c. c ≢ 13) (header_front key flags)
  front_no_cr = All-append _ (bytes "VALUE ") _ (omega arith) (
      All-append _ key _ (All-map IsKeyChar (λ c. c ≢ 13) key (λ c h. h.1) chars)
        (spaced (32 ∷ []) (to_decimal flags) (omega arith) (number_no_cr flags)))

  front-is_utf8 : is_utf8 (header_front key flags) ≡ true
  front-is_utf8 = is_utf8-append (bytes "VALUE ") _ (ascii-is_utf8 (bytes "VALUE ") (omega arith)) (
      is_utf8-append key _ text (
        spaced-is_utf8 (32 ∷ []) (to_decimal flags) (ascii-is_utf8 (32 ∷ []) (omega arith))
          (number-is_utf8 flags)))

  pub value_line-IsLine :
      (n : ℕ) → length (value_line key flags n) ≤ capacity → IsLine (value_line key flags n)
  value_line-IsLine n l =
      crlf-IsLine (header_front key flags ++ to_decimal n)
        (All-append _ (header_front key flags) (to_decimal n) front_no_cr (number_no_cr n))
        (is_utf8-append (header_front key flags) (to_decimal n) front-is_utf8 (number-is_utf8 n))
        (omega (arith, length-append {0} (header_front key flags ++ to_decimal n) (bytes "\r\n")))

  pub cas_line-IsLine :
      (n cas : ℕ) → length (cas_line key flags n cas) ≤ capacity → IsLine (cas_line key flags n cas)
  cas_line-IsLine n cas l =
      crlf-IsLine (cas_front key flags n ++ to_decimal cas)
        (All-append _ (cas_front key flags n) (to_decimal cas)
          (spaced (header_front key flags) (to_decimal n) front_no_cr (number_no_cr n))
          (number_no_cr cas))
        (is_utf8-append (cas_front key flags n) (to_decimal cas)
          (spaced-is_utf8 (header_front key flags) (to_decimal n) front-is_utf8 (number-is_utf8 n))
          (number-is_utf8 cas))
        (omega (arith, length-append {0} (cas_front key flags n ++ to_decimal cas) (bytes "\r\n")))
