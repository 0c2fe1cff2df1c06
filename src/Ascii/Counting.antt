-- ===== src/Ascii/Counting.antt =====
-- `increment` and `decrement` of the ASCII protocol on a socket.
use mathlib.Core.List.{flatten}
use rust_memcache.Prelude.{
  ℕ, ◌^◌, ◌<◌, ◌≡◌, refl, ap, ◌∙◌, Bytes, bytes, bytes_eq, starts_with, [], ◌∷◌, ◌++◌, append-nil,
  arith, ne→==,
}
use rust_memcache.Error.{command_error, key_not_found}
use rust_memcache.Outcome
use rust_memcache.Outcome.{Outcome, ok, err}
use rust_memcache.Exec.Talks.{Ends, Talks-bind, Talks-subst}
use rust_memcache.Response.{try_from}
use rust_memcache.Stream.Exact.{Talks-write_fmt}
use rust_memcache.Text.{trim_end_matches}
use rust_memcache.Text.Utf8.{is_utf8}
use rust_memcache.Text.Decimal.{to_decimal, parse_uint}
use rust_memcache.Text.Decimal.RoundTrip.{
  IsDigit, to_decimal-All, to_decimal_cons, to_decimal-length, parse_uint-to_decimal,
}
use rust_memcache.Reader.{CappedLineReader}
use rust_memcache.Reader.View.{IsOpen}
use rust_memcache.Reader.Line.{IsLine}
use rust_memcache.Reader.Talk.{Talks-read_line, Talks-on_stream}
use rust_memcache.Ascii.{increment, decrement}
use rust_memcache.Ascii.Commands.{crlf}
use rust_memcache.Ascii.Faults.{
  Fault, fault_line, fault_error, IsFault, fault-IsLine, try_from-fault_line,
}
use rust_memcache.Ascii.HeaderLine.{trim_number}
use rust_memcache.Ascii.Lines.{crlf-IsLine, number_no_cr, number-is_utf8}
use rust_memcache.Ascii.Responses.{u64_response}

-- The answers of a server to `incr` and `decr`. It answers an error line to a value that is no number.
pub data Tally : Type 0 where
  counted : ℕ → Tally
  not_found : Tally
  refused : Fault → Tally

abbrev pub tally_line : Tally → Bytes
tally_line (counted n) = to_decimal n ++ crlf
tally_line not_found = bytes "NOT_FOUND\r\n"
tally_line (refused f) = fault_line f

abbrev pub tally_outcome : Tally → Outcome ℕ
tally_outcome (counted n) = ok n
tally_outcome not_found = err (command_error key_not_found)
tally_outcome (refused f) = err (fault_error f)

-- A line that starts with a digit is no error.
try_from_digit : (c : ℕ) (cs : Bytes) → IsDigit c → try_from (c ∷ cs) ≡ ok (c ∷ cs)
unfolding try_from bytes_eq starts_with
try_from_digit c cs d =
    rw
      (
        ne→== c 69 (omega arith),
        ne→== c 67 (omega arith),
        ne→== c 83 (omega arith),
        ne→== c 78 (omega arith),
      )
      refl

-- What a server answers fits a `u64`, and its line is one that the reader takes.
abbrev pub IsTally : Tally → Type 0
IsTally (counted n) = n < 2 ^ 64
IsTally not_found = Unit
IsTally (refused f) = IsFault f

tally-IsLine : (x : Tally) → IsTally x → IsLine (tally_line x)
unfolding is_utf8
tally-IsLine (counted n) h =
    crlf-IsLine (to_decimal n) (number_no_cr n) (number-is_utf8 n)
      (omega (arith, to_decimal-length n h))
tally-IsLine not_found h = crlf-IsLine (bytes "NOT_FOUND") (omega arith) refl (omega arith)
tally-IsLine (refused f) h = fault-IsLine f h

number_line : (n : ℕ) → try_from (to_decimal n ++ crlf) ≡ ok (to_decimal n ++ crlf)
number_line n =
    let (c, cs, e) = to_decimal_cons n in
    rw e (try_from_digit c (cs ++ crlf) (rw e at (to_decimal-All n)).0)

u64_response-tally_line : (x : Tally) → IsTally x → u64_response (tally_line x) ≡ tally_outcome x
unfolding u64_response try_from bytes_eq starts_with
u64_response-tally_line (counted n) h =
    ap (λ o. Outcome.◌>>=◌ o (λ s. parse_uint (2 ^ 64) (trim_end_matches (bytes "\r\n") s)))
      (number_line n)
    ∙ ap (parse_uint (2 ^ 64)) (trim_number [] n)
    ∙ parse_uint-to_decimal (2 ^ 64) n h
u64_response-tally_line not_found h = refl
u64_response-tally_line (refused f) h = rw (try_from-fault_line f) refl

-- "incr <key> <amount>" and CR LF, and the same for "decr".
abbrev pub count_text : Bytes → Bytes → ℕ → Bytes
count_text word key amount = word ++ (key ++ (bytes " " ++ (to_decimal amount ++ crlf)))

-- "incr <key> <amount>" is sent, and "decr <key> <amount>" by `decrement`, and one line is read. Neither flushes.
pub count_exchange :
    (key : Bytes) (amount : ℕ) (x : Tally) (p : CappedLineReader) (w a : Bytes)
    → IsTally x
    → IsOpen p w (tally_line x ++ a)
    → Ends IsOpen
        (increment key amount p)
        (tally_outcome x)
        (w ++ count_text (bytes "incr ") key amount)
        a
      × Ends IsOpen
          (decrement key amount p)
          (tally_outcome x)
          (w ++ count_text (bytes "decr ") key amount)
          a
unfolding increment decrement flatten
count_exchange key amount x p w a h o =
    let line =
      rw (u64_response-tally_line x h) at
        (Talks-read_line u64_response (tally_line x) (tally-IsLine x h)) in
    (
      (Talks-subst
            (Talks-bind _
              (Talks-on_stream _
                (Talks-write_fmt (bytes "incr " ∷ key ∷ bytes " " ∷ to_decimal amount ∷ crlf ∷ [])))
              line)
            (simp append-nil) refl).at
          p w a o,
      (Talks-subst
            (Talks-bind _
              (Talks-on_stream _
                (Talks-write_fmt (bytes "decr " ∷ key ∷ bytes " " ∷ to_decimal amount ∷ crlf ∷ [])))
              line)
            (simp append-nil) refl).at
          p w a o,
    )
