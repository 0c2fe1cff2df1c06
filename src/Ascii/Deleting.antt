-- ===== src/Ascii/Deleting.antt =====
-- `delete`, `touch` and `stats` of the ASCII protocol on a socket.
use mathlib.Core.List.{flatten}
use rust_memcache.Prelude.{
  ℕ, suc, ◌≡◌, refl, Bytes, bytes, bytes_eq, bytes_eq→eq, starts_with, Bool, Bool-cases, inl, inr,
  true, false, [], ◌∷◌, ◌++◌, append-nil, arith, if◌then◌else◌,
}
use rust_memcache.Error.{is_key_not_found, server_error, bad_response}
use rust_memcache.Outcome.{Outcome, ok, err}
use rust_memcache.Exec.Talks.{Ends, Talks, Talks-bind, Talks-bind_err, Talks-pure, Talks-subst}
use rust_memcache.Response.{try_from}
use rust_memcache.Stream.{supply}
use rust_memcache.Stream.Exchange.{Talks-write, Talks-flush}
use rust_memcache.Stream.Exact.{Talks-write_fmt}
use rust_memcache.Text.Utf8.{is_utf8}
use rust_memcache.Text.Decimal.{to_decimal}
use rust_memcache.Reader.{CappedLineReader}
use rust_memcache.Reader.View.{IsOpen}
use rust_memcache.Reader.Line.{IsLine}
use rust_memcache.Reader.Talk.{Talks-read_line, Talks-on_stream}
use rust_memcache.Packet.{Stats}
use rust_memcache.Ascii.{delete, touch, stats, stats_loop, stats_response}
use rust_memcache.Ascii.Commands.{crlf}
use rust_memcache.Ascii.Faults.{
  Fault, unknown, client_fault, server_fault, fault_line, fault_error, IsFault, fault-IsLine,
  try_from-fault_line,
}
use rust_memcache.Ascii.Lines.{crlf-IsLine}
use rust_memcache.Ascii.Responses.{found_response}

-- The answers of a server to `delete` and `touch`.
pub data Answer : Type 0 where
  done not_found : Answer
  refused : Fault → Answer

abbrev pub answer_line : Bytes → Answer → Bytes
answer_line word done = word ++ crlf
answer_line word not_found = bytes "NOT_FOUND\r\n"
answer_line word (refused f) = fault_line f

abbrev pub answer_outcome : Answer → Outcome Bool
answer_outcome done = ok true
answer_outcome not_found = ok false
answer_outcome (refused f) = err (fault_error f)

-- The line of an answer is one that the reader takes.
abbrev pub IsFound : Answer → Type 0
IsFound done = Unit
IsFound not_found = Unit
IsFound (refused f) = IsFault f

deleted-IsLine : (x : Answer) → IsFound x → IsLine (answer_line (bytes "DELETED") x)
unfolding is_utf8
deleted-IsLine done h = crlf-IsLine (bytes "DELETED") (omega arith) refl (omega arith)
deleted-IsLine not_found h = crlf-IsLine (bytes "NOT_FOUND") (omega arith) refl (omega arith)
deleted-IsLine (refused f) h = fault-IsLine f h

touched-IsLine : (x : Answer) → IsFound x → IsLine (answer_line (bytes "TOUCHED") x)
unfolding is_utf8
touched-IsLine done h = crlf-IsLine (bytes "TOUCHED") (omega arith) refl (omega arith)
touched-IsLine not_found h = crlf-IsLine (bytes "NOT_FOUND") (omega arith) refl (omega arith)
touched-IsLine (refused f) h = fault-IsLine f h

-- An error line is no missing key.
other :
    (f : Fault)
    → (if is_key_not_found (fault_error f) then ok false else err (fault_error f))
      ≡ answer_outcome (refused f)
unfolding is_key_not_found
other unknown = refl
other (client_fault text) = refl
other (server_fault text) = refl

deleted :
    (x : Answer)
    → found_response (bytes "DELETED\r\n") (answer_line (bytes "DELETED") x) ≡ answer_outcome x
unfolding found_response try_from bytes_eq starts_with is_key_not_found
deleted done = refl
deleted not_found = refl
deleted (refused f) = rw (try_from-fault_line f) (other f)

touched :
    (x : Answer)
    → found_response (bytes "TOUCHED\r\n") (answer_line (bytes "TOUCHED") x) ≡ answer_outcome x
unfolding found_response try_from bytes_eq starts_with is_key_not_found
touched done = refl
touched not_found = refl
touched (refused f) = rw (try_from-fault_line f) (other f)

-- "delete <key>" is sent, and one line is read.
pub delete_exchange :
    (key : Bytes) (x : Answer) (p : CappedLineReader) (w a : Bytes)
    → IsFound x
    → IsOpen p w (answer_line (bytes "DELETED") x ++ a)
    → Ends IsOpen (delete key p) (answer_outcome x) (w ++ (bytes "delete " ++ (key ++ crlf))) a
unfolding delete flatten
delete_exchange key x p w a h o =
    (Talks-subst
        (Talks-bind _ (Talks-on_stream _ (Talks-write_fmt (bytes "delete " ∷ key ∷ crlf ∷ []))) (
          Talks-bind _ (Talks-on_stream _ Talks-flush) (
            rw (deleted x) at
              (Talks-read_line (found_response (bytes "DELETED\r\n")) _ (deleted-IsLine x h)))))
        (simp append-nil) refl).at
      p w a o

-- "touch <key> <expiration>" is sent, and one line is read.
pub touch_exchange :
    (key : Bytes) (expiration : ℕ) (x : Answer) (p : CappedLineReader) (w a : Bytes)
    → IsFound x
    → IsOpen p w (answer_line (bytes "TOUCHED") x ++ a)
    → Ends IsOpen
        (touch key expiration p)
        (answer_outcome x)
        (w ++ (bytes "touch " ++ (key ++ (bytes " " ++ (to_decimal expiration ++ crlf)))))
        a
unfolding touch flatten
touch_exchange key expiration x p w a h o =
    (Talks-subst
        (Talks-bind _
          (Talks-on_stream _ (
            Talks-write_fmt (bytes "touch " ∷ key ∷ bytes " " ∷ to_decimal expiration ∷ crlf ∷ [])))
          (Talks-bind _ (Talks-on_stream _ Talks-flush) (
            rw (touched x) at
              (Talks-read_line (found_response (bytes "TOUCHED\r\n")) _ (touched-IsLine x h)))))
        (simp append-nil) refl).at
      p w a o

abbrev pub end_text : Bytes
end_text = bytes "END\r\n"

-- What `stats` makes of its first line.
abbrev pub stats_outcome : Bytes → Outcome Stats
stats_outcome line =
    if bytes_eq line (bytes "END\r\n")
    then err (server_error (bad_response (bytes "END\r\n")))
    else ok []

pub stats_stops :
    (result : Stats) (line : Bytes)
    → bytes_eq line end_text ≡ false
    → stats_response result line ≡ ok (false, result)
unfolding stats_response
stats_stops result line h = rw h refl

pub stats_end :
    (result : Stats) (line : Bytes)
    → bytes_eq line end_text ≡ true
    → stats_response result line ≡ err (server_error (bad_response end_text))
unfolding stats_response try_from starts_with bytes_eq
stats_end result line h = rw (bytes_eq→eq line end_text h) refl

Talks-stats_loop :
    (fuel : ℕ) (line : Bytes)
    → IsLine line
    → Talks IsOpen (stats_loop (suc fuel) []) (stats_outcome line) [] line
unfolding stats_loop
Talks-stats_loop fuel line l = elim (Bool-cases (bytes_eq line end_text)) [
  | inl e ↦ rw e (
      Talks-subst
        (Talks-bind_err _
          (rw (stats_end [] line e) at (Talks-read_line (stats_response []) line l)))
        refl refl)
  | inr e ↦ rw e (
      Talks-subst
        (Talks-bind _ (rw (stats_stops [] line e) at (Talks-read_line (stats_response []) line l))
          (Talks-pure []))
        refl (append-nil line))
]

-- When the server answers with a line, UTF-8 text of at most 2048 bytes whose first CR LF is at its end,
-- the ASCII `stats` sends "stats" and CR LF and reads that one line only: the line "END" alone is a bad
-- response, and any other line gives an empty map, with all that comes behind the line left unread.
pub stats_exchange :
    (line : Bytes) (p : CappedLineReader) (w a : Bytes)
    → IsLine line
    → IsOpen p w (line ++ a)
    → Ends IsOpen (stats p) (stats_outcome line) (w ++ bytes "stats\r\n") a
unfolding stats
stats_exchange line p w a l o =
    (Talks-subst
        (Talks-bind _
          (Talks-bind _ (Talks-on_stream _ (Talks-write (bytes "stats\r\n")))
            (Talks-on_stream _ Talks-flush))
          (Talks-stats_loop (supply p.inner) line l))
        (simp append-nil) refl).at
      p w a o
