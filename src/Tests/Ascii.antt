-- ===== src/Tests/Ascii.antt =====
-- Examples for the ASCII protocol.
use rust_memcache.Prelude.{
  ℕ, ◌+◌, ◌≤◌, ◌≡◌, refl, Bytes, bytes, Bool, true, false, List, [], ◌∷◌, ◌++◌, Option, some, none,
  All, arith, length, replicate,
}
use rust_memcache.Error.{parse_error, str}
use rust_memcache.Outcome.{Outcome, ok, err}
use rust_memcache.Exec.Talks.{Ends}
use rust_memcache.Stream.Exact.{Talks-write_all}
use rust_memcache.Text.Utf8.{is_utf8}
use rust_memcache.Text.Decimal.{to_decimal}
use rust_memcache.Value.{bytes_value, from_bytes, without_cas}
use rust_memcache.Reader.{capacity, get_line, read_line}
use rust_memcache.Reader.View.{IsOpen}
use rust_memcache.Reader.Line.{IsLine, read_line_lem}
use rust_memcache.Reader.BadLine.{read_lines, read_lines-bad_line}
use rust_memcache.Ascii
use rust_memcache.Ascii.Commands.{StoreCommand, crlf}
use rust_memcache.Ascii.HeaderLine.{IsKeyChar, value_line}
use rust_memcache.Ascii.Lines.{crlf-IsLine}
use rust_memcache.Ascii.StoreReply.{not_stored, exists, reply_line}
use rust_memcache.Ascii.Storing.{store_text, cas_line_exchange, set_exchange}
use rust_memcache.Ascii.Retrieval.{end_line, get_hit}
use rust_memcache.Ascii.Deleting.{stats_exchange}
use rust_memcache.Tests.Channels.{reader_with, reader-IsOpen}

exists-IsLine : IsLine (reply_line exists)
unfolding is_utf8
exists-IsLine = crlf-IsLine (bytes "EXISTS") (omega arith) refl (omega arith)

cas_line_exchange_example :
    Ends IsOpen
      (Ascii.cas bytes_value
        (bytes "foo")
        (bytes "bar")
        10
        42
        (reader_with (reply_line exists ++ [])))
      (ok false)
      ([]
        ++ store_text bytes_value
            (bytes "bar")
            (bytes "bar")
            (Talks-write_all (bytes "bar"))
            StoreCommand.cas
            (bytes "foo")
            10
            (some 42))
      []
cas_line_exchange_example =
    cas_line_exchange bytes_value (bytes "bar") (bytes "bar") (Talks-write_all (bytes "bar"))
      (bytes "foo") 10 42 exists (reader_with (reply_line exists ++ [])) [] [] exists-IsLine
      (reader-IsOpen (reply_line exists ++ []))

not_stored-IsLine : IsLine (reply_line not_stored)
unfolding is_utf8
not_stored-IsLine = crlf-IsLine (bytes "NOT_STORED") (omega arith) refl (omega arith)

set_exchange_example :
    Ends IsOpen
      (Ascii.set bytes_value
        (bytes "foo")
        (bytes "bar")
        10
        (reader_with (reply_line not_stored ++ [])))
      (ok tt)
      ([]
        ++ store_text bytes_value
            (bytes "bar")
            (bytes "bar")
            (Talks-write_all (bytes "bar"))
            StoreCommand.set
            (bytes "foo")
            10
            none)
      []
    × Ends IsOpen
        (Ascii.add bytes_value
          (bytes "foo")
          (bytes "bar")
          10
          (reader_with (reply_line not_stored ++ [])))
        (ok tt)
        ([]
          ++ store_text bytes_value
              (bytes "bar")
              (bytes "bar")
              (Talks-write_all (bytes "bar"))
              StoreCommand.add
              (bytes "foo")
              10
              none)
        []
    × Ends IsOpen
        (Ascii.replace bytes_value
          (bytes "foo")
          (bytes "bar")
          10
          (reader_with (reply_line not_stored ++ [])))
        (ok tt)
        ([]
          ++ store_text bytes_value
              (bytes "bar")
              (bytes "bar")
              (Talks-write_all (bytes "bar"))
              StoreCommand.replace
              (bytes "foo")
              10
              none)
        []
set_exchange_example =
    set_exchange bytes_value (bytes "bar") (bytes "bar") (Talks-write_all (bytes "bar"))
      (bytes "foo") 10 not_stored (reader_with (reply_line not_stored ++ [])) [] []
      not_stored-IsLine (reader-IsOpen (reply_line not_stored ++ []))

foo_chars : All IsKeyChar (bytes "foo")
foo_chars = omega arith

foo-is_utf8 : is_utf8 (bytes "foo") ≡ true
unfolding is_utf8
foo-is_utf8 = refl

abbrev hit : Bytes
hit =
    ((value_line (bytes "foo") 5 (length (bytes "bar")) ++ (bytes "bar" ++ crlf)) ++ end_line)
    ++ (9 ∷ [])

line_fits : length (value_line (bytes "foo") 5 (length (bytes "bar"))) ≤ capacity
unfolding to_decimal
line_fits = omega arith

get_hit_example :
    Ends IsOpen
      (Ascii.get (without_cas from_bytes) (bytes "foo") (reader_with hit))
      (ok (some (bytes "bar")))
      ([] ++ (bytes "get " ++ (bytes "foo" ++ crlf)))
      (9 ∷ [])
get_hit_example =
    get_hit (without_cas from_bytes) (bytes "foo") 5 foo_chars foo-is_utf8 (bytes "bar")
      (bytes "bar") (omega arith) (omega arith) line_fits refl (reader_with hit) [] (9 ∷ [])
      (reader-IsOpen hit)

stat-IsLine : IsLine (bytes "STAT pid 1\r\n")
unfolding is_utf8
stat-IsLine = crlf-IsLine (bytes "STAT pid 1") (omega arith) refl (omega arith)

stats_exchange_example :
    Ends IsOpen
      (Ascii.stats (reader_with (bytes "STAT pid 1\r\n" ++ bytes "END\r\n")))
      (ok [])
      ([] ++ bytes "stats\r\n")
      (bytes "END\r\n")
unfolding rust_memcache.Prelude.bytes_eq
stats_exchange_example =
    stats_exchange (bytes "STAT pid 1\r\n")
      (reader_with (bytes "STAT pid 1\r\n" ++ bytes "END\r\n")) [] (bytes "END\r\n") stat-IsLine
      (reader-IsOpen (bytes "STAT pid 1\r\n" ++ bytes "END\r\n"))

read_line_lem_example :
    Ends IsOpen
      (read_line (λ line. ok line) (reader_with (bytes "STAT pid 1\r\n" ++ (1 ∷ []))))
      (ok (bytes "STAT pid 1\r\n"))
      []
      (1 ∷ [])
read_line_lem_example =
    read_line_lem (bytes "STAT pid 1\r\n") (1 ∷ []) [] stat-IsLine (λ line. ok line)
      (reader_with (bytes "STAT pid 1\r\n" ++ (1 ∷ [])))
      (reader-IsOpen (bytes "STAT pid 1\r\n" ++ (1 ∷ [])))

-- A reader whose buffer holds a line with the byte 255.
abbrev broken : Bytes
broken = 255 ∷ 13 ∷ 10 ∷ []

broken_line : get_line broken ≡ some 3
unfolding get_line
broken_line = refl

broken-is_utf8 : is_utf8 broken ≡ false
unfolding is_utf8
broken-is_utf8 = refl

abbrev accept : Bytes → Outcome Bytes
accept line = ok line

-- A good line behind it is not reached.
read_lines-bad_line_example :
    ((read_lines (accept ∷ accept ∷ []) (reader_with (broken ++ end_line))).0
      ≡ err (parse_error (str broken)) ∷ err (parse_error (str broken)) ∷ [])
    × IsOpen
        (read_lines (accept ∷ accept ∷ []) (reader_with (broken ++ end_line))).1
        []
        (broken ++ end_line)
read_lines-bad_line_example =
    read_lines-bad_line broken end_line [] broken_line (omega arith) broken-is_utf8
      (accept ∷ accept ∷ []) (reader_with (broken ++ end_line)) (reader-IsOpen (broken ++ end_line))
