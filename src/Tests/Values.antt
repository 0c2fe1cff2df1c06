-- ===== src/Tests/Values.antt =====
-- Examples for `gets` of the ASCII protocol, and for the texts of errors.
use rust_memcache.Prelude.{
  ◌≡◌, ◌⊎◌, ◌≤◌, refl, Bytes, bytes, bytes_eq, starts_with, [], ◌∷◌, ◌++◌, arith, length,
}
use mathlib.Core.List.{flatten, map}
use rust_memcache.Error.{
  ServerError, server_error, command_error, invalid_command, key_not_found, key_exists,
}
use rust_memcache.Error.Display.{StdDisplay, to_string, to_string-try_from}
use rust_memcache.Outcome.{ok, err}
use rust_memcache.Response.{try_from}
use rust_memcache.Exec.Talks.{Ends}
use rust_memcache.HashMap
use rust_memcache.HashMap.{key_bytes}
use rust_memcache.Text.Utf8.{is_utf8}
use rust_memcache.Text.Decimal.{to_decimal}
use rust_memcache.Value.{from_bytes, without_cas}
use rust_memcache.Reader.{capacity}
use rust_memcache.Reader.View.{IsOpen}
use rust_memcache.Ascii
use rust_memcache.Ascii.{join_spaces}
use rust_memcache.Ascii.Commands.{crlf}
use rust_memcache.Ascii.HeaderLine.{cas_line}
use rust_memcache.Ascii.Retrieval.{end_line}
use rust_memcache.Ascii.Gets.{Item, IsItem, item_bytes, gets_items}
use rust_memcache.Tests.Channels.{reader_with, reader-IsOpen}

abbrev foo : Item
foo = record { key = bytes "foo"; flags = 5; cas = 42; payload = bytes "bar" }

foo_line : length (cas_line (bytes "foo") 5 3 42) ≤ capacity
unfolding to_decimal
foo_line = omega arith

foo-IsItem : IsItem (without_cas from_bytes) foo (bytes "bar")
unfolding is_utf8
foo-IsItem = record {
  chars = omega arith;
  text = refl;
  flags_fit = omega arith;
  cas_fits = omega arith;
  size = omega arith;
  line = foo_line;
  read_as = refl;
}

abbrev sent : Bytes
sent = (flatten (map item_bytes (foo ∷ [])) ++ end_line) ++ []

gets_items_example :
    Ends IsOpen
      (Ascii.gets (without_cas from_bytes) (bytes "a" ∷ bytes "foo" ∷ []) (reader_with sent))
      (ok (HashMap.extend [] ((bytes "foo", bytes "bar") ∷ [])))
      ([] ++ (bytes "gets " ++ (join_spaces (bytes "a" ∷ bytes "foo" ∷ []) ++ crlf)))
      []
gets_items_example =
    gets_items (without_cas from_bytes) (bytes "a" ∷ bytes "foo" ∷ []) (foo ∷ []) (bytes "bar" ∷ [])
      (reader_with sent) [] [] (foo-IsItem, tt) (omega arith) (reader-IsOpen sent)

-- All that the standard library displays is "?".
abbrev std : StdDisplay
std = record {
  int_text = λ e. bytes "?";
  from_utf8_text = λ e. bytes "?";
  utf8_text = λ e. bytes "?";
  io_text = λ e. bytes "?";
}

abbrev out_of_memory : Bytes
out_of_memory = bytes "SERVER_ERROR out of memory\r\n"

out_of_memory_error : try_from out_of_memory ≡ err (server_error (ServerError.error out_of_memory))
unfolding try_from bytes_eq starts_with
out_of_memory_error = refl

to_string-try_from_example :
    (to_string std (server_error (ServerError.error out_of_memory)) ≡ out_of_memory)
    ⊎ ((out_of_memory ≡ bytes "ERROR\r\n")
        × (server_error (ServerError.error out_of_memory) ≡ command_error invalid_command))
    ⊎ ((out_of_memory ≡ bytes "NOT_FOUND\r\n")
        × (server_error (ServerError.error out_of_memory) ≡ command_error key_not_found))
    ⊎ ((out_of_memory ≡ bytes "EXISTS\r\n")
        × (server_error (ServerError.error out_of_memory) ≡ command_error key_exists))
to_string-try_from_example =
    to_string-try_from std out_of_memory (server_error (ServerError.error out_of_memory))
      out_of_memory_error
