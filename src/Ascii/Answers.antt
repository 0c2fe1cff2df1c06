-- ===== src/Ascii/Answers.antt =====
-- Every callback that reads a response line ends.
use rust_memcache.Prelude.{
  arith, ℕ, ◌^◌, Bytes, bytes, bytes_eq, starts_with, Bool, true, false, not, List, [], ◌∷◌, Option,
}
use rust_memcache.Error.{is_key_not_found}
use rust_memcache.Exec.Total.{IsDone, IsDone-if, IsDone-bind, IsDone-handle}
use rust_memcache.HashMap.{key_bytes}
use rust_memcache.Response.{try_from}
use rust_memcache.Text.{trim_end_matches}
use rust_memcache.Text.Total.{parse_uint-IsDone}
use rust_memcache.Ascii.Commands.{StoreCommand, check_cas}
use rust_memcache.Ascii.Responses.{
  Header, version_response, ok_response, found_response, store_response, u64_response, next_or_err,
  next_cas, no_more, parse_parts, header_response,
}

-- The kinds of a test: a value, or a failure.
try_from-IsDone : (s : Bytes) → IsDone (try_from s)
unfolding try_from
try_from-IsDone s = IsDone-if (bytes_eq s (bytes "ERROR\r\n")) _ _ tt (
    IsDone-if (starts_with s (bytes "CLIENT_ERROR")) _ _ tt (
      IsDone-if (starts_with s (bytes "SERVER_ERROR")) _ _ tt (
        IsDone-if (bytes_eq s (bytes "NOT_FOUND\r\n")) _ _ tt
          (IsDone-if (bytes_eq s (bytes "EXISTS\r\n")) _ _ tt tt))))

pub version_response-IsDone : (line : Bytes) → IsDone (version_response line)
unfolding version_response
version_response-IsDone line =
    IsDone-bind _ _ (try_from-IsDone line)
      (λ s. IsDone-if (not (starts_with s (bytes "VERSION"))) _ _ tt tt)

pub ok_response-IsDone : (line : Bytes) → IsDone (ok_response line)
unfolding ok_response
ok_response-IsDone line =
    IsDone-bind _ _ (try_from-IsDone line) (λ s. IsDone-if (bytes_eq s (bytes "OK\r\n")) _ _ tt tt)

pub found_response-IsDone : (word line : Bytes) → IsDone (found_response word line)
unfolding found_response
found_response-IsDone word line =
    IsDone-handle _ _ _ (try_from-IsDone line) (λ s. IsDone-if (bytes_eq s word) _ _ tt tt)
      (λ e. IsDone-if (is_key_not_found e) _ _ tt tt)

pub store_response-IsDone : (line : Bytes) → IsDone (store_response line)
unfolding store_response
store_response-IsDone line = IsDone-bind _ _ (try_from-IsDone line) (λ s.
    IsDone-if (bytes_eq s (bytes "STORED\r\n")) _ _ tt (
      IsDone-if (bytes_eq s (bytes "NOT_STORED\r\n")) _ _ tt (
        IsDone-if (bytes_eq s (bytes "EXISTS\r\n")) _ _ tt
          (IsDone-if (bytes_eq s (bytes "NOT_FOUND\r\n")) _ _ tt tt))))

pub u64_response-IsDone : (line : Bytes) → IsDone (u64_response line)
unfolding u64_response
u64_response-IsDone line =
    IsDone-bind _ _ (try_from-IsDone line)
      (λ s. parse_uint-IsDone (2 ^ 64) (trim_end_matches (bytes "\r\n") s))

next_or_err-IsDone : (buf : Bytes) (parts : List Bytes) → IsDone (next_or_err buf parts)
unfolding next_or_err
next_or_err-IsDone buf [] = tt
next_or_err-IsDone buf (part ∷ parts) = tt

next_cas-IsDone :
    (has_cas : Bool) (buf : Bytes) (parts : List Bytes) → IsDone (next_cas has_cas buf parts)
unfolding next_cas
next_cas-IsDone false buf parts = tt
next_cas-IsDone true buf parts =
    IsDone-bind _ _ (next_or_err-IsDone buf parts)
      (λ (text, rest). IsDone-bind _ _ (parse_uint-IsDone (2 ^ 64) text) (λ cas. tt))

no_more-IsDone : (buf : Bytes) (h : Header) (parts : List Bytes) → IsDone (no_more buf h parts)
unfolding no_more
no_more-IsDone buf h [] = tt
no_more-IsDone buf h (part ∷ parts) = tt

parse_parts-IsDone :
    (has_cas : Bool) (buf : Bytes) (parts : List Bytes) → IsDone (parse_parts has_cas buf parts)
unfolding parse_parts
parse_parts-IsDone has_cas buf parts = IsDone-bind _ _ (next_or_err-IsDone buf parts) (λ (_, rest).
    IsDone-bind _ _ (next_or_err-IsDone buf rest) (λ (key, rest).
      IsDone-bind _ _ (next_or_err-IsDone buf rest) (λ (text, rest).
        IsDone-bind _ _ (parse_uint-IsDone (2 ^ 32) text) (λ flags.
          IsDone-bind _ _ (next_or_err-IsDone buf rest) (λ (text, rest).
            IsDone-bind _ _ (parse_uint-IsDone (2 ^ 64) text) (λ length.
              IsDone-bind _ _ (next_cas-IsDone has_cas buf rest)
                (λ (cas, rest). no_more-IsDone buf _ rest)))))))

pub header_response-IsDone : (has_cas : Bool) (line : Bytes) → IsDone (header_response has_cas line)
unfolding header_response
header_response-IsDone has_cas line = IsDone-bind _ _ (try_from-IsDone line) (λ buf.
    IsDone-if (bytes_eq buf (bytes "END\r\n")) _ _ tt
      (IsDone-if (not (starts_with buf (bytes "VALUE"))) _ _ tt (parse_parts-IsDone has_cas buf _)))

pub check_cas-IsDone : (command : StoreCommand) (cas : Option ℕ) → IsDone (check_cas command cas)
unfolding check_cas
check_cas-IsDone command cas = ground arith
