-- ===== src/Error.antt =====
-- src/error.rs: the error types and the classification of an ASCII response line.
-- A `Cow<str>` or `String` is its bytes. An error value of a crate or of the system that the code only
-- passes on and displays (url, r2d2, openssl, an os error) is known by its text.
pub mod Display
use rust_memcache.Prelude.{ℕ, Bytes, Bool, true, false, ◌==◌, if◌then◌else◌}

pub data ClientError : Type 0 where
  key_too_long : ClientError
  error : Bytes → ClientError

pub data ServerError : Type 0 where
  bad_magic : ℕ → ServerError
  bad_response : Bytes → ServerError
  error : Bytes → ServerError

pub data CommandError : Type 0 where
  key_exists key_not_found value_too_large invalid_arguments authentication_required : CommandError
  unknown : ℕ → CommandError
  invalid_command : CommandError

-- `std::num::IntErrorKind`, as far as decimal parsing of an integer gives it.
pub data ParseIntError : Type 0 where
  empty invalid_digit pos_overflow neg_overflow : ParseIntError

-- `string` and `str` hold the bytes that are not UTF-8; `bool`, `float` and `url` a text.
pub data ParseError : Type 0 where
  bool : Bytes → ParseError
  int : ParseIntError → ParseError
  float : Bytes → ParseError
  string : Bytes → ParseError
  str : Bytes → ParseError
  url : Bytes → ParseError

-- `std::io::Error` by its kind; `os` is any other error of the system, by its text.
pub data IoError : Type 0 where
  interrupted would_block unexpected_eof write_zero invalid_input : IoError
  other : Bytes → IoError
  os : Bytes → IoError

pub data MemcacheError : Type 0 where
  bad_url : Bytes → MemcacheError
  io_error : IoError → MemcacheError
  client_error : ClientError → MemcacheError
  server_error : ServerError → MemcacheError
  command_error : CommandError → MemcacheError
  openssl_error : Bytes → MemcacheError
  parse_error : ParseError → MemcacheError
  pool_error : Bytes → MemcacheError

-- `impl From<u16> for CommandError`
unfoldable pub command_error_from : ℕ → CommandError
command_error_from status =
    if status == 0x1
    then key_not_found
    else if status == 0x2
    then key_exists
    else if status == 0x3
    then value_too_large
    else if status == 0x4
    then invalid_arguments
    else if status == 0x20
    then authentication_required
    else unknown status

-- The pattern `CommandError::KeyNotFound` in a match on an error.
unfoldable pub is_key_not_found : MemcacheError → Bool
is_key_not_found (command_error key_not_found) = true
is_key_not_found _ = false

-- The guard `e == CommandError::KeyNotFound || e == CommandError::KeyExists`.
unfoldable pub is_missing_or_exists : MemcacheError → Bool
is_missing_or_exists (command_error key_not_found) = true
is_missing_or_exists (command_error key_exists) = true
is_missing_or_exists _ = false
