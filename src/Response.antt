-- ===== src/Response.antt =====
-- `MemcacheError::try_from`: an error line of the ASCII protocol becomes an error, any other line is kept.
use rust_memcache.Prelude.{Bytes, bytes, bytes_eq, starts_with, if◌then◌else◌}
use rust_memcache.Error.{ClientError, ServerError}
use rust_memcache.Error.{
  command_error, client_error, server_error, invalid_command, key_not_found, key_exists,
}
use rust_memcache.Outcome.{Outcome, ok, err}

unfoldable pub try_from : Bytes → Outcome Bytes
try_from s =
    if bytes_eq s (bytes "ERROR\r\n")
    then err (command_error invalid_command)
    else if starts_with s (bytes "CLIENT_ERROR")
    then err (client_error (ClientError.error s))
    else if starts_with s (bytes "SERVER_ERROR")
    then err (server_error (ServerError.error s))
    else if bytes_eq s (bytes "NOT_FOUND\r\n")
    then err (command_error key_not_found)
    else if bytes_eq s (bytes "EXISTS\r\n")
    then err (command_error key_exists)
    else ok s
