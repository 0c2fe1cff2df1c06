-- ===== src/Ascii/Faults.antt =====
-- The error lines of the ASCII protocol, which a server can answer to any command, and what the client
-- makes of them.
use rust_memcache.Prelude.{◌≡◌, refl, Bytes, bytes, bytes_eq, starts_with, ◌++◌, arith}
use rust_memcache.Error.{
  MemcacheError, ClientError, ServerError, client_error, server_error, command_error,
  invalid_command,
}
use rust_memcache.Outcome.{err}
use rust_memcache.Response.{try_from}
use rust_memcache.Text.Utf8.{is_utf8}
use rust_memcache.Reader.Line.{IsLine}
use rust_memcache.Ascii.Commands.{crlf}
use rust_memcache.Ascii.Lines.{crlf-IsLine}

-- A command that the server does not know, an error of the client, and an error of the server.
pub data Fault : Type 0 where
  unknown : Fault
  client_fault server_fault : Bytes → Fault

abbrev pub fault_line : Fault → Bytes
fault_line unknown = bytes "ERROR\r\n"
fault_line (client_fault text) = bytes "CLIENT_ERROR" ++ (text ++ crlf)
fault_line (server_fault text) = bytes "SERVER_ERROR" ++ (text ++ crlf)

abbrev pub fault_error : Fault → MemcacheError
fault_error unknown = command_error invalid_command
fault_error (client_fault text) = client_error (ClientError.error (fault_line (client_fault text)))
fault_error (server_fault text) = server_error (ServerError.error (fault_line (server_fault text)))

-- The line is one that the reader takes.
abbrev pub IsFault : Fault → Type 0
IsFault unknown = Unit
IsFault (client_fault text) = IsLine (fault_line (client_fault text))
IsFault (server_fault text) = IsLine (fault_line (server_fault text))

pub fault-IsLine : (f : Fault) → IsFault f → IsLine (fault_line f)
unfolding is_utf8
fault-IsLine unknown h = crlf-IsLine (bytes "ERROR") (omega arith) refl (omega arith)
fault-IsLine (client_fault text) h = h
fault-IsLine (server_fault text) h = h

pub try_from-fault_line : (f : Fault) → try_from (fault_line f) ≡ err (fault_error f)
unfolding try_from bytes_eq starts_with
try_from-fault_line unknown = refl
try_from-fault_line (client_fault text) = refl
try_from-fault_line (server_fault text) = refl
