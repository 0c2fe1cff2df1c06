-- ===== src/Ascii/StoreReply.antt =====
-- What a server answers to a store command of the ASCII protocol, and what the client makes of it.
use rust_memcache.Prelude.{
  ◌≡◌, refl, Bytes, bytes, bytes_eq, starts_with, Bool, true, false, ◌++◌, Option, none, some,
}
use rust_memcache.Error.{
  MemcacheError, ClientError, ServerError, client_error, server_error, command_error,
  invalid_command, key_exists, key_not_found,
}
use rust_memcache.Outcome.{Outcome, ok, err}
use rust_memcache.Response.{try_from}
use rust_memcache.Ascii.Commands.{crlf}
use rust_memcache.Ascii.Responses.{store_response}

-- What a memcached server answers to a store command.
pub data Reply : Type 0 where
  stored not_stored exists not_found error : Reply
  client_fault server_fault : Bytes → Reply

abbrev pub reply_line : Reply → Bytes
reply_line stored = bytes "STORED\r\n"
reply_line not_stored = bytes "NOT_STORED\r\n"
reply_line exists = bytes "EXISTS\r\n"
reply_line not_found = bytes "NOT_FOUND\r\n"
reply_line error = bytes "ERROR\r\n"
reply_line (client_fault text) = bytes "CLIENT_ERROR" ++ (text ++ crlf)
reply_line (server_fault text) = bytes "SERVER_ERROR" ++ (text ++ crlf)

-- The error that a reply stands for, if it does.
abbrev pub reply_error : Reply → Option MemcacheError
reply_error stored = none
reply_error not_stored = none
reply_error exists = some (command_error key_exists)
reply_error not_found = some (command_error key_not_found)
reply_error error = some (command_error invalid_command)
reply_error (client_fault text) =
    some (client_error (ClientError.error (reply_line (client_fault text))))
reply_error (server_fault text) =
    some (server_error (ServerError.error (reply_line (server_fault text))))

abbrev pub store_outcome : Reply → Outcome Bool
store_outcome stored = ok true
store_outcome not_stored = ok false
store_outcome r = elim (reply_error r) [ none ↦ ok false | some e ↦ err e ]

pub store_response-reply_line : (r : Reply) → store_response (reply_line r) ≡ store_outcome r
unfolding store_response try_from bytes_eq starts_with
store_response-reply_line stored = refl
store_response-reply_line not_stored = refl
store_response-reply_line exists = refl
store_response-reply_line not_found = refl
store_response-reply_line error = refl
store_response-reply_line (client_fault text) = refl
store_response-reply_line (server_fault text) = refl

-- `map(|_| ())` of the outcome of `store`.
abbrev pub unit_outcome : Reply → Outcome (Unit {0})
unit_outcome r = elim (reply_error r) [ none ↦ ok tt | some e ↦ err e ]
