-- ===== src/Error/Display.antt =====
-- `Display` of the errors of src/error.rs. How the standard library displays its own errors is a parameter.
use rust_memcache.Prelude.{
  ◌⊎◌, ℕ, ◌+◌, ◌/◌, ◌%◌, Bytes, bytes, bytes_eq, starts_with, ltb, [], ◌∷◌, ◌++◌, if◌then◌else◌,
  ◌≡◌, ap, Bool-cases, inl, inr, bytes_eq→eq,
}
use rust_memcache.Error.{
  ClientError, ServerError, CommandError, ParseIntError, ParseError, IoError, MemcacheError,
  key_too_long, bad_magic, bad_response, key_exists, key_not_found, value_too_large,
  invalid_arguments, authentication_required, unknown, invalid_command, bool, int, float, string,
  str, url, bad_url, io_error, client_error, server_error, command_error, openssl_error,
  parse_error, pool_error,
}
use rust_memcache.Outcome.{Outcome, err}
use rust_memcache.Response.{try_from}
use rust_memcache.Text.Decimal.{to_decimal}

-- `{:x}` of a `u8`.
hex_digit : ℕ → ℕ
hex_digit d = if ltb d 10 then 48 + d else 87 + d

unfoldable pub to_hex : ℕ → Bytes
unfolding hex_digit
to_hex n = if ltb n 16 then hex_digit n ∷ [] else hex_digit (n / 16) ∷ hex_digit (n % 16) ∷ []

unfoldable pub client_error_text : ClientError → Bytes
client_error_text key_too_long = bytes "The provided key was too long."
client_error_text (ClientError.error s) = s

unfoldable pub server_error_text : ServerError → Bytes
server_error_text (bad_magic e) =
    bytes "Expected 0x81 as magic in response header, but found: " ++ to_hex e
server_error_text (bad_response s) = bytes "Unexpected: " ++ (s ++ bytes " in response")
server_error_text (ServerError.error s) = s

unfoldable pub command_error_text : CommandError → Bytes
command_error_text key_exists = bytes "Key already exists in the server."
command_error_text key_not_found = bytes "Key was not found in the server."
command_error_text value_too_large = bytes "Value was too large."
command_error_text invalid_arguments = bytes "Invalid arguments provided."
command_error_text authentication_required = bytes "Authentication required."
command_error_text (unknown code) =
    bytes "Unknown error occurred with code: " ++ (to_decimal code ++ bytes ".")
command_error_text invalid_command = bytes "Invalid command sent to the server."

-- The standard library: its errors for numbers, for bytes that are not UTF-8, and of the system.
pub record StdDisplay : Type 0 where
  pub int_text : ParseIntError → Bytes
  pub from_utf8_text : Bytes → Bytes
  pub utf8_text : Bytes → Bytes
  pub io_text : IoError → Bytes

err-inj : (e e' : MemcacheError) → ◌≡◌ {A = Outcome Bytes} (err e') (err e) → e ≡ e'
err-inj e e' h = cc

module _ (std : StdDisplay) where
  unfoldable pub parse_error_text : ParseError → Bytes
  parse_error_text (bool e) = e
  parse_error_text (int e) = std.int_text e
  parse_error_text (float e) = e
  parse_error_text (string e) = std.from_utf8_text e
  parse_error_text (str e) = std.utf8_text e
  parse_error_text (url e) = e

  -- `impl fmt::Display for MemcacheError`
  unfoldable pub to_string : MemcacheError → Bytes
  unfolding client_error_text server_error_text command_error_text parse_error_text
  to_string (bad_url s) = s
  to_string (io_error e) = std.io_text e
  to_string (openssl_error e) = e
  to_string (parse_error e) = parse_error_text e
  to_string (client_error e) = client_error_text e
  to_string (server_error e) = server_error_text e
  to_string (command_error e) = command_error_text e
  to_string (pool_error e) = e

  -- When a line of the ASCII protocol is classified as an error, the text of that error is the line
  -- itself as the server sent it, or the line is one of "ERROR", "NOT_FOUND" and "EXISTS" with CR LF and
  -- the error is the command error for it.
  pub to_string-try_from :
      (s : Bytes) (e : MemcacheError)
      → try_from s ≡ err e
      → (to_string e ≡ s)
        ⊎ ((s ≡ bytes "ERROR\r\n") × (e ≡ command_error invalid_command))
        ⊎ ((s ≡ bytes "NOT_FOUND\r\n") × (e ≡ command_error key_not_found))
        ⊎ ((s ≡ bytes "EXISTS\r\n") × (e ≡ command_error key_exists))
  unfolding to_string try_from
  to_string-try_from s e h = elim (Bool-cases (bytes_eq s (bytes "ERROR\r\n"))) [
    | inl a ↦ let g = rw a at h in inr (inl (bytes_eq→eq s (bytes "ERROR\r\n") a, cc))
    | inr a ↦ elim (Bool-cases (starts_with s (bytes "CLIENT_ERROR"))) [
      | inl b ↦ inl (ap to_string (err-inj e _ (rw (a, b) at h)))
      | inr b ↦ elim (Bool-cases (starts_with s (bytes "SERVER_ERROR"))) [
        | inl c ↦ inl (ap to_string (err-inj e _ (rw (a, b, c) at h)))
        | inr c ↦ elim (Bool-cases (bytes_eq s (bytes "NOT_FOUND\r\n"))) [
          | inl d ↦
              let g = rw (a, b, c, d) at h in
              inr (inr (inl (bytes_eq→eq s (bytes "NOT_FOUND\r\n") d, cc)))
          | inr d ↦ elim (Bool-cases (bytes_eq s (bytes "EXISTS\r\n"))) [
            | inl f ↦
                let g = rw (a, b, c, d, f) at h in
                inr (inr (inr (bytes_eq→eq s (bytes "EXISTS\r\n") f, cc)))
            | inr f ↦ let g = rw (a, b, c, d, f) at h in cc
          ]
        ]
      ]
    ]
  ]
