-- ===== src/Ascii/Responses.antt =====
-- The callbacks that read one response line each.
use rust_memcache.Prelude.{
  ℕ, ◌^◌, Bytes, bytes, bytes_eq, starts_with, Bool, true, false, not, List, [], ◌∷◌, Option, none,
  some, if◌then◌else◌,
}
use rust_memcache.Error.{
  command_error, key_exists, key_not_found, server_error, bad_response, is_key_not_found,
}
use rust_memcache.Outcome.{Outcome, ok, err, handle, ◌>>=◌}
use rust_memcache.Response.{try_from}
use rust_memcache.Text.{trim_start_matches, trim_end_matches, split_spaces}
use rust_memcache.Text.Decimal.{parse_uint}

abbrev pub bad : {A : Type 0} → Bytes → Outcome A
bad response = err (server_error (bad_response response))

-- The callback of `version`.
unfoldable pub version_response : Bytes → Outcome Bytes
version_response line = do
  response ← try_from line
  if not (starts_with response (bytes "VERSION"))
      then bad response
      else ok (trim_end_matches (bytes "\r\n") (trim_start_matches (bytes "VERSION ") response))

-- The callback of `parse_ok_response`.
unfoldable pub ok_response : Bytes → Outcome (Unit {0})
ok_response line = do
  response ← try_from line
  if bytes_eq response (bytes "OK\r\n") then ok tt else bad response

-- The callback of `delete` ("DELETED") and of `touch` ("TOUCHED").
unfoldable pub found_response : Bytes → Bytes → Outcome Bool
found_response word line =
    handle (try_from line) (λ s. if bytes_eq s word then ok true else bad s)
      (λ e. if is_key_not_found e then ok false else err e)

-- The callback of `store`.
unfoldable pub store_response : Bytes → Outcome Bool
store_response line = do
  response ← try_from line
  if bytes_eq response (bytes "STORED\r\n")
      then ok true
      else if bytes_eq response (bytes "NOT_STORED\r\n")
      then ok false
      else if bytes_eq response (bytes "EXISTS\r\n")
      then err (command_error key_exists)
      else if bytes_eq response (bytes "NOT_FOUND\r\n")
      then err (command_error key_not_found)
      else bad response

-- The callback of `parse_u64_response`.
unfoldable pub u64_response : Bytes → Outcome ℕ
u64_response line = do s ← try_from line; parse_uint (2 ^ 64) (trim_end_matches (bytes "\r\n") s)

pub record Header : Type 0 where
  pub key : Bytes
  pub flags : ℕ
  pub length : ℕ
  pub cas : Option ℕ

-- `next_or_err`: the next part of the header, and the parts behind it.
unfoldable pub next_or_err : Bytes → List Bytes → Outcome (Bytes × List Bytes)
next_or_err buf [] = bad buf
next_or_err buf (part ∷ parts) = ok (part, parts)

unfoldable pub next_cas : Bool → Bytes → List Bytes → Outcome (Option ℕ × List Bytes)
next_cas false buf parts = ok (none, parts)
next_cas true buf parts = do
  (text, parts') ← next_or_err buf parts
  cas ← parse_uint (2 ^ 64) text
  ok (some cas, parts')

unfoldable pub no_more : Bytes → Header → List Bytes → Outcome (Option Header)
no_more buf h [] = ok (some h)
no_more buf h (part ∷ parts) = bad buf

unfoldable pub parse_parts : Bool → Bytes → List Bytes → Outcome (Option Header)
parse_parts has_cas buf parts = do
  (_, parts₁) ← next_or_err buf parts
  (key, parts₂) ← next_or_err buf parts₁
  (flags_text, parts₃) ← next_or_err buf parts₂
  flags ← parse_uint (2 ^ 32) flags_text
  (length_text, parts₄) ← next_or_err buf parts₃
  length ← parse_uint (2 ^ 64) length_text
  (cas, parts₅) ← next_cas has_cas buf parts₄
  no_more buf (record { key = key; flags = flags; length = length; cas = cas }) parts₅

-- The callback of `parse_get_response`: none at "END".
unfoldable pub header_response : Bool → Bytes → Outcome (Option Header)
unfolding parse_parts next_or_err next_cas no_more
header_response has_cas line = do
  buf ← try_from line
  if bytes_eq buf (bytes "END\r\n")
      then ok none
      else if not (starts_with buf (bytes "VALUE"))
      then bad buf
      else parse_parts has_cas buf (split_spaces (trim_end_matches (bytes "\r\n") buf))
