-- ===== src/Ascii/Commands.antt =====
-- The store commands and their options, and the line that each is sent as.
use rust_memcache.Prelude.{ℕ, Bytes, bytes, Bool, false, List, [], ◌∷◌, Option, none, some}
use rust_memcache.Error.{ClientError, client_error}
use rust_memcache.Outcome.{Outcome, ok, err}
use rust_memcache.Text.Decimal.{to_decimal}

pub record Options : Type 0 where
  pub noreply : Bool
  pub exptime : ℕ
  pub flags : ℕ
  pub cas : Option ℕ

-- `Default::default()`
abbrev pub default_options : Options
default_options = record { noreply = false; exptime = 0; flags = 0; cas = none }

pub data StoreCommand : Type 0 where
  cas set add replace append prepend : StoreCommand

unfoldable pub command_text : StoreCommand → Bytes
command_text StoreCommand.cas = bytes "cas"
command_text StoreCommand.set = bytes "set"
command_text StoreCommand.add = bytes "add"
command_text StoreCommand.replace = bytes "replace"
command_text StoreCommand.append = bytes "append"
command_text StoreCommand.prepend = bytes "prepend"

abbrev pub crlf : Bytes
crlf = bytes "\r\n"

-- `cas_id should be present when using cas command`
unfoldable pub check_cas : StoreCommand → Option ℕ → Outcome (Unit {0})
check_cas StoreCommand.cas none =
    err (client_error (ClientError.error (bytes "cas_id should be present when using cas command")))
check_cas _ _ = ok tt

-- The line of a store command, piece by piece.
unfoldable pub store_pieces : StoreCommand → Bytes → ℕ → ℕ → ℕ → Option ℕ → Bytes → List Bytes
store_pieces command key flags exptime vlen none noreply =
    command_text command
    ∷ bytes " "
    ∷ key
    ∷ bytes " "
    ∷ to_decimal flags
    ∷ bytes " "
    ∷ to_decimal exptime
    ∷ bytes " "
    ∷ to_decimal vlen
    ∷ noreply
    ∷ crlf
    ∷ []
store_pieces command key flags exptime vlen (some id) noreply =
    command_text command
    ∷ bytes " "
    ∷ key
    ∷ bytes " "
    ∷ to_decimal flags
    ∷ bytes " "
    ∷ to_decimal exptime
    ∷ bytes " "
    ∷ to_decimal vlen
    ∷ bytes " "
    ∷ to_decimal id
    ∷ noreply
    ∷ crlf
    ∷ []
