-- ===== src/Calls/Lines/Decode.antt =====
-- How a server reads the commands of the ASCII protocol: a line up to CR LF, its words between spaces, and
-- for a store command as many bytes as the line says, and CR LF.
pub mod RoundTrip
use rust_memcache.Prelude.{
  ℕ, zero, suc, ◌^◌, ◌<◌, ◌≡◌, ◌≢◌, refl, ap, ◌∙◌, Bytes, bytes, bytes_eq, List, [], ◌∷◌, ◌++◌,
  append_assoc, Option, none, some, All, All-append, All-map, length, take, drop, take_prefix,
  drop_prefix, ◌==◌, ◌&&◌, if◌then◌else◌, ne→==, arith,
}
use rust_memcache.Outcome.{ok, err, panic, stuck}
use rust_memcache.Text.{split_spaces}
use rust_memcache.Text.Words.{split_word, split_last}
use rust_memcache.Text.Decimal.{to_decimal, parse_uint}
use rust_memcache.Text.Decimal.RoundTrip.{IsDigit, to_decimal-All, parse_uint-to_decimal}
use rust_memcache.Ascii.{join_spaces}
use rust_memcache.Ascii.Commands.{StoreCommand, command_text, crlf}
use rust_memcache.Ascii.HeaderLine.{IsKeyChar, no_space}
use rust_memcache.Calls.{Call}
use rust_memcache.Calls.Lines.{stored_text, command_of, commands}

-- A line, and what comes behind its CR LF.
abbrev line_behind : ℕ → Option (Bytes × Bytes) → Option (Bytes × Bytes)
line_behind c none = none
line_behind c (some (line, rest)) = some (c ∷ line, rest)

split_line : Bytes → Option (Bytes × Bytes)
split_line [] = none
split_line (c ∷ []) = none
split_line (c ∷ d ∷ s) =
    let later = split_line (d ∷ s) in
    if (c == 13) && (d == 10) then some ([], s) else line_behind c later

-- The number that a word is.
abbrev number : ℕ → Bytes → Option ℕ
number bound word = elim (parse_uint bound word) [
  | ok n ↦ some n
  | err e ↦ none
  | panic ↦ none
  | stuck ↦ none
]

-- The flags of a command, the call that it is, and what comes behind it.
abbrev pub Command : Type 0
Command = ℕ × Call Bytes × Bytes

-- The value behind a store command's line.
abbrev data_block : (Bytes → Call Bytes) → ℕ → ℕ → Bytes → Option Command
data_block call flags n s =
    if bytes_eq (take 2 (drop n s)) crlf
    then some (flags, call (take n s), drop 2 (drop n s))
    else none

store_of : Bytes → Bytes → ℕ → Option (Bytes → Call Bytes)
store_of word key e =
    if bytes_eq word (bytes "set")
    then some (λ v. Call.set key v e)
    else if bytes_eq word (bytes "add")
    then some (λ v. Call.add key v e)
    else if bytes_eq word (bytes "replace")
    then some (λ v. Call.replace key v e)
    else if bytes_eq word (bytes "append")
    then some (λ v. Call.append key v)
    else if bytes_eq word (bytes "prepend")
    then some (λ v. Call.prepend key v)
    else none

count_of : Bytes → Bytes → ℕ → Option (Call Bytes)
count_of word key n =
    if bytes_eq word (bytes "incr")
    then some (Call.increment key n)
    else if bytes_eq word (bytes "decr")
    then some (Call.decrement key n)
    else if bytes_eq word (bytes "touch")
    then some (Call.touch key n)
    else none

module _ (s : Bytes) where
  abbrev counted : Bytes → Bytes → Option ℕ → Option Command
  counted word key none = none
  counted word key (some n) = elim (count_of word key n) [
    | none ↦ none
    | some call ↦ some (0, call, s)
  ]

  abbrev stored : Bytes → Bytes → Option ℕ → Option ℕ → Option ℕ → Option Command
  stored word key (some flags) (some e) (some n) = elim (store_of word key e) [
    | none ↦ none
    | some call ↦ data_block call flags n s
  ]
  stored word key _ _ _ = none

  abbrev compared : Bytes → Option ℕ → Option ℕ → Option ℕ → Option ℕ → Option Command
  compared key (some flags) (some e) (some n) (some id) =
      data_block (λ v. Call.cas key v e id) flags n s
  compared key _ _ _ _ = none

  -- The words of a line, by their number. `s` comes behind the line.
  decode_words : List Bytes → Option Command
  decode_words (word ∷ key ∷ []) =
      if bytes_eq word (bytes "get")
      then some (0, Call.get key, s)
      else if bytes_eq word (bytes "delete")
      then some (0, Call.delete key, s)
      else none
  decode_words (word ∷ key ∷ n ∷ []) = counted word key (number (2 ^ 64) n)
  decode_words (word ∷ key ∷ flags ∷ e ∷ n ∷ []) =
      stored word key (number (2 ^ 32) flags) (number (2 ^ 32) e) (number (2 ^ 64) n)
  decode_words (word ∷ key ∷ flags ∷ e ∷ n ∷ id ∷ []) =
      if bytes_eq word (bytes "cas")
      then compared key (number (2 ^ 32) flags) (number (2 ^ 32) e) (number (2 ^ 64) n)
          (number (2 ^ 64) id)
      else none
  decode_words _ = none

abbrev decode_line : Option (Bytes × Bytes) → Option Command
decode_line none = none
decode_line (some (line, s)) = decode_words s (split_spaces line)

unfoldable pub decode_command : Bytes → Option Command
unfolding split_line decode_words store_of count_of
decode_command s = decode_line (split_line s)

-- As many commands as calls.
unfoldable pub decode_commands : ℕ → Bytes → Option (List (Call Bytes))
decode_commands zero s = some []
decode_commands (suc n) s = elim (decode_command s) [
  | none ↦ none
  | some (flags, call, rest) ↦ elim (decode_commands n rest) [
    | none ↦ none
    | some calls ↦ some (call ∷ calls)
  ]
]

abbrev IsWord : Bytes → Type 0
IsWord w = All IsKeyChar w

-- The key of a call has no space or CR, and its numbers fit their types.
abbrev pub IsCommand : Call Bytes → Type 0
IsCommand (Call.get key) = IsWord key
IsCommand (Call.set key v e) = IsWord key × (e < 2 ^ 32) × (length v < 2 ^ 64)
IsCommand (Call.add key v e) = IsWord key × (e < 2 ^ 32) × (length v < 2 ^ 64)
IsCommand (Call.replace key v e) = IsWord key × (e < 2 ^ 32) × (length v < 2 ^ 64)
IsCommand (Call.cas key v e id) = IsWord key × (e < 2 ^ 32) × (length v < 2 ^ 64) × (id < 2 ^ 64)
IsCommand (Call.append key v) = IsWord key × (length v < 2 ^ 64)
IsCommand (Call.prepend key v) = IsWord key × (length v < 2 ^ 64)
IsCommand (Call.delete key) = IsWord key
IsCommand (Call.increment key n) = IsWord key × (n < 2 ^ 64)
IsCommand (Call.decrement key n) = IsWord key × (n < 2 ^ 64)
IsCommand (Call.touch key e) = IsWord key × (e < 2 ^ 32)
