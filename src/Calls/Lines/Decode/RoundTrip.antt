-- ===== src/Calls/Lines/Decode/RoundTrip.antt =====
-- The reader of Calls.Lines.Decode on the commands that src/protocol/ascii.rs writes.
use rust_memcache.Prelude.{
  ℕ, ◌^◌, ◌<◌, ◌≡◌, ◌≢◌, refl, ap, ◌∙◌, Bytes, bytes, bytes_eq, List, [], ◌∷◌, ◌++◌, append_assoc,
  Option, none, some, All, All-append, All-map, length, take_prefix, drop_prefix, ne→==, arith,
}
use rust_memcache.Text.{split_spaces}
use rust_memcache.Text.Words.{split_word, split_last}
use rust_memcache.Text.Decimal.{to_decimal}
use rust_memcache.Text.Decimal.RoundTrip.{IsDigit, to_decimal-All, parse_uint-to_decimal}
use rust_memcache.Ascii.{join_spaces}
use rust_memcache.Ascii.Commands.{StoreCommand, command_text, crlf}
use rust_memcache.Ascii.HeaderLine.{IsKeyChar, no_space}
use rust_memcache.Calls.{Call}
use rust_memcache.Calls.Lines.{stored_text, command_of, commands}
use rust_memcache.Calls.Lines.Decode.{
  Command, split_line, number, data_block, store_of, count_of, stored, compared, counted,
  decode_words, decode_line, decode_command, decode_commands, IsWord, IsCommand,
}

split_line_lem :
    (line s : Bytes) → All (λ c. c ≢ 13) line → split_line (line ++ (crlf ++ s)) ≡ some (line, s)
unfolding split_line
split_line_lem [] s h = refl
split_line_lem (c ∷ []) s h = rw (ne→== c 13 h.0) refl
split_line_lem (c ∷ d ∷ line) s h = rw (ne→== c 13 h.0, split_line_lem (d ∷ line) s h.1) refl

number_lem : (bound n : ℕ) → n < bound → number bound (to_decimal n) ≡ some n
number_lem bound n h = rw (number, parse_uint-to_decimal bound n h) refl

data_block_lem :
    (call : Bytes → Call Bytes) (flags : ℕ) (v s : Bytes)
    → data_block call flags (length v) (v ++ (crlf ++ s)) ≡ some (flags, call v, s)
unfolding bytes_eq
data_block_lem call flags v s =
    rw (drop_prefix (length v) v (crlf ++ s) refl, take_prefix (length v) v (crlf ++ s) refl) refl

number-IsWord : (n : ℕ) → IsWord (to_decimal n)
number-IsWord n =
    All-map IsDigit IsKeyChar (to_decimal n) (λ c h. (omega arith, omega arith)) (to_decimal-All n)

split_join :
    (w : Bytes) (ws : List Bytes)
    → All IsWord (w ∷ ws)
    → split_spaces (join_spaces (w ∷ ws)) ≡ w ∷ ws
unfolding join_spaces
split_join w [] h = split_last w (no_space w h.0)
split_join w (u ∷ ws) h =
    split_word w (join_spaces (u ∷ ws)) (no_space w h.0) ∙ ap (λ l. w ∷ l) (split_join u ws h.1)

join_no_cr : (ws : List Bytes) → All IsWord ws → All (λ c. c ≢ 13) (join_spaces ws)
unfolding join_spaces
join_no_cr [] h = tt
join_no_cr (w ∷ []) h = All-map IsKeyChar (λ c. c ≢ 13) w (λ c i. i.1) h.0
join_no_cr (w ∷ u ∷ ws) h =
    All-append _ w _ (All-map IsKeyChar (λ c. c ≢ 13) w (λ c i. i.1) h.0)
      ((omega arith, join_no_cr (u ∷ ws) h.1))

-- Words with spaces between them, and CR LF.
words_line :
    (w : Bytes) (ws : List Bytes) (s t : Bytes)
    → t ≡ join_spaces (w ∷ ws) ++ (crlf ++ s)
    → All IsWord (w ∷ ws)
    → decode_command t ≡ decode_words s (w ∷ ws)
unfolding decode_command
words_line w ws s t e h =
    ap (λ l. decode_line (split_line l)) e
    ∙ ap decode_line (split_line_lem (join_spaces (w ∷ ws)) s (join_no_cr (w ∷ ws) h))
    ∙ ap (decode_words s) (split_join w ws h)

stored_words :
    (command : StoreCommand) (key : Bytes) (e : ℕ) (v s : Bytes)
    → stored_text command key e none v ++ s
      ≡ join_spaces
          (command_text command ∷ key ∷ to_decimal 0 ∷ to_decimal e ∷ to_decimal (length v) ∷ [])
        ++ (crlf ++ (v ++ (crlf ++ s)))
unfolding join_spaces
stored_words command key e v s = simp append_assoc

-- A store command without cas id.
decode-stored :
    (command : StoreCommand) (key : Bytes) (e : ℕ) (v s : Bytes) (call : Bytes → Call Bytes)
    → IsWord (command_text command)
    → IsWord key
    → e < 2 ^ 32
    → length v < 2 ^ 64
    → store_of (command_text command) key e ≡ some call
    → decode_command (stored_text command key e none v ++ s) ≡ some (0, call v, s)
unfolding decode_words
decode-stored command key e v s call w k f l c =
    words_line (command_text command) _ (v ++ (crlf ++ s)) _ (stored_words command key e v s)
      (w, (k, (number-IsWord 0, (number-IsWord e, (number-IsWord (length v), tt)))))
    ∙ ap
        (λ o.
          stored (v ++ (crlf ++ s)) (command_text command) key o (number (2 ^ 32) (to_decimal e))
            (number (2 ^ 64) (to_decimal (length v))))
        (number_lem (2 ^ 32) 0 (omega arith))
    ∙ ap
        (λ o.
          stored (v ++ (crlf ++ s)) (command_text command) key (some 0) o
            (number (2 ^ 64) (to_decimal (length v))))
        (number_lem (2 ^ 32) e f)
    ∙ ap (λ o. stored (v ++ (crlf ++ s)) (command_text command) key (some 0) (some e) o)
        (number_lem (2 ^ 64) (length v) l)
    ∙ ap
        (λ (o : Option (Bytes → Call Bytes)). elim o as (λ _. Option Command) [
          | none ↦ none
          | some f ↦ data_block f 0 (length v) (v ++ (crlf ++ s))
        ])
        c
    ∙ data_block_lem call 0 v s

compared_lem :
    (key : Bytes) (e id : ℕ) (v s : Bytes)
    → e < 2 ^ 32
    → length v < 2 ^ 64
    → id < 2 ^ 64
    → compared
        (v ++ (crlf ++ s))
        key
        (number (2 ^ 32) (to_decimal 0))
        (number (2 ^ 32) (to_decimal e))
        (number (2 ^ 64) (to_decimal (length v)))
        (number (2 ^ 64) (to_decimal id))
      ≡ some (0, Call.cas key v e id, s)
compared_lem key e id v s f l c =
    let z = number_lem (2 ^ 32) 0 (omega arith) in
    let x = number_lem (2 ^ 32) e f in
    let n = number_lem (2 ^ 64) (length v) l in
    let t = v ++ (crlf ++ s) in
    ap
      (λ o.
        compared t key o (number (2 ^ 32) (to_decimal e)) (number (2 ^ 64) (to_decimal (length v)))
          (number (2 ^ 64) (to_decimal id)))
      z
    ∙ ap
        (λ o.
          compared t key (some 0) o (number (2 ^ 64) (to_decimal (length v)))
            (number (2 ^ 64) (to_decimal id)))
        x
    ∙ ap (λ o. compared t key (some 0) (some e) o (number (2 ^ 64) (to_decimal id))) n
    ∙ ap (λ o. compared t key (some 0) (some e) (some (length v)) o) (number_lem (2 ^ 64) id c)
    ∙ data_block_lem (λ v. Call.cas key v e id) 0 v s

-- Whatever comes behind it, a command is read as the call that it was written for.
pub decode-command_of :
    (call : Call Bytes) (s : Bytes)
    → IsCommand call
    → decode_command (command_of call ++ s) ≡ some (0, call, s)
unfolding decode_words store_of count_of command_text bytes_eq join_spaces
decode-command_of (Call.get key) s h =
    words_line (bytes "get") (key ∷ []) s _ (simp append_assoc) (omega arith, (h, tt))
decode-command_of (Call.set key v e) s h =
    decode-stored StoreCommand.set key e v s (λ v. Call.set key v e) (omega arith) h.0 h.1 h.2 refl
decode-command_of (Call.add key v e) s h =
    decode-stored StoreCommand.add key e v s (λ v. Call.add key v e) (omega arith) h.0 h.1 h.2 refl
decode-command_of (Call.replace key v e) s h =
    decode-stored StoreCommand.replace key e v s (λ v. Call.replace key v e) (omega arith) h.0 h.1
      h.2 refl
decode-command_of (Call.cas key v e id) s h =
    words_line (bytes "cas")
      (key ∷ to_decimal 0 ∷ to_decimal e ∷ to_decimal (length v) ∷ to_decimal id ∷ [])
      (v ++ (crlf ++ s)) _ (simp append_assoc)
      (
        omega arith,
        (
          h.0,
          (number-IsWord 0, (number-IsWord e, (number-IsWord (length v), (number-IsWord id, tt)))),
        ),
      )
    ∙ compared_lem key e id v s h.1 h.2 h.3
decode-command_of (Call.append key v) s h =
    decode-stored StoreCommand.append key 0 v s (λ v. Call.append key v) (omega arith) h.0
      (omega arith) h.1 refl
decode-command_of (Call.prepend key v) s h =
    decode-stored StoreCommand.prepend key 0 v s (λ v. Call.prepend key v) (omega arith) h.0
      (omega arith) h.1 refl
decode-command_of (Call.delete key) s h =
    words_line (bytes "delete") (key ∷ []) s _ (simp append_assoc) (omega arith, (h, tt))
decode-command_of (Call.increment key n) s h =
    words_line (bytes "incr") (key ∷ to_decimal n ∷ []) s _ (simp append_assoc)
      (omega arith, (h.0, (number-IsWord n, tt)))
    ∙ ap (counted s (bytes "incr") key) (number_lem (2 ^ 64) n h.1)
decode-command_of (Call.decrement key n) s h =
    words_line (bytes "decr") (key ∷ to_decimal n ∷ []) s _ (simp append_assoc)
      (omega arith, (h.0, (number-IsWord n, tt)))
    ∙ ap (counted s (bytes "decr") key) (number_lem (2 ^ 64) n h.1)
decode-command_of (Call.touch key e) s h =
    words_line (bytes "touch") (key ∷ to_decimal e ∷ []) s _ (simp append_assoc)
      (omega arith, (h.0, (number-IsWord e, tt)))
    ∙ ap (counted s (bytes "touch") key) (number_lem (2 ^ 64) e (omega arith))

pub decode_commands-commands :
    (calls : List (Call Bytes))
    → All IsCommand calls
    → decode_commands (length calls) (commands calls) ≡ some calls
unfolding decode_commands
decode_commands-commands [] h = refl
decode_commands-commands (call ∷ calls) h =
    ap
      (λ (o : Option Command). elim o as (λ _. Option (List (Call Bytes))) [
        | none ↦ none
        | some (flags, call, rest) ↦ elim (decode_commands (length calls) rest) [
          | none ↦ none
          | some calls ↦ some (call ∷ calls)
        ]
      ])
      (decode-command_of call (commands calls) h.0)
    ∙ ap
        (λ (o : Option (List (Call Bytes))). elim o as (λ _. Option (List (Call Bytes))) [
          | none ↦ none
          | some calls ↦ some (call ∷ calls)
        ])
        (decode_commands-commands calls h.1)
