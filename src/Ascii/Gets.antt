-- ===== src/Ascii/Gets.antt =====
-- `gets` of the ASCII protocol on a socket: the command, and the values that the server sends for it.
use mathlib.Core.List.{flatten, map}
use rust_memcache.Prelude.{
  ℕ, zero, suc, ◌+◌, ◌^◌, ◌<◌, ◌≤◌, ◌≡◌, refl, sym, Bytes, bytes, bytes_eq, starts_with, true, List,
  [], ◌∷◌, ◌++◌, append-nil, append_assoc, none, some, All, length, arith,
}
use rust_memcache.Response.{try_from}
use rust_memcache.Outcome.{ok}
use rust_memcache.Exec.Talks.{Ends, Talks, Talks-bind, Talks-pure, Talks-subst}
use rust_memcache.Stream.Exact.{Talks-write_fmt}
use rust_memcache.HashMap
use rust_memcache.HashMap.{HashMap, key_bytes}
use rust_memcache.Text.Utf8.{is_utf8}
use rust_memcache.Value.{FromMemcacheValueExt}
use rust_memcache.Reader.{CappedLineReader, capacity}
use rust_memcache.Reader.View.{IsOpen}
use rust_memcache.Reader.Talk.{Talks-read_line, Talks-on_stream}
use rust_memcache.Ascii.{read_if_value, parse_get_response, gets_item, gets_loop, gets, join_spaces}
use rust_memcache.Ascii.Commands.{crlf}
use rust_memcache.Ascii.Responses.{header_response}
use rust_memcache.Ascii.HeaderLine.{IsKeyChar, cas_line, header_response-cas_line}
use rust_memcache.Ascii.Lines.{cas_line-IsLine}
use rust_memcache.Ascii.Retrieval.{end_line, end-IsLine, Talks-read_value}

-- A value as the server sends it for `gets`.
pub record Item : Type 0 where
  pub key : Bytes
  pub flags : ℕ
  pub cas : ℕ
  pub payload : Bytes

unfoldable pub item_bytes : Item → Bytes
item_bytes x = cas_line x.key x.flags (length x.payload) x.cas ++ (x.payload ++ crlf)

module _ {V : Type 0} (from : FromMemcacheValueExt V) where
  -- An item that the reader takes and that the type reads as `v`.
  pub record IsItem (x : Item) (v : V) : Type 0 where
    pub chars : All IsKeyChar x.key
    pub text : is_utf8 x.key ≡ true
    pub flags_fit : x.flags < 2 ^ 32
    pub cas_fits : x.cas < 2 ^ 64
    pub size : length x.payload + 2 < 2 ^ 63
    pub line : length (cas_line x.key x.flags (length x.payload) x.cas) ≤ capacity
    pub read_as : from.from_memcache_value x.payload x.flags (some x.cas) ≡ ok v

  abbrev pub AllItems : List Item → List V → Type 0
  AllItems [] [] = Unit
  AllItems [] (v ∷ vs) = ⊥
  AllItems (x ∷ xs) [] = ⊥
  AllItems (x ∷ xs) (v ∷ vs) = IsItem x v × AllItems xs vs

  Talks-item :
      (x : Item) (v : V)
      → IsItem x v
      → Talks IsOpen (parse_get_response from true) (ok (some (x.key, v))) [] (item_bytes x)
  unfolding parse_get_response read_if_value item_bytes
  Talks-item x v h =
      Talks-bind _
        (rw
          (header_response-cas_line x.key x.flags (length x.payload) x.cas h.chars h.flags_fit
            (omega (arith, h.size)) h.cas_fits)
          at
          (Talks-read_line (header_response true) (cas_line x.key x.flags (length x.payload) x.cas)
            (cas_line-IsLine x.key x.flags h.chars h.text (length x.payload) x.cas h.line)))
        (Talks-read_value from _ x.payload v refl h.size h.read_as)

  Talks-end_of_items : Talks IsOpen (parse_get_response from true) (ok none) [] end_line
  unfolding parse_get_response read_if_value header_response try_from bytes_eq starts_with
  Talks-end_of_items =
      Talks-subst
        (Talks-bind _ (Talks-read_line (header_response true) end_line end-IsLine)
          (Talks-pure none))
        refl (append-nil _)

  -- The entries of the items, in their order.
  abbrev pub entries : List Item → List V → List (Bytes × V)
  entries [] vs = []
  entries (x ∷ xs) [] = []
  entries (x ∷ xs) (v ∷ vs) = (x.key, v) ∷ entries xs vs

  Talks-gets_loop :
      (n : ℕ) (m : HashMap Bytes V) (xs : List Item) (vs : List V)
      → AllItems xs vs
      → length xs ≤ n
      → Talks IsOpen
          (gets_loop from (suc n) m)
          (ok (HashMap.extend m (entries xs vs)))
          []
          (flatten (map item_bytes xs) ++ end_line)
  unfolding gets_loop gets_item HashMap.extend flatten
  Talks-gets_loop n m [] [] h k =
      Talks-subst (Talks-bind _ Talks-end_of_items (Talks-pure m)) refl (append-nil _)
  Talks-gets_loop n m [] (v ∷ vs) h k = absurd h
  Talks-gets_loop n m (x ∷ xs) [] h k = absurd h
  Talks-gets_loop zero m (x ∷ xs) (v ∷ vs) h k = absurd (omega arith)
  Talks-gets_loop (suc n) m (x ∷ xs) (v ∷ vs) h k =
      Talks-subst
        (Talks-bind _ (Talks-item x v h.0)
          (Talks-gets_loop n (HashMap.insert x.key v m) xs vs h.1 (omega arith)))
        refl (sym (append_assoc (item_bytes x) _ _))

  -- When the server answers the ASCII `gets` with at most as many values as there are keys, of any keys,
  -- and then "END", in chunks of any size, `gets` sends exactly "gets", the keys with single spaces
  -- between them, and CR LF, gives the map of the values as their type reads them with their flags and
  -- cas ids, a later value over an earlier one of the same key, and leaves what comes behind "END". The
  -- key of each value is UTF-8 text with no space or CR, its header line has at most 2048 bytes, its
  -- flags fit 32 bits and its cas id 64, it is shorter than 2^63 bytes, and the type reads it.
  pub gets_items :
      (keys : List Bytes) (xs : List Item) (vs : List V) (p : CappedLineReader) (w a : Bytes)
      → AllItems xs vs
      → length xs ≤ length keys
      → IsOpen p w ((flatten (map item_bytes xs) ++ end_line) ++ a)
      → Ends IsOpen
          (gets from keys p)
          (ok (HashMap.extend [] (entries xs vs)))
          (w ++ (bytes "gets " ++ (join_spaces keys ++ crlf)))
          a
  unfolding gets flatten
  gets_items keys xs vs p w a h k o =
      (Talks-subst
          (Talks-bind _
            (Talks-on_stream _ (Talks-write_fmt (bytes "gets " ∷ join_spaces keys ∷ crlf ∷ [])))
            (Talks-gets_loop (length keys) [] xs vs h k))
          (simp append-nil) refl).at
        p w a o
