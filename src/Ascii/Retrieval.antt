-- ===== src/Ascii/Retrieval.antt =====
-- `get` of the ASCII protocol on a socket: the command, and the answer of a hit and of a miss.
use mathlib.Core.List.{flatten}
use rust_memcache.Prelude.{
  ℕ, ◌+◌, ◌^◌, ◌<◌, ◌≤◌, ◌≡◌, refl, sym, Bytes, bytes, bytes_eq, bytes_eq_refl, starts_with, true,
  false, [], ◌∷◌, ◌++◌, append-nil, none, some, All, length, length-append, take_prefix,
  drop_prefix, lt→ltb, arith,
}
use rust_memcache.Response.{try_from}
use rust_memcache.Outcome.{ok, err}
use rust_memcache.Exec.Talks.{
  Ends, Talks, Talks-bind, Talks-bind_err, Talks-lift_bind, Talks-pure, Talks-subst,
}
use rust_memcache.Stream.Exact.{Talks-write_fmt}
use rust_memcache.Text.Utf8.{is_utf8}
use rust_memcache.Value.{FromMemcacheValueExt}
use rust_memcache.Reader.{CappedLineReader, capacity}
use rust_memcache.Reader.View.{IsOpen}
use rust_memcache.Reader.Line.{IsLine}
use rust_memcache.Reader.Talk.{Talks-read_line, Talks-read_bytes, Talks-on_stream}
use rust_memcache.Ascii.{value_buffer, read_value, read_if_value, parse_get_response, get_rest, get}
use rust_memcache.Ascii.Commands.{crlf}
use rust_memcache.Ascii.Faults.{
  Fault, fault_line, fault_error, IsFault, fault-IsLine, try_from-fault_line,
}
use rust_memcache.Ascii.Responses.{Header, header_response}
use rust_memcache.Ascii.HeaderLine.{IsKeyChar, value_line, header_response-value_line}
use rust_memcache.Ascii.Lines.{value_line-IsLine, crlf-IsLine}

abbrev pub end_line : Bytes
end_line = bytes "END\r\n"

pub end-IsLine : IsLine end_line
unfolding is_utf8
end-IsLine = crlf-IsLine (bytes "END") (omega arith) refl (omega arith)

value_buffer_lem : (n : ℕ) → n + 2 < 2 ^ 63 → value_buffer n ≡ ok (n + 2)
unfolding value_buffer
value_buffer_lem n h = rw (lt→ltb (n + 2) (2 ^ 63) h)

module _ {V : Type 0} (from : FromMemcacheValueExt V) where
  Talks-end : Talks IsOpen (parse_get_response from false) (ok none) [] end_line
  unfolding parse_get_response read_if_value header_response try_from bytes_eq starts_with
  Talks-end =
      Talks-subst
        (Talks-bind _ (Talks-read_line (header_response false) end_line end-IsLine)
          (Talks-pure none))
        refl (append-nil _)

  pub Talks-read_value :
      (h : Header) (payload : Bytes) (v : V)
      → h.length ≡ length payload
      → length payload + 2 < 2 ^ 63
      → from.from_memcache_value payload h.flags h.cas ≡ ok v
      → Talks IsOpen (read_value from h) (ok (some (h.key, v))) [] (payload ++ crlf)
  unfolding read_value
  Talks-read_value h payload v e l f =
      let n : h.length + 2 ≡ length (payload ++ crlf) =
        omega (arith, length-append {0} payload crlf) in
      Talks-subst
        (Talks-lift_bind _ (value_buffer_lem h.length (omega arith)) (
          rw n (
            Talks-bind _ (Talks-read_bytes (payload ++ crlf)) (
              rw
                (
                  drop_prefix h.length payload crlf (sym e),
                  bytes_eq_refl crlf,
                  take_prefix h.length payload crlf (sym e),
                )
                (Talks-lift_bind _ f (Talks-pure _))))))
        refl (append-nil _)

  module _ (key : Bytes) (flags : ℕ) (chars : All IsKeyChar key) (text : is_utf8 key ≡ true)
      (payload : Bytes) (v : V) (flags_fit : flags < 2 ^ 32) (size : length payload + 2 < 2 ^ 63)
      (line : length (value_line key flags (length payload)) ≤ capacity)
      (read_as : from.from_memcache_value payload flags none ≡ ok v) where
    Talks-hit :
        Talks IsOpen
          (parse_get_response from false)
          (ok (some (key, v)))
          []
          (value_line key flags (length payload) ++ (payload ++ crlf))
    unfolding parse_get_response read_if_value
    Talks-hit =
        Talks-bind _
          (rw (header_response-value_line key flags (length payload) chars flags_fit (omega arith))
            at
            (Talks-read_line (header_response false) (value_line key flags (length payload))
              (value_line-IsLine key flags chars text (length payload) line)))
          (Talks-read_value _ payload v refl size read_as)

    Talks-get_rest : Talks IsOpen (get_rest from key (some (key, v))) (ok (some v)) [] end_line
    unfolding get_rest
    Talks-get_rest =
        rw (bytes_eq_refl key)
          (Talks-subst (Talks-bind _ Talks-end (Talks-pure _)) refl (append-nil _))

    -- When the server answers the ASCII `get` with the header of the key, its flags and its length, the
    -- value and CR LF, and "END", in chunks of any size, `get` sends exactly "get <key>" and CR LF,
    -- gives the value as its type reads it, and leaves what comes behind "END". The key is UTF-8 text
    -- with no space or CR, the header line has at most 2048 bytes, the flags fit 32 bits, the value is
    -- shorter than 2^63 bytes, and the type reads it.
    pub get_hit :
        (p : CappedLineReader) (w a : Bytes)
        → IsOpen p w
            (((value_line key flags (length payload) ++ (payload ++ crlf)) ++ end_line) ++ a)
        → Ends IsOpen (get from key p) (ok (some v)) (w ++ (bytes "get " ++ (key ++ crlf))) a
    unfolding get flatten
    get_hit p w a o =
        (Talks-subst
            (Talks-bind _ (Talks-on_stream _ (Talks-write_fmt (bytes "get " ∷ key ∷ crlf ∷ [])))
              (Talks-bind _ Talks-hit Talks-get_rest))
            (simp append-nil) refl).at
          p w a o

  -- When the server answers the ASCII `get` with "END", `get` sends exactly "get <key>" and CR LF, gives
  -- none, and leaves what comes behind "END".
  pub get_miss :
      (key : Bytes) (p : CappedLineReader) (w a : Bytes)
      → IsOpen p w (end_line ++ a)
      → Ends IsOpen (get from key p) (ok none) (w ++ (bytes "get " ++ (key ++ crlf))) a
  unfolding get flatten get_rest
  get_miss key p w a o =
      (Talks-subst {v' = end_line}
          (Talks-bind _ (Talks-on_stream _ (Talks-write_fmt (bytes "get " ∷ key ∷ crlf ∷ [])))
            (Talks-bind _ Talks-end (Talks-pure _)))
          (simp append-nil) (append-nil _)).at
        p w a o

  Talks-fault :
      (f : Fault)
      → IsFault f
      → Talks IsOpen (parse_get_response from false) (err (fault_error f)) [] (fault_line f)
  unfolding parse_get_response header_response
  Talks-fault f h = Talks-bind_err _ (
      rw (try_from-fault_line f) at
        (Talks-read_line (header_response false) (fault_line f) (fault-IsLine f h)))

  -- An error line is the answer to the `get`, and the end of it.
  pub get_refused :
      (key : Bytes) (f : Fault) (p : CappedLineReader) (w a : Bytes)
      → IsFault f
      → IsOpen p w (fault_line f ++ a)
      → Ends IsOpen (get from key p) (err (fault_error f)) (w ++ (bytes "get " ++ (key ++ crlf))) a
  unfolding get flatten
  get_refused key f p w a h o =
      (Talks-subst
          (Talks-bind _ (Talks-on_stream _ (Talks-write_fmt (bytes "get " ∷ key ∷ crlf ∷ [])))
            (Talks-bind_err _ (Talks-fault f h)))
          (simp append-nil) refl).at
        p w a o
