-- ===== src/Reader/BadLine.antt =====
-- A line that is not UTF-8 text.
use rust_memcache.Prelude.{
  ℕ, ◌≤◌, ◌≡◌, refl, ap, ◌∙◌, Bytes, false, ◌++◌, List, [], ◌∷◌, some, take, length,
}
use mathlib.Core.List.{map}
use rust_memcache.Error.{parse_error, str}
use rust_memcache.Outcome.{Outcome, err}
use rust_memcache.Exec.Talks.{Ends}
use rust_memcache.Text.Utf8.{is_utf8, str_from_utf8}
use rust_memcache.Reader.{CappedLineReader, capacity, get_line, take_line, read_line}
use rust_memcache.Reader.View.{IsOpen}
use rust_memcache.Reader.Line.{found_text, read_line-found}

bad_text : (bs : Bytes) → is_utf8 bs ≡ false → str_from_utf8 bs ≡ err (parse_error (str bs))
unfolding str_from_utf8
bad_text bs h = rw h refl

take_line_bad :
    {T : Type 0} (cb : Bytes → Outcome T) (n : ℕ) (r : CappedLineReader) (line : Bytes)
    → take n r.buf ≡ line
    → is_utf8 line ≡ false
    → take_line cb n r ≡ (err (parse_error (str line)), r)
unfolding take_line
take_line_bad cb n r line e h = rw (take_line, e, bad_text line h) refl

-- `read_line` once for each callback, whatever the one before gave.
abbrev pub read_lines :
    {T : Type 0} → List (Bytes → Outcome T) → CappedLineReader → List (Outcome T) × CappedLineReader
read_lines [] r = ([], r)
read_lines (cb ∷ cbs) r =
    let (o, r') = read_line cb r in let (os, r'') = read_lines cbs r' in (o ∷ os, r'')

-- A text that is not UTF-8 and has its first CR LF at its end is the next to come.
module _ (line rest w : Bytes) (ends : get_line line ≡ some (length line))
    (fits : length line ≤ capacity) (bad : is_utf8 line ≡ false) where
  bad_line_stays :
      {T : Type 0} (cb : Bytes → Outcome T) (r : CappedLineReader)
      → IsOpen r w (line ++ rest)
      → Ends IsOpen (read_line cb r) (err (parse_error (str line))) w (line ++ rest)
  bad_line_stays cb r o =
      read_line-found line rest w ends fits cb (err (parse_error (str line))) (line ++ rest)
        (λ r' o' h.
          rw (take_line_bad cb (length line) r' line (found_text line rest w ends fits r' o' h) bad)
            (record { gives = refl; leaves = o' }))
        r o

  -- When the next to come is a line of at most 2048 bytes that ends at its first CR LF and is not UTF-8,
  -- partly in the buffer and partly on the stream in chunks of any size, then however often `read_line`
  -- is called, with any callbacks, each time it fails with the parse error for this line. Nothing is
  -- written, the reader stays valid, and the line and all that comes behind it are still to be read: the
  -- line is never consumed.
  pub read_lines-bad_line :
      {T : Type 0} (cbs : List (Bytes → Outcome T)) (r : CappedLineReader)
      → IsOpen r w (line ++ rest)
      → ((read_lines cbs r).0 ≡ map (λ cb. err (parse_error (str line))) cbs)
        × IsOpen (read_lines cbs r).1 w (line ++ rest)
  read_lines-bad_line [] r o = (refl, o)
  read_lines-bad_line (cb ∷ cbs) r o =
      let first = bad_line_stays cb r o in
      let later = read_lines-bad_line cbs (read_line cb r).1 first.leaves in
      (
        ap (λ x. x ∷ (read_lines cbs (read_line cb r).1).0) first.gives
            ∙ ap (λ xs. err (parse_error (str line)) ∷ xs) later.0,
        later.1,
      )
