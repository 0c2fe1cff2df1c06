-- ===== src/Reader/Line.antt =====
-- Lines: what `get_line` finds, and that `read_line` takes the first line of what arrives, however it
-- arrives.
use rust_memcache.Prelude.{
  ℕ, zero, suc, ◌+◌, ◌≤◌, ◌<◌, ◌≡◌, refl, sym, ap, ◌∙◌, Bytes, true, false, [], ◌∷◌, ◌++◌, none,
  some, length, take, drop, arith, take-take, take-append_le, take_prefix, drop_prefix,
  length-append, inl, inr, List-cases, Option-cases, Bool-cases, ltb, ltb→le, ltb→lt,
  append-eq_append, ◌==◌, length-drop,
}
use mathlib.Core.Path.{subst}
use rust_memcache.Outcome.{Outcome, ok}
use rust_memcache.Exec.Talks.{Ends}
use rust_memcache.Stream
use rust_memcache.Stream.{Stream}
use rust_memcache.Stream.Exchange.{Ready, Ready-read}
use rust_memcache.Text.Utf8.{is_utf8, str_from_utf8}
use rust_memcache.Reader.{
  CappedLineReader, capacity, get_line_from, get_line, consume, take_line, line_or, received,
  read_loop, read_line,
}
use rust_memcache.Reader.View.{pending, IsOpen, length-pending, consume-IsOpen, grown, grown-IsOpen}

get_line_from-le : (i : ℕ) (bs : Bytes) (n : ℕ) → get_line_from i bs ≡ some n → n ≤ i + length bs
unfolding get_line_from
get_line_from-le i [] n e = cc
get_line_from-le i (b ∷ []) n e = ground (arith, get_line_from-le (i + 1) [] n)
get_line_from-le i (b ∷ c ∷ bs) n e = ground (arith, get_line_from-le (i + 1) (c ∷ bs) n)

-- More bytes do not move the first line.
get_line_from-append :
    (i : ℕ) (xs ys : Bytes) (n : ℕ)
    → get_line_from i xs ≡ some n
    → get_line_from i (xs ++ ys) ≡ some n
unfolding get_line_from
get_line_from-append i [] ys n e = cc
get_line_from-append i (b ∷ []) ys n e = ground arith
get_line_from-append i (b ∷ c ∷ xs) ys n e =
    ground (arith, get_line_from-append (i + 1) (c ∷ xs) ys n)

pub get_line-le : (bs : Bytes) (n : ℕ) → get_line bs ≡ some n → n ≤ length bs
unfolding get_line
get_line-le bs n e = omega (arith, get_line_from-le 0 bs n e)

pub get_line-append : (xs ys : Bytes) (n : ℕ) → get_line xs ≡ some n → get_line (xs ++ ys) ≡ some n
unfolding get_line
get_line-append xs ys n e = get_line_from-append 0 xs ys n e

-- A line that fits the buffer: its first CR LF is at its end, and it is a text.
pub record IsLine (line : Bytes) : Type 0 where
  pub ends : get_line line ≡ some (length line)
  pub text : is_utf8 line ≡ true
  pub fits : length line ≤ capacity

pub str_from_utf8_ok :
    (bs text : Bytes) → bs ≡ text → is_utf8 text ≡ true → str_from_utf8 bs ≡ ok text
unfolding str_from_utf8
str_from_utf8_ok bs text e u = rw (e, u)

take_line_ok :
    {T : Type 0} (cb : Bytes → Outcome T) (n : ℕ) (r : CappedLineReader) (text : Bytes)
    → str_from_utf8 (take n r.buf) ≡ ok text
    → take_line cb n r ≡ (cb text, consume n r)
unfolding take_line
take_line_ok cb n r text e = rw (e, take_line)

-- What is shown of a text whose first CR LF is at its end holds for one that is not UTF-8 too.
module _ (line rest w : Bytes) (ends : get_line line ≡ some (length line))
    (fits : length line ≤ capacity) where
  -- In a buffer that holds a line, it is that line.
  found_line :
      (r : CappedLineReader) (n : ℕ)
      → IsOpen r w (line ++ rest)
      → get_line (pending r) ≡ some n
      → n ≡ length line
  found_line r n o e =
      let p : get_line (line ++ rest) ≡ some n =
        rw (← o.queue) (get_line-append (pending r) o.later n e) in
      cc (p, get_line-append line rest (length line) ends)

  pub found_text :
      (r : CappedLineReader)
      → IsOpen r w (line ++ rest)
      → length line ≤ r.filled
      → take (length line) r.buf ≡ line
  found_text r o h =
      sym (take-take (length line) r.filled r.buf h)
      ∙ sym (
          take-append_le (length line) (pending r) o.later
            (omega (arith, length-pending r o.valid)))
      ∙ ap (take (length line)) o.queue
      ∙ take_prefix (length line) line rest refl

  -- In a buffer that holds none, the line is not complete.
  not_found :
      (r : CappedLineReader)
      → IsOpen r w (line ++ rest)
      → get_line (pending r) ≡ none
      → r.filled < length line
  not_found r o e = elim (Bool-cases (ltb r.filled (length line))) [
    | inl h ↦ ltb→lt _ _ h
    | inr h ↦
        let (t, p, _) =
          append-eq_append line (pending r) rest o.later (sym o.queue)
            (omega (arith, ltb→le r.filled (length line) h, length-pending r o.valid)) in
        let f : get_line (pending r) ≡ some (length line) =
          rw p (get_line-append line t (length line) ends) in
        cc (e, f)
  ]

  -- While the line is not complete, something more arrives.
  short :
      {r : CappedLineReader} (o : IsOpen r w (line ++ rest))
      → r.filled < length line
      → o.later ≡ []
      → ⊥
  short {r} o h e = omega (
    arith,
    ap length o.queue,
    ap length e,
    length-append {0} (pending r) o.later,
    length-append {0} line rest,
    length-pending r o.valid,
  )

  -- `outcome` is the outcome once the line is in the buffer, and `after` is what is left to read then.
  module _ {T : Type 0} (cb : Bytes → Outcome T) (outcome : Outcome T) (after : Bytes)
      (found : (r : CappedLineReader)
        → IsOpen r w (line ++ rest)
        → length line ≤ r.filled
        → Ends IsOpen (take_line cb (length line) r) outcome w after) where
    -- The search for a line, where the loop behind it is known to do what it should.
    line_or_lem :
        (r : CappedLineReader) (more : CappedLineReader → Outcome T × CappedLineReader)
        → IsOpen r w (line ++ rest)
        → (r.filled < length line → Ends IsOpen (more r) outcome w after)
        → Ends IsOpen (line_or cb more (get_line (pending r)) r) outcome w after
    unfolding line_or
    line_or_lem r more o k = elim (Option-cases (get_line (pending r))) [
      | inl e ↦ rw e (k (not_found r o e))
      | inr (n, e) ↦
          let p : n ≡ length line = found_line r n o e in
          rw (e, p)
            (found r o (omega (arith, get_line-le (pending r) n e, length-pending r o.valid)))
    ]

    -- One round of the loop, when the read gave `c ∷ more`.
    round_lem :
        (fuel : ℕ) (r : CappedLineReader) (c : ℕ) (more later : Bytes) (inner : Stream)
        → (o : IsOpen r w (line ++ rest)) → r.filled < capacity
        → Stream.read (length (drop r.filled r.buf)) r.inner ≡ (ok (c ∷ more), inner)
        → length (c ∷ more) ≤ length (drop r.filled r.buf)
        → c ∷ (more ++ later) ≡ o.later
        → Ready inner w later
        → ((t : CappedLineReader)
            → IsOpen t w (line ++ rest)
            → t.filled < length line
            → r.filled < t.filled
            → Ends IsOpen (read_loop cb fuel t) outcome w after)
        → Ends IsOpen (read_loop cb (suc fuel) r) outcome w after
    unfolding read_loop received
    round_lem fuel r c more later inner o h e small split ready again =
        let g =
          grown-IsOpen r (c ∷ more) inner w (line ++ rest) later o
            (omega (arith, length-drop {0} r.filled r.buf, o.valid.sized)) split ready in
        rw
          (
            e,
            free_lem (length (drop r.filled r.buf))
                (omega (arith, length-drop {0} r.filled r.buf, o.valid.sized)),
          )
          (line_or_lem (grown r (c ∷ more) inner) (read_loop cb fuel) g
            (λ k. again (grown r (c ∷ more) inner) g k (omega arith)))
      where
        free_lem : (n : ℕ) → 0 < n → (n == 0) ≡ false
        free_lem n p = ground arith

    read_loop_lem :
        (fuel : ℕ) (r : CappedLineReader)
        → IsOpen r w (line ++ rest)
        → r.filled < length line
        → capacity < fuel + r.filled
        → Ends IsOpen (read_loop cb fuel r) outcome w after
    read_loop_lem zero r o h k = absurd (omega (arith, o.valid.within))
    read_loop_lem (suc fuel) r o h k = elim (List-cases o.later) [
      | inl e ↦ absurd (short o h e)
      | inr (d, ds, e) ↦
          let x =
            Ready-read r.inner (length (drop r.filled r.buf)) w d ds
              (omega (arith, length-drop {0} r.filled r.buf, o.valid.sized, fits))
              (subst (Ready r.inner w) e o.ready) in
          round_lem fuel r x.first x.more x.later
            (Stream.read (length (drop r.filled r.buf)) r.inner).1 o (omega (arith, fits))
            (ap (λ y. (y, (Stream.read (length (drop r.filled r.buf)) r.inner).1)) x.gives) x.fits
            (x.split ∙ sym e) x.leaves (λ t p q z. read_loop_lem fuel t p q (omega arith))
    ]

    pub read_line-found :
        (r : CappedLineReader)
        → IsOpen r w (line ++ rest)
        → Ends IsOpen (read_line cb r) outcome w after
    unfolding read_line
    read_line-found r h =
        line_or_lem r (read_loop cb (suc capacity)) h
          (λ k. read_loop_lem (suc capacity) r h k (omega arith))

module _ (line rest w : Bytes) (l : IsLine line) where
  module _ {T : Type 0} (cb : Bytes → Outcome T) where
    take_line_lem :
        (r : CappedLineReader)
        → IsOpen r w (line ++ rest)
        → length line ≤ r.filled
        → Ends IsOpen (take_line cb (length line) r) (cb line) w rest
    take_line_lem r o h =
        rw
          (take_line_ok cb (length line) r line
            (str_from_utf8_ok _ line (found_text line rest w l.ends l.fits r o h) l.text))
          (record {
            gives = refl;
            leaves =
                rw (drop_prefix (length line) line rest refl) at
                  (consume-IsOpen (length line) r w (line ++ rest) h o);
          })

    -- When a line is the next to come, partly in the buffer and partly on the stream in chunks of any
    -- size, `read_line` gives what the callback makes of exactly this line, writes nothing, and leaves
    -- the reader valid with all that comes behind the line still to be read. A line is UTF-8 text whose
    -- first CR LF is at its end, of at most 2048 bytes.
    pub read_line_lem :
        (r : CappedLineReader)
        → IsOpen r w (line ++ rest)
        → Ends IsOpen (read_line cb r) (cb line) w rest
    read_line_lem r o =
        read_line-found line rest w l.ends l.fits cb (cb line) rest take_line_lem r o
