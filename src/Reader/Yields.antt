-- ===== src/Reader/Yields.antt =====
-- What `read_line` gives is what its callback gives for a line.
use rust_memcache.Prelude.{
  ℕ, zero, suc, Bytes, [], ◌∷◌, Option, none, some, length, drop, take, ◌==◌, Bool-cases, inl, inr,
}
use rust_memcache.Outcome.{Outcome, ok, err, panic, stuck}
use rust_memcache.Exec.{Exec}
use rust_memcache.Exec.Total.{Yields}
use rust_memcache.Stream.{Stream}
use rust_memcache.Text.Utf8.{str_from_utf8}
use rust_memcache.Reader.{
  CappedLineReader, capacity, consume, take_line, line_or, received, read_loop, read_line, get_line,
}

module _ {T : Type 0} (cb : Bytes → Outcome T) (P : T → Type 0)
    (y : (line : Bytes) → Yields P (cb line)) where
  taken :
      (o : Outcome Bytes) (n : ℕ) (r : CappedLineReader)
      → Yields P
          (elim o as (λ x. Outcome T × CappedLineReader) [
            | ok line ↦ (cb line, consume n r)
            | err e ↦ (err e, r)
            | panic ↦ (panic, r)
            | stuck ↦ (stuck, r)
          ]).0
  taken (ok line) n r = y line
  taken (err e) n r = tt
  taken panic n r = tt
  taken stuck n r = tt

  line_or-Yields :
      (more : Exec CappedLineReader T) (o : Option ℕ) (r : CappedLineReader)
      → Yields P (more r).0
      → Yields P (line_or cb more o r).0
  unfolding line_or take_line
  line_or-Yields more none r h = h
  line_or-Yields more (some n) r h = taken (str_from_utf8 (take n r.buf)) n r

  received-Yields :
      (more : Exec CappedLineReader T) (r : CappedLineReader) (o : Outcome Bytes) (s : Stream)
      → ((t : CappedLineReader) → Yields P (more t).0)
      → Yields P (received cb more r (o, s)).0
  unfolding received
  received-Yields more r (ok []) s h = tt
  received-Yields more r (ok (b ∷ bs)) s h = line_or-Yields more _ _ (h _)
  received-Yields more r (err e) s h = tt
  received-Yields more r panic s h = tt
  received-Yields more r stuck s h = tt

  read_loop-Yields : (fuel : ℕ) (r : CappedLineReader) → Yields P (read_loop cb fuel r).0
  unfolding read_loop
  read_loop-Yields zero r = tt
  read_loop-Yields (suc fuel) r = elim (Bool-cases (length (drop r.filled r.buf) == 0)) [
    | inl e ↦ rw (e, Yields) tt
    | inr e ↦ rw (e, Yields) (received-Yields (read_loop cb fuel) r _ _ (read_loop-Yields fuel))
  ]

  pub read_line-Yields : (r : CappedLineReader) → Yields P (read_line cb r).0
  unfolding read_line
  read_line-Yields r =
      line_or-Yields (read_loop cb (suc capacity)) (get_line (take r.filled r.buf)) r
        (read_loop-Yields (suc capacity) r)
