-- ===== src/Reader/Total.antt =====
-- Whatever the network does, the methods of the reader end, and leave its buffer fit for use.
use rust_memcache.Prelude.{
  ℕ, zero, suc, ◌+◌, ◌<◌, ◌∷◌, ◌++◌, suc-==_zero, Bytes, [], Option, none, some, length, drop,
  length-drop, arith, take, min, ◌==◌, Bool-cases, inl, inr,
}
use rust_memcache.Outcome.{Outcome, ok, err, panic, stuck}
use rust_memcache.Exec.{Exec}
use rust_memcache.Exec.Total.{IsDone, IsDone-map_ok, Halts, Total}
use rust_memcache.Stream.{Stream}
use rust_memcache.Stream.Total.{Whatever, Total-read_exact}
use rust_memcache.Stream.Supply.{Gives, read-Gives}
use rust_memcache.Text.Utf8.{is_utf8, str_from_utf8}
use rust_memcache.Reader.{
  CappedLineReader, capacity, consume, read_exact, read_rest, take_line, line_or, received,
  read_loop, read_line, on_stream,
}
use rust_memcache.Reader.View.{IsValid, consume-IsValid, grown, grown-IsValid}

str_from_utf8-IsDone : (bs : Bytes) → IsDone (str_from_utf8 bs)
unfolding str_from_utf8
str_from_utf8-IsDone bs = elim (Bool-cases (is_utf8 bs)) [
  | inl y ↦ rw (y, IsDone) tt
  | inr y ↦ rw (y, IsDone) tt
]

-- The reader with another stream behind it.
moved : (r : CappedLineReader) (s : Stream) → IsValid r → IsValid (record r { inner = s })
moved r s v = record { sized = v.sized; within = v.within }

pub Total-on_stream :
    {A : Type 0} {m : Exec Stream A} → Total Whatever m → Total IsValid (on_stream m)
unfolding on_stream
Total-on_stream {m} t = record {
  at = λ r v. record { done = (t.at r.inner tt).done; keeps = moved r (m r.inner).1 v };
}

read_rest-Halts :
    (front : Bytes) (n : ℕ) (r : CappedLineReader) → IsValid r → Halts IsValid (read_rest front n r)
unfolding read_rest
read_rest-Halts front zero r v = record { done = tt; keeps = v }
read_rest-Halts front (suc n) r v = rw suc-==_zero (record {
  done = IsDone-map_ok (λ rest. front ++ rest) _ ((Total-read_exact (suc n)).at r.inner tt).done;
  keeps = moved r _ v;
})

pub Total-reader_read_exact : (n : ℕ) → Total IsValid (read_exact n)
unfolding read_exact
Total-reader_read_exact n = record {
  at = λ r v.
      read_rest-Halts _ _ (consume (min n r.filled) r) (consume-IsValid (min n r.filled) r v);
}

module _ {T : Type 0} (cb : Bytes → Outcome T) (d : (line : Bytes) → IsDone (cb line)) where
  taken :
      (o : Outcome Bytes) (n : ℕ) (r : CappedLineReader)
      → IsDone o
      → IsValid r
      → Halts {A = T} IsValid (elim o [
        | ok line ↦ (cb line, consume n r)
        | err e ↦ (err e, r)
        | panic ↦ (panic, r)
        | stuck ↦ (stuck, r)
      ])
  taken (ok line) n r e v = record { done = d line; keeps = consume-IsValid n r v }
  taken (err e) n r h v = record { done = tt; keeps = v }
  taken panic n r h v = record { done = tt; keeps = v }
  taken stuck n r h v = absurd h

  line_or-Halts :
      (more : Exec CappedLineReader T) (o : Option ℕ) (r : CappedLineReader)
      → IsValid r
      → Halts IsValid (more r)
      → Halts IsValid (line_or cb more o r)
  unfolding line_or take_line
  line_or-Halts more none r v h = h
  line_or-Halts more (some n) r v h =
      taken (str_from_utf8 (take n r.buf)) n r (str_from_utf8-IsDone (take n r.buf)) v

  received-Halts :
      (more : Exec CappedLineReader T) (r : CappedLineReader) (o : Outcome Bytes) (s : Stream)
      (m n : ℕ)
      → IsValid r
      → Gives o (length (drop r.filled r.buf)) m n
      → ((t : CappedLineReader) → IsValid t → r.filled < t.filled → Halts IsValid (more t))
      → Halts IsValid (received cb more r (o, s))
  unfolding received
  received-Halts more r (ok []) s m n v g ih = record { done = tt; keeps = moved r s v }
  received-Halts more r (ok (b ∷ bs)) s m n v g ih =
      let w =
        grown-IsValid r (b ∷ bs) s v
          (omega (arith, v.within, v.sized, length-drop {0} r.filled r.buf, g.1)) in
      line_or-Halts more _ (grown r (b ∷ bs) s) w (ih (grown r (b ∷ bs) s) w (omega arith))
  received-Halts more r (err e) s m n v g ih = record { done = tt; keeps = moved r s v }
  received-Halts more r panic s m n v g ih = record { done = tt; keeps = moved r s v }
  received-Halts more r stuck s m n v g ih = absurd g

  -- Each round of the loop fills the buffer further.
  read_loop-Halts :
      (fuel : ℕ) (r : CappedLineReader)
      → IsValid r
      → capacity < fuel + r.filled
      → Halts IsValid (read_loop cb fuel r)
  unfolding read_loop
  read_loop-Halts zero r v h = absurd (omega (arith, v.within))
  read_loop-Halts (suc fuel) r v h = elim (Bool-cases (length (drop r.filled r.buf) == 0)) [
    | inl y ↦ rw y (record { done = tt; keeps = v })
    | inr y ↦ rw y (
        received-Halts (read_loop cb fuel) r _ _ _ _ v
          (read-Gives (length (drop r.filled r.buf)) r.inner)
          (λ t w k. read_loop-Halts fuel t w (omega arith)))
  ]

  pub Total-read_line : Total IsValid (read_line cb)
  unfolding read_line
  Total-read_line = record {
    at = λ r v.
        line_or-Halts (read_loop cb (suc capacity)) _ r v
          (read_loop-Halts (suc capacity) r v (omega (arith, v.within)));
  }
