-- ===== src/Reader/Talk.antt =====
-- The reader as a channel: reading a line, reading a number of bytes, and using the stream behind it.
use rust_memcache.Prelude.{
  ℕ, ◌+◌, ◌-◌, ◌≤◌, ◌<◌, ◌≡◌, refl, sym, ap, ◌∙◌, Bytes, false, [], ◌++◌, min, length, take, arith,
  append-nil, take-take, take-append_le, take_prefix, drop_prefix, length-append, inl, inr,
  Bool-cases, ltb, ltb→le, ltb→lt, append-eq_append, ◌==◌, drop_all,
}
use mathlib.Core.Path.{subst}
use rust_memcache.Outcome.{Outcome, ok}
use rust_memcache.Exec.Talks.{Ends, Talks}
use rust_memcache.Exec.{Exec}
use rust_memcache.Stream
use rust_memcache.Stream.{Stream}
use rust_memcache.Stream.Exchange.{Ready}
use rust_memcache.Stream.Exact.{Talks-read_exact}
use rust_memcache.Reader.{CappedLineReader, consume, read_rest, read_exact, read_line, on_stream}
use rust_memcache.Reader.View.{
  pending, IsValid, IsOpen, length-pending, consume-IsOpen, consume-IsValid, pending-consume,
  inner-consume,
}
use rust_memcache.Reader.Line.{IsLine, read_line_lem}

pub Talks-read_line :
    {T : Type 0} (cb : Bytes → Outcome T) (line : Bytes)
    → IsLine line
    → Talks IsOpen (read_line cb) (cb line) [] line
Talks-read_line cb line l = record {
  at = λ r w a o. rw (append-nil w) (read_line_lem line a w l cb r o);
}

-- A call on the stream that reads nothing.
pub Talks-on_stream :
    {A : Type 0} (m : Exec Stream A) {o : Outcome A} {u : Bytes}
    → Talks Ready m o u []
    → Talks IsOpen (on_stream m) o u []
unfolding on_stream
Talks-on_stream m t = record {
  at = λ r w a h.
      let e = t.at r.inner w h.later h.ready in
      record {
        gives = e.gives;
        leaves = record {
          valid = record { sized = h.valid.sized; within = h.valid.within };
          later = h.later;
          queue = h.queue;
          ready = e.leaves;
        };
      };
}

-- All that is read stands in the buffer.
buffered :
    (bs a w : Bytes) (r : CappedLineReader)
    → IsOpen r w (bs ++ a)
    → length bs ≤ r.filled
    → Ends IsOpen (read_exact (length bs) r) (ok bs) w a
unfolding read_exact read_rest
buffered bs a w r o h =
    let m : min (length bs) r.filled ≡ length bs = omega arith in
    let z : length bs - length bs ≡ 0 = omega arith in
    rw (m, z)
      (record {
        gives = ap ok (found_front bs a w r o h);
        leaves =
            rw (drop_prefix (length bs) bs a refl) at
              (consume-IsOpen (length bs) r w (bs ++ a) h o);
      })
  where
    found_front :
        (bs a w : Bytes) (r : CappedLineReader)
        → IsOpen r w (bs ++ a)
        → length bs ≤ r.filled
        → take (length bs) r.buf ≡ bs
    found_front bs a w r o h =
        sym (take-take (length bs) r.filled r.buf h)
        ∙ sym (
            take-append_le (length bs) (pending r) o.later
              (omega (arith, length-pending r o.valid)))
        ∙ ap (take (length bs)) o.queue
        ∙ take_prefix (length bs) bs a refl

read_rest_lem :
    (front xs : Bytes) (n : ℕ) (r : CappedLineReader) (inner : Stream)
    → 0 < n
    → Stream.read_exact n r.inner ≡ (ok xs, inner)
    → read_rest front n r ≡ (ok (front ++ xs), record r { inner = inner })
unfolding read_rest
read_rest_lem front xs n r inner h e = rw (e, nonzero n h)
  where
    nonzero : (n : ℕ) → 0 < n → (n == 0) ≡ false
    nonzero n h = ground arith

-- The buffer holds the front of what is read, and the stream gives the rest `t`.
streamed :
    (t a w : Bytes) (r : CappedLineReader)
    → IsValid r
    → 0 < length t
    → Ready r.inner w (t ++ a)
    → Ends IsOpen (read_exact (length (pending r ++ t)) r) (ok (pending r ++ t)) w a
unfolding read_exact
streamed t a w r v h k =
    let n : length (pending r ++ t) ≡ r.filled + length t =
      omega (arith, length-append {0} (pending r) t, length-pending r v) in
    let m : min (r.filled + length t) r.filled ≡ r.filled = omega arith in
    let d : r.filled + length t - r.filled ≡ length t = omega arith in
    let x = (Talks-read_exact (length t) t refl).at r.inner w a k in
    let inner = (Stream.read_exact (length t) r.inner).1 in
    let c = consume r.filled r in
    let i : Stream.read_exact (length t) c.inner ≡ (ok t, inner) =
      ap (Stream.read_exact (length t)) (inner-consume r.filled r) ∙ ap (λ y. (y, inner)) x.gives in
    let cv = consume-IsValid r.filled r v in
    rw (n, m, d, read_rest_lem (pending r) t (length t) c inner h i)
      (record {
        gives = refl;
        leaves = record {
          valid = record { sized = cv.sized; within = cv.within };
          later = a;
          queue =
              ap (λ p. p ++ a)
                (pending-consume r.filled r v
                  ∙ drop_all r.filled (pending r) (omega (arith, length-pending r v)));
          ready = rw (append-nil w) at x.leaves;
        };
      })

-- `read_exact` takes what is in the buffer and then reads the stream.
pub Talks-read_bytes : (bs : Bytes) → Talks IsOpen (read_exact (length bs)) (ok bs) [] bs
Talks-read_bytes bs = record { at = λ r w a o. rw (append-nil w) (read_bytes bs a w r o) }
  where
    read_bytes :
        (bs a w : Bytes) (r : CappedLineReader)
        → IsOpen r w (bs ++ a)
        → Ends IsOpen (read_exact (length bs) r) (ok bs) w a
    read_bytes bs a w r o = elim (Bool-cases (ltb r.filled (length bs))) [
      | inr h ↦ buffered bs a w r o (ltb→le r.filled (length bs) h)
      | inl h ↦
          let (t, p, q) =
            append-eq_append (pending r) bs o.later a o.queue
              (omega (arith, ltb→lt r.filled (length bs) h, length-pending r o.valid)) in
          let pos : 0 < length t = omega (
            arith,
            ltb→lt r.filled (length bs) h,
            ap length p,
            length-append {0} (pending r) t,
            length-pending r o.valid,
          ) in
          subst (λ l. Ends IsOpen (read_exact (length l) r) (ok l) w a) (sym p)
            (streamed t a w r o.valid pos (subst (Ready r.inner w) q o.ready))
    ]

-- When the bytes `bs` are the next to come, partly in the buffer and partly on the stream in chunks of any
-- size, `read_exact` of the reader for their number gives exactly them and leaves what comes behind them.
pub read_exact_lem :
    (bs a w : Bytes) (r : CappedLineReader)
    → IsOpen r w (bs ++ a)
    → Ends IsOpen (read_exact (length bs) r) (ok bs) w a
read_exact_lem bs a w r o = rw (append-nil w) at ((Talks-read_bytes bs).at r w a o)
