-- ===== src/Reader/View.antt =====
-- The reader as a queue: what is in its buffer, and then what arrives on its stream.
use rust_memcache.Prelude.{
  ℕ, ◌+◌, ◌-◌, ◌≤◌, ◌≡◌, refl, sym, ap, ◌∙◌, Bytes, ◌++◌, length, take, drop, min, take_prefix,
  length-take, length-drop, length-append, arith, append_assoc, length-replicate, drop-append_le,
  drop_all, Bool-cases, inl, inr, ltb, ltb→lt, ltb→le, ◌<◌,
}
use rust_memcache.Stream.{Stream}
use rust_memcache.Stream.Exchange.{Ready}
use rust_memcache.Reader.{CappedLineReader, capacity, new, consume}

-- The bytes in the buffer.
abbrev pub pending : CappedLineReader → Bytes
pending r = take r.filled r.buf

-- The buffer keeps its size, and is not filled beyond it.
pub record IsValid (r : CappedLineReader) : Type 0 where
  pub sized : length r.buf ≡ capacity
  pub within : r.filled ≤ capacity

pub new-IsValid : (s : Stream) → IsValid (new s)
unfolding new
new-IsValid s = record { sized = length-replicate {A = ℕ} capacity 0; within = omega arith }

pub length-pending : (r : CappedLineReader) → IsValid r → length (pending r) ≡ r.filled
length-pending r v = omega (arith, length-take {0} r.filled r.buf, v.sized, v.within)

pub consume-IsValid : (n : ℕ) (r : CappedLineReader) → IsValid r → IsValid (consume n r)
unfolding consume
consume-IsValid n r v = record {
  sized = omega (
    arith,
    length-append {0} (drop (min r.filled n) (take r.filled r.buf))
        (drop (r.filled - min r.filled n) r.buf),
    length-drop {0} (min r.filled n) (take r.filled r.buf),
    length-drop {0} (r.filled - min r.filled n) r.buf,
    length-pending r v,
    v.sized,
    v.within,
  );
  within = omega (arith, v.within);
}

drop-min : (m n : ℕ) (xs : Bytes) → length xs ≡ m → drop (min m n) xs ≡ drop n xs
drop-min m n xs h = elim (Bool-cases (ltb m n)) [
  | inl long ↦
      let lt : m < n = ltb→lt m n long in
      drop_all (min m n) xs (omega arith) ∙ sym (drop_all n xs (omega arith))
  | inr short ↦
      let le : n ≤ m = ltb→le m n short in
      let e : min m n ≡ n = omega arith in ap (λ k. drop k xs) e
]

-- On a reader whose buffer has its size and is not filled beyond it, `consume` drops that many bytes from
-- the front of what is in the buffer, and keeps the rest in its order.
pub pending-consume :
    (n : ℕ) (r : CappedLineReader) → IsValid r → pending (consume n r) ≡ drop n (pending r)
unfolding consume
pending-consume n r v =
    take_prefix (r.filled - min r.filled n) (drop (min r.filled n) (pending r)) _
      (omega (arith, length-drop {0} (min r.filled n) (pending r), length-pending r v))
    ∙ drop-min r.filled n (pending r) (length-pending r v)

pub inner-consume : (n : ℕ) (r : CappedLineReader) → (consume n r).inner ≡ r.inner
unfolding consume
inner-consume n r = refl

-- A reader that is fit for use: `w` was written to its stream, and `a` is what it has still to give.
pub record IsOpen (r : CappedLineReader) (w a : Bytes) : Type 0 where
  pub valid : IsValid r
  pub later : Bytes
  pub queue : pending r ++ later ≡ a
  pub ready : Ready r.inner w later

pub consume-IsOpen :
    (n : ℕ) (r : CappedLineReader) (w a : Bytes)
    → n ≤ r.filled
    → IsOpen r w a
    → IsOpen (consume n r) w (drop n a)
consume-IsOpen n r w a h o = record {
  valid = consume-IsValid n r o.valid;
  later = o.later;
  queue =
      ap (λ p. p ++ o.later) (pending-consume n r o.valid)
      ∙ sym (drop-append_le n (pending r) o.later (omega (arith, length-pending r o.valid)))
      ∙ ap (drop n) o.queue;
  ready = rw (inner-consume n r) o.ready;
}

-- The reader after a read of `bs` into the free part of its buffer.
abbrev pub grown : CappedLineReader → Bytes → Stream → CappedLineReader
grown r bs inner = record {
  inner = inner;
  filled = r.filled + length bs;
  buf = take r.filled r.buf ++ (bs ++ drop (r.filled + length bs) r.buf);
}

pub grown-IsValid :
    (r : CappedLineReader) (bs : Bytes) (inner : Stream)
    → IsValid r
    → r.filled + length bs ≤ capacity
    → IsValid (grown r bs inner)
grown-IsValid r bs inner v h = record {
  sized = omega (
    arith,
    length-append {0} (pending r) (bs ++ drop (r.filled + length bs) r.buf),
    length-append {0} bs (drop (r.filled + length bs) r.buf),
    length-drop {0} (r.filled + length bs) r.buf,
    length-pending r v,
    v.sized,
  );
  within = h;
}

pub pending-grown :
    (r : CappedLineReader) (bs : Bytes) (inner : Stream)
    → IsValid r
    → pending (grown r bs inner) ≡ pending r ++ bs
pending-grown r bs inner v =
    ap (take (r.filled + length bs)) (sym (append_assoc (pending r) bs _))
    ∙ take_prefix (r.filled + length bs) (pending r ++ bs) _
        (omega (arith, length-append {0} (pending r) bs, length-pending r v))

pub grown-IsOpen :
    (r : CappedLineReader) (bs : Bytes) (inner : Stream) (w a later : Bytes)
    → (o : IsOpen r w a) → r.filled + length bs ≤ capacity
    → bs ++ later ≡ o.later
    → Ready inner w later
    → IsOpen (grown r bs inner) w a
grown-IsOpen r bs inner w a later o h e k = record {
  valid = grown-IsValid r bs inner o.valid h;
  later = later;
  queue =
      ap (λ p. p ++ later) (pending-grown r bs inner o.valid)
      ∙ append_assoc (pending r) bs later
      ∙ ap (λ l. pending r ++ l) e
      ∙ o.queue;
  ready = k;
}
