-- ===== src/Stream/Exchange.antt =====
-- A socket that is fit for use: it takes every write and flush, and bytes arrive on it, in chunks of any
-- size. What the reads and writes of the standard library do on it.
use rust_memcache.Prelude.{
  ℕ, zero, suc, ◌≤◌, ◌<◌, ◌≡◌, refl, sym, ap, ◌∙◌, Bytes, List, [], ◌∷◌, ◌++◌, append-nil,
  append_assoc, length, take, drop, take-append-drop, length-take, length-drop, ltb, arith,
  Bool-cases, inl, inr, ltb→lt, ltb→le,
}
use rust_memcache.Outcome.{Outcome, ok}
use rust_memcache.Exec.Talks.{Ends, Talks}
use rust_memcache.Stream.{Stream, tcp, udp, unix, tls, read, write, flush}
use rust_memcache.Stream.Sockets
use rust_memcache.Stream.Sockets.{Socket, ReadEvent, chunk}

-- What arrives before the first fault or the end of the stream.
unfoldable pub arriving : List ReadEvent → Bytes
arriving [] = []
arriving (ReadEvent.fault e ∷ es) = []
arriving (chunk [] ∷ es) = []
arriving (chunk (b ∷ bs) ∷ es) = b ∷ (bs ++ arriving es)

pub record Open (s : Socket) (w a : Bytes) : Type 0 where
  pub written : s.written ≡ w
  pub arrives : arriving s.incoming ≡ a
  pub takes : s.write_events ≡ []
  pub flushes : s.flush_events ≡ []

abbrev pub Ready : Stream → Bytes → Bytes → Type 0
Ready (tcp s) w a = Open s w a
Ready (udp s) w a = ⊥
Ready (unix s) w a = Open s w a
Ready (tls s) w a = Open s w a

-- A read into `n` bytes gives some of what arrives, but not nothing.
pub record ReadsSome {S : Type 0} (Fit : S → Bytes → Bytes → Type 0) (run : Outcome Bytes × S)
    (n : ℕ) (w a : Bytes) : Type 0 where
  pub first : ℕ
  pub more : Bytes
  pub later : Bytes
  pub gives : run.0 ≡ ok (first ∷ more)
  pub fits : length (first ∷ more) ≤ n
  pub split : first ∷ (more ++ later) ≡ a
  pub leaves : Fit run.1 w later

arriving_chunk :
    (bs : Bytes) (es : List ReadEvent)
    → 0 < length bs
    → arriving (chunk bs ∷ es) ≡ bs ++ arriving es
unfolding arriving
arriving_chunk [] es h = absurd (omega arith)
arriving_chunk (b ∷ bs) es h = refl

-- The rest of a chunk that is longer than the buffer.
rest_nonempty : (n : ℕ) (bs : Bytes) → n < length bs → 0 < length (drop n bs)
rest_nonempty n bs h = omega (arith, length-drop {0} n bs)

read_chunk :
    (k : Socket) (n b : ℕ) (bs w : Bytes) (es : List ReadEvent)
    → 0 < n
    → k.written ≡ w
    → k.write_events ≡ []
    → k.flush_events ≡ []
    → ReadsSome Open (Sockets.read_event n (chunk (b ∷ bs) ∷ es) k) n w (b ∷ (bs ++ arriving es))
unfolding Sockets.read_event arriving
read_chunk k zero b bs w es pos hw ht hf = absurd (omega arith)
read_chunk k (suc n) b bs w es pos hw ht hf = elim (Bool-cases (ltb (suc n) (suc (length bs)))) [
  | inl long ↦ rw long (record {
    first = b;
    more = take n bs;
    later = drop n bs ++ arriving es;
    gives = refl;
    fits = omega (arith, length-take {0} n bs);
    split =
        ap (λ r. b ∷ r)
          (sym (append_assoc (take n bs) _ _) ∙ ap (λ r. r ++ arriving es) (take-append-drop n bs));
    leaves = record {
      written = hw;
      arrives = arriving_chunk (drop n bs) es (rest_nonempty n bs (omega (arith, ltb→lt _ _ long)));
      takes = ht;
      flushes = hf;
    };
  })
  | inr short ↦ rw short (record {
    first = b;
    more = bs;
    later = arriving es;
    gives = refl;
    fits = ltb→le _ _ short;
    split = refl;
    leaves = record { written = hw; arrives = refl; takes = ht; flushes = hf };
  })
]

socket_reads :
    (k : Socket) (es : List ReadEvent) (n : ℕ) (w : Bytes) (b : ℕ) (a : Bytes)
    → 0 < n
    → k.written ≡ w
    → k.write_events ≡ []
    → k.flush_events ≡ []
    → arriving es ≡ b ∷ a
    → ReadsSome Open (Sockets.read_event n es k) n w (b ∷ a)
unfolding arriving
socket_reads k [] n w b a pos hw ht hf e = cc
socket_reads k (ReadEvent.fault x ∷ es) n w b a pos hw ht hf e = cc
socket_reads k (chunk [] ∷ es) n w b a pos hw ht hf e = cc
socket_reads k (chunk (c ∷ bs) ∷ es) n w b a pos hw ht hf e =
    rw (← e) (read_chunk k n c bs w es pos hw ht hf)

Open-read :
    (k : Socket) (n : ℕ) (w : Bytes) (b : ℕ) (a : Bytes)
    → 0 < n
    → Open k w (b ∷ a)
    → ReadsSome Open (Sockets.read n k) n w (b ∷ a)
unfolding Sockets.read
Open-read k n w b a pos o =
    socket_reads k k.incoming n w b a pos o.written o.takes o.flushes o.arrives

-- A read on a stream over a socket.
pub Ready-read :
    (s : Stream) (n : ℕ) (w : Bytes) (b : ℕ) (a : Bytes)
    → 0 < n
    → Ready s w (b ∷ a)
    → ReadsSome Ready (read n s) n w (b ∷ a)
unfolding read
Ready-read (tcp k) n w b a pos o =
    let r = Open-read k n w b a pos o in
    record {
      first = r.first;
      more = r.more;
      later = r.later;
      gives = r.gives;
      fits = r.fits;
      split = r.split;
      leaves = r.leaves;
    }
Ready-read (udp k) n w b a pos o = absurd o
Ready-read (unix k) n w b a pos o =
    let r = Open-read k n w b a pos o in
    record {
      first = r.first;
      more = r.more;
      later = r.later;
      gives = r.gives;
      fits = r.fits;
      split = r.split;
      leaves = r.leaves;
    }
Ready-read (tls k) n w b a pos o =
    let r = Open-read k n w b a pos o in
    record {
      first = r.first;
      more = r.more;
      later = r.later;
      gives = r.gives;
      fits = r.fits;
      split = r.split;
      leaves = r.leaves;
    }

Open-write :
    (k : Socket) (bs w a : Bytes)
    → Open k w a
    → ((Sockets.write bs k).0 ≡ ok (length bs)) × Open (Sockets.write bs k).1 (w ++ bs) a
unfolding Sockets.write
Open-write k bs w a o = rw o.takes (
  refl,
  record {
    written = ap (λ r. r ++ bs) o.written;
    arrives = o.arrives;
    takes = refl;
    flushes = o.flushes;
  },
)

pub Ready-write :
    (s : Stream) (bs w a : Bytes)
    → Ready s w a
    → Ends Ready (write bs s) (ok (length bs)) (w ++ bs) a
unfolding write
Ready-write (tcp k) bs w a o =
    let (g, l) = Open-write k bs w a o in record { gives = g; leaves = l }
Ready-write (udp k) bs w a o = absurd o
Ready-write (unix k) bs w a o =
    let (g, l) = Open-write k bs w a o in record { gives = g; leaves = l }
Ready-write (tls k) bs w a o =
    let (g, l) = Open-write k bs w a o in record { gives = g; leaves = l }

Open-flush :
    (k : Socket) (w a : Bytes)
    → Open k w a
    → ((Sockets.flush k).0 ≡ ok tt) × Open (Sockets.flush k).1 w a
unfolding Sockets.flush
Open-flush k w a o =
    rw o.flushes
      (refl, record { written = o.written; arrives = o.arrives; takes = o.takes; flushes = refl })

pub Ready-flush : (s : Stream) (w a : Bytes) → Ready s w a → Ends Ready (flush s) (ok tt) w a
unfolding flush
Ready-flush (tcp k) w a o = let (g, l) = Open-flush k w a o in record { gives = g; leaves = l }
Ready-flush (udp k) w a o = absurd o
Ready-flush (unix k) w a o = let (g, l) = Open-flush k w a o in record { gives = g; leaves = l }
Ready-flush (tls k) w a o = let (g, l) = Open-flush k w a o in record { gives = g; leaves = l }

pub Talks-write : (bs : Bytes) → Talks Ready (write bs) (ok (length bs)) bs []
Talks-write bs = record { at = λ s w a h. Ready-write s bs w a h }

pub Talks-flush : Talks Ready flush (ok tt) [] []
Talks-flush = record { at = λ s w a h. rw (append-nil w) (Ready-flush s w a h) }
