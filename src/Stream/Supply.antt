-- ===== src/Stream/Supply.antt =====
-- What a read takes from what a stream has still to give: `read_exact` takes its bytes at least.
use rust_memcache.Prelude.{
  ℕ, zero, suc, ◌+◌, ◌-◌, ◌≤◌, ◌<◌, ◌≡◌, refl, Bytes, List, [], ◌∷◌, ◌++◌, length, length-drop,
  length-take, arith, Bool-cases, inl, inr, suc-==_zero, ltb, if◌then◌else◌,
}
use rust_memcache.Error.{MemcacheError}
use rust_memcache.Outcome.{Outcome, ok, err, panic, stuck, map_ok}
use rust_memcache.Exec.{Exec, pure, raise, lift, continue, ◌>>=◌}
use rust_memcache.Exec.Total.{IsDone, ne-IsDone, Halts, Total}
use rust_memcache.Stream.{
  Stream, tcp, udp, unix, tls, read, read_more, read_exact, read_exact_loop, supply, is_interrupted,
}
use rust_memcache.Stream.Sockets
use rust_memcache.Stream.Udp
use rust_memcache.Stream.Sockets.{Socket, ReadEvent, chunk}
use rust_memcache.Stream.Termination.{read_exact-ne-stuck}
use rust_memcache.Stream.Total.{Whatever}

-- With a result, a run took `k` of the `n` that were there at least, and left `m`.
abbrev Leaves : {A : Type 0} → ℕ → Outcome A → ℕ → ℕ → Type 0
Leaves k (ok a) m n = k + m ≤ n
Leaves k (err e) m n = m ≤ n
Leaves k panic m n = m ≤ n
Leaves k stuck m n = m ≤ n

-- A method that ends, and takes `k` at least where it gives a result.
pub record Takes {A : Type 0} (k : ℕ) (m : Exec Stream A) : Type 0 where
  pub done : (s : Stream) → IsDone (m s).0
  pub at : (s : Stream) → Leaves k (m s).0 (supply (m s).1) (supply s)

pub Takes-Total : {A : Type 0} (k : ℕ) {m : Exec Stream A} → Takes k m → Total Whatever m
Takes-Total k t = record { at = λ s h. record { done = t.done s; keeps = tt } }

module _ {A : Type 0} where
  pub Takes-pure : (a : A) → Takes 0 (pure a)
  unfolding pure
  Takes-pure a = record { done = λ s. tt; at = λ s. omega arith }

  pub Takes-raise : (k : ℕ) (e : MemcacheError) → Takes k (raise {A = A} e)
  unfolding raise
  Takes-raise k e = record { done = λ s. tt; at = λ s. omega arith }

  lifted : (o : Outcome A) (n : ℕ) → Leaves 0 o n n
  lifted (ok a) n = omega arith
  lifted (err e) n = omega arith
  lifted panic n = omega arith
  lifted stuck n = omega arith

  pub Takes-lift : (o : Outcome A) → IsDone o → Takes 0 (lift o)
  unfolding lift
  Takes-lift o d = record { done = λ s. d; at = λ s. lifted o (supply s) }

  -- A run behind one that took `j`.
  later : (j k : ℕ) (o : Outcome A) (l m n : ℕ) → j + m ≤ n → Leaves k o l m → Leaves (j + k) o l n
  later j k (ok a) l m n h t = omega arith
  later j k (err e) l m n h t = omega arith
  later j k panic l m n h t = omega arith
  later j k stuck l m n h t = omega arith

  fewer : (k l : ℕ) (o : Outcome A) (m n : ℕ) → k ≤ l → Leaves l o m n → Leaves k o m n
  fewer k l (ok a) m n h t = omega arith
  fewer k l (err e) m n h t = t
  fewer k l panic m n h t = t
  fewer k l stuck m n h t = t

  pub Takes-fewer : {k : ℕ} (l : ℕ) {m : Exec Stream A} → k ≤ l → Takes l m → Takes k m
  Takes-fewer {k} l {m} h t = record { done = t.done; at = λ s. fewer k l (m s).0 _ _ h (t.at s) }

  more : (k : ℕ) (o : Outcome A) (l m n : ℕ) → m ≤ n → Leaves k o l m → Leaves k o l n
  more k (ok a) l m n h t = omega arith
  more k (err e) l m n h t = omega arith
  more k panic l m n h t = omega arith
  more k stuck l m n h t = omega arith

module _ {A B : Type 0} (j k : ℕ) where
  continues :
      (o : Outcome A) (f : A → Exec Stream B) (s : Stream) (n : ℕ)
      → Leaves j o (supply s) n
      → ((a : A) → Takes k (f a))
      → Leaves (j + k) (continue o f s).0 (supply (continue o f s).1) n
  continues (ok a) f s n h g = later j k (f a s).0 _ (supply s) n h ((g a).at s)
  continues (err e) f s n h g = h
  continues panic f s n h g = h
  continues stuck f s n h g = h

  ends :
      (o : Outcome A) (f : A → Exec Stream B) (s : Stream)
      → IsDone o
      → ((a : A) → Takes k (f a))
      → IsDone (continue o f s).0
  ends (ok a) f s d g = (g a).done s
  ends (err e) f s d g = tt
  ends panic f s d g = tt
  ends stuck f s d g = d

  pub Takes-bind :
      {m : Exec Stream A} {f : A → Exec Stream B}
      → Takes j m
      → ((a : A) → Takes k (f a))
      → Takes (j + k) (m >>= f)
  unfolding ◌>>=◌
  Takes-bind {m} {f} t g = record {
    done = λ s. ends (m s).0 f (m s).1 (t.done s) g;
    at = λ s. continues (m s).0 f (m s).1 (supply s) (t.at s) g;
  }

-- Fewer than `n` are left on the stream.
abbrev pub Under : ℕ → Stream → Type 0
Under n s = supply s < n

module _ {A B : Type 0} (n : ℕ) where
  goes_on :
      (o : Outcome A) (f : A → Exec Stream B) (s : Stream) (t : ℕ)
      → IsDone o
      → Leaves 1 o (supply s) t
      → t < suc n
      → ((a : A) → Total (Under n) (f a))
      → Halts (Under (suc n)) (continue o f s)
  goes_on (ok a) f s t d h l g =
      let x = (g a).at s (omega arith) in record { done = x.done; keeps = omega (arith, x.keeps) }
  goes_on (err e) f s t d h l g = record { done = tt; keeps = omega arith }
  goes_on panic f s t d h l g = record { done = tt; keeps = omega arith }
  goes_on stuck f s t d h l g = absurd d

  -- What follows a run that takes a byte has one less to find.
  pub Total-behind :
      {m : Exec Stream A} {f : A → Exec Stream B}
      → Takes 1 m
      → ((a : A) → Total (Under n) (f a))
      → Total (Under (suc n)) (m >>= f)
  unfolding ◌>>=◌
  Total-behind {m} {f} t g = record {
    at = λ s l. goes_on (m s).0 f (m s).1 (supply s) (t.done s) (t.at s) l g;
  }

-- What one read takes, and how much it gives.
abbrev pub Gives : Outcome Bytes → ℕ → ℕ → ℕ → Type 0
Gives (ok bs) m l n = (length bs + l ≤ n) × (length bs ≤ m)
Gives (err e) m l n = l ≤ n
Gives panic m l n = l ≤ n
Gives stuck m l n = ⊥

socket_read-Gives :
    (n : ℕ) (es : List ReadEvent) (k : Socket)
    → k.incoming ≡ es
    → Gives
        (Sockets.read_event n es k).0
        n
        (Sockets.supply (Sockets.read_event n es k).1.incoming)
        (Sockets.supply es)
unfolding Sockets.read_event Sockets.supply
socket_read-Gives n [] k e = rw e (omega arith)
socket_read-Gives n (ReadEvent.fault x ∷ es) k e = omega arith
socket_read-Gives n (chunk bs ∷ es) k e = ground (arith, length-drop {0} n bs, length-take {0} n bs)

pub read-Gives : (n : ℕ) (s : Stream) → Gives (read n s).0 n (supply (read n s).1) (supply s)
unfolding read supply Sockets.read Udp.read
read-Gives n (tcp k) = socket_read-Gives n k.incoming k refl
read-Gives n (udp k) =
    let m = if ltb (length k.read_buf) n then length k.read_buf else n in
    let h : (m ≤ length k.read_buf) × (m ≤ n) = ground arith in
    omega (arith, length-drop {0} m k.read_buf, length-take {0} m k.read_buf, h)
read-Gives n (unix k) = socket_read-Gives n k.incoming k refl
read-Gives n (tls k) = socket_read-Gives n k.incoming k refl

prefixed :
    (b n : ℕ) (bs : Bytes) (o : Outcome Bytes) (l m t : ℕ)
    → Leaves (n - suc (length bs)) o l m
    → suc (length bs) + m ≤ t
    → Leaves n (map_ok (λ more. b ∷ (bs ++ more)) o) l t
prefixed b n bs (ok a) l m t h k = omega arith
prefixed b n bs (err e) l m t h k = omega arith
prefixed b n bs panic l m t h k = omega arith
prefixed b n bs stuck l m t h k = omega arith

-- A round of `read_exact` that is followed by rounds that take their bytes takes its own.
read_more-Leaves :
    (again : ℕ → Exec Stream Bytes) (n m : ℕ) (o : Outcome Bytes) (s : Stream)
    → ((k : ℕ) (t : Stream) → Leaves k (again k t).0 (supply (again k t).1) (supply t))
    → Gives o n (supply s) m
    → Leaves n (read_more again n (o, s)).0 (supply (read_more again n (o, s)).1) m
unfolding read_more
read_more-Leaves again n m (ok []) s ih h = omega arith
read_more-Leaves again n m (ok (b ∷ bs)) s ih h =
    prefixed b n bs _ _ (supply s) m (ih (n - suc (length bs)) s) h.0
read_more-Leaves again n m (err e) s ih h = elim (Bool-cases (is_interrupted e)) [
  | inl y ↦ rw (y, Leaves) (more n (again n s).0 _ (supply s) m h (ih n s))
  | inr y ↦ rw (y, Leaves) h
]
read_more-Leaves again n m panic s ih h = h
read_more-Leaves again n m stuck s ih h = absurd h

read_exact_loop-Leaves :
    (fuel n : ℕ) (s : Stream)
    → Leaves n (read_exact_loop fuel n s).0 (supply (read_exact_loop fuel n s).1) (supply s)
unfolding read_exact_loop
read_exact_loop-Leaves zero n s = omega arith
read_exact_loop-Leaves (suc fuel) zero s = omega arith
read_exact_loop-Leaves (suc fuel) (suc n) s = rw suc-==_zero (
    read_more-Leaves (read_exact_loop fuel) (suc n) (supply s) (read (suc n) s).0 (read (suc n) s).1
      (read_exact_loop-Leaves fuel) (read-Gives (suc n) s))

pub Takes-read_exact : (n : ℕ) → Takes n (read_exact n)
unfolding read_exact
Takes-read_exact n = record {
  done = λ s. ne-IsDone _ (read_exact-ne-stuck n s);
  at = λ s. read_exact_loop-Leaves (suc (n + supply s)) n s;
}
