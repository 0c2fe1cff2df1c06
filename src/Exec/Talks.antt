-- ===== src/Exec/Talks.antt =====
-- How a method talks over a channel: on a channel on which `received` arrives, it gives `r`, after it
-- wrote `sent` and read `received`, and nothing else. The channel is described by a predicate
-- `Ready s w a`: the state `s` is fit for use, `w` is all that was written, `a` is all that arrives.
use rust_memcache.Prelude.{◌≡◌, refl, Bytes, [], ◌++◌, append-nil, append_assoc}
use rust_memcache.Error.{MemcacheError}
use rust_memcache.Outcome.{Outcome, ok, err}
use rust_memcache.Exec.{Exec, pure, raise, lift, ◌>>=◌}

-- What a run ends with: its outcome, and the channel behind it.
pub record Ends {S A : Type 0} (Ready : S → Bytes → Bytes → Type 0) (run : Outcome A × S)
    (r : Outcome A) (w a : Bytes) : Type 0 where
  pub gives : run.0 ≡ r
  pub leaves : Ready run.1 w a

module _ {S : Type 0} (Ready : S → Bytes → Bytes → Type 0) where
  pub record Talks {A : Type 0} (m : Exec S A) (r : Outcome A) (sent received : Bytes)
      : Type 0 where
    pub at : (s : S) (w a : Bytes) → Ready s w (received ++ a) → Ends Ready (m s) r (w ++ sent) a

module _ {S : Type 0} {Ready : S → Bytes → Bytes → Type 0} where
  module _ {A : Type 0} where
    pub Talks-lift : (r : Outcome A) → Talks Ready (lift r) r [] []
    unfolding lift
    Talks-lift r = record { at = λ s w a h. record { gives = refl; leaves = rw (append-nil w) h } }

    pub Talks-pure : (x : A) → Talks Ready (pure x) (ok x) [] []
    unfolding pure
    Talks-pure x = record { at = λ s w a h. record { gives = refl; leaves = rw (append-nil w) h } }

    pub Talks-raise : (e : MemcacheError) → Talks Ready (raise {A = A} e) (err e) [] []
    unfolding raise
    Talks-raise e = record { at = λ s w a h. record { gives = refl; leaves = rw (append-nil w) h } }

    -- A method that leaves the channel alone.
    pub Talks-value :
        {m : Exec S A} {r : Outcome A} → ((s : S) → m s ≡ (r, s)) → Talks Ready m r [] []
    Talks-value e = record {
      at = λ s w a h. rw (e s, append-nil w) (record { gives = refl; leaves = h });
    }

    pub Talks-subst :
        {m : Exec S A} {r : Outcome A} {u u' v v' : Bytes}
        → Talks Ready m r u v
        → u ≡ u'
        → v ≡ v'
        → Talks Ready m r u' v'
    Talks-subst t p q = rw (← p, ← q) t

  module _ {A B : Type 0} where
    pub Talks-bind :
        {m : Exec S A} (f : A → Exec S B) {x : A} {r : Outcome B} {u u' v v' : Bytes}
        → Talks Ready m (ok x) u v
        → Talks Ready (f x) r u' v'
        → Talks Ready (m >>= f) r (u ++ u') (v ++ v')
    unfolding ◌>>=◌
    Talks-bind {m} f {x} {r} {u} {u'} {v} {v'} t k = record {
      at = λ s w a h.
          let first = t.at s w (v' ++ a) (rw (append_assoc v v' a) at h) in
          rw (first.gives, ← append_assoc w u u') (k.at (m s).1 (w ++ u) a first.leaves);
    }

    pub Talks-bind_err :
        {m : Exec S A} (f : A → Exec S B) {e : MemcacheError} {u v : Bytes}
        → Talks Ready m (err e) u v
        → Talks Ready (m >>= f) (err e) u v
    unfolding ◌>>=◌
    Talks-bind_err {m} f t = record {
      at = λ s w a h.
          let first = t.at s w a h in
          rw first.gives (record { gives = refl; leaves = first.leaves });
    }

    -- A step that only computes.
    pub Talks-lift_bind :
        {o : Outcome A} (f : A → Exec S B) {x : A} {r : Outcome B} {u v : Bytes}
        → o ≡ ok x
        → Talks Ready (f x) r u v
        → Talks Ready (lift o >>= f) r u v
    unfolding ◌>>=◌
    Talks-lift_bind f e t = rw e (record { at = t.at })

    pub Talks-lift_bind_err :
        {o : Outcome A} (f : A → Exec S B) {e : MemcacheError}
        → o ≡ err e
        → Talks Ready (lift o >>= f) (err e) [] []
    unfolding ◌>>=◌
    Talks-lift_bind_err f h = rw h (record { at = (Talks-raise _).at })
