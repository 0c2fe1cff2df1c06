-- ===== src/Exec/Total.antt =====
-- Methods that end on every state that has a property, and keep that property, whatever they give.
use rust_memcache.Prelude.{◌≢◌, refl, Bool, true, false, if◌then◌else◌}
use rust_memcache.Error.{MemcacheError}
use rust_memcache.Outcome
use rust_memcache.Outcome.{Outcome, ok, err, panic, stuck, map_ok, handle}
use rust_memcache.Exec.{Exec, pure, raise, lift, on_result, continue, ◌>>=◌}

-- No loop of the model has run out of fuel.
abbrev pub IsDone : {A : Type 0} → Outcome A → Type 0
IsDone (ok a) = Unit
IsDone (err e) = Unit
IsDone panic = Unit
IsDone stuck = ⊥

pub IsDone-ne : {A : Type 0} (o : Outcome A) → IsDone o → o ≢ stuck
IsDone-ne (ok a) d e = cc
IsDone-ne (err x) d e = cc
IsDone-ne panic d e = cc
IsDone-ne stuck d e = d

pub ne-IsDone : {A : Type 0} (o : Outcome A) → o ≢ stuck → IsDone o
ne-IsDone (ok a) h = tt
ne-IsDone (err e) h = tt
ne-IsDone panic h = tt
ne-IsDone stuck h = h refl

module _ {A B : Type 0} where
  pub IsDone-bind :
      (o : Outcome A) (f : A → Outcome B)
      → IsDone o
      → ((a : A) → IsDone (f a))
      → IsDone (Outcome.◌>>=◌ o f)
  IsDone-bind (ok a) f d g = g a
  IsDone-bind (err e) f d g = tt
  IsDone-bind panic f d g = tt
  IsDone-bind stuck f d g = d

  pub IsDone-map_ok : (f : A → B) (o : Outcome A) → IsDone o → IsDone (map_ok f o)
  IsDone-map_ok f (ok a) d = tt
  IsDone-map_ok f (err e) d = tt
  IsDone-map_ok f panic d = tt
  IsDone-map_ok f stuck d = d

  pub IsDone-handle :
      (o : Outcome A) (f : A → Outcome B) (g : MemcacheError → Outcome B)
      → IsDone o
      → ((a : A) → IsDone (f a))
      → ((e : MemcacheError) → IsDone (g e))
      → IsDone (handle o f g)
  IsDone-handle (ok a) f g d p q = p a
  IsDone-handle (err e) f g d p q = q e
  IsDone-handle panic f g d p q = tt
  IsDone-handle stuck f g d p q = d

pub IsDone-if :
    {A : Type 0} (b : Bool) (x y : Outcome A) → IsDone x → IsDone y → IsDone (if b then x else y)
IsDone-if true x y p q = p
IsDone-if false x y p q = q

-- A run that is over, in a state with the property.
pub record Halts {S A : Type 0} (Inv : S → Type 0) (x : Outcome A × S) : Type 0 where
  pub done : IsDone x.0
  pub keeps : Inv x.1

pub record Total {S A : Type 0} (Inv : S → Type 0) (m : Exec S A) : Type 0 where
  pub at : (s : S) → Inv s → Halts Inv (m s)

module _ {S : Type 0} {Inv : S → Type 0} where
  module _ {A : Type 0} where
    pub Total-pure : (a : A) → Total Inv (pure a)
    unfolding pure
    Total-pure a = record { at = λ s h. record { done = tt; keeps = h } }

    pub Total-raise : (e : MemcacheError) → Total Inv (raise {A = A} e)
    unfolding raise
    Total-raise e = record { at = λ s h. record { done = tt; keeps = h } }

    pub Total-lift : (o : Outcome A) → IsDone o → Total Inv (lift o)
    unfolding lift
    Total-lift o d = record { at = λ s h. record { done = d; keeps = h } }

    pub Total-if :
        (b : Bool) {m n : Exec S A} → Total Inv m → Total Inv n → Total Inv (if b then m else n)
    Total-if true p q = p
    Total-if false p q = q

  module _ {A B : Type 0} where
    continues :
        (o : Outcome A) (f : A → Exec S B) (s : S)
        → IsDone o
        → Inv s
        → ((a : A) → Total Inv (f a))
        → Halts Inv (continue o f s)
    continues (ok a) f s d h g = (g a).at s h
    continues (err e) f s d h g = record { done = tt; keeps = h }
    continues panic f s d h g = record { done = tt; keeps = h }
    continues stuck f s d h g = absurd d

    pub Total-bind :
        {m : Exec S A} {f : A → Exec S B}
        → Total Inv m
        → ((a : A) → Total Inv (f a))
        → Total Inv (m >>= f)
    unfolding ◌>>=◌
    Total-bind {m} {f} t g = record {
      at = λ s h. let x = t.at s h in continues (m s).0 f (m s).1 x.done x.keeps g;
    }

    on_result_at :
        (o : Outcome A) (f : A → Exec S B) (g : MemcacheError → Outcome B) (s : S)
        → IsDone o
        → Inv s
        → ((a : A) → Total Inv (f a))
        → ((e : MemcacheError) → IsDone (g e))
        → Halts Inv (on_result o f g s)
    unfolding on_result
    on_result_at (ok a) f g s d h p q = (p a).at s h
    on_result_at (err e) f g s d h p q = record { done = q e; keeps = h }
    on_result_at panic f g s d h p q = record { done = tt; keeps = h }
    on_result_at stuck f g s d h p q = absurd d

    pub Total-on_result :
        (o : Outcome A) {f : A → Exec S B} (g : MemcacheError → Outcome B)
        → IsDone o
        → ((a : A) → Total Inv (f a))
        → ((e : MemcacheError) → IsDone (g e))
        → Total Inv (on_result o f g)
    Total-on_result o g d p q = record { at = λ s h. on_result_at o _ g s d h p q }

-- What a result is, if there is one.
abbrev pub Yields : {A : Type 0} → (A → Type 0) → Outcome A → Type 0
Yields P (ok a) = P a
Yields P (err e) = Unit
Yields P panic = Unit
Yields P stuck = Unit

module _ {S : Type 0} {Inv : S → Type 0} {A B : Type 0} (P : A → Type 0) where
  continues_with :
      (o : Outcome A) (f : A → Exec S B) (s : S)
      → IsDone o
      → Yields P o
      → Inv s
      → ((a : A) → P a → Total Inv (f a))
      → Halts Inv (continue o f s)
  continues_with (ok a) f s d y h g = (g a y).at s h
  continues_with (err e) f s d y h g = record { done = tt; keeps = h }
  continues_with panic f s d y h g = record { done = tt; keeps = h }
  continues_with stuck f s d y h g = absurd d

  -- What follows can rely on what the result is.
  pub Total-bind-Yields :
      {m : Exec S A} {f : A → Exec S B}
      → Total Inv m
      → ((s : S) → Yields P (m s).0)
      → ((a : A) → P a → Total Inv (f a))
      → Total Inv (m >>= f)
  unfolding ◌>>=◌
  Total-bind-Yields {m} {f} t y g = record {
    at = λ s h. let x = t.at s h in continues_with (m s).0 f (m s).1 x.done (y s) x.keeps g;
  }
