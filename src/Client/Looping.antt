-- ===== src/Client/Looping.antt =====
-- What `for connection in self.connections.iter()` did, when it went to its end.
use rust_memcache.Prelude.{◌≡◌, refl, sym, ap, List, [], ◌∷◌}
use rust_memcache.Outcome.{Outcome, ok, err, panic, stuck, ok-inj, map_ok-ok}
use mathlib.Core.Path.{subst}
use rust_memcache.Exec
use rust_memcache.Connection.{Connection}
use rust_memcache.Pool.{R2d2, on_pool}
use rust_memcache.Client.{Client, each_connection, each_pool, and_rest}
use rust_memcache.Client.Builder.{kept}

module _ {Pool : Type 0} (r2d2 : R2d2 Pool) where
  -- A method ran on a connection of the pool, and left this pool.
  pub record Did {A : Type 0} (m : Exec.Exec Connection A) (p q : Pool) : Type 0 where
    pub result : A
    pub runs : on_pool r2d2 m p ≡ (ok result, q)

  abbrev pub AllDid : {A : Type 0} → Exec.Exec Connection A → List Pool → List Pool → Type 0
  AllDid m [] [] = Unit
  AllDid m [] (q ∷ qs) = ⊥
  AllDid m (p ∷ ps) [] = ⊥
  AllDid m (p ∷ ps) (q ∷ qs) = Did m p q × AllDid m ps qs

  and_rest-AllDid :
      {A : Type 0} (m : Exec.Exec Connection A) (p : Pool) (ps : List Pool) (x : Outcome A × Pool)
      (y : Outcome (List A) × List Pool) (rs : List A)
      → on_pool r2d2 m p ≡ x
      → ((rs' : List A) → y.0 ≡ ok rs' → AllDid m ps y.1)
      → (and_rest r2d2 m x ps y).0 ≡ ok rs
      → AllDid m (p ∷ ps) (and_rest r2d2 m x ps y).1
  unfolding and_rest
  and_rest-AllDid m p ps (ok a, q) y rs e more h =
      let (rs', done, _) = map_ok-ok (λ rest. a ∷ rest) y.0 rs h in
      (record { result = a; runs = e }, more rs' done)
  and_rest-AllDid m p ps (err x, q) y rs e more h = cc
  and_rest-AllDid m p ps (panic, q) y rs e more h = cc
  and_rest-AllDid m p ps (stuck, q) y rs e more h = cc

  each_pool-AllDid :
      {A : Type 0} (m : Exec.Exec Connection A) (ps : List Pool) (rs : List A)
      → (each_pool r2d2 m ps).0 ≡ ok rs
      → AllDid m ps (each_pool r2d2 m ps).1
  unfolding each_pool
  each_pool-AllDid m [] rs h = tt
  each_pool-AllDid m (p ∷ ps) rs h =
      and_rest-AllDid m p ps (on_pool r2d2 m p) (each_pool r2d2 m ps) rs refl
        (each_pool-AllDid m ps) h

  -- `>> pure tt` behind a loop that succeeded.
  kept-ok :
      {A : Type 0} (x : Outcome A × Client Pool) (d : Client Pool)
      → kept (Exec.continue x.0 (λ (a : A). Exec.pure tt) x.1) ≡ ok d
      → (a : A) × (x.0 ≡ ok a) × (x.1 ≡ d)
  unfolding Exec.pure
  kept-ok (ok a, c) d e = (a, refl, ok-inj c d e)
  kept-ok (err x, c) d e = cc
  kept-ok (panic, c) d e = cc
  kept-ok (stuck, c) d e = cc

  pub each-AllDid :
      {A : Type 0} (m : Exec.Exec Connection A) (c d : Client Pool)
      → kept (Exec.◌>>◌ (each_connection r2d2 m) (Exec.pure tt) c) ≡ ok d
      → AllDid m c.connections d.connections × (d.hash_function ≡ c.hash_function)
  unfolding Exec.◌>>=◌ each_connection
  each-AllDid m c d e =
      let (rs, done, same) = kept-ok (each_connection r2d2 m c) d e in
      (
        subst (λ (x : Client Pool). AllDid m c.connections x.connections) same
            (each_pool-AllDid m c.connections rs done),
        sym (ap (λ (x : Client Pool). x.hash_function) same),
      )
