-- ===== src/Outcome.antt =====
-- Results: Rust's `Result<T, MemcacheError>`, with the two ways in which a run gives no result.
use mathlib.Core.Path.{◌≡◌, refl}
use rust_memcache.Error.{MemcacheError}

-- `panic` is a Rust panic. `stuck` is no Rust outcome: a loop of the model ran out of fuel.
pub data Outcome {ℓ} (A : Type ℓ) : Type ℓ where
  ok : A → Outcome A
  err : MemcacheError → Outcome A
  panic stuck : Outcome A

infixl 10 ◌>>=◌ ◌>>◌
abbrev pub ◌>>=◌ : {A B : Type 0} → Outcome A → (A → Outcome B) → Outcome B
ok a >>= f = f a
err e >>= f = err e
panic >>= f = panic
stuck >>= f = stuck

abbrev pub ◌>>◌ : {A B : Type 0} → Outcome A → Outcome B → Outcome B
r >> q = r >>= λ _. q

-- `r.map(f)`
abbrev pub map_ok : {A B : Type 0} → (A → B) → Outcome A → Outcome B
map_ok f (ok a) = ok (f a)
map_ok f (err e) = err e
map_ok f panic = panic
map_ok f stuck = stuck

-- `match r { Ok(a) => f(a), Err(e) => g(e) }`
abbrev pub handle :
    {A B : Type 0} → Outcome A → (A → Outcome B) → (MemcacheError → Outcome B) → Outcome B
handle (ok a) f g = f a
handle (err e) f g = g e
handle panic f g = panic
handle stuck f g = stuck

-- A chain that succeeds has a first step that does.
pub bind-ok :
    {A B : Type 0} (o : Outcome A) (f : A → Outcome B) (b : B)
    → (o >>= f) ≡ ok b
    → (a : A) × (o ≡ ok a) × (f a ≡ ok b)
bind-ok (ok a) f b h = (a, refl, h)
bind-ok (err e) f b h = cc
bind-ok panic f b h = cc
bind-ok stuck f b h = cc

pub ok-inj : {A : Type 0} (a b : A) → ◌≡◌ {A = Outcome A} (ok a) (ok b) → a ≡ b
ok-inj a b h = cc

pub map_ok-ok :
    {A B : Type 0} (f : A → B) (o : Outcome A) (b : B)
    → map_ok f o ≡ ok b
    → (a : A) × (o ≡ ok a) × (f a ≡ b)
map_ok-ok f (ok a) b h = (a, refl, ok-inj (f a) b h)
map_ok-ok f (err e) b h = cc
map_ok-ok f panic b h = cc
map_ok-ok f stuck b h = cc
