-- ===== src/Exec.antt =====
-- Methods that take `&mut self` and return a `Result`. The state comes back beside every outcome, since
-- what was read or written before an early return stays read or written.
pub mod Talks
pub mod Total
use rust_memcache.Error.{MemcacheError}
use rust_memcache.Outcome.{Outcome, ok, err, panic, stuck}

abbrev pub Exec : Type 0 → Type 0 → Type 0
Exec S A = S → Outcome A × S

module _ {S A : Type 0} where
  unfoldable pub pure : A → Exec S A
  pure a s = (ok a, s)

  unfoldable pub raise : MemcacheError → Exec S A
  raise e s = (err e, s)

  -- A `Result` that is at hand, under `?`.
  unfoldable pub lift : Outcome A → Exec S A
  lift r s = (r, s)

module _ {S A B : Type 0} where
  abbrev pub continue : Outcome A → (A → Exec S B) → Exec S B
  continue (ok a) f s = f a s
  continue (err e) f s = (err e, s)
  continue panic f s = (panic, s)
  continue stuck f s = (stuck, s)

  infixl 10 ◌>>=◌ ◌>>◌
  unfoldable pub ◌>>=◌ : Exec S A → (A → Exec S B) → Exec S B
  unfolding pure raise lift
  ◌>>=◌ m f s = let (r, s') = m s in continue r f s'

  abbrev pub ◌>>◌ : Exec S A → Exec S B → Exec S B
  m >> n = m >>= λ _. n

  -- `match r { Ok(a) => …, Err(e) => … }` where the first arm goes on.
  unfoldable pub on_result : Outcome A → (A → Exec S B) → (MemcacheError → Outcome B) → Exec S B
  on_result (ok a) f g s = f a s
  on_result (err e) f g s = (g e, s)
  on_result panic f g s = (panic, s)
  on_result stuck f g s = (stuck, s)
