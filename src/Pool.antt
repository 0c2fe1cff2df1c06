-- ===== src/Pool.antt =====
-- The pools of the r2d2 crate, as far as the code uses them. Several threads and clones that share a pool
-- are not modelled: a call checks a connection out, uses it and gives it back.
pub mod Total
use rust_memcache.Prelude.{ℕ, Bytes, Option}
use rust_memcache.Error.{pool_error}
use rust_memcache.External.{External, good, bad, panics}
use rust_memcache.Outcome.{err, panic}
use rust_memcache.Exec.{Exec}
use rust_memcache.Connection.{Connection, ConnectionManager}

-- The settings of `r2d2::Builder` that the code sets.
pub record PoolBuilder : Type 0 where
  pub max_size : ℕ
  pub min_idle : Option ℕ
  pub max_lifetime : Option ℕ
  pub connection_timeout : ℕ

-- `builder` holds the defaults of r2d2. `get` checks a connection out; dropping the guard of a connection
-- is `put`. An error of r2d2 is known by its text.
pub record R2d2 (Pool : Type 0) : Type 0 where
  pub builder : PoolBuilder
  pub build : PoolBuilder → ConnectionManager → External Bytes Pool
  pub get : Pool → External Bytes Connection × Pool
  pub put : Connection → Pool → Pool

module _ {Pool : Type 0} (r2d2 : R2d2 Pool) {A : Type 0} (m : Exec Connection A) where
  -- The guard is dropped whatever the method gives.
  unfoldable pub use_guard : External Bytes Connection → Exec Pool A
  use_guard (good c) p = let (r, c') = m c in (r, r2d2.put c' p)
  use_guard (bad e) p = (err (pool_error e), p)
  use_guard panics p = (panic, p)

  -- `pool.get()?.method(..)`
  unfoldable pub on_pool : Exec Pool A
  unfolding use_guard
  on_pool p = let (c, p') = r2d2.get p in use_guard c p'
