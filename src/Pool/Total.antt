-- ===== src/Pool/Total.antt =====
-- Pools that hand out connections which are fit for use.
use rust_memcache.Prelude.{Bytes, ◌≡◌, refl}
use rust_memcache.External.{External, good, bad, panics}
use rust_memcache.Exec.{Exec}
use rust_memcache.Exec.Total.{Halts, Total}
use rust_memcache.Connection.{Connection}
use rust_memcache.Connection.Total.{IsFit}
use rust_memcache.Pool.{R2d2, use_guard, on_pool}

-- A pool gives connections that were opened by its manager or put back into it: `Holds` says that they are
-- fit for use.
pub record HoldsFit {Pool : Type 0} (r2d2 : R2d2 Pool) (Holds : Pool → Type 0) : Type 0 where
  pub gives : (p : Pool) (k : Connection) → Holds p → (r2d2.get p).0 ≡ good k → IsFit k
  pub rest : (p : Pool) → Holds p → Holds (r2d2.get p).1
  pub takes : (k : Connection) (p : Pool) → IsFit k → Holds p → Holds (r2d2.put k p)

module _ {Pool : Type 0} (r2d2 : R2d2 Pool) (Holds : Pool → Type 0) (h : HoldsFit r2d2 Holds)
    {A : Type 0} {m : Exec Connection A} (t : Total IsFit m) where
  guarded :
      (e : External Bytes Connection) (p : Pool)
      → Holds p
      → ((k : Connection) → e ≡ good k → IsFit k)
      → Halts Holds (use_guard r2d2 m e p)
  unfolding use_guard
  guarded (good k) p v f =
      let x = t.at k (f k refl) in record { done = x.done; keeps = h.takes (m k).1 p x.keeps v }
  guarded (bad e) p v f = record { done = tt; keeps = v }
  guarded panics p v f = record { done = tt; keeps = v }

  pub Total-on_pool : Total Holds (on_pool r2d2 m)
  unfolding on_pool
  Total-on_pool = record {
    at = λ p v. guarded (r2d2.get p).0 (r2d2.get p).1 (h.rest p v) (λ k e. h.gives p k v e);
  }
