-- ===== src/External.antt =====
-- What a call out of the crate gives: a value, an error of its own type, or a panic.
use rust_memcache.Error.{MemcacheError}
use rust_memcache.Outcome.{Outcome, ok, err, panic}

pub data External (E A : Type 0) : Type 0 where
  good : A → External E A
  bad : E → External E A
  panics : External E A

-- `?` on such a result, where `from` is the conversion of its error.
abbrev pub or_error : {E A : Type 0} → (E → MemcacheError) → External E A → Outcome A
or_error from (good a) = ok a
or_error from (bad e) = err (from e)
or_error from panics = panic
