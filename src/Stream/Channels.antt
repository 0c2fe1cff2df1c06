-- ===== src/Stream/Channels.antt =====
-- What the packets need of a channel: that bytes which arrive are read, and that bytes are written.
use rust_memcache.Prelude.{ℕ, ◌≡◌, Bytes, [], length}
use rust_memcache.Outcome.{ok}
use rust_memcache.Exec.Talks.{Talks}
use rust_memcache.Stream.{Stream, read_exact, write_all}
use rust_memcache.Stream.Exchange.{Ready}
use rust_memcache.Stream.Exact.{Talks-read_exact, Talks-write_all}

-- `Fit s w a`: `w` was written to the stream, and `a` is still to be read from it.
pub record Reads (Fit : Stream → Bytes → Bytes → Type 0) : Type 0 where
  pub talks : (n : ℕ) (bs : Bytes) → length bs ≡ n → Talks Fit (read_exact n) (ok bs) [] bs

pub record Writes (Fit : Stream → Bytes → Bytes → Type 0) : Type 0 where
  pub talks : (bs : Bytes) → Talks Fit (write_all bs) (ok tt) bs []

instance pub Ready-Reads : Reads Ready
Ready-Reads = record { talks = Talks-read_exact }

instance pub Ready-Writes : Writes Ready
Ready-Writes = record { talks = Talks-write_all }
