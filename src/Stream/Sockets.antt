-- ===== src/Stream/Sockets.antt =====
-- The sockets of the standard library (TCP, Unix, TLS over TCP), as far as the code uses them. What the
-- network does is an argument: `incoming` lists what the following reads find, `write_events` and
-- `flush_events` what the following writes and flushes do.
use rust_memcache.Prelude.{
  ℕ, zero, ◌+◌, Bytes, Bool, List, [], ◌∷◌, ◌++◌, Option, none, some, ltb, length, take, drop, min,
  if◌then◌else◌,
}
use rust_memcache.Error.{IoError, would_block, invalid_input, io_error}
use rust_memcache.Outcome.{ok, err}
use rust_memcache.Exec.{Exec}

-- A read finds bytes (an empty chunk is the end of the stream), or fails.
pub data ReadEvent : Type 0 where
  chunk : Bytes → ReadEvent
  fault : IoError → ReadEvent

-- A write takes so many bytes at most, or fails.
pub data WriteEvent : Type 0 where
  accept : ℕ → WriteEvent
  fault : IoError → WriteEvent

pub record Socket : Type 0 where
  pub incoming : List ReadEvent
  pub written : Bytes
  pub write_events : List WriteEvent
  pub flush_events : List (Option IoError)
  pub read_timeout : Option ℕ
  pub write_timeout : Option ℕ
  pub nodelay : Bool

-- `read` into a buffer of `n` bytes. When nothing is left to come the read times out.
unfoldable pub read_event : ℕ → List ReadEvent → Exec Socket Bytes
read_event n [] s = (err (io_error would_block), s)
read_event n (ReadEvent.fault e ∷ es) s = (err (io_error e), record s { incoming = es })
read_event n (chunk bs ∷ es) s =
    if ltb n (length bs)
    then (ok (take n bs), record s { incoming = chunk (drop n bs) ∷ es })
    else (ok bs, record s { incoming = es })

unfoldable pub read : ℕ → Exec Socket Bytes
unfolding read_event
read n s = read_event n s.incoming s

-- `write` returns how many bytes it took. With no event left it takes all.
unfoldable pub write_event : Bytes → List WriteEvent → Exec Socket ℕ
write_event bs [] s = (ok (length bs), record s { written = s.written ++ bs })
write_event bs (accept k ∷ ws) s =
    (ok (min k (length bs)), record s { written = s.written ++ take k bs; write_events = ws })
write_event bs (WriteEvent.fault e ∷ ws) s = (err (io_error e), record s { write_events = ws })

unfoldable pub write : Bytes → Exec Socket ℕ
unfolding write_event
write bs s = write_event bs s.write_events s

unfoldable pub flush_event : List (Option IoError) → Exec Socket (Unit {0})
flush_event [] s = (ok tt, s)
flush_event (none ∷ fs) s = (ok tt, record s { flush_events = fs })
flush_event (some e ∷ fs) s = (err (io_error e), record s { flush_events = fs })

unfoldable pub flush : Exec Socket (Unit {0})
unfolding flush_event
flush s = flush_event s.flush_events s

-- The standard library refuses a timeout of zero.
unfoldable pub set_read_timeout : Option ℕ → Exec Socket (Unit {0})
set_read_timeout (some zero) s = (err (io_error invalid_input), s)
set_read_timeout t s = (ok tt, record s { read_timeout = t })

unfoldable pub set_write_timeout : Option ℕ → Exec Socket (Unit {0})
set_write_timeout (some zero) s = (err (io_error invalid_input), s)
set_write_timeout t s = (ok tt, record s { write_timeout = t })

-- `TcpStream::set_nodelay`
unfoldable pub set_nodelay : Bool → Exec Socket (Unit {0})
set_nodelay b s = (ok tt, record s { nodelay = b })

-- How much the script holds: a bound on the reads that can find something.
unfoldable pub supply : List ReadEvent → ℕ
supply [] = 0
supply (ReadEvent.fault e ∷ es) = 1 + supply es
supply (chunk bs ∷ es) = 1 + length bs + supply es
