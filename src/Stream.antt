-- ===== src/Stream.antt =====
-- src/stream/mod.rs: the streams that a protocol runs over, and the default methods of `Read` and
-- `Write` (`read_exact`, `write_all`) that the protocols call.
pub mod Sockets
pub mod Udp
pub mod Exchange
pub mod Exact
pub mod Channels
pub mod Datagrams
pub mod Termination
pub mod Total
pub mod Supply
use rust_memcache.Prelude.{
  ℕ, zero, suc, ◌+◌, ◌-◌, ◌==◌, Bytes, Bool, true, false, List, [], ◌∷◌, ◌++◌, Option, length, drop,
  if◌then◌else◌,
}
use rust_memcache.Error.{MemcacheError, io_error, interrupted, unexpected_eof, write_zero}
use rust_memcache.Outcome.{Outcome, ok, err, panic, stuck, map_ok}
use rust_memcache.Exec.{Exec, pure, ◌>>=◌, ◌>>◌}
use Sockets.{Socket}
use Udp.{UdpStream}

pub data Stream : Type 0 where
  tcp : Socket → Stream
  udp : UdpStream → Stream
  unix : Socket → Stream
  tls : Socket → Stream

-- A method of the stream that the variant holds.
abbrev within : {S A : Type 0} → (S → Stream) → Outcome A × S → Outcome A × Stream
within variant (r, s) = (r, variant s)

unfoldable pub read : ℕ → Exec Stream Bytes
read n (tcp s) = within tcp (Sockets.read n s)
read n (udp s) = within udp (Udp.read n s)
read n (unix s) = within unix (Sockets.read n s)
read n (tls s) = within tls (Sockets.read n s)

unfoldable pub write : Bytes → Exec Stream ℕ
write bs (tcp s) = within tcp (Sockets.write bs s)
write bs (udp s) = within udp (Udp.write bs s)
write bs (unix s) = within unix (Sockets.write bs s)
write bs (tls s) = within tls (Sockets.write bs s)

unfoldable pub flush : Exec Stream (Unit {0})
flush (tcp s) = within tcp (Sockets.flush s)
flush (udp s) = within udp (Udp.flush s)
flush (unix s) = within unix (Sockets.flush s)
flush (tls s) = within tls (Sockets.flush s)

unfoldable pub set_read_timeout : Option ℕ → Exec Stream (Unit {0})
set_read_timeout t (tcp s) = within tcp (Sockets.set_read_timeout t s)
set_read_timeout t (udp s) = within udp (Udp.set_read_timeout t s)
set_read_timeout t (unix s) = within unix (Sockets.set_read_timeout t s)
set_read_timeout t (tls s) = within tls (Sockets.set_read_timeout t s)

unfoldable pub set_write_timeout : Option ℕ → Exec Stream (Unit {0})
set_write_timeout t (tcp s) = within tcp (Sockets.set_write_timeout t s)
set_write_timeout t (udp s) = within udp (Udp.set_write_timeout t s)
set_write_timeout t (unix s) = within unix (Sockets.set_write_timeout t s)
set_write_timeout t (tls s) = within tls (Sockets.set_write_timeout t s)

-- Bounds on the rounds of the loops below: what is left to find, and the writes that are scripted.
unfoldable pub supply : Stream → ℕ
supply (tcp s) = Sockets.supply s.incoming
supply (udp s) = length s.read_buf
supply (unix s) = Sockets.supply s.incoming
supply (tls s) = Sockets.supply s.incoming

unfoldable pub write_supply : Stream → ℕ
write_supply (tcp s) = length s.write_events
write_supply (udp s) = 0
write_supply (unix s) = length s.write_events
write_supply (tls s) = length s.write_events

unfoldable pub is_interrupted : MemcacheError → Bool
is_interrupted (io_error interrupted) = true
is_interrupted _ = false

-- One round of `Read::read_exact`: an interrupted read is tried again, a read of nothing is the end.
read_more : (ℕ → Exec Stream Bytes) → ℕ → Outcome Bytes × Stream → Outcome Bytes × Stream
read_more again n (ok [], s) = (err (io_error unexpected_eof), s)
read_more again n (ok (b ∷ bs), s) =
    let (r, s') = again (n - length (b ∷ bs)) s in (map_ok (λ more. b ∷ (bs ++ more)) r, s')
read_more again n (err e, s) = let rest = again n s in if is_interrupted e then rest else (err e, s)
read_more again n (panic, s) = (panic, s)
read_more again n (stuck, s) = (stuck, s)

-- `Read::read_exact` into a buffer of `n` bytes, on fuel. It gives what the buffer then holds.
unfoldable pub read_exact_loop : ℕ → ℕ → Exec Stream Bytes
unfolding read_more is_interrupted
read_exact_loop zero n s = (stuck, s)
read_exact_loop (suc fuel) n s =
    let more = read_more (read_exact_loop fuel) n (read n s) in if n == 0 then (ok [], s) else more

unfoldable pub read_exact : ℕ → Exec Stream Bytes
read_exact n s = read_exact_loop (suc (n + supply s)) n s

-- One round of `Write::write_all`.
write_more :
    (Bytes → Exec Stream (Unit {0})) → Bytes → Outcome ℕ × Stream → Outcome (Unit {0}) × Stream
write_more again bs (ok zero, s) = (err (io_error write_zero), s)
write_more again bs (ok (suc n), s) = again (drop (suc n) bs) s
write_more again bs (err e, s) =
    let rest = again bs s in if is_interrupted e then rest else (err e, s)
write_more again bs (panic, s) = (panic, s)
write_more again bs (stuck, s) = (stuck, s)

unfoldable pub write_all_loop : ℕ → Bytes → Exec Stream (Unit {0})
unfolding write_more is_interrupted
write_all_loop zero bs s = (stuck, s)
write_all_loop (suc fuel) [] s = (ok tt, s)
write_all_loop (suc fuel) (b ∷ bs) s = write_more (write_all_loop fuel) (b ∷ bs) (write (b ∷ bs) s)

unfoldable pub write_all : Bytes → Exec Stream (Unit {0})
write_all bs s = write_all_loop (suc (length bs + write_supply s)) bs s

-- `write!`: each literal and each argument of the format is a `write_all`.
unfoldable pub write_fmt : List Bytes → Exec Stream (Unit {0})
write_fmt [] = pure tt
write_fmt (piece ∷ pieces) = write_all piece >> write_fmt pieces
