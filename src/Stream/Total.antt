-- ===== src/Stream/Total.antt =====
-- Whatever the network does, each method of a stream ends. A read gives what its buffer holds at most.
use rust_memcache.Prelude.{ℕ, Bytes, List, [], ◌∷◌, Option, none, some, arith}
use rust_memcache.Error.{IoError}
use rust_memcache.HashMap.{key_ℕ}
use rust_memcache.Exec.Total.{IsDone, ne-IsDone, Total, Total-pure, Total-bind}
use rust_memcache.Stream.{
  Stream, tcp, udp, unix, tls, write, flush, set_read_timeout, set_write_timeout, write_all,
  write_fmt, read_exact,
}
use rust_memcache.Stream.Sockets
use rust_memcache.Stream.Sockets.{Socket, ReadEvent, WriteEvent, chunk, accept}
use rust_memcache.Stream.Udp
use rust_memcache.Stream.Udp.{UdpStream, DatagramEvent, datagram, Datagrams}
use rust_memcache.Stream.Udp.Total.{flush-IsDone as udp_done}
use rust_memcache.Stream.Termination.{read_exact-ne-stuck, write_all-ne-stuck}

-- Any stream.
abbrev pub Whatever : Stream → Type 0
Whatever s = Unit

pub Total-read_exact : (n : ℕ) → Total Whatever (read_exact n)
Total-read_exact n = record {
  at = λ s h. record { done = ne-IsDone _ (read_exact-ne-stuck n s); keeps = tt };
}

pub Total-write_all : (bs : Bytes) → Total Whatever (write_all bs)
Total-write_all bs = record {
  at = λ s h. record { done = ne-IsDone _ (write_all-ne-stuck bs s); keeps = tt };
}

pub Total-write_fmt : (pieces : List Bytes) → Total Whatever (write_fmt pieces)
unfolding write_fmt
Total-write_fmt [] = Total-pure tt
Total-write_fmt (piece ∷ pieces) = Total-bind (Total-write_all piece) (λ _. Total-write_fmt pieces)

socket_write-IsDone :
    (bs : Bytes) (ws : List WriteEvent) (k : Socket) → IsDone (Sockets.write_event bs ws k).0
unfolding Sockets.write_event
socket_write-IsDone bs [] k = tt
socket_write-IsDone bs (accept n ∷ ws) k = tt
socket_write-IsDone bs (WriteEvent.fault e ∷ ws) k = tt

write-IsDone : (bs : Bytes) (s : Stream) → IsDone (write bs s).0
unfolding write Sockets.write Udp.write
write-IsDone bs (tcp k) = socket_write-IsDone bs k.write_events k
write-IsDone bs (udp k) = tt
write-IsDone bs (unix k) = socket_write-IsDone bs k.write_events k
write-IsDone bs (tls k) = socket_write-IsDone bs k.write_events k

pub Total-write : (bs : Bytes) → Total Whatever (write bs)
Total-write bs = record { at = λ s h. record { done = write-IsDone bs s; keeps = tt } }

socket_flush-IsDone :
    (fs : List (Option IoError)) (k : Socket) → IsDone (Sockets.flush_event fs k).0
unfolding Sockets.flush_event
socket_flush-IsDone [] k = tt
socket_flush-IsDone (none ∷ fs) k = tt
socket_flush-IsDone (some e ∷ fs) k = tt

flush-IsDone : (s : Stream) → IsDone (flush s).0
unfolding flush Sockets.flush
flush-IsDone (tcp k) = socket_flush-IsDone k.flush_events k
flush-IsDone (udp k) = udp_done k
flush-IsDone (unix k) = socket_flush-IsDone k.flush_events k
flush-IsDone (tls k) = socket_flush-IsDone k.flush_events k

pub Total-flush : Total Whatever flush
Total-flush = record { at = λ s h. record { done = flush-IsDone s; keeps = tt } }

set_read_timeout-IsDone : (t : Option ℕ) (s : Stream) → IsDone (set_read_timeout t s).0
unfolding set_read_timeout Sockets.set_read_timeout Udp.set_read_timeout
set_read_timeout-IsDone t s = ground arith

pub Total-set_read_timeout : (t : Option ℕ) → Total Whatever (set_read_timeout t)
Total-set_read_timeout t = record {
  at = λ s h. record { done = set_read_timeout-IsDone t s; keeps = tt };
}

set_write_timeout-IsDone : (t : Option ℕ) (s : Stream) → IsDone (set_write_timeout t s).0
unfolding set_write_timeout Sockets.set_write_timeout Udp.set_write_timeout
set_write_timeout-IsDone t s = ground arith

pub Total-set_write_timeout : (t : Option ℕ) → Total Whatever (set_write_timeout t)
Total-set_write_timeout t = record {
  at = λ s h. record { done = set_write_timeout-IsDone t s; keeps = tt };
}
