-- ===== src/Stream/Udp/Total.antt =====
-- Whatever the network does, the UDP `flush` ends.
use rust_memcache.Prelude.{
  ℕ, zero, suc, ◌+◌, ◌-◌, Bytes, List, [], ◌∷◌, ◌++◌, arith, Option, none, some, take, drop, ◌==◌,
  if◌then◌else◌, Option-cases, inl, inr,
}
use rust_memcache.Error.{IoError}
use rust_memcache.Outcome.{Outcome, ok, err, panic, stuck}
use rust_memcache.HashMap
use rust_memcache.HashMap.{key_ℕ}
use rust_memcache.Wire.{from_be}
use rust_memcache.Exec.Total.{IsDone}
use rust_memcache.Stream.Udp.{
  UdpSocket, UdpStream, DatagramEvent, datagram, fault, Datagrams, gather, append_datagrams,
  assembled, assemble, receive, send_event, flush,
}

gather-IsDone :
    (id remaining : ℕ) (got : Datagrams) (ds : List DatagramEvent)
    → IsDone (gather id remaining got ds).0
unfolding gather
gather-IsDone id remaining got [] = tt
gather-IsDone id remaining got (fault e ∷ ds) = tt
gather-IsDone id remaining got (datagram d ∷ ds) = ground (
  arith,
  gather-IsDone id remaining got ds,
  gather-IsDone id
      ((if remaining == 0 then from_be (take 2 (drop 4 (take 1400 d))) else remaining) - 1)
      (HashMap.insert (from_be (take 2 (drop 2 (take 1400 d)))) (drop 8 (take 1400 d)) got) ds,
)

append-IsDone : (n i : ℕ) (got : Datagrams) (buf : Bytes) → IsDone (append_datagrams n i got buf)
unfolding append_datagrams
append-IsDone zero i got buf = tt
append-IsDone (suc n) i got buf = elim (Option-cases (HashMap.get i got)) [
  | inl e ↦ rw (e, IsDone) tt
  | inr (v, e) ↦ rw (e, IsDone) (append-IsDone n (i + 1) got (buf ++ v))
]

assembled-IsDone : (o : Outcome Bytes) (k : UdpStream) → IsDone o → IsDone (assembled o k).0
unfolding assembled
assembled-IsDone (ok buf) k d = tt
assembled-IsDone (err e) k d = tt
assembled-IsDone panic k d = tt
assembled-IsDone stuck k d = d

assemble-IsDone : (o : Outcome (ℕ × Datagrams)) (k : UdpStream) → IsDone o → IsDone (assemble o k).0
unfolding assemble
assemble-IsDone (ok (total, got)) k d = assembled-IsDone _ k (append-IsDone total 0 got [])
assemble-IsDone (err e) k d = tt
assemble-IsDone panic k d = tt
assemble-IsDone stuck k d = d

receive-IsDone : (o : Outcome (Unit {0})) (k : UdpStream) → IsDone o → IsDone (receive o k).0
unfolding receive
receive-IsDone (ok u) k d = assemble-IsDone _ _ (gather-IsDone k.request_id 0 [] k.socket.arriving)
receive-IsDone (err e) k d = tt
receive-IsDone panic k d = tt
receive-IsDone stuck k d = d

send-IsDone :
    (bs : Bytes) (es : List (Option IoError)) (s : UdpSocket) → IsDone (send_event bs es s).0
unfolding send_event
send-IsDone bs [] s = tt
send-IsDone bs (none ∷ es) s = tt
send-IsDone bs (some e ∷ es) s = tt

pub flush-IsDone : (k : UdpStream) → IsDone (flush k).0
unfolding flush
flush-IsDone k = receive-IsDone _ _ (send-IsDone _ k.socket.send_events k.socket)
