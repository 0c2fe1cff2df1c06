-- ===== src/Stream/Udp.antt =====
-- src/stream/udp_stream.rs: requests and responses in datagrams.
pub mod Reassembly
pub mod RequestId
pub mod Total
use rust_memcache.Prelude.{
  ℕ, zero, suc, ◌+◌, ◌-◌, ◌%◌, ◌^◌, Bytes, bytes, not, List, [], ◌∷◌, ◌++◌, Option, none, some, ltb,
  ◌==◌, length, take, drop, if◌then◌else◌,
}
use rust_memcache.Error.{IoError, other, would_block, invalid_input, io_error}
use rust_memcache.Outcome.{Outcome, ok, err, panic, stuck}
use rust_memcache.Exec.{Exec}
use rust_memcache.Wire.{to_be, from_be}
use rust_memcache.HashMap
use rust_memcache.HashMap.{HashMap, key_ℕ}

-- What the following receives of the socket find.
pub data DatagramEvent : Type 0 where
  datagram : Bytes → DatagramEvent
  fault : IoError → DatagramEvent

-- `std::net::UdpSocket`: `arriving` and `send_events` are what the network does, `sent` what it was given.
pub record UdpSocket : Type 0 where
  pub arriving : List DatagramEvent
  pub sent : List Bytes
  pub send_events : List (Option IoError)
  pub read_timeout : Option ℕ
  pub write_timeout : Option ℕ

pub record UdpStream : Type 0 where
  pub socket : UdpSocket
  pub read_buf : Bytes
  pub write_buf : Bytes
  pub request_id : ℕ

-- `UdpStream::new`, with the socket that is bound and connected, and the random number.
unfoldable pub new : UdpSocket → ℕ → UdpStream
new socket random = record {
  socket = socket;
  read_buf = [];
  write_buf = [];
  request_id = random % 2 ^ 16;
}

-- `impl Read for UdpStream`
unfoldable pub read : ℕ → Exec UdpStream Bytes
read n s =
    let buf_len = if ltb (length s.read_buf) n then length s.read_buf else n in
    (ok (take buf_len s.read_buf), record s { read_buf = drop buf_len s.read_buf })

-- `impl Write for UdpStream`
unfoldable pub write : Bytes → Exec UdpStream ℕ
write bs s = (ok (length bs), record s { write_buf = s.write_buf ++ bs })

-- `UdpSocket::send`
send_event : Bytes → List (Option IoError) → Exec UdpSocket (Unit {0})
send_event bs [] k = (ok tt, record k { sent = k.sent ++ (bs ∷ []) })
send_event bs (none ∷ es) k = (ok tt, record k { sent = k.sent ++ (bs ∷ []); send_events = es })
send_event bs (some e ∷ es) k = (err (io_error e), record k { send_events = es })

abbrev pub Datagrams : Type 0
Datagrams = HashMap ℕ Bytes

-- The receive loop of `flush`. It recurs on what still arrives; `remaining` is `remaining_datagrams` and
-- `got` is `response_datagrams`. It gives `total_datagrams` and `response_datagrams`. The buffer has
-- 1400 bytes: `recv` drops what is longer. `remaining -= 1` panics at 0.
gather : ℕ → ℕ → Datagrams → List DatagramEvent → Outcome (ℕ × Datagrams) × List DatagramEvent
gather id remaining got [] = (err (io_error would_block), [])
gather id remaining got (fault e ∷ ds) = (err (io_error e), ds)
gather id remaining got (datagram d ∷ ds) =
    let buf = take 1400 d in
    let total = from_be (take 2 (drop 4 buf)) in
    let left = if remaining == 0 then total else remaining in
    let got' = HashMap.insert (from_be (take 2 (drop 2 buf))) (drop 8 buf) got in
    let skip = gather id remaining got ds in
    let again = gather id (left - 1) got' ds in
    if ltb (length buf) 8
    then (err (io_error (other (bytes "Invalid UDP header received"))), ds)
    else if not (id == from_be (take 2 buf))
    then skip
    else if left == 0
    then (panic, ds)
    else if left - 1 == 0
    then (ok (total, got'), ds)
    else again

-- `for i in 0..total_datagrams { self.read_buf.append(&mut response_datagrams[&i].clone()) }`: `n` rounds
-- from `i` on. Indexing a map panics on a key that it lacks.
append_datagrams : ℕ → ℕ → Datagrams → Bytes → Outcome Bytes
append_datagrams zero i got buf = ok buf
append_datagrams (suc n) i got buf = elim (HashMap.get i got) [
  | none ↦ panic
  | some v ↦ append_datagrams n (i + 1) got (buf ++ v)
]

unfoldable pub udp_header : ℕ → Bytes
udp_header id = to_be 2 id ++ (to_be 2 0 ++ (to_be 2 1 ++ to_be 2 0))

-- The end of `flush`: the response can be read, and the request id moves on.
assembled : Outcome Bytes → Exec UdpStream (Unit {0})
assembled (ok buf) s = (ok tt, record s { read_buf = buf; request_id = s.request_id % 65535 + 1 })
assembled (err e) s = (err e, s)
assembled panic s = (panic, s)
assembled stuck s = (stuck, s)

-- The datagrams are put together when all are there.
assemble : Outcome (ℕ × Datagrams) → Exec UdpStream (Unit {0})
assemble (err e) s = (err e, s)
assemble panic s = (panic, s)
assemble stuck s = (stuck, s)
assemble (ok (total, got)) s = assembled (append_datagrams total 0 got []) s

-- What `flush` does after `send`, with the socket as the send left it.
receive : Outcome (Unit {0}) → Exec UdpStream (Unit {0})
unfolding gather assemble append_datagrams assembled
receive (ok _) s =
    let (r, ds) = gather s.request_id 0 [] s.socket.arriving in
    assemble r
      (record s { socket = record s.socket { arriving = ds }; read_buf = []; write_buf = [] })
receive (err e) s = (err e, s)
receive panic s = (panic, s)
receive stuck s = (stuck, s)

-- `flush` of `impl Write for UdpStream`
unfoldable pub flush : Exec UdpStream (Unit {0})
unfolding receive send_event udp_header
flush s =
    let buf = udp_header s.request_id ++ s.write_buf in
    let (r, k) = send_event buf s.socket.send_events s.socket in
    receive r (record s { socket = k; write_buf = buf })

unfoldable pub set_read_timeout : Option ℕ → Exec UdpStream (Unit {0})
set_read_timeout (some zero) s = (err (io_error invalid_input), s)
set_read_timeout t s = (ok tt, record s { socket = record s.socket { read_timeout = t } })

unfoldable pub set_write_timeout : Option ℕ → Exec UdpStream (Unit {0})
set_write_timeout (some zero) s = (err (io_error invalid_input), s)
set_write_timeout t s = (ok tt, record s { socket = record s.socket { write_timeout = t } })
