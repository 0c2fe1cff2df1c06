-- ===== src/Stream/Udp/RequestId.antt =====
-- The request id of the UDP stream.
use rust_memcache.Prelude.{ℕ, ◌+◌, ◌%◌, ◌^◌, ◌<◌, Bytes, [], ◌++◌, arith}
use rust_memcache.Outcome.{Outcome, ok, err, panic, stuck}
use rust_memcache.Stream.Udp.{
  UdpStream, Datagrams, send_event, assemble, assembled, udp_header, append_datagrams, receive,
  flush,
}

-- The request id is a `u16` other than 0.
abbrev pub IsRequestId : ℕ → Type 0
IsRequestId id = (0 < id) × (id < 2 ^ 16)

next-IsRequestId : (id : ℕ) → IsRequestId (id % 65535 + 1)
next-IsRequestId id = omega arith

assembled-IsRequestId :
    (o : Outcome Bytes) (s : UdpStream)
    → IsRequestId s.request_id
    → IsRequestId (assembled o s).1.request_id
unfolding assembled
assembled-IsRequestId (ok buf) s h = next-IsRequestId s.request_id
assembled-IsRequestId (err e) s h = h
assembled-IsRequestId panic s h = h
assembled-IsRequestId stuck s h = h

assemble-IsRequestId :
    (o : Outcome (ℕ × Datagrams)) (s : UdpStream)
    → IsRequestId s.request_id
    → IsRequestId (assemble o s).1.request_id
unfolding assemble
assemble-IsRequestId (err e) s h = h
assemble-IsRequestId panic s h = h
assemble-IsRequestId stuck s h = h
assemble-IsRequestId (ok (total, got)) s h =
    assembled-IsRequestId (append_datagrams total 0 got []) s h

receive-IsRequestId :
    (o : Outcome Unit) (s : UdpStream)
    → IsRequestId s.request_id
    → IsRequestId (receive o s).1.request_id
unfolding receive
receive-IsRequestId (ok x) s h = assemble-IsRequestId _ _ h
receive-IsRequestId (err e) s h = h
receive-IsRequestId panic s h = h
receive-IsRequestId stuck s h = h

-- Whatever the network does, the request id of the UDP stream stays between 1 and 65535 over a `flush`: it
-- never becomes 0 and never overflows.
pub flush-IsRequestId :
    (s : UdpStream) → IsRequestId s.request_id → IsRequestId (flush s).1.request_id
unfolding flush
flush-IsRequestId s h =
    let buf = udp_header s.request_id ++ s.write_buf in
    let sent = send_event buf s.socket.send_events s.socket in
    receive-IsRequestId sent.0 (record s { socket = sent.1; write_buf = buf }) h
