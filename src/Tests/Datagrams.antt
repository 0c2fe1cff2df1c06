-- ===== src/Tests/Datagrams.antt =====
-- Examples for calls over UDP.
use rust_memcache.Prelude.{
  ℕ, zero, suc, ◌<◌, ◌≤◌, ◌≡◌, refl, ap, sym, ◌∙◌, Bytes, bytes, true, List, [], ◌∷◌, ◌++◌,
  append-nil, take, drop, take-append-drop, none, arith, length,
}
use rust_memcache.Outcome.{ok}
use rust_memcache.Wire.{to_be}
use rust_memcache.Stream.Udp.{UdpStream}
use rust_memcache.Stream.Udp.Reassembly.{packets, elem}
use rust_memcache.Stream.Datagrams.{Arrives, answered}
use rust_memcache.Packet.{Response, opcode_u8}
use rust_memcache.Packet.RoundTrip.{IsResponse, response_bytes, header_bytes}
use rust_memcache.Binary.Requests.{IsRequest, request_bytes}
use rust_memcache.Value.{bytes_value, from_bytes, without_cas}
use rust_memcache.Protocol.{binary}
use rust_memcache.Stream.{udp}
use rust_memcache.Calls.{Call, Reply, call_protocol}
use rust_memcache.Calls.Settling.{request_of}
use rust_memcache.Calls.Udp.{OverUdp, call-OverUdp}
use rust_memcache.Tests.Channels.{reply, reply-IsResponse}

abbrev deleted : Response
deleted = reply 4 0 0 [] [] []

deleted-IsResponse : IsResponse deleted
deleted-IsResponse =
    reply-IsResponse 4 0 0 [] [] [] (omega arith) (omega arith) (omega arith) (omega arith)
      (omega arith) (omega arith)

-- The first 9 bytes, and the others.
abbrev half : ℕ → Bytes
half zero = take 9 (response_bytes deleted)
half (suc i) = drop 9 (response_bytes deleted)

half_short : (i : ℕ) → length (half i) ≤ 1392
unfolding response_bytes header_bytes to_be
half_short zero = omega arith
half_short (suc i) = omega arith

-- The second datagram arrives first.
abbrev order : List ℕ
order = 1 ∷ 0 ∷ []

abbrev stream : UdpStream
stream = record {
  socket = record {
    arriving = packets 7 2 half order [];
    sent = [];
    send_events = [];
    read_timeout = none;
    write_timeout = none;
  };
  read_buf = [];
  write_buf = [];
  request_id = 7;
}

order-elem : (i : ℕ) → i < 2 → elem i order ≡ true
unfolding elem
order-elem i h = ground arith

halves : half 0 ++ (half 1 ++ []) ≡ response_bytes deleted ++ []
halves =
    ap (λ l. half 0 ++ l) (append-nil (half 1))
    ∙ take-append-drop 9 (response_bytes deleted)
    ∙ sym (append-nil (response_bytes deleted))

abbrev arrives : Arrives stream (response_bytes deleted ++ [])
arrives = record {
  number = 2;
  part = half;
  order = order;
  later = [];
  id_fits = omega arith;
  number_fits = omega arith;
  short = half_short;
  some_part = omega arith;
  each = refl;
  none_else = omega arith;
  no_gap = order-elem;
  sends = refl;
  arriving = refl;
  whole = halves;
}

abbrev asks : Call Bytes
asks = Call.delete (bytes "k")

asks-IsRequest : IsRequest (request_of asks)
unfolding opcode_u8
asks-IsRequest = record {
  opcode = omega arith;
  cas = omega arith;
  key = omega arith;
  extras = omega arith;
  body = omega arith;
}

call-OverUdp_example :
    OverUdp
      (without_cas from_bytes)
      (call_protocol bytes_value (without_cas from_bytes) asks (binary (udp stream)))
      (ok (Reply.flag true))
      (record (answered stream
        (response_bytes deleted ++ [])
        arrives
        ([] ++ request_bytes (request_of asks))) { read_buf = [] })
call-OverUdp_example =
    call-OverUdp (without_cas from_bytes) asks deleted tt stream [] arrives asks-IsRequest
      deleted-IsResponse
