-- ===== src/Tests/Streams.antt =====
-- Examples for the streams.
use rust_memcache.Prelude.{
  ℕ, zero, suc, ◌<◌, ◌≤◌, ◌≡◌, refl, Bytes, bytes, true, false, List, [], ◌∷◌, ◌++◌, none, arith,
  length,
}
use rust_memcache.Outcome.{ok, panic}
use rust_memcache.Stream.Udp.{UdpStream, udp_header, flush}
use rust_memcache.Stream.Udp.RequestId.{IsRequestId, flush-IsRequestId}
use rust_memcache.Stream.Udp.Reassembly.{
  packets, parts, elem, flush_reassembles, flush_panics_on_duplicate,
}
use rust_memcache.Text.Decimal.{to_decimal}
use rust_memcache.Value.{from_bytes, without_cas}
use rust_memcache.Ascii
use rust_memcache.Ascii.{get, gets, increment, decrement, join_spaces}
use rust_memcache.Ascii.Commands.{crlf}
use rust_memcache.Ascii.Silence.{SendsNothing, unflushed_udp}

-- A response of two datagrams.
abbrev part : ℕ → Bytes
part zero = bytes "VALUE"
part (suc i) = bytes " foo"

part_short : (i : ℕ) → length (part i) ≤ 1392
part_short zero = omega arith
part_short (suc i) = omega arith

abbrev udp_stream : List ℕ → UdpStream
udp_stream order = record {
  socket = record {
    arriving = packets 65535 2 part order [];
    sent = [];
    send_events = [];
    read_timeout = none;
    write_timeout = none;
  };
  read_buf = [];
  write_buf = bytes "get foo\r\n";
  request_id = 65535;
}

abbrev out_of_order : List ℕ
out_of_order = 1 ∷ 0 ∷ []

elem_lem : (i : ℕ) → i < 2 → elem i out_of_order ≡ true
unfolding elem
elem_lem i h = ground arith

flush_reassembles_example : flush (udp_stream out_of_order) ≡ (
  ok tt,
  record (udp_stream []) {
    socket = record (udp_stream []).socket {
      sent = [] ++ ((udp_header 65535 ++ bytes "get foo\r\n") ∷ []);
    };
    read_buf = parts 65535 2 part 2 0;
    write_buf = [];
    request_id = 1;
  },
)
flush_reassembles_example =
    flush_reassembles 65535 2 part out_of_order (udp_stream out_of_order) [] refl (omega arith)
      (omega arith) part_short (omega arith) refl (omega arith) elem_lem refl refl

lacks : elem 1 (0 ∷ 0 ∷ []) ≡ false
unfolding elem
lacks = refl

flush_panics_on_duplicate_example : (flush (udp_stream (0 ∷ 0 ∷ []))).0 ≡ panic
flush_panics_on_duplicate_example =
    flush_panics_on_duplicate 65535 2 part (0 ∷ 0 ∷ []) 1 (udp_stream (0 ∷ 0 ∷ [])) [] refl
      (omega arith) (omega arith) part_short refl (omega arith) (omega arith) lacks refl refl

flush-IsRequestId_example : IsRequestId (flush (udp_stream out_of_order)).1.request_id
flush-IsRequestId_example = flush-IsRequestId (udp_stream out_of_order) (omega arith)

unflushed_udp_example :
    SendsNothing
      (get (without_cas from_bytes) (bytes "foo"))
      (udp_stream [])
      (bytes "get " ∷ bytes "foo" ∷ crlf ∷ [])
    × SendsNothing
        (gets (without_cas from_bytes) (bytes "a" ∷ []))
        (udp_stream [])
        (bytes "gets " ∷ join_spaces (bytes "a" ∷ []) ∷ crlf ∷ [])
    × SendsNothing
        (increment (bytes "foo") 2)
        (udp_stream [])
        (bytes "incr " ∷ bytes "foo" ∷ bytes " " ∷ to_decimal 2 ∷ crlf ∷ [])
    × SendsNothing
        (decrement (bytes "foo") 2)
        (udp_stream [])
        (bytes "decr " ∷ bytes "foo" ∷ bytes " " ∷ to_decimal 2 ∷ crlf ∷ [])
    × SendsNothing Ascii.flush (udp_stream []) (bytes "flush_all\r\n" ∷ [])
unflushed_udp_example =
    unflushed_udp (without_cas from_bytes) (bytes "foo") (bytes "a" ∷ []) 2 (udp_stream []) refl
