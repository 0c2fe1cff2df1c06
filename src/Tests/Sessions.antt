-- ===== src/Tests/Sessions.antt =====
-- Examples for sequences of calls on one connection.
use rust_memcache.Prelude.{
  ℕ, ◌≡◌, refl, Bytes, bytes, List, [], ◌∷◌, ◌++◌, length, none, some, arith, if◌then◌else◌, ◌==◌,
}
use mathlib.Core.List.{map}
use rust_memcache.Outcome.{ok}
use rust_memcache.Wire.{to_be}
use rust_memcache.Value.{bytes_value, from_bytes, without_cas}
use rust_memcache.Packet.{Response, opcode_u8}
use rust_memcache.Packet.RoundTrip.{IsResponse}
use rust_memcache.External.{good, panics}
use rust_memcache.Protocol.{binary}
use rust_memcache.Connection.{Connection}
use rust_memcache.Pool.{R2d2}
use rust_memcache.Client.{Client}
use rust_memcache.Calls.Servers.{results_of, run_client-direct}
use rust_memcache.Tests.Clients.{connection_with}
use rust_memcache.Binary.Requests.{Request, IsRequest}
use rust_memcache.Calls.{Call, Reply, run_client}
use rust_memcache.Calls.Settling.{request_of}
use rust_memcache.Calls.Session.{
  asked, answers, run_protocol, Session, run_protocol-Session, decode_requests,
}
use rust_memcache.Tests.Channels.{tcp_with, tcp-Ready, reply, reply-IsResponse}

-- A server whose increment (5) makes its state 2, and which answers any other request with a value and its
-- state as cas id.
abbrev one_counter : ℕ → Request → Response × ℕ
one_counter n q =
    if q.opcode == 5
    then (reply 5 0 0 [] [] (to_be 8 2), 2)
    else (reply 0 0 n (to_be 4 0) [] (bytes "v"), n)

abbrev two_calls : List (Call Bytes)
two_calls = Call.increment (bytes "n") 2 ∷ Call.get (bytes "n") ∷ []

counted-IsResponse : IsResponse (reply 5 0 0 [] [] (to_be 8 2))
unfolding to_be
counted-IsResponse =
    reply-IsResponse 5 0 0 [] [] (to_be 8 2) (omega arith) (omega arith) (omega arith) (omega arith)
      (omega arith) (omega arith)

read-IsResponse : IsResponse (reply 0 0 2 (to_be 4 0) [] (bytes "v"))
unfolding to_be
read-IsResponse =
    reply-IsResponse 0 0 2 (to_be 4 0) [] (bytes "v") (omega arith) (omega arith) (omega arith)
      (omega arith) (omega arith) (omega arith)

asks-IsRequest : IsRequest (request_of (Call.increment (bytes "n") 2))
unfolding to_be opcode_u8
asks-IsRequest = record {
  opcode = omega arith;
  cas = omega arith;
  key = omega arith;
  extras = omega arith;
  body = omega arith;
}

reads-IsRequest : IsRequest (request_of (Call.get (bytes "n")))
unfolding opcode_u8
reads-IsRequest = record {
  opcode = omega arith;
  cas = omega arith;
  key = omega arith;
  extras = omega arith;
  body = omega arith;
}

run_protocol-Session_example :
    Session
      (run_protocol
        (without_cas from_bytes)
        two_calls
        (binary (tcp_with (answers one_counter two_calls 0 ++ []))))
      (ok (Reply.count 2) ∷ ok (Reply.value (some (bytes "v"))) ∷ [])
      two_calls
      []
      []
    × (decode_requests 2 (asked two_calls) ≡ some (map request_of two_calls))
unfolding opcode_u8
run_protocol-Session_example =
    run_protocol-Session one_counter (without_cas from_bytes) two_calls 0
      (
        counted-IsResponse,
        (2, omega arith, λ e. refl),
        (read-IsResponse, (0, omega arith, λ e. refl), tt),
      )
      (tcp_with (answers one_counter two_calls 0 ++ [])) [] []
      (asks-IsRequest, (reads-IsRequest, tt)) (tcp-Ready (answers one_counter two_calls 0 ++ []))

-- Pools of the connections that were put back.
abbrev pub stack : R2d2 (List Connection)
stack = record {
  builder = record { max_size = 1; min_idle = none; max_lifetime = none; connection_timeout = 30 };
  build = λ settings manager. good [];
  get = λ p. elim p [ [] ↦ (panics, []) | k ∷ ks ↦ (good k, ks) ];
  put = λ k ks. k ∷ ks;
}

-- The second server has the counter. There is no connection to the first.
abbrev counting : Connection
counting = connection_with (answers one_counter two_calls 0 ++ [])

abbrev two_servers : Client (List Connection)
two_servers = record { connections = [] ∷ (counting ∷ []) ∷ []; hash_function = λ key. length key }

abbrev three_calls : List (Call Bytes)
three_calls = Call.increment (bytes "n") 2 ∷ Call.get (bytes "ab") ∷ Call.get (bytes "n") ∷ []

run_client-direct_example :
    results_of
      (λ key. length key)
      2
      1
      three_calls
      (run_client bytes_value (without_cas from_bytes) stack three_calls two_servers).0
    ≡ ok (Reply.count 2) ∷ ok (Reply.value (some (bytes "v"))) ∷ []
unfolding opcode_u8
run_client-direct_example =
    run_client-direct stack (without_cas from_bytes) one_counter three_calls two_servers 1 counting
      (tcp_with (answers one_counter two_calls 0 ++ [])) [] [] 0
      (
        counted-IsResponse,
        (2, omega arith, λ e. refl),
        (read-IsResponse, (0, omega arith, λ e. refl), tt),
      )
      (λ k ks. refl) (record { rest = []; here = refl }) refl (omega arith, (omega arith, tt))
      (asks-IsRequest, (reads-IsRequest, tt)) (tcp-Ready (answers one_counter two_calls 0 ++ []))
