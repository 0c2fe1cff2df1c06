-- ===== src/Tests/Binary.antt =====
-- Examples for the binary protocol.
use rust_memcache.Prelude.{◌≡◌, refl, Bytes, bytes, [], ◌∷◌, ◌++◌, some, none, arith}
use mathlib.Core.List.{flatten, map}
use rust_memcache.Error.{command_error, server_error, bad_response, command_error_from, key_exists}
use rust_memcache.Outcome.{ok, err}
use rust_memcache.Exec.Talks.{Ends}
use rust_memcache.HashMap
use rust_memcache.HashMap.{key_bytes}
use rust_memcache.Stream.Exchange.{Ready}
use rust_memcache.Stream.Exact.{Talks-write_all}
use rust_memcache.Value.{bytes_value, from_bytes, without_cas}
use rust_memcache.Packet.{Opcode, Response, parse_response}
use rust_memcache.Packet.RoundTrip.{IsResponse, response_bytes, parse_response_lem}
use rust_memcache.Binary
use rust_memcache.Binary.Requests.{request_bytes, plain}
use rust_memcache.Binary.Framing.{store-decode_request}
use rust_memcache.Binary.Decode.{decode_request}
use rust_memcache.Binary.Storing.{store_request, store_exchange, prepend_exchange}
use rust_memcache.Binary.Exchange.{auth_request, auth_exchange}
use rust_memcache.Binary.Gets.{gets_requests, gets_exchange, gets_too_many}
use rust_memcache.Tests.Hits.{flags_5, hit_of, last_reply, last_reply-IsLast, foo-IsHit}
use rust_memcache.Tests.Channels.{tcp_with, tcp-Ready, reply, reply-IsResponse}

abbrev done : Response
done = reply 1 0 7 [] [] []

done-IsResponse : IsResponse done
done-IsResponse =
    reply-IsResponse 1 0 7 [] [] [] (omega arith) (omega arith) (omega arith) (omega arith)
      (omega arith) (omega arith)

-- Status 2: the key exists.
abbrev refused : Response
refused = reply 1 2 0 [] [] (bytes "Data exists for key.")

refused-IsResponse : IsResponse refused
refused-IsResponse =
    reply-IsResponse 1 2 0 [] [] (bytes "Data exists for key.") (omega arith) (omega arith)
      (omega arith) (omega arith) (omega arith) (omega arith)

store_exchange_example :
    Ends Ready
      (Binary.store bytes_value Opcode.add
        (bytes "foo")
        (bytes "bar")
        10
        none
        (tcp_with (response_bytes refused ++ (0 ∷ []))))
      (err (command_error key_exists))
      ([] ++ request_bytes (store_request Opcode.add 0 10 (bytes "foo") (bytes "bar") 0))
      (0 ∷ [])
unfolding command_error_from
store_exchange_example =
    store_exchange bytes_value (bytes "bar") (bytes "bar") (Talks-write_all (bytes "bar")) refl
      Opcode.add (bytes "foo") 10 none refused (tcp_with (response_bytes refused ++ (0 ∷ []))) []
      (0 ∷ []) (omega arith) (omega arith) refused-IsResponse
      (tcp-Ready (response_bytes refused ++ (0 ∷ [])))

prepend_exchange_example :
    Ends Ready
      (Binary.prepend bytes_value
        (bytes "foo")
        (bytes "bar")
        (tcp_with (response_bytes refused ++ [])))
      (ok tt)
      ([] ++ request_bytes (record (plain Opcode.prepend (bytes "foo")) { value = bytes "bar" }))
      []
prepend_exchange_example =
    prepend_exchange bytes_value (bytes "bar") (bytes "bar") (Talks-write_all (bytes "bar")) refl
      (bytes "foo") refused (tcp_with (response_bytes refused ++ [])) [] [] (omega arith)
      (omega arith) refused-IsResponse (tcp-Ready (response_bytes refused ++ []))

abbrev hit : Response
hit = reply 0 0 9 flags_5 [] (bytes "bar")

hit-IsResponse : IsResponse hit
hit-IsResponse =
    reply-IsResponse 0 0 9 flags_5 [] (bytes "bar") (omega arith) (omega arith) (omega arith)
      (omega arith) (omega arith) (omega arith)

auth_exchange_example :
    Ends Ready
      (Binary.auth (bytes "user") (bytes "secret") (tcp_with (response_bytes done ++ [])))
      (ok tt)
      ([] ++ request_bytes (auth_request (bytes "user") (bytes "secret")))
      []
auth_exchange_example =
    auth_exchange (bytes "user") (bytes "secret") done (tcp_with (response_bytes done ++ [])) [] []
      (omega arith) done-IsResponse (tcp-Ready (response_bytes done ++ []))

parse_response_lem_example :
    Ends Ready (parse_response (tcp_with (response_bytes hit ++ (7 ∷ [])))) (ok hit) [] (7 ∷ [])
parse_response_lem_example =
    parse_response_lem hit (tcp_with (response_bytes hit ++ (7 ∷ []))) [] (7 ∷ []) hit-IsResponse
      (tcp-Ready (response_bytes hit ++ (7 ∷ [])))

store-decode_request_example :
    (text : Bytes) × Ends Ready
      (Binary.store bytes_value Opcode.set
        (bytes "foo")
        (bytes "bar")
        10
        (some 42)
        (tcp_with (response_bytes done ++ [])))
      (ok tt)
      ([] ++ text)
      []
    × (decode_request (text ++ (1 ∷ []))
        ≡ some (store_request Opcode.set 0 10 (bytes "foo") (bytes "bar") 42, 1 ∷ []))
store-decode_request_example =
    store-decode_request bytes_value (bytes "bar") (bytes "bar") (Talks-write_all (bytes "bar"))
      refl Opcode.set (bytes "foo") 10 (some 42) done (tcp_with (response_bytes done ++ [])) [] []
      (1 ∷ []) (omega arith) (omega arith) (omega arith) done-IsResponse
      (tcp-Ready (response_bytes done ++ []))

abbrev answers : Bytes
answers =
    (flatten (map response_bytes (hit_of (bytes "foo") (bytes "bar") ∷ []))
      ++ response_bytes last_reply)
    ++ []

gets_exchange_example :
    Ends Ready
      (Binary.gets (without_cas from_bytes) (bytes "a" ∷ bytes "foo" ∷ []) (tcp_with answers))
      (ok (HashMap.extend [] ((bytes "foo", bytes "bar") ∷ [])))
      ([] ++ gets_requests (bytes "a" ∷ bytes "foo" ∷ []))
      []
gets_exchange_example =
    gets_exchange (without_cas from_bytes) (bytes "a" ∷ bytes "foo" ∷ [])
      (hit_of (bytes "foo") (bytes "bar") ∷ []) ((bytes "foo", bytes "bar") ∷ []) last_reply
      (tcp_with answers) [] [] (omega arith) (foo-IsHit, tt) last_reply-IsLast (omega arith)
      (tcp-Ready answers)

abbrev flood : Bytes
flood = flatten (map response_bytes (hit_of (bytes "foo") (bytes "bar") ∷ [])) ++ []

gets_too_many_example :
    Ends Ready
      (Binary.gets (without_cas from_bytes) [] (tcp_with flood))
      (err (server_error (bad_response (bytes "Expected end of gets response"))))
      ([] ++ gets_requests [])
      []
gets_too_many_example =
    gets_too_many (without_cas from_bytes) [] (hit_of (bytes "foo") (bytes "bar") ∷ [])
      ((bytes "foo", bytes "bar") ∷ []) (tcp_with flood) [] [] (omega arith) (foo-IsHit, tt)
      (omega arith) (tcp-Ready flood)
