-- ===== src/Calls/Session.antt =====
-- Sequences of calls on one connection with the binary protocol, against a server that answers requests.
use mathlib.Core.List.{map}
use rust_memcache.Prelude.{
  ℕ, zero, suc, ◌≡◌, refl, ap, ◌∙◌, Bytes, List, [], ◌∷◌, ◌++◌, append-nil, append_assoc, length,
  Option, none, some, All,
}
use rust_memcache.Outcome.{Outcome}
use rust_memcache.Stream.{Stream}
use rust_memcache.Stream.Exchange.{Ready}
use rust_memcache.Value.{FromMemcacheValueExt, bytes_value}
use rust_memcache.Packet.{Response}
use rust_memcache.Packet.RoundTrip.{IsResponse, response_bytes}
use rust_memcache.Binary.Requests.{Request, IsRequest, request_bytes}
use rust_memcache.Binary.Decode.{decode_request, decode-request_bytes}
use rust_memcache.Protocol.{Protocol, binary}
use rust_memcache.Calls.{Call, Reply, call_protocol}
use rust_memcache.Calls.Settling.{request_of, Carries, outcome_of, call-Settles}

module _ {W : Type 0} (from : FromMemcacheValueExt W) where
  unfoldable pub run_protocol : List (Call Bytes) → Protocol → List (Outcome (Reply W)) × Protocol
  run_protocol [] p = ([], p)
  run_protocol (call ∷ calls) p =
      let (r, p') = call_protocol bytes_value from call p in
      let (rs, p'') = run_protocol calls p' in (r ∷ rs, p'')

-- The requests of the calls, in their order.
abbrev pub asked : List (Call Bytes) → Bytes
asked [] = []
asked (call ∷ calls) = request_bytes (request_of call) ++ asked calls

-- As many requests as calls, read off the bytes by the lengths in their headers.
unfoldable pub decode_requests : ℕ → Bytes → Option (List Request)
decode_requests zero bs = some []
decode_requests (suc n) bs = elim (decode_request bs) [
  | none ↦ none
  | some (q, rest) ↦ elim (decode_requests n rest) [ none ↦ none | some qs ↦ some (q ∷ qs) ]
]

decode_requests-asked :
    (calls : List (Call Bytes))
    → All (λ call. IsRequest (request_of call)) calls
    → decode_requests (length calls) (asked calls) ≡ some (map request_of calls)
unfolding decode_requests
decode_requests-asked [] h = refl
decode_requests-asked (call ∷ calls) h =
    ap
      (λ (o : Option (Request × Bytes)). elim o as (λ _. Option (List Request)) [
        | none ↦ none
        | some (q, rest) ↦ elim (decode_requests (length calls) rest) [
          | none ↦ none
          | some qs ↦ some (q ∷ qs)
        ]
      ])
      (decode-request_bytes (request_of call) (asked calls) h.0)
    ∙ ap
        (λ (o : Option (List Request)). elim o as (λ _. Option (List Request)) [
          | none ↦ none
          | some qs ↦ some (request_of call ∷ qs)
        ])
        (decode_requests-asked calls h.1)

-- Calls that are over: their results, what was written to the stream, and what arrives on it still.
pub record Session {W : Type 0} (x : List (Outcome (Reply W)) × Protocol)
    (rs : List (Outcome (Reply W))) (calls : List (Call Bytes)) (w a : Bytes) : Type 0 where
  pub gives : x.0 ≡ rs
  pub stream : Stream
  pub stays : x.1 ≡ binary stream
  pub leaves : Ready stream (w ++ asked calls) a

-- A server is a function of its state and a request.
module _ {St : Type 0} (answer : St → Request → Response × St) where
  -- What arrives when the server answers the requests of the calls.
  abbrev pub answers : List (Call Bytes) → St → Bytes
  answers [] st = []
  answers (call ∷ calls) st =
      let (r, st') = answer st (request_of call) in response_bytes r ++ answers calls st'

  -- Each answer is a well formed response, and carries what its success must.
  abbrev pub Proper : List (Call Bytes) → St → Type 0
  Proper [] st = Unit
  Proper (call ∷ calls) st =
      IsResponse (answer st (request_of call)).0
      × Carries call (answer st (request_of call)).0
      × Proper calls (answer st (request_of call)).1

  module _ {W : Type 0} (from : FromMemcacheValueExt W) where
    -- The results when each call is a direct call of the server.
    abbrev pub direct :
        (calls : List (Call Bytes)) (st : St) → Proper calls st → List (Outcome (Reply W))
    direct [] st h = []
    direct (call ∷ calls) st h =
        outcome_of from call (answer st (request_of call)).0 h.1
        ∷ direct calls (answer st (request_of call)).1 h.2

    protocol-Session :
        (calls : List (Call Bytes)) (st : St) (h : Proper calls st) (p : Protocol) (s : Stream)
        (w a : Bytes)
        → p ≡ binary s
        → All (λ call. IsRequest (request_of call)) calls
        → Ready s w (answers calls st ++ a)
        → Session (run_protocol from calls p) (direct calls st h) calls w a
    unfolding run_protocol
    protocol-Session [] st h p s w a e q ready = record {
      gives = refl;
      stream = s;
      stays = e;
      leaves = rw (append-nil w) ready;
    }
    protocol-Session (call ∷ calls) st h p s w a e q ready =
        let r = (answer st (request_of call)).0 in
        let st' = (answer st (request_of call)).1 in
        let first =
          call-Settles from call r h.1 s w (answers calls st' ++ a) q.0 h.0
            (rw (append_assoc (response_bytes r) (answers calls st') a) at ready) in
        let p' = (call_protocol bytes_value from call (binary s)).1 in
        let more =
          protocol-Session calls st' h.2 p' first.stream (w ++ request_bytes (request_of call)) a
            first.stays q.1 first.leaves in
        rw e (record {
          gives =
              ap (λ o. o ∷ (run_protocol from calls p').0) first.gives
              ∙ ap (λ rs. outcome_of from call r h.1 ∷ rs) more.gives;
          stream = more.stream;
          stays = more.stays;
          leaves =
              rw (append_assoc w (request_bytes (request_of call)) (asked calls)) at more.leaves;
        })

    -- A server is any function of its state and a request. When its answers to a list of calls (get,
    -- set, add, replace, cas, append, prepend, delete, increment, decrement, touch) arrive on a ready
    -- socket, in chunks of any size and with anything behind them, the calls with the binary protocol
    -- on that connection give, one by one, the results of asking the server directly: each call gets
    -- the answer to its own request. What was written is exactly the requests of the calls, which are
    -- read back by the lengths in their headers, and what comes behind the answers is left. The
    -- requests fit the fields of their headers, each answer is a well formed response, and at status 0
    -- the answer to get has four bytes of flags and the answer to increment and decrement an eight byte
    -- number.
    pub run_protocol-Session :
        (calls : List (Call Bytes)) (st : St) (h : Proper calls st) (s : Stream) (w a : Bytes)
        → All (λ call. IsRequest (request_of call)) calls
        → Ready s w (answers calls st ++ a)
        → Session (run_protocol from calls (binary s)) (direct calls st h) calls w a
          × (decode_requests (length calls) (asked calls) ≡ some (map request_of calls))
    run_protocol-Session calls st h s w a q ready =
        (protocol-Session calls st h (binary s) s w a refl q ready, decode_requests-asked calls q)
