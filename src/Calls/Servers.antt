-- ===== src/Calls/Servers.antt =====
-- A client with several servers: each server gets the calls whose keys hash to it, in their order.
use rust_memcache.Prelude.{
  ℕ, ◌%◌, ◌≤◌, ◌≡◌, ◌≢◌, refl, sym, ap, ◌∙◌, Bytes, List, [], ◌∷◌, ◌++◌, some, length, get_elem?,
  get_elem?-set_at_self, get_elem?-lt, ◌==◌, ==_iff, if◌then◌else◌, All, Bool-cases, inl, inr,
}
use rust_memcache.External.{good}
use rust_memcache.Outcome.{Outcome}
use rust_memcache.Stream.{Stream}
use rust_memcache.Stream.Exchange.{Ready}
use rust_memcache.Value.{FromMemcacheValueExt, bytes_value}
use rust_memcache.Packet.{Response}
use rust_memcache.Protocol.{binary}
use rust_memcache.Connection.{Connection}
use rust_memcache.Pool.{R2d2}
use rust_memcache.Client.{Client}
use rust_memcache.Client.Routing.{call-Keeps, call-elsewhere, call_on_pool}
use rust_memcache.Binary.Requests.{Request, IsRequest}
use rust_memcache.Calls.{Call, Reply, key_of, call_protocol, call_client, run_client}
use rust_memcache.Calls.Settling.{request_of}
use rust_memcache.Calls.Session.{run_protocol, answers, Proper, direct, run_protocol-Session}

-- The server of a call among `n`.
abbrev pub server_of : (Bytes → ℕ) → ℕ → Call Bytes → ℕ
server_of hash n call = hash (key_of call) % n

-- The calls for the server `i`, and the results of these calls.
abbrev pub calls_of : (Bytes → ℕ) → ℕ → ℕ → List (Call Bytes) → List (Call Bytes)
calls_of hash n i [] = []
calls_of hash n i (call ∷ calls) =
    if server_of hash n call == i then call ∷ calls_of hash n i calls else calls_of hash n i calls

abbrev pub results_of : {R : Type 0} → (Bytes → ℕ) → ℕ → ℕ → List (Call Bytes) → List R → List R
results_of hash n i [] rs = []
results_of hash n i (call ∷ calls) [] = []
results_of hash n i (call ∷ calls) (r ∷ rs) =
    if server_of hash n call == i
    then r ∷ results_of hash n i calls rs
    else results_of hash n i calls rs

-- The pool gives the connection that was put back last, as it was. A pool of one connection that is set not
-- to test its connections when they are checked out does so; `with_pools` takes such pools.
abbrev pub GivesBack : {Pool : Type 0} → R2d2 Pool → Type 0
GivesBack {Pool} r2d2 = (k : Connection) (p : Pool) → r2d2.get (r2d2.put k p) ≡ (good k, p)

module _ {Pool W : Type 0} (r2d2 : R2d2 Pool) (from : FromMemcacheValueExt W) where
  -- The pool at `i` has the connection `k` to give.
  pub record Holds (c : Client Pool) (i : ℕ) (k : Connection) : Type 0 where
    pub rest : Pool
    pub here : get_elem? c.connections i ≡ some (r2d2.put k rest)

  abbrev after : Call Bytes → Connection → Connection
  after call k = record k { protocol = (call_protocol bytes_value from call k.protocol).1 }

  call_here :
      (call : Call Bytes) (c : Client Pool) (i : ℕ) (k : Connection)
      → GivesBack r2d2
      → length (key_of call) ≤ 250
      → i ≡ server_of c.hash_function (length c.connections) call
      → Holds c i k
      → ((call_client bytes_value from r2d2 call c).0
          ≡ (call_protocol bytes_value from call k.protocol).0)
        × Holds (call_client bytes_value from r2d2 call c).1 i (after call k)
  call_here call c i k law l q h =
      let e =
        call_on_pool bytes_value from r2d2 call c i (r2d2.put k h.rest) h.rest (good k) l q h.here
          (law k h.rest) in
      (
        ap (λ x. x.0) e,
        record {
          rest = h.rest;
          here =
              ap (λ x. get_elem? x.1.connections i) e
              ∙ get_elem?-set_at_self i _ c.connections (get_elem?-lt i c.connections _ h.here);
        },
      )

  call_elsewhere :
      (call : Call Bytes) (c : Client Pool) (i : ℕ) (k : Connection)
      → server_of c.hash_function (length c.connections) call ≢ i
      → Holds c i k
      → Holds (call_client bytes_value from r2d2 call c).1 i k
  call_elsewhere call c i k ne h = record {
    rest = h.rest;
    here = call-elsewhere bytes_value from r2d2 call i c ne ∙ h.here;
  }

  -- The results of the calls for the server `i`, and the connection to it in the end.
  pub record Serves (calls : List (Call Bytes)) (i : ℕ) (hash : Bytes → ℕ) (n : ℕ) (k : Connection)
      (x : List (Outcome (Reply W)) × Client Pool) : Type 0 where
    pub results :
        results_of hash n i calls x.0 ≡ (run_protocol from (calls_of hash n i calls) k.protocol).0
    pub holds :
        Holds x.1 i
          (record k { protocol = (run_protocol from (calls_of hash n i calls) k.protocol).1 })

  pub calls-Serves :
      (calls : List (Call Bytes)) (c : Client Pool) (i : ℕ) (k : Connection) (hash : Bytes → ℕ)
      (n : ℕ)
      → GivesBack r2d2
      → length c.connections ≡ n
      → c.hash_function ≡ hash
      → All (λ call. length (key_of call) ≤ 250) (calls_of hash n i calls)
      → Holds c i k
      → Serves calls i hash n k (run_client bytes_value from r2d2 calls c)
  unfolding run_client run_protocol
  calls-Serves [] c i k hash n law e f short h = record { results = refl; holds = h }
  calls-Serves (call ∷ calls) c i k hash n law e f short h =
      let c' = (call_client bytes_value from r2d2 call c).1 in
      let kept = call-Keeps bytes_value from r2d2 call c in
      elim (Bool-cases (server_of hash n call == i)) [
        | inl t ↦
            let short' = rw t at short in
            let (first, h') =
              call_here call c i k law short'.0
                (rw (e, f) (sym ((==_iff (server_of hash n call) i).0 t))) h in
            let more =
              calls-Serves calls c' i (after call k) hash n law (kept.servers ∙ e)
                (kept.hashing ∙ f) short'.1 h' in
            record {
              results = rw t (
                  ap
                    (λ r.
                      r ∷ results_of hash n i calls (run_client bytes_value from r2d2 calls c').0)
                    first
                  ∙ ap (λ rs. (call_protocol bytes_value from call k.protocol).0 ∷ rs)
                      more.results);
              holds = rw t more.holds;
            }
        | inr t ↦
            let ne : server_of c.hash_function (length c.connections) call ≢ i =
              rw (e, f) (λ z. let g = (==_iff (server_of hash n call) i).1 z in cc) in
            let more =
              calls-Serves calls c' i k hash n law (kept.servers ∙ e) (kept.hashing ∙ f)
                (rw t at short) (call_elsewhere call c i k ne h) in
            record { results = rw t more.results; holds = rw t more.holds }
      ]

  module _ {St : Type 0} (answer : St → Request → Response × St) where
    -- A client has several servers, each with a pool that gives the connection that was put back last,
    -- as it was. For any list of calls with keys and for each server, the results of the calls whose
    -- keys hash to that server are, in their order, the results of asking it directly for these calls
    -- alone, whatever the other pools and servers do. The server is a function of its state and a
    -- request; its connection runs the binary protocol on a ready stream, on which its answers to these
    -- calls arrive, in chunks of any size; the keys of these calls have at most 250 bytes, their
    -- requests fit the fields of their headers, each answer is a well formed response, and at status 0
    -- the answer to get has four bytes of flags and the answer to increment and decrement an eight byte
    -- number.
    pub run_client-direct :
        (calls : List (Call Bytes)) (c : Client Pool) (i : ℕ) (k : Connection) (s : Stream)
        (w a : Bytes) (st : St)
        (h : Proper answer (calls_of c.hash_function (length c.connections) i calls) st)
        → GivesBack r2d2
        → Holds c i k
        → k.protocol ≡ binary s
        → All
            (λ call. length (key_of call) ≤ 250)
            (calls_of c.hash_function (length c.connections) i calls)
        → All
            (λ call. IsRequest (request_of call))
            (calls_of c.hash_function (length c.connections) i calls)
        → Ready s w
            (answers answer (calls_of c.hash_function (length c.connections) i calls) st ++ a)
        → results_of c.hash_function
            (length c.connections)
            i
            calls
            (run_client bytes_value from r2d2 calls c).0
          ≡ direct answer from (calls_of c.hash_function (length c.connections) i calls) st h
    run_client-direct calls c i k s w a st h law holds p short q ready =
        let mine = calls_of c.hash_function (length c.connections) i calls in
        (calls-Serves calls c i k c.hash_function (length c.connections) law refl refl short
          holds).results
        ∙ ap (λ t. (run_protocol from mine t).0) p
        ∙ (run_protocol-Session answer from mine st h s w a q ready).0.gives
