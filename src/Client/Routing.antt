-- ===== src/Client/Routing.antt =====
-- Which pool a call touches, and what it gives when it cannot reach one.
use rust_memcache.Prelude.{
  ℕ, ◌%◌, ◌≤◌, ◌<◌, ◌≡◌, ◌≢◌, refl, sym, ap, ◌∙◌, Bytes, false, List, [], ◌∷◌, Option, none, some,
  length, get_elem?, set_at, length-set_at, get_elem?-set_at_ne, ltb, lt→ltb, le→ltb, ◌==◌, arith,
  All, Bool-cases, inl, inr,
}
use rust_memcache.Error.{client_error, key_too_long, pool_error}
use rust_memcache.External.{External, good, bad, panics}
use rust_memcache.Outcome.{Outcome, err, panic}
use rust_memcache.Exec.{Exec, lift, ◌>>=◌}
use rust_memcache.Value.{ToMemcacheValue, FromMemcacheValueExt}
use rust_memcache.Protocol.{Protocol}
use rust_memcache.Connection.{Connection, on_protocol}
use rust_memcache.Pool.{R2d2, on_pool, use_guard}
use rust_memcache.Client.{
  Client, check_key_len, connection_index, run_at, on_connection, with_key, get, set, cas, add,
  replace, append, prepend, delete, increment, decrement, touch,
}
use rust_memcache.Calls.{Call, Reply, key_of, replies, call_protocol, call_client, run_client}

module _ {Pool : Type 0} (r2d2 : R2d2 Pool) {A : Type 0} (m : Exec Protocol A) where
  with_key-too_long :
      (key : Bytes) (c : Client Pool)
      → 250 < length key
      → with_key r2d2 key m c ≡ (err (client_error key_too_long), c)
  unfolding with_key lift ◌>>=◌ check_key_len
  with_key-too_long key c h = rw (lt→ltb 250 (length key) h) refl

  with_key-on_connection :
      (key : Bytes) (c : Client Pool)
      → length key ≤ 250
      → 0 < length c.connections
      → with_key r2d2 key m c
        ≡ on_connection r2d2 (c.hash_function key % length c.connections) (on_protocol m) c
  unfolding with_key lift ◌>>=◌ check_key_len connection_index
  with_key-on_connection key c h n =
      let e : (length c.connections == 0) ≡ false = ground arith in
      rw (le→ltb 250 (length key) h, e) refl

-- A reply can be made inside or outside of the checkout.
module _ {Pool : Type 0} (r2d2 : R2d2 Pool) {A W : Type 0} (f : A → Reply W)
    (m : Exec Protocol A) where
  use_guard-replies :
      (x : External Bytes Connection) (p : Pool)
      → replies f (use_guard r2d2 (on_protocol m) x) p
        ≡ use_guard r2d2 (on_protocol (replies f m)) x p
  unfolding use_guard on_protocol
  use_guard-replies (good k) p = refl
  use_guard-replies (bad e) p = refl
  use_guard-replies panics p = refl

  run_at-replies :
      (i : ℕ) (o : Option Pool) (c : Client Pool)
      → replies f (run_at r2d2 i (on_protocol m) o) c
        ≡ run_at r2d2 i (on_protocol (replies f m)) o c
  unfolding run_at on_pool
  run_at-replies i none c = refl
  run_at-replies i (some p) c =
      ap
        (λ (x : Outcome (Reply W) × Pool).
          (x.0, record c { connections = set_at i x.1 c.connections }))
        (use_guard-replies (r2d2.get p).0 (r2d2.get p).1)

  with_key-replies :
      (key : Bytes) (c : Client Pool)
      → replies f (with_key r2d2 key m) c ≡ with_key r2d2 key (replies f m) c
  unfolding with_key lift ◌>>=◌ check_key_len connection_index on_connection
  with_key-replies key c = elim (Bool-cases (ltb 250 (length key))) [
    | inl h ↦ rw h refl
    | inr h ↦ elim (Bool-cases (length c.connections == 0)) [
      | inl e ↦ rw (h, e) refl
      | inr e ↦
          rw (h, e)
            (run_at-replies (c.hash_function key % length c.connections)
              (get_elem? c.connections (c.hash_function key % length c.connections)) c)
    ]
  ]

-- The same servers and the same choice among them.
pub record Keeps {Pool : Type 0} (c c' : Client Pool) : Type 0 where
  pub servers : length c'.connections ≡ length c.connections
  pub hashing : c'.hash_function ≡ c.hash_function

module _ {Pool : Type 0} (r2d2 : R2d2 Pool) {A : Type 0} (m : Exec Connection A) where
  run_at-Keeps : (i : ℕ) (o : Option Pool) (c : Client Pool) → Keeps c (run_at r2d2 i m o c).1
  unfolding run_at
  run_at-Keeps i none c = record { servers = refl; hashing = refl }
  run_at-Keeps i (some p) c = record { servers = length-set_at i _ c.connections; hashing = refl }

  run_at-elsewhere :
      (i j : ℕ) (o : Option Pool) (c : Client Pool)
      → i ≢ j
      → get_elem? (run_at r2d2 i m o c).1.connections j ≡ get_elem? c.connections j
  unfolding run_at
  run_at-elsewhere i j none c h = refl
  run_at-elsewhere i j (some p) c h = get_elem?-set_at_ne i j _ c.connections h

-- All that a call with a key can do to the client.
with_key_cases {ℓ} :
    {Pool A : Type 0} (r2d2 : R2d2 Pool) (m : Exec Protocol A) (key : Bytes) (c : Client Pool)
    (P : Outcome A × Client Pool → Type ℓ)
    → P (err (client_error key_too_long), c)
    → P (panic, c)
    → P (on_connection r2d2 (c.hash_function key % length c.connections) (on_protocol m) c)
    → P (with_key r2d2 key m c)
unfolding with_key lift ◌>>=◌ check_key_len connection_index
with_key_cases r2d2 m key c P long empty found = elim (Bool-cases (ltb 250 (length key))) [
  | inl h ↦ rw h long
  | inr h ↦ elim (Bool-cases (length c.connections == 0)) [
    | inl e ↦ rw (h, e) empty
    | inr e ↦ rw (h, e) found
  ]
]

nonempty : {A : Type 0} (xs : List A) (i : ℕ) (a : A) → get_elem? xs i ≡ some a → 0 < length xs
nonempty [] i a e = cc
nonempty (x ∷ xs) i a e = omega arith

module _ {V W Pool : Type 0} (to : ToMemcacheValue V) (from : FromMemcacheValueExt W)
    (r2d2 : R2d2 Pool) where
  pub call_client-with_key :
      (call : Call V) (c : Client Pool)
      → call_client to from r2d2 call c ≡ with_key r2d2 (key_of call) (call_protocol to from call) c
  unfolding call_client call_protocol get set cas add replace append prepend delete increment
      decrement touch
  call_client-with_key (Call.get key) c = with_key-replies r2d2 Reply.value _ key c
  call_client-with_key (Call.set key v e) c = with_key-replies r2d2 Reply.done _ key c
  call_client-with_key (Call.add key v e) c = with_key-replies r2d2 Reply.done _ key c
  call_client-with_key (Call.replace key v e) c = with_key-replies r2d2 Reply.done _ key c
  call_client-with_key (Call.cas key v e id) c = with_key-replies r2d2 Reply.flag _ key c
  call_client-with_key (Call.append key v) c = with_key-replies r2d2 Reply.done _ key c
  call_client-with_key (Call.prepend key v) c = with_key-replies r2d2 Reply.done _ key c
  call_client-with_key (Call.delete key) c = with_key-replies r2d2 Reply.flag _ key c
  call_client-with_key (Call.increment key n) c = with_key-replies r2d2 Reply.count _ key c
  call_client-with_key (Call.decrement key n) c = with_key-replies r2d2 Reply.count _ key c
  call_client-with_key (Call.touch key e) c = with_key-replies r2d2 Reply.flag _ key c

  -- Each call of the client with a key of more than 250 bytes fails with the error for a key that is too
  -- long, and does nothing else: no connection is checked out and nothing is sent.
  pub long_key_refused :
      (call : Call V) (c : Client Pool)
      → 250 < length (key_of call)
      → call_client to from r2d2 call c ≡ (err (client_error key_too_long), c)
  long_key_refused call c h =
      call_client-with_key call c
      ∙ with_key-too_long r2d2 (call_protocol to from call) (key_of call) c h

  pub call-Keeps : (call : Call V) (c : Client Pool) → Keeps c (call_client to from r2d2 call c).1
  unfolding on_connection
  call-Keeps call c = rw (call_client-with_key call c) (
      with_key_cases r2d2 (call_protocol to from call) (key_of call) c (λ x. Keeps c x.1)
        (record { servers = refl; hashing = refl }) (record { servers = refl; hashing = refl })
        (run_at-Keeps r2d2 _ (c.hash_function (key_of call) % length c.connections) _ c))

  pub call-elsewhere :
      (call : Call V) (j : ℕ) (c : Client Pool)
      → c.hash_function (key_of call) % length c.connections ≢ j
      → get_elem? (call_client to from r2d2 call c).1.connections j ≡ get_elem? c.connections j
  unfolding on_connection
  call-elsewhere call j c h = rw (call_client-with_key call c) (
      with_key_cases r2d2 (call_protocol to from call) (key_of call) c
        (λ x. get_elem? x.1.connections j ≡ get_elem? c.connections j) refl refl
        (run_at-elsewhere r2d2 _ (c.hash_function (key_of call) % length c.connections) j _ c h))

  run_elsewhere :
      (calls : List (Call V)) (j n : ℕ) (hash : Bytes → ℕ) (c : Client Pool)
      → length c.connections ≡ n
      → c.hash_function ≡ hash
      → All (λ call. hash (key_of call) % n ≢ j) calls
      → (get_elem? (run_client to from r2d2 calls c).1.connections j ≡ get_elem? c.connections j)
        × Keeps c (run_client to from r2d2 calls c).1
  unfolding run_client
  run_elsewhere [] j n hash c e f h = (refl, record { servers = refl; hashing = refl })
  run_elsewhere (call ∷ calls) j n hash c e f h =
      let k = call-Keeps call c in
      let c' = (call_client to from r2d2 call c).1 in
      let (same, k') = run_elsewhere calls j n hash c' (k.servers ∙ e) (k.hashing ∙ f) h.1 in
      (
        same ∙ call-elsewhere call j c (rw (e, f) h.0),
        record { servers = k'.servers ∙ k.servers; hashing = k'.hashing ∙ k.hashing },
      )

  -- Whatever the pools and the servers do, calls of the client leave a pool as it is when no key of
  -- theirs hashes to its index, and the number of pools and the hash function never change.
  pub run_leaves_others :
      (calls : List (Call V)) (j : ℕ) (c : Client Pool)
      → All (λ call. c.hash_function (key_of call) % length c.connections ≢ j) calls
      → (get_elem? (run_client to from r2d2 calls c).1.connections j ≡ get_elem? c.connections j)
        × Keeps c (run_client to from r2d2 calls c).1
  run_leaves_others calls j c h =
      run_elsewhere calls j (length c.connections) c.hash_function c refl refl h

  -- The method on a connection that was checked out; the connection goes back to its pool.
  abbrev pub on_checkout : Call V → External Bytes Connection → Pool → Outcome (Reply W) × Pool
  on_checkout call (good k) p =
      let (r, protocol) = call_protocol to from call k.protocol in
      (r, r2d2.put (record k { protocol = protocol }) p)
  on_checkout call (bad e) p = (err (pool_error e), p)
  on_checkout call panics p = (panic, p)

  use_guard-on_checkout :
      (call : Call V) (x : External Bytes Connection) (p : Pool)
      → use_guard r2d2 (on_protocol (call_protocol to from call)) x p ≡ on_checkout call x p
  unfolding use_guard on_protocol
  use_guard-on_checkout call (good k) p = refl
  use_guard-on_checkout call (bad e) p = refl
  use_guard-on_checkout call panics p = refl

  -- A call of the client with a key of at most 250 bytes is the call of the protocol's method on a
  -- connection of the pool whose index is the hash of the key modulo the number of pools: the connection
  -- that the pool gives is used once and goes back to the pool with its new state, the client keeps the
  -- pool's new state in the same place, and nothing else of the client changes. When the pool gives no
  -- connection the call is a pool error. There is a pool at that index.
  pub call_on_pool :
      (call : Call V) (c : Client Pool) (i : ℕ) (p p' : Pool) (x : External Bytes Connection)
      → length (key_of call) ≤ 250
      → i ≡ c.hash_function (key_of call) % length c.connections
      → get_elem? c.connections i ≡ some p
      → r2d2.get p ≡ (x, p')
      → call_client to from r2d2 call c ≡ (
        (on_checkout call x p').0,
        record c { connections = set_at i (on_checkout call x p').1 c.connections },
      )
  unfolding on_connection run_at on_pool
  call_on_pool call c i p p' x h q e g =
      call_client-with_key call c
      ∙ with_key-on_connection r2d2 (call_protocol to from call) (key_of call) c h
          (nonempty c.connections i p e)
      ∙ ap (λ j. on_connection r2d2 j (on_protocol (call_protocol to from call)) c) (sym q)
      ∙ ap (λ o. run_at r2d2 i (on_protocol (call_protocol to from call)) o c) e
      ∙ ap
          (λ (y : Outcome (Reply W) × Pool).
            (y.0, record c { connections = set_at i y.1 c.connections }))
          (ap (λ y. use_guard r2d2 (on_protocol (call_protocol to from call)) y.0 y.1) g
            ∙ use_guard-on_checkout call x p')
