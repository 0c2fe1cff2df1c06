-- ===== src/Client/NoServers.antt =====
-- A client that is made of an empty list of servers.
use rust_memcache.Prelude.{
  ℕ, ◌≡◌, refl, ◌∙◌, Bytes, bytes, [], Option, if◌then◌else◌, length, ltb, Bool-cases, inl, inr,
}
use rust_memcache.Error.{client_error, key_too_long, bad_url}
use rust_memcache.External.{External}
use rust_memcache.Outcome.{Outcome, ok, err, panic}
use rust_memcache.Exec
use rust_memcache.Exec.{Exec}
use rust_memcache.Value.{ToMemcacheValue, FromMemcacheValueExt}
use rust_memcache.Url.{Url}
use rust_memcache.Protocol.{Protocol}
use rust_memcache.Pool.{R2d2}
use rust_memcache.Calls.{Call, key_of, call_protocol, call_client}
use rust_memcache.Client.{Client, check_key_len, connection_index, with_key}
use rust_memcache.Client.Builder.{Connectable, add_server, connect, sized_pools, with_pool_size}
use rust_memcache.Client.Routing.{call_client-with_key}

-- The remainder by zero comes behind the check of the key.
abbrev pub no_server_outcome : {A : Type 0} → Bytes → Outcome A
no_server_outcome key = if ltb 250 (length key) then err (client_error key_too_long) else panic

module _ {Pool A : Type 0} (r2d2 : R2d2 Pool) (m : Exec Protocol A) where
  with_key-no_server :
      (key : Bytes) (hash : Bytes → ℕ)
      → with_key r2d2 key m (record { connections = []; hash_function = hash })
        ≡ (no_server_outcome key, record { connections = []; hash_function = hash })
  unfolding with_key Exec.lift Exec.◌>>=◌ check_key_len connection_index
  with_key-no_server key hash = elim (Bool-cases (ltb 250 (length key))) [
    | inl h ↦ rw h refl
    | inr h ↦ rw h refl
  ]

module _ {V W Pool C : Type 0} (to : ToMemcacheValue V) (from : FromMemcacheValueExt W)
    (r2d2 : R2d2 Pool) (parse_url : Bytes → External Bytes Url)
    (seconds : Bytes → Option (Outcome ℕ)) (connectable : Connectable C) where
  connect-refused :
      (hash : Bytes → ℕ) (target : C)
      → connectable.get_urls target ≡ []
      → connect r2d2 parse_url hash connectable target
        ≡ err (bad_url (bytes "No servers specified"))
  unfolding connect add_server
  connect-refused hash target e = rw (connect, add_server, e) refl

  with_pool_size-empty :
      (hash : Bytes → ℕ) (target : C) (size : ℕ)
      → connectable.get_urls target ≡ []
      → with_pool_size r2d2 parse_url seconds hash connectable target size
        ≡ ok (record { connections = []; hash_function = hash })
  unfolding with_pool_size sized_pools
  with_pool_size-empty hash target size e = rw e refl

  -- For servers without a url, `Client::connect` fails as it has no servers, but `with_pool_size`
  -- succeeds and gives a client on which each call with a key fails and leaves the client as it is: with
  -- the error for a key that is too long when it has more than 250 bytes, and with a panic for every
  -- other key.
  pub empty_list_panics :
      (hash : Bytes → ℕ) (target : C) (size : ℕ) (call : Call V)
      → connectable.get_urls target ≡ []
      → (connect r2d2 parse_url hash connectable target
          ≡ err (bad_url (bytes "No servers specified")))
        × (c : Client Pool) × (with_pool_size r2d2 parse_url seconds hash connectable target size
            ≡ ok c)
        × (call_client to from r2d2 call c ≡ (no_server_outcome (key_of call), c))
  empty_list_panics hash target size call e = (
    connect-refused hash target e,
    record { connections = []; hash_function = hash },
    with_pool_size-empty hash target size e,
    call_client-with_key to from r2d2 call _
        ∙ with_key-no_server r2d2 (call_protocol to from call) (key_of call) hash,
  )
