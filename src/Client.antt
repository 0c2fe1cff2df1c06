-- ===== src/Client.antt =====
-- src/client.rs: the client has a pool for each server, and a hash function that picks one by the key.
-- `hash_function` gives a `u64`, which a `usize` of 64 bits holds. `DefaultHasher` is a parameter.
pub mod Gets
pub mod Routing
pub mod Refusals
pub mod Building
pub mod Looping
pub mod NoServers
pub mod Grouping
pub mod Builder
pub mod Total
use rust_memcache.Prelude.{
  ℕ, zero, ◌+◌, ◌%◌, Bytes, bytes, Bool, List, [], ◌∷◌, ◌++◌, Option, none, some, ltb, ◌==◌, length,
  get_elem?, set_at, if◌then◌else◌,
}
use rust_memcache.Error.{client_error, key_too_long}
use rust_memcache.Outcome.{Outcome, ok, err, panic, stuck, map_ok}
use rust_memcache.Exec
use rust_memcache.Exec.{Exec, pure, lift, ◌>>=◌, ◌>>◌}
use rust_memcache.HashMap.{HashMap}
use rust_memcache.Value.{ToMemcacheValue, FromMemcacheValueExt}
use rust_memcache.Packet.{Stats}
use rust_memcache.Protocol
use rust_memcache.Protocol.{Protocol}
use rust_memcache.Connection.{Connection, on_protocol}
use rust_memcache.Pool.{R2d2, on_pool}

pub record Client (Pool : Type 0) : Type 0 where
  pub connections : List Pool
  pub hash_function : Bytes → ℕ

unfoldable pub check_key_len : Bytes → Outcome (Unit {0})
check_key_len key = if ltb 250 (length key) then err (client_error key_too_long) else ok tt

-- `with_pool` and `with_pools`
unfoldable pub with_pools : {Pool : Type 0} → (Bytes → ℕ) → List Pool → Client Pool
with_pools default_hash pools = record { connections = pools; hash_function = default_hash }

unfoldable pub with_pool : {Pool : Type 0} → (Bytes → ℕ) → Pool → Client Pool
with_pool default_hash pool = record { connections = pool ∷ []; hash_function = default_hash }

-- The index of the pool that `get_connection` takes. A remainder by zero is a panic.
unfoldable pub connection_index : {Pool : Type 0} → Client Pool → Bytes → Outcome ℕ
connection_index c key =
    if length c.connections == 0 then panic else ok (c.hash_function key % length c.connections)

module _ {Pool : Type 0} (r2d2 : R2d2 Pool) where
  module _ {A : Type 0} where
    -- The method runs on the pool that was found at `i`. Indexing out of bounds is a panic.
    unfoldable pub run_at : ℕ → Exec Connection A → Option Pool → Exec (Client Pool) A
    run_at i m none c = (panic, c)
    run_at i m (some p) c =
        let (r, p') = on_pool r2d2 m p in (r, record c { connections = set_at i p' c.connections })

    -- `self.connections[i].get()?.method(..)`
    unfoldable pub on_connection : ℕ → Exec Connection A → Exec (Client Pool) A
    unfolding run_at
    on_connection i m c = run_at i m (get_elem? c.connections i) c

    -- `check_key_len(key)?; self.get_connection(key).get()?.method(..)`
    unfoldable pub with_key : Bytes → Exec Protocol A → Exec (Client Pool) A
    unfolding check_key_len connection_index on_connection
    with_key key m c =
        (do
          lift (check_key_len key)
          i ← lift (connection_index c key)
          on_connection i (on_protocol m))
          c

  module _ {V : Type 0} (from : FromMemcacheValueExt V) where
    unfoldable pub get : Bytes → Exec (Client Pool) (Option V)
    get key = with_key key (Protocol.get from key)

  module _ {V : Type 0} (to : ToMemcacheValue V) where
    unfoldable pub set : Bytes → V → ℕ → Exec (Client Pool) (Unit {0})
    set key value expiration = with_key key (Protocol.set to key value expiration)

    unfoldable pub cas : Bytes → V → ℕ → ℕ → Exec (Client Pool) Bool
    cas key value expiration id = with_key key (Protocol.cas to key value expiration id)

    unfoldable pub add : Bytes → V → ℕ → Exec (Client Pool) (Unit {0})
    add key value expiration = with_key key (Protocol.add to key value expiration)

    unfoldable pub replace : Bytes → V → ℕ → Exec (Client Pool) (Unit {0})
    replace key value expiration = with_key key (Protocol.replace to key value expiration)

    unfoldable pub append : Bytes → V → Exec (Client Pool) (Unit {0})
    append key value = with_key key (Protocol.append to key value)

    unfoldable pub prepend : Bytes → V → Exec (Client Pool) (Unit {0})
    prepend key value = with_key key (Protocol.prepend to key value)

  unfoldable pub delete : Bytes → Exec (Client Pool) Bool
  delete key = with_key key (Protocol.delete key)

  unfoldable pub increment : Bytes → ℕ → Exec (Client Pool) ℕ
  increment key amount = with_key key (Protocol.increment key amount)

  unfoldable pub decrement : Bytes → ℕ → Exec (Client Pool) ℕ
  decrement key amount = with_key key (Protocol.decrement key amount)

  unfoldable pub touch : Bytes → ℕ → Exec (Client Pool) Bool
  touch key expiration = with_key key (Protocol.touch key expiration)

  module _ {A : Type 0} (m : Exec Connection A) where
    -- What a loop over the connections makes of the method's result on the first of them.
    unfoldable pub and_rest :
        Outcome A × Pool → List Pool → Outcome (List A) × List Pool → Outcome (List A) × List Pool
    and_rest (ok a, p) ps (r, ps') = (map_ok (λ more. a ∷ more) r, p ∷ ps')
    and_rest (err e, p) ps rest = (err e, p ∷ ps)
    and_rest (panic, p) ps rest = (panic, p ∷ ps)
    and_rest (stuck, p) ps rest = (stuck, p ∷ ps)

    -- `for connection in self.connections.iter()`; the first failure ends the loop.
    unfoldable pub each_pool : List Pool → Outcome (List A) × List Pool
    unfolding and_rest
    each_pool [] = (ok [], [])
    each_pool (p ∷ ps) = and_rest (on_pool r2d2 m p) ps (each_pool ps)

    unfoldable pub each_connection : Exec (Client Pool) (List A)
    unfolding each_pool
    each_connection c = let (r, ps) = each_pool c.connections in (r, record c { connections = ps })

  unfoldable pub set_read_timeout : Option ℕ → Exec (Client Pool) (Unit {0})
  set_read_timeout timeout =
      each_connection (on_protocol (Protocol.set_read_timeout timeout)) >> pure tt

  unfoldable pub set_write_timeout : Option ℕ → Exec (Client Pool) (Unit {0})
  set_write_timeout timeout =
      each_connection (on_protocol (Protocol.set_write_timeout timeout)) >> pure tt

  -- The result of a method, behind the connection's url.
  unfoldable pub with_url : {A : Type 0} → Exec Protocol A → Exec Connection (Bytes × A)
  with_url m k = let (r, k') = on_protocol m k in (map_ok (λ a. (k.url, a)) r, k')

  unfoldable pub version : Exec (Client Pool) (List (Bytes × Bytes))
  version = each_connection (with_url Protocol.version)

  unfoldable pub flush : Exec (Client Pool) (Unit {0})
  flush = each_connection (on_protocol Protocol.flush) >> pure tt

  unfoldable pub flush_with_delay : ℕ → Exec (Client Pool) (Unit {0})
  flush_with_delay delay =
      each_connection (on_protocol (Protocol.flush_with_delay delay)) >> pure tt

  unfoldable pub stats : Exec (Client Pool) (List (Bytes × Stats))
  stats = each_connection (with_url Protocol.stats)
