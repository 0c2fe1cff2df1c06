-- ===== src/Client/Gets.antt =====
-- `Client::gets`: the keys are grouped by connection, and each connection is asked for its group.
use rust_memcache.Prelude.{ℕ, Bytes, List, [], ◌∷◌, ◌++◌, none, some}
use rust_memcache.Outcome
use rust_memcache.Outcome.{Outcome, ok, err, panic}
use rust_memcache.Exec.{Exec, pure, lift, ◌>>=◌, ◌>>◌}
use rust_memcache.HashMap
use rust_memcache.HashMap.{HashMap, key_ℕ, key_bytes}
use rust_memcache.Value.{FromMemcacheValueExt}
use rust_memcache.Protocol
use rust_memcache.Connection.{on_protocol}
use rust_memcache.Pool.{R2d2}
use rust_memcache.Client.{Client, check_key_len, connection_index, on_connection}

-- `con_keys: HashMap<usize, Vec<&str>>`
abbrev pub Groups : Type 0
Groups = HashMap ℕ (List Bytes)

unfoldable pub check_keys : List Bytes → Outcome (Unit {0})
unfolding check_key_len
check_keys [] = ok tt
check_keys (key ∷ keys) = Outcome.◌>>◌ (check_key_len key) (check_keys keys)

-- `entry(i).or_insert_with(Vec::new).push(key)`
unfoldable pub push_key : ℕ → Bytes → Groups → Groups
push_key i key groups = elim (HashMap.get i groups) [
  | none ↦ HashMap.insert i (key ∷ []) groups
  | some keys ↦ HashMap.insert i (keys ++ (key ∷ [])) groups
]

module _ {Pool : Type 0} (c : Client Pool) where
  -- The loop that fills `con_keys`.
  unfoldable pub group_keys : List Bytes → Groups → Outcome Groups
  unfolding connection_index push_key
  group_keys [] groups = ok groups
  group_keys (key ∷ keys) groups =
      Outcome.◌>>=◌ (connection_index c key) (λ i. group_keys keys (push_key i key groups))

module _ {Pool : Type 0} (r2d2 : R2d2 Pool) {V : Type 0} (from : FromMemcacheValueExt V) where
  -- The loop over `con_keys.iter()`.
  unfoldable pub gets_groups :
      List (ℕ × List Bytes) → HashMap Bytes V → Exec (Client Pool) (HashMap Bytes V)
  gets_groups [] result = pure result
  gets_groups ((i, keys) ∷ groups) result = do
    found ← on_connection r2d2 i (on_protocol (Protocol.gets from keys))
    gets_groups groups (HashMap.extend result found)

  -- `order` is the order in which the iterator gives the groups.
  unfoldable pub gets :
      (Groups → List (ℕ × List Bytes)) → List Bytes → Exec (Client Pool) (HashMap Bytes V)
  unfolding check_keys group_keys gets_groups
  gets order keys c =
      (do
        lift (check_keys keys)
        groups ← lift (group_keys c keys [])
        gets_groups (order groups) [])
        c
