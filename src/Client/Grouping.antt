-- ===== src/Client/Grouping.antt =====
-- How `gets` shares its keys out among the connections, and what it makes of their answers.
use rust_memcache.Prelude.{
  ℕ, ◌%◌, ◌≤◌, ◌<◌, ◌≡◌, ◌≢◌, refl, sym, ap, ◌∙◌, Bytes, false, List, [], ◌∷◌, ◌++◌, append_assoc,
  append-nil, Option, none, some, length, get_elem?, set_at, get_elem?-set_at_ne, ltb, lt→ltb,
  le→ltb, ◌==◌, ==_iff, if◌then◌else◌, arith, All, Bool-cases, inl, inr,
}
use rust_memcache.Error.{client_error, key_too_long}
use rust_memcache.External.{External, good}
use rust_memcache.Outcome.{Outcome, ok, err}
use rust_memcache.Exec.{pure, lift, ◌>>=◌}
use rust_memcache.HashMap
use rust_memcache.HashMap.{HashMap, key_ℕ, key_bytes, get-insert}
use rust_memcache.Value.{FromMemcacheValueExt}
use rust_memcache.Protocol
use rust_memcache.Connection.{Connection, on_protocol}
use rust_memcache.Pool.{R2d2, on_pool, use_guard}
use rust_memcache.Client.{Client, check_key_len, connection_index, on_connection, run_at}
use rust_memcache.Client.Gets.{Groups, check_keys, push_key, group_keys, gets_groups, gets}

-- The entries have different keys.
abbrev pub Distinct : {A : Type 0} → List (ℕ × A) → Type 0
Distinct [] = Unit
Distinct {A} ((i, a) ∷ m) = All (λ (e : ℕ × A). i ≢ e.0) m × Distinct m

-- What stands in a group after more keys.
abbrev pub joined : Option (List Bytes) → List Bytes → Option (List Bytes)
joined none [] = none
joined none (key ∷ keys) = some (key ∷ keys)
joined (some old) keys = some (old ++ keys)

joined-cons :
    (o : Option (List Bytes)) (key : Bytes) (keys : List Bytes)
    → joined (joined o (key ∷ [])) keys ≡ joined o (key ∷ keys)
joined-cons none key keys = refl
joined-cons (some old) key keys = ap some (append_assoc old (key ∷ []) keys)

joined-nil : (o : Option (List Bytes)) → joined o [] ≡ o
joined-nil none = refl
joined-nil (some old) = ap some (append-nil old)

push_as :
    (i : ℕ) (key : Bytes) (groups : Groups) (o : Option (List Bytes))
    → HashMap.get i groups ≡ o
    → (v : List Bytes) × (push_key i key groups ≡ HashMap.insert i v groups)
      × (joined o (key ∷ []) ≡ some v)
unfolding push_key
push_as i key groups none e = (key ∷ [], rw (e, push_key) refl, refl)
push_as i key groups (some old) e = (old ++ (key ∷ []), rw (e, push_key) refl, refl)

get-push_key :
    (i j : ℕ) (key : Bytes) (groups : Groups)
    → HashMap.get j (push_key i key groups)
      ≡ (if i == j then joined (HashMap.get j groups) (key ∷ []) else HashMap.get j groups)
get-push_key i j key groups =
    let (v, p, q) = push_as i key groups (HashMap.get i groups) refl in
    rw (p, get-insert i j v groups)
      (elim (Bool-cases (i == j)) [
        | inl e ↦
            rw e (sym q ∙ ap (λ k. joined (HashMap.get k groups) (key ∷ [])) ((==_iff i j).0 e))
        | inr e ↦ rw e refl
      ])

module _ {Pool : Type 0} (c : Client Pool) where
  -- The keys that belong to the connection `i`.
  abbrev pub keys_of : ℕ → List Bytes → List Bytes
  keys_of i [] = []
  keys_of i (key ∷ keys) =
      if c.hash_function key % length c.connections == i
      then key ∷ keys_of i keys
      else keys_of i keys

  group_keys-joined :
      (keys : List Bytes) (groups : Groups)
      → 0 < length c.connections
      → (filled : Groups) × (group_keys c keys groups ≡ ok filled)
        × ((i : ℕ) → HashMap.get i filled ≡ joined (HashMap.get i groups) (keys_of i keys))
  unfolding group_keys connection_index
  group_keys-joined [] groups h = (groups, refl, λ i. sym (joined-nil (HashMap.get i groups)))
  group_keys-joined (key ∷ keys) groups h =
      let e : (length c.connections == 0) ≡ false = ground arith in
      let n = c.hash_function key % length c.connections in
      let (filled, p, q) = group_keys-joined keys (push_key n key groups) h in
      (
        filled,
        rw e p,
        λ i.
            q i
            ∙ rw (get-push_key n i key groups) (elim (Bool-cases (n == i)) [
              | inl t ↦ rw t (joined-cons (HashMap.get i groups) key (keys_of i keys))
              | inr f ↦ rw f refl
            ]),
      )

  -- With at least one connection, the grouping of the keys of `gets` succeeds, and the group of each
  -- connection is exactly the keys whose hash modulo the number of connections is its index, in their
  -- order and as often as they occur; a connection with no key has no group.
  pub group_keys_lem :
      (keys : List Bytes)
      → 0 < length c.connections
      → (filled : Groups) × (group_keys c keys [] ≡ ok filled)
        × ((i : ℕ) → HashMap.get i filled ≡ joined none (keys_of i keys))
  unfolding HashMap.get
  group_keys_lem keys h = group_keys-joined keys [] h

-- The answers, each over those before it.
abbrev pub merged : {V : Type 0} → HashMap Bytes V → List (HashMap Bytes V) → HashMap Bytes V
merged result [] = result
merged result (found ∷ founds) = merged (HashMap.extend result found) founds

module _ {Pool : Type 0} (r2d2 : R2d2 Pool) {V : Type 0} (from : FromMemcacheValueExt V) where
  -- The connection `i` can be had, and answers `gets` of the keys.
  pub record Answers (c : Client Pool) (i : ℕ) (keys : List Bytes) (found : HashMap Bytes V)
      : Type 0 where
    pub pool : Pool
    pub rest : Pool
    pub connection : Connection
    pub stands : get_elem? c.connections i ≡ some pool
    pub checked_out : r2d2.get pool ≡ (good connection, rest)
    pub gives : (Protocol.gets from keys connection.protocol).0 ≡ ok found

  abbrev pub AllAnswer : Client Pool → List (ℕ × List Bytes) → List (HashMap Bytes V) → Type 0
  AllAnswer c [] [] = Unit
  AllAnswer c [] (found ∷ founds) = ⊥
  AllAnswer c (group ∷ groups) [] = ⊥
  AllAnswer c ((i, keys) ∷ groups) (found ∷ founds) =
      Answers c i keys found × AllAnswer c groups founds

  run_at-gives :
      (c : Client Pool) (i : ℕ) (keys : List Bytes) (found : HashMap Bytes V)
      → Answers c i keys found
      → (p : Pool) × (on_connection r2d2 i (on_protocol (Protocol.gets from keys)) c
          ≡ (ok found, record c { connections = set_at i p c.connections }))
  unfolding on_connection run_at on_pool use_guard on_protocol
  run_at-gives c i keys found h =
      let k' = Protocol.gets from keys h.connection.protocol in
      let back = r2d2.put (record h.connection { protocol = k'.1 }) h.rest in
      (
        back,
        ap (λ o. run_at r2d2 i (on_protocol (Protocol.gets from keys)) o c) h.stands
            ∙ ap
                (λ (y : External Bytes Connection × Pool).
                  let (r, p') = use_guard r2d2 (on_protocol (Protocol.gets from keys)) y.0 y.1 in
                  (r, record c { connections = set_at i p' c.connections }))
                h.checked_out
            ∙ ap
                (λ (r : Outcome (HashMap Bytes V)).
                  (r, record c { connections = set_at i back c.connections }))
                h.gives,
      )

  -- A connection answers as before when another pool has changed.
  AllAnswer-set_at :
      (groups : List (ℕ × List Bytes)) (founds : List (HashMap Bytes V)) (c : Client Pool) (i : ℕ)
      (p : Pool)
      → All (λ (e : ℕ × List Bytes). i ≢ e.0) groups
      → AllAnswer c groups founds
      → AllAnswer (record c { connections = set_at i p c.connections }) groups founds
  AllAnswer-set_at [] [] c i p h a = tt
  AllAnswer-set_at [] (found ∷ founds) c i p h a = absurd a
  AllAnswer-set_at (group ∷ groups) [] c i p h a = absurd a
  AllAnswer-set_at ((j, keys) ∷ groups) (found ∷ founds) c i p h a = (
    record {
      pool = a.0.pool;
      rest = a.0.rest;
      connection = a.0.connection;
      stands = get_elem?-set_at_ne i j p c.connections h.0 ∙ a.0.stands;
      checked_out = a.0.checked_out;
      gives = a.0.gives;
    },
    AllAnswer-set_at groups founds c i p h.1 a.1,
  )

  gets_groups_lem :
      (groups : List (ℕ × List Bytes)) (founds : List (HashMap Bytes V)) (result : HashMap Bytes V)
      (c : Client Pool)
      → Distinct groups
      → AllAnswer c groups founds
      → (gets_groups r2d2 from groups result c).0 ≡ ok (merged result founds)
  unfolding gets_groups ◌>>=◌ pure
  gets_groups_lem [] [] result c d a = refl
  gets_groups_lem [] (found ∷ founds) result c d a = absurd a
  gets_groups_lem (group ∷ groups) [] result c d a = absurd a
  gets_groups_lem ((i, keys) ∷ groups) (found ∷ founds) result c d a =
      let (p, e) = run_at-gives c i keys found a.0 in
      rw e (
        gets_groups_lem groups founds (HashMap.extend result found)
          (record c { connections = set_at i p c.connections }) d.1
          (AllAnswer-set_at groups founds c i p d.0 a.1))

  check_keys-ok : (keys : List Bytes) → All (λ key. length key ≤ 250) keys → check_keys keys ≡ ok tt
  unfolding check_keys check_key_len
  check_keys-ok [] h = refl
  check_keys-ok (key ∷ keys) h = rw (le→ltb 250 (length key) h.0) (check_keys-ok keys h.1)

  -- `gets` of the client gives the maps that the connections answer for their groups of keys, put
  -- together in the order in which the groups are asked, a later entry over an earlier one of the same
  -- key. No key has more than 250 bytes, the keys fall into `groups`, these are asked in any order, each
  -- once, and each has a pool that gives a connection whose `gets` of the group succeeds.
  pub gets_merges :
      (order : Groups → List (ℕ × List Bytes)) (keys : List Bytes) (groups : Groups)
      (founds : List (HashMap Bytes V)) (c : Client Pool)
      → All (λ key. length key ≤ 250) keys
      → group_keys c keys [] ≡ ok groups
      → Distinct (order groups)
      → AllAnswer c (order groups) founds
      → (gets r2d2 from order keys c).0 ≡ ok (merged [] founds)
  unfolding gets ◌>>=◌ lift
  gets_merges order keys groups founds c h e d a =
      rw (check_keys-ok keys h, e) (gets_groups_lem (order groups) founds [] c d a)

check_keys-too_long :
    (front : List Bytes) (key : Bytes) (back : List Bytes)
    → 250 < length key
    → check_keys (front ++ (key ∷ back)) ≡ err (client_error key_too_long)
unfolding check_keys check_key_len
check_keys-too_long [] key back h = rw (lt→ltb 250 (length key) h) refl
check_keys-too_long (first ∷ front) key back h = elim (Bool-cases (ltb 250 (length first))) [
  | inl e ↦ rw e refl
  | inr e ↦ rw e (check_keys-too_long front key back h)
]

pub gets-long_key :
    {Pool V : Type 0} (r2d2 : R2d2 Pool) (from : FromMemcacheValueExt V)
    (order : Groups → List (ℕ × List Bytes)) (front : List Bytes) (key : Bytes) (back : List Bytes)
    (c : Client Pool)
    → 250 < length key
    → gets r2d2 from order (front ++ (key ∷ back)) c ≡ (err (client_error key_too_long), c)
unfolding gets ◌>>=◌ lift
gets-long_key r2d2 from order front key back c h = rw (check_keys-too_long front key back h) refl
