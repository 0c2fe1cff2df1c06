-- ===== src/Client/Total.antt =====
-- Whatever the network does, every method of the client ends, and leaves pools that hold connections which
-- are fit for use.
use rust_memcache.Prelude.{
  ℕ, zero, suc, ◌≡◌, refl, ◌%◌, Bytes, List, [], ◌∷◌, Option, none, some, All, get_elem?, set_at,
  length, ltb, ◌==◌,
}
use mathlib.Core.Path.{subst}
use rust_memcache.Error.{client_error, key_too_long}
use rust_memcache.Outcome.{Outcome, ok, err, panic, stuck}
use rust_memcache.Exec.{Exec}
use rust_memcache.Exec.Total.{
  IsDone, IsDone-if, IsDone-bind, IsDone-map_ok, Halts, Total, Total-pure, Total-lift, Total-bind,
}
use rust_memcache.HashMap
use rust_memcache.HashMap.{HashMap, key_bytes}
use rust_memcache.Value.{FromMemcacheValueExt}
use rust_memcache.Value.Total.{Decodes}
use rust_memcache.Protocol.{Protocol}
use rust_memcache.Protocol.Total as ProtocolTotal
use rust_memcache.Protocol.Total.{IsSound}
use rust_memcache.Connection.{Connection}
use rust_memcache.Connection.Total.{IsFit, Total-on_protocol}
use rust_memcache.Pool.{R2d2}
use rust_memcache.Pool.Total.{HoldsFit, Total-on_pool}
use rust_memcache.Client.{
  Client, check_key_len, connection_index, run_at, on_connection, with_key, and_rest, each_pool,
  each_connection, with_url, set_read_timeout, set_write_timeout, version, flush, flush_with_delay,
  stats,
}
use rust_memcache.Client.Gets.{Groups, check_keys, group_keys, push_key, gets_groups, gets}

All-set_at :
    {A : Type 0} (P : A → Type 0) (i : ℕ) (a : A) (xs : List A)
    → P a
    → All P xs
    → All P (set_at i a xs)
All-set_at P i a [] p h = tt
All-set_at P zero a (x ∷ xs) p h = (p, h.1)
All-set_at P (suc i) a (x ∷ xs) p h = (h.0, All-set_at P i a xs p h.1)

All-get_elem? :
    {A : Type 0} (P : A → Type 0) (i : ℕ) (a : A) (xs : List A)
    → All P xs
    → get_elem? xs i ≡ some a
    → P a
All-get_elem? P i a [] h e = cc
All-get_elem? P zero a (x ∷ xs) h e = let q : x ≡ a = cc in subst P q h.0
All-get_elem? P (suc i) a (x ∷ xs) h e = All-get_elem? P i a xs h.1 e

check_key_len-IsDone : (key : Bytes) → IsDone (check_key_len key)
unfolding check_key_len
check_key_len-IsDone key =
    IsDone-if (ltb 250 (length key)) (err (client_error key_too_long)) (ok tt) tt tt

connection_index-IsDone :
    {Pool : Type 0} (c : Client Pool) (key : Bytes) → IsDone (connection_index c key)
unfolding connection_index
connection_index-IsDone c key =
    IsDone-if (length c.connections == 0) panic (ok (c.hash_function key % length c.connections)) tt
      tt

check_keys-IsDone : (keys : List Bytes) → IsDone (check_keys keys)
unfolding check_keys
check_keys-IsDone [] = tt
check_keys-IsDone (key ∷ keys) =
    IsDone-bind _ _ (check_key_len-IsDone key) (λ _. check_keys-IsDone keys)

group_keys-IsDone :
    {Pool : Type 0} (c : Client Pool) (keys : List Bytes) (groups : Groups)
    → IsDone (group_keys c keys groups)
unfolding group_keys
group_keys-IsDone c [] groups = tt
group_keys-IsDone c (key ∷ keys) groups =
    IsDone-bind _ _ (connection_index-IsDone c key)
      (λ i. group_keys-IsDone c keys (push_key i key groups))

-- All pools of the client.
abbrev pub AllHold : {Pool : Type 0} → (Pool → Type 0) → Client Pool → Type 0
AllHold Holds c = All Holds c.connections

module _ {Pool : Type 0} (r2d2 : R2d2 Pool) (Holds : Pool → Type 0) (h : HoldsFit r2d2 Holds) where
  module _ {A : Type 0} {m : Exec Connection A} (t : Total IsFit m) where
    run_at-Halts :
        (i : ℕ) (o : Option Pool) (c : Client Pool)
        → AllHold Holds c
        → ((p : Pool) → o ≡ some p → Holds p)
        → Halts (AllHold Holds) (run_at r2d2 i m o c)
    unfolding run_at
    run_at-Halts i none c v f = record { done = tt; keeps = v }
    run_at-Halts i (some p) c v f =
        let x = (Total-on_pool r2d2 Holds h t).at p (f p refl) in
        record { done = x.done; keeps = All-set_at Holds i _ c.connections x.keeps v }

    Total-on_connection : (i : ℕ) → Total (AllHold Holds) (on_connection r2d2 i m)
    unfolding on_connection
    Total-on_connection i = record {
      at = λ c v.
          run_at-Halts i (get_elem? c.connections i) c v
            (λ p e. All-get_elem? Holds i p c.connections v e);
    }

    -- A method on each pool, until one fails.
    rest_Halts :
        (o : Outcome A) (p : Pool) (ps : List Pool) (x : Outcome (List A) × List Pool)
        → IsDone o
        → Holds p
        → All Holds ps
        → Halts (All Holds) x
        → Halts (All Holds) (and_rest r2d2 m (o, p) ps x)
    unfolding and_rest
    rest_Halts (ok a) p ps x d g w y = record {
      done = IsDone-map_ok _ x.0 y.done;
      keeps = (g, y.keeps);
    }
    rest_Halts (err e) p ps x d g w y = record { done = tt; keeps = (g, w) }
    rest_Halts panic p ps x d g w y = record { done = tt; keeps = (g, w) }
    rest_Halts stuck p ps x d g w y = absurd d

    each_pool-Halts : (ps : List Pool) → All Holds ps → Halts (All Holds) (each_pool r2d2 m ps)
    unfolding each_pool
    each_pool-Halts [] v = record { done = tt; keeps = tt }
    each_pool-Halts (p ∷ ps) v =
        let x = (Total-on_pool r2d2 Holds h t).at p v.0 in
        rest_Halts _ _ ps (each_pool r2d2 m ps) x.done x.keeps v.1 (each_pool-Halts ps v.1)

    Total-each_connection : Total (AllHold Holds) (each_connection r2d2 m)
    unfolding each_connection
    Total-each_connection = record {
      at = λ c v.
          let x = each_pool-Halts c.connections v in record { done = x.done; keeps = x.keeps };
    }

  pub Total-with_key :
      {A : Type 0} {m : Exec Protocol A}
      → Total IsSound m
      → (key : Bytes) → Total (AllHold Holds) (with_key r2d2 key m)
  unfolding with_key
  Total-with_key t key = record {
    at = λ c v.
        (Total-bind (Total-lift _ (check_key_len-IsDone key)) (λ _.
            Total-bind (Total-lift _ (connection_index-IsDone c key))
              (λ i. Total-on_connection (Total-on_protocol t) i))).at
          c v;
  }

  pub Total-set_read_timeout : (t : Option ℕ) → Total (AllHold Holds) (set_read_timeout r2d2 t)
  unfolding set_read_timeout
  Total-set_read_timeout t =
      Total-bind
        (Total-each_connection (Total-on_protocol (ProtocolTotal.Total-set_read_timeout t)))
        (λ _. Total-pure tt)

  pub Total-set_write_timeout : (t : Option ℕ) → Total (AllHold Holds) (set_write_timeout r2d2 t)
  unfolding set_write_timeout
  Total-set_write_timeout t =
      Total-bind
        (Total-each_connection (Total-on_protocol (ProtocolTotal.Total-set_write_timeout t)))
        (λ _. Total-pure tt)

  Total-with_url :
      {A : Type 0} {m : Exec Protocol A} → Total IsSound m → Total IsFit (with_url r2d2 m)
  unfolding with_url
  Total-with_url t = record {
    at = λ k v.
        let x = (Total-on_protocol t).at k v in
        record { done = IsDone-map_ok (λ a. (k.url, a)) _ x.done; keeps = x.keeps };
  }

  pub Total-version : Total (AllHold Holds) (version r2d2)
  unfolding version
  Total-version = Total-each_connection (Total-with_url ProtocolTotal.Total-version)

  pub Total-stats : Total (AllHold Holds) (stats r2d2)
  unfolding stats
  Total-stats = Total-each_connection (Total-with_url ProtocolTotal.Total-stats)

  pub Total-flush : Total (AllHold Holds) (flush r2d2)
  unfolding flush
  Total-flush =
      Total-bind (Total-each_connection (Total-on_protocol ProtocolTotal.Total-flush))
        (λ _. Total-pure tt)

  pub Total-flush_with_delay : (delay : ℕ) → Total (AllHold Holds) (flush_with_delay r2d2 delay)
  unfolding flush_with_delay
  Total-flush_with_delay delay =
      Total-bind
        (Total-each_connection (Total-on_protocol (ProtocolTotal.Total-flush_with_delay delay)))
        (λ _. Total-pure tt)

  module _ {V : Type 0} (from : FromMemcacheValueExt V) (d : Decodes from) where
    gets_groups-Total :
        (groups : List (ℕ × List Bytes)) (result : HashMap Bytes V)
        → Total (AllHold Holds) (gets_groups r2d2 from groups result)
    unfolding gets_groups
    gets_groups-Total [] result = Total-pure result
    gets_groups-Total ((i, keys) ∷ groups) result =
        Total-bind
          (Total-on_connection (Total-on_protocol (ProtocolTotal.Total-gets from d keys)) i)
          (λ found. gets_groups-Total groups (HashMap.extend result found))

    pub Total-gets :
        (order : Groups → List (ℕ × List Bytes)) (keys : List Bytes)
        → Total (AllHold Holds) (gets r2d2 from order keys)
    unfolding gets
    Total-gets order keys = record {
      at = λ c v.
          (Total-bind (Total-lift _ (check_keys-IsDone keys)) (λ _.
              Total-bind (Total-lift _ (group_keys-IsDone c keys []))
                (λ groups. gets_groups-Total (order groups) []))).at
            c v;
    }

    -- Whatever the network does, the methods of the client that are not about one key - gets, version,
    -- flush, flush_with_delay, stats and the two that set timeouts - end, with both protocols and over
    -- any stream, in any order in which gets asks the groups: no loop runs out of the fuel that the
    -- model gives it, the binary stats among them, which reads until a response is empty. In the end
    -- the pools hold connections fit for use again. The pools give connections that are fit for use,
    -- and the conversion of the values ends.
    pub methods_end :
        (order : Groups → List (ℕ × List Bytes)) (keys : List Bytes) (delay : ℕ)
        (timeout : Option ℕ) (c : Client Pool)
        → AllHold Holds c
        → Halts (AllHold Holds) (gets r2d2 from order keys c)
          × Halts (AllHold Holds) (version r2d2 c)
          × Halts (AllHold Holds) (flush r2d2 c)
          × Halts (AllHold Holds) (flush_with_delay r2d2 delay c)
          × Halts (AllHold Holds) (stats r2d2 c)
          × Halts (AllHold Holds) (set_read_timeout r2d2 timeout c)
          × Halts (AllHold Holds) (set_write_timeout r2d2 timeout c)
    methods_end order keys delay timeout c v = (
      (Total-gets order keys).at c v,
      Total-version.at c v,
      Total-flush.at c v,
      (Total-flush_with_delay delay).at c v,
      Total-stats.at c v,
      (Total-set_read_timeout timeout).at c v,
      (Total-set_write_timeout timeout).at c v,
    )
