-- ===== src/Tests/Groups.antt =====
-- Examples for the grouping of keys by the client.
use rust_memcache.Prelude.{
  ℕ, ◌≡◌, ◌<◌, ◌^◌, All, get_elem?, refl, Bytes, bytes, List, [], ◌∷◌, ◌++◌, some, none, arith,
  length,
}
use rust_memcache.Error.{client_error, key_too_long}
use rust_memcache.Outcome.{ok, err}
use mathlib.Core.List.{flatten, map}
use rust_memcache.HashMap
use rust_memcache.HashMap.{HashMap, key_ℕ, key_bytes}
use rust_memcache.Value.{from_bytes, without_cas}
use rust_memcache.Packet.RoundTrip.{response_bytes}
use rust_memcache.Packet.{Response}
use rust_memcache.Protocol
use rust_memcache.Connection.{Connection}
use rust_memcache.Binary.Gets.{IsHit, gets_exchange}
use rust_memcache.Client.{Client}
use rust_memcache.Client.Gets.{Groups, group_keys, gets}
use rust_memcache.Client.Grouping.{
  joined, keys_of, merged, Answers, group_keys_lem, gets_merges, gets-long_key,
}
use rust_memcache.Tests.Channels.{tcp_with, tcp-Ready}
use rust_memcache.Tests.Hits.{hit_of, last_reply, last_reply-IsLast, foo-IsHit, ab-IsHit}
use rust_memcache.Tests.Clients.{connection_with, one_connection, long_key}

-- What the server sends that has one key.
abbrev answer : Response → Bytes
answer hit = (flatten (map response_bytes (hit ∷ [])) ++ response_bytes last_reply) ++ []

-- The first server has the key "ab", the second "foo"; the hash is the length of the key.
abbrev stocked : Client Connection
stocked = record {
  connections =
      connection_with (answer (hit_of (bytes "ab") (bytes "cd")))
      ∷ connection_with (answer (hit_of (bytes "foo") (bytes "bar")))
      ∷ [];
  hash_function = λ key. length key;
}

abbrev wanted : List Bytes
wanted = bytes "foo" ∷ bytes "ab" ∷ bytes "x" ∷ []

group_keys_lem_example :
    (filled : Groups) × (group_keys stocked wanted [] ≡ ok filled)
    × ((i : ℕ) → HashMap.get i filled ≡ joined none (keys_of stocked i wanted))
group_keys_lem_example = group_keys_lem stocked wanted (omega arith)

abbrev wanted_groups : Groups
wanted_groups = (1, bytes "foo" ∷ bytes "x" ∷ []) ∷ (0, bytes "ab" ∷ []) ∷ []

groups_are : group_keys stocked wanted [] ≡ ok wanted_groups
unfolding group_keys HashMap.get HashMap.insert
groups_are = refl

server-Answers :
    (i : ℕ) (hit : Response) (key value : Bytes) (first : Bytes) (keys : List Bytes)
    → IsHit (without_cas from_bytes) hit key value
    → All (λ k. length k < 2 ^ 16) (first ∷ keys)
    → get_elem? stocked.connections i ≡ some (connection_with (answer hit))
    → Answers one_connection
        (without_cas from_bytes)
        stocked
        i
        (first ∷ keys)
        (HashMap.extend [] ((key, value) ∷ []))
unfolding Protocol.gets Protocol.dispatch
server-Answers i hit key value first keys is_hit short here = record {
  pool = connection_with (answer hit);
  rest = connection_with (answer hit);
  connection = connection_with (answer hit);
  stands = here;
  checked_out = refl;
  gives =
      (gets_exchange (without_cas from_bytes) (first ∷ keys) (hit ∷ []) ((key, value) ∷ [])
        last_reply (tcp_with (answer hit)) [] [] short (is_hit, tt) last_reply-IsLast (omega arith)
        (tcp-Ready (answer hit))).gives;
}

gets_merges_example :
    (gets one_connection (without_cas from_bytes) (λ groups. groups) wanted stocked).0
    ≡ ok (
        merged [] (
          HashMap.extend [] ((bytes "foo", bytes "bar") ∷ [])
          ∷ HashMap.extend [] ((bytes "ab", bytes "cd") ∷ [])
          ∷ []))
gets_merges_example =
    gets_merges one_connection (without_cas from_bytes) (λ groups. groups) wanted wanted_groups
      (HashMap.extend [] ((bytes "foo", bytes "bar") ∷ [])
        ∷ HashMap.extend [] ((bytes "ab", bytes "cd") ∷ [])
        ∷ [])
      stocked (omega arith, (omega arith, (omega arith, tt))) groups_are
      ((omega arith, tt), (tt, tt))
      (
        server-Answers 1 (hit_of (bytes "foo") (bytes "bar")) (bytes "foo") (bytes "bar")
            (bytes "foo") (bytes "x" ∷ []) foo-IsHit (omega arith) refl,
        (
          server-Answers 0 (hit_of (bytes "ab") (bytes "cd")) (bytes "ab") (bytes "cd") (bytes "ab")
              [] ab-IsHit (omega arith) refl,
          tt,
        ),
      )

gets-long_key_example :
    gets one_connection
      (without_cas from_bytes)
      (λ groups. groups)
      (bytes "ab" ∷ long_key ∷ [])
      stocked
    ≡ (err (client_error key_too_long), stocked)
gets-long_key_example =
    gets-long_key one_connection (without_cas from_bytes) (λ groups. groups) (bytes "ab" ∷ [])
      long_key [] stocked (omega arith)
