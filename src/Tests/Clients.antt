-- ===== src/Tests/Clients.antt =====
-- Examples for the client and its connections.
use rust_memcache.Prelude.{
  ◌≡◌, refl, Bytes, bytes, List, [], ◌∷◌, some, none, arith, length, replicate, get_elem?,
}
use rust_memcache.Error.{bad_url, client_error, key_too_long}
use rust_memcache.External.{External, good, bad}
use rust_memcache.Outcome.{ok, err, panic}
use rust_memcache.Value.{bytes_value, from_bytes, without_cas}
use rust_memcache.Protocol.{binary}
use rust_memcache.Connection.{Connection}
use rust_memcache.Pool.{R2d2}
use rust_memcache.Client.{Client}
use rust_memcache.Client.Builder
use rust_memcache.Client.NoServers.{empty_list_panics}
use rust_memcache.Url.{Url}
use rust_memcache.Client.Routing.{
  Keeps, long_key_refused, run_leaves_others, on_checkout, call_on_pool,
}
use rust_memcache.Calls.{Call, call_client, run_client}
use rust_memcache.Tests.Channels.{tcp_with}

-- A connection to a server that sends `bs`.
abbrev pub connection_with : Bytes → Connection
connection_with bs = record { protocol = binary (tcp_with bs); url = bytes "memcache://a" }

-- Pools of one connection, which is there at all times.
abbrev pub one_connection : R2d2 Connection
one_connection = record {
  builder = record {
    max_size = 10;
    min_idle = none;
    max_lifetime = some 1800;
    connection_timeout = 30;
  };
  build = λ settings manager. good (connection_with []);
  get = λ p. (good p, p);
  put = λ k p. k;
}

-- Two servers, and a hash that is the length of the key.
abbrev two_servers : Client Connection
two_servers = record {
  connections = connection_with (bytes "x") ∷ connection_with [] ∷ [];
  hash_function = λ key. length key;
}

abbrev pub long_key : Bytes
long_key = replicate 251 97

long_key_refused_example :
    call_client bytes_value
      (without_cas from_bytes)
      one_connection
      (Call.touch long_key 5)
      two_servers
    ≡ (err (client_error key_too_long), two_servers)
long_key_refused_example =
    long_key_refused bytes_value (without_cas from_bytes) one_connection (Call.touch long_key 5)
      two_servers (omega arith)

-- No text is a url.
abbrev no_url : Bytes → External Bytes Url
no_url text = bad text

empty_list_panics_example :
    (Builder.connect one_connection no_url (λ key. 0) Builder.from_texts []
      ≡ err (bad_url (bytes "No servers specified")))
    × (c : Client Connection) × (Builder.with_pool_size one_connection no_url
          (λ text. none)
          (λ key. 0)
          Builder.from_texts
          []
          2
        ≡ ok c)
    × (call_client bytes_value (without_cas from_bytes) one_connection (Call.get (bytes "foo")) c
        ≡ (panic, c))
empty_list_panics_example =
    empty_list_panics bytes_value (without_cas from_bytes) one_connection no_url (λ text. none)
      Builder.from_texts (λ key. 0) [] 2 (Call.get (bytes "foo")) refl

abbrev odd_calls : List (Call Bytes)
odd_calls = Call.set (bytes "foo") (bytes "bar") 0 ∷ Call.delete (bytes "a") ∷ []

run_leaves_others_example :
    (get_elem?
        (run_client bytes_value
          (without_cas from_bytes)
          one_connection
          odd_calls
          two_servers).1.connections
        0
      ≡ some (connection_with (bytes "x")))
    × Keeps two_servers
        (run_client bytes_value (without_cas from_bytes) one_connection odd_calls two_servers).1
run_leaves_others_example =
    run_leaves_others bytes_value (without_cas from_bytes) one_connection odd_calls 0 two_servers
      (omega arith, (omega arith, tt))

call_on_pool_example :
    call_client bytes_value
      (without_cas from_bytes)
      one_connection
      (Call.delete (bytes "foo"))
      two_servers
    ≡ (
      (on_checkout bytes_value
          (without_cas from_bytes)
          one_connection
          (Call.delete (bytes "foo"))
          (good (connection_with []))
          (connection_with [])).0,
      record two_servers {
        connections =
            connection_with (bytes "x")
            ∷ (on_checkout bytes_value
                (without_cas from_bytes)
                one_connection
                (Call.delete (bytes "foo"))
                (good (connection_with []))
                (connection_with [])).1
            ∷ [];
      },
    )
call_on_pool_example =
    call_on_pool bytes_value (without_cas from_bytes) one_connection (Call.delete (bytes "foo"))
      two_servers 1 (connection_with []) (connection_with []) (good (connection_with []))
      (omega arith) refl refl refl
