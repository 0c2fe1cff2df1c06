-- ===== src/Client/Builder.antt =====
-- `Connectable`, `ClientBuilder` and the constructors of `Client` that open pools.
use rust_memcache.Prelude.{
  ℕ, Bytes, bytes, bytes_eq, Bool, ◌||◌, List, [], ◌∷◌, ◌++◌, Option, none, some, if◌then◌else◌,
}
use mathlib.Core.List.{map}
use rust_memcache.Error.{MemcacheError, bad_url, pool_error, parse_error}
use rust_memcache.Error
use rust_memcache.External.{External, or_error}
use rust_memcache.Outcome.{Outcome, ok, err, panic, stuck, ◌>>=◌}
use rust_memcache.Text.Decimal.{to_decimal}
use rust_memcache.Url.{Url, find_param}
use rust_memcache.Connection.FromUrl.{read_seconds}
use rust_memcache.Pool.{PoolBuilder, R2d2}
use rust_memcache.Client
use rust_memcache.Client.{Client}

-- `trait Connectable`
pub record Connectable (C : Type 0) : Type 0 where
  pub get_urls : C → List Bytes

-- `(&str, u16)`
unfoldable pub host_port : Bytes × ℕ → Bytes
host_port (host, port) = host ++ (bytes ":" ++ to_decimal port)

abbrev pub from_host_port : Connectable (Bytes × ℕ)
from_host_port = record { get_urls = λ target. host_port target ∷ [] }

-- `&[(&str, u16)]`
abbrev pub from_host_ports : Connectable (List (Bytes × ℕ))
from_host_ports = record { get_urls = map host_port }

-- `Url`
abbrev pub from_parsed_url : Connectable Url
from_parsed_url = record { get_urls = λ url. url.to_string ∷ [] }

-- `String` and `&str`
abbrev pub from_text : Connectable Bytes
from_text = record { get_urls = λ url. url ∷ [] }

-- `Vec<String>` and `Vec<&str>`
abbrev pub from_texts : Connectable (List Bytes)
from_texts = record { get_urls = λ urls. urls }

pub record ClientBuilder : Type 0 where
  pub targets : List Bytes
  pub max_size : ℕ
  pub min_idle : Option ℕ
  pub max_lifetime : Option ℕ
  pub read_timeout : Option ℕ
  pub write_timeout : Option ℕ
  pub connection_timeout : Option ℕ
  pub hash_function : Bytes → ℕ

unfoldable pub new : (Bytes → ℕ) → ClientBuilder
new default_hash = record {
  targets = [];
  max_size = 1;
  min_idle = none;
  max_lifetime = none;
  read_timeout = none;
  write_timeout = none;
  connection_timeout = none;
  hash_function = default_hash;
}

-- What is built without a server.
abbrev pub no_servers : {A : Type 0} → Outcome A
no_servers = err (bad_url (bytes "No servers specified"))

unfoldable pub add_server : {C : Type 0} → Connectable C → C → ClientBuilder → Outcome ClientBuilder
add_server connectable target b = elim (connectable.get_urls target) [
  | [] ↦ no_servers
  | url ∷ urls ↦ ok (record b { targets = b.targets ++ (url ∷ urls) })
]

unfoldable pub with_max_pool_size : ℕ → ClientBuilder → ClientBuilder
with_max_pool_size max_size b = record b { max_size = max_size }

unfoldable pub with_min_idle_conns : ℕ → ClientBuilder → ClientBuilder
with_min_idle_conns min_idle b = record b { min_idle = some min_idle }

unfoldable pub with_max_conn_lifetime : ℕ → ClientBuilder → ClientBuilder
with_max_conn_lifetime max_lifetime b = record b { max_lifetime = some max_lifetime }

unfoldable pub with_read_timeout : ℕ → ClientBuilder → ClientBuilder
with_read_timeout read_timeout b = record b { read_timeout = some read_timeout }

unfoldable pub with_write_timeout : ℕ → ClientBuilder → ClientBuilder
with_write_timeout write_timeout b = record b { write_timeout = some write_timeout }

unfoldable pub with_connection_timeout : ℕ → ClientBuilder → ClientBuilder
with_connection_timeout connection_timeout b = record b {
  connection_timeout = some connection_timeout;
}

unfoldable pub with_hash_function : (Bytes → ℕ) → ClientBuilder → ClientBuilder
with_hash_function hash_function b = record b { hash_function = hash_function }

-- The schemes that `build` takes.
unfoldable pub is_supported : Bytes → Bool
is_supported scheme =
    bytes_eq scheme (bytes "memcache")
    || (bytes_eq scheme (bytes "memcache+tls") || bytes_eq scheme (bytes "memcache+udp"))

-- The settings of the pools.
unfoldable pub pool_settings : PoolBuilder → ClientBuilder → PoolBuilder
pool_settings defaults b = record defaults {
  max_size = b.max_size;
  min_idle = b.min_idle;
  max_lifetime = b.max_lifetime;
  connection_timeout = elim b.connection_timeout [
    | none ↦ defaults.connection_timeout
    | some t ↦ t
  ];
}

-- The client after calls on it that succeed.
abbrev pub kept : {A Pool : Type 0} → Outcome A × Client Pool → Outcome (Client Pool)
kept (ok a, c) = ok c
kept (err e, c) = err e
kept (panic, c) = panic
kept (stuck, c) = stuck

-- `Url::parse` and the r2d2 crate are parameters.
module _ {Pool : Type 0} (r2d2 : R2d2 Pool) (parse_url : Bytes → External Bytes Url) where
  -- A round of the loop of `build`.
  unfoldable pub build_pool : ClientBuilder → Bytes → Outcome Pool
  unfolding is_supported pool_settings
  build_pool b target = do
    url ← or_error bad_url (parse_url target)
    if is_supported url.scheme
        then or_error pool_error (r2d2.build (pool_settings r2d2.builder b) (record { url = url }))
        else err (bad_url (bytes "Unsupported protocol: " ++ url.scheme))

  unfoldable pub build_pools : ClientBuilder → List Bytes → Outcome (List Pool)
  unfolding build_pool
  build_pools b [] = ok []
  build_pools b (target ∷ targets) = do
    pool ← build_pool b target
    pools ← build_pools b targets
    ok (pool ∷ pools)

  -- What `build` does with the client that it made.
  unfoldable pub set_timeouts : Option ℕ → Option ℕ → Client Pool → Outcome (Client Pool)
  set_timeouts read_timeout write_timeout c = do
    c' ← kept (Client.set_read_timeout r2d2 read_timeout c)
    kept (Client.set_write_timeout r2d2 write_timeout c')

  -- `build`, with the targets taken out of the builder.
  unfoldable pub build_targets : ClientBuilder → List Bytes → Outcome (Client Pool)
  unfolding build_pools set_timeouts
  build_targets b [] = no_servers
  build_targets b (target ∷ targets) = do
    pools ← build_pools b (target ∷ targets)
    set_timeouts b.read_timeout b.write_timeout
        (record { connections = pools; hash_function = b.hash_function })

  unfoldable pub build : ClientBuilder → Outcome (Client Pool)
  unfolding build_targets
  build b = build_targets b b.targets

  -- `Client::connect`, which `Client::new` and `memcache::connect` are too.
  unfoldable pub connect : {C : Type 0} → (Bytes → ℕ) → Connectable C → C → Outcome (Client Pool)
  unfolding new add_server build
  connect default_hash connectable target =
      add_server connectable target (new default_hash) >>= build

  module _ (seconds : Bytes → Option (Outcome ℕ)) where
    -- A round of the loop of `with_pool_size`.
    unfoldable pub sized_pool : ℕ → Bytes → Outcome Pool
    unfolding read_seconds
    sized_pool size target = do
      url ← or_error (λ e. parse_error (Error.url e)) (parse_url target)
      timeout ← read_seconds seconds (find_param (bytes "connect_timeout") url.query_pairs)
      let sized = record r2d2.builder { max_size = size }
      let settings : PoolBuilder = elim timeout [
        | none ↦ sized
        | some t ↦ record sized { connection_timeout = t }
      ]
      or_error pool_error (r2d2.build settings (record { url = url }))

    unfoldable pub sized_pools : ℕ → List Bytes → Outcome (List Pool)
    unfolding sized_pool
    sized_pools size [] = ok []
    sized_pools size (target ∷ targets) = do
      pool ← sized_pool size target
      pools ← sized_pools size targets
      ok (pool ∷ pools)

    unfoldable pub with_pool_size :
        {C : Type 0} → (Bytes → ℕ) → Connectable C → C → ℕ → Outcome (Client Pool)
    unfolding sized_pools
    with_pool_size default_hash connectable target size = do
      pools ← sized_pools size (connectable.get_urls target)
      ok (record { connections = pools; hash_function = default_hash })
