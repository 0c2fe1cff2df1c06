-- ===== src/Client/Building.antt =====
-- What `build` needs of the servers, and what it does to them.
use rust_memcache.Prelude.{
  ℕ, ◌≡◌, ◌≢◌, refl, sym, ◌∙◌, Bytes, true, List, [], ◌∷◌, Option, none, some, bytes, bytes_eq,
  bytes_eq→eq, ◌⊎◌, Bool-cases, inl, inr,
}
use rust_memcache.Error.{pool_error}
use rust_memcache.External.{External, good, bad, panics, or_error}
use rust_memcache.Outcome.{ok, bind-ok, ok-inj}
use mathlib.Core.Path.{subst}
use rust_memcache.Protocol
use rust_memcache.Url.{Url}
use rust_memcache.Connection.{on_protocol}
use rust_memcache.Pool.{PoolBuilder, R2d2}
use rust_memcache.Client.{Client, set_read_timeout, set_write_timeout}
use rust_memcache.Client.Looping.{Did, AllDid, each-AllDid}
use rust_memcache.Client.Builder.{
  ClientBuilder, is_supported, pool_settings, kept, build_pool, build_pools, set_timeouts,
  build_targets, build,
}

-- A setting, or the default when there is none.
abbrev pub default_to : ℕ → Option ℕ → ℕ
default_to d none = d
default_to d (some n) = n

default_to-elim : (d : ℕ) (o : Option ℕ) → elim o [ none ↦ d | some t ↦ t ] ≡ default_to d o
default_to-elim d none = refl
default_to-elim d (some n) = refl

is_supported-schemes :
    (scheme : Bytes)
    → is_supported scheme ≡ true
    → (scheme ≡ bytes "memcache")
      ⊎ ((scheme ≡ bytes "memcache+tls") ⊎ (scheme ≡ bytes "memcache+udp"))
unfolding is_supported
is_supported-schemes scheme h = elim (Bool-cases (bytes_eq scheme (bytes "memcache"))) [
  | inl e ↦ inl (bytes_eq→eq scheme (bytes "memcache") e)
  | inr e ↦ elim (Bool-cases (bytes_eq scheme (bytes "memcache+tls"))) [
    | inl f ↦ inr (inl (bytes_eq→eq scheme (bytes "memcache+tls") f))
    | inr f ↦ inr (inr (bytes_eq→eq scheme (bytes "memcache+udp") (rw (e, f) at h)))
  ]
]

module _ {Pool : Type 0} (r2d2 : R2d2 Pool) (parse_url : Bytes → External Bytes Url) where
  -- The target is the url of a supported scheme, and the pool was built for it.
  pub record Opened (b : ClientBuilder) (target : Bytes) (pool : Pool) : Type 0 where
    pub url : Url
    pub parsed : parse_url target ≡ good url
    pub supported : is_supported url.scheme ≡ true
    pub built : r2d2.build (pool_settings r2d2.builder b) (record { url = url }) ≡ good pool

  or_error-good :
      {A : Type 0} (f : Bytes → _) (x : External Bytes A) (a : A) → or_error f x ≡ ok a → x ≡ good a
  or_error-good f (good y) a e = cc
  or_error-good f (bad y) a e = cc
  or_error-good f panics a e = cc

  build_pool-parsed :
      (b : ClientBuilder) (target : Bytes) (pool : Pool) (x : External Bytes Url)
      → parse_url target ≡ x
      → build_pool r2d2 parse_url b target ≡ ok pool
      → Opened b target pool
  unfolding build_pool
  build_pool-parsed b target pool (good url) p e = elim (Bool-cases (is_supported url.scheme)) [
    | inl s ↦ record {
      url = url;
      parsed = p;
      supported = s;
      built = or_error-good pool_error _ pool (rw (p, s) at e);
    }
    | inr s ↦ let failed = rw (p, s) at e in cc
  ]
  build_pool-parsed b target pool (bad y) p e = let failed = rw p at e in cc
  build_pool-parsed b target pool panics p e = let failed = rw p at e in cc

  abbrev pub AllOpened : ClientBuilder → List Bytes → List Pool → Type 0
  AllOpened b [] [] = Unit
  AllOpened b [] (pool ∷ pools) = ⊥
  AllOpened b (target ∷ targets) [] = ⊥
  AllOpened b (target ∷ targets) (pool ∷ pools) = Opened b target pool × AllOpened b targets pools

  build_pools-AllOpened :
      (b : ClientBuilder) (targets : List Bytes) (pools : List Pool)
      → build_pools r2d2 parse_url b targets ≡ ok pools
      → AllOpened b targets pools
  unfolding build_pools
  build_pools-AllOpened b [] [] e = tt
  build_pools-AllOpened b [] (pool ∷ pools) e = cc
  build_pools-AllOpened b (target ∷ targets) pools e =
      let (first, p, q) = bind-ok (build_pool r2d2 parse_url b target) _ pools e in
      let (rest, p', q') = bind-ok (build_pools r2d2 parse_url b targets) _ pools q in
      subst (AllOpened b (target ∷ targets)) (ok-inj _ pools q') (
        build_pool-parsed b target first (parse_url target) refl p,
        build_pools-AllOpened b targets rest p',
      )

  -- A pool of the client: it was built for the url of the target with the settings of the builder, and
  -- the timeouts of the builder were set on a connection of it, first for reading and then for writing.
  pub record Served (b : ClientBuilder) (target : Bytes) (pool : Pool) : Type 0 where
    pub url : Url
    pub parsed : parse_url target ≡ good url
    pub scheme :
        (url.scheme ≡ bytes "memcache")
        ⊎ ((url.scheme ≡ bytes "memcache+tls") ⊎ (url.scheme ≡ bytes "memcache+udp"))
    pub settings : PoolBuilder
    pub max_size : settings.max_size ≡ b.max_size
    pub min_idle : settings.min_idle ≡ b.min_idle
    pub max_lifetime : settings.max_lifetime ≡ b.max_lifetime
    pub connection_timeout :
        settings.connection_timeout
        ≡ default_to r2d2.builder.connection_timeout b.connection_timeout
    pub opened : Pool
    pub built : r2d2.build settings (record { url = url }) ≡ good opened
    pub between : Pool
    pub reads : Did r2d2 (on_protocol (Protocol.set_read_timeout b.read_timeout)) opened between
    pub writes : Did r2d2 (on_protocol (Protocol.set_write_timeout b.write_timeout)) between pool

  Opened-Served :
      (b : ClientBuilder) (target : Bytes) (p q s : Pool)
      → Opened b target p
      → Did r2d2 (on_protocol (Protocol.set_read_timeout b.read_timeout)) p q
      → Did r2d2 (on_protocol (Protocol.set_write_timeout b.write_timeout)) q s
      → Served b target s
  unfolding pool_settings
  Opened-Served b target p q s o x y = record {
    url = o.url;
    parsed = o.parsed;
    scheme = is_supported-schemes o.url.scheme o.supported;
    settings = pool_settings r2d2.builder b;
    max_size = refl;
    min_idle = refl;
    max_lifetime = refl;
    connection_timeout = default_to-elim r2d2.builder.connection_timeout b.connection_timeout;
    opened = p;
    built = o.built;
    between = q;
    reads = x;
    writes = y;
  }

  -- One pool for each target, in their order.
  abbrev pub AllServed : ClientBuilder → List Bytes → List Pool → Type 0
  AllServed b [] [] = Unit
  AllServed b [] (pool ∷ pools) = ⊥
  AllServed b (target ∷ targets) [] = ⊥
  AllServed b (target ∷ targets) (pool ∷ pools) = Served b target pool × AllServed b targets pools

  AllOpened-AllServed :
      (b : ClientBuilder) (targets : List Bytes) (ps qs ss : List Pool)
      → AllOpened b targets ps
      → AllDid r2d2 (on_protocol (Protocol.set_read_timeout b.read_timeout)) ps qs
      → AllDid r2d2 (on_protocol (Protocol.set_write_timeout b.write_timeout)) qs ss
      → AllServed b targets ss
  AllOpened-AllServed b [] [] [] [] o x y = tt
  AllOpened-AllServed b (target ∷ targets) (p ∷ ps) (q ∷ qs) (s ∷ ss) o x y =
      (Opened-Served b target p q s o.0 x.0 y.0, AllOpened-AllServed b targets ps qs ss o.1 x.1 y.1)
  AllOpened-AllServed b [] (p ∷ ps) qs ss o x y = absurd o
  AllOpened-AllServed b (target ∷ targets) [] qs ss o x y = absurd o
  AllOpened-AllServed b [] [] (q ∷ qs) ss o x y = absurd x
  AllOpened-AllServed b (target ∷ targets) (p ∷ ps) [] ss o x y = absurd x
  AllOpened-AllServed b [] [] [] (s ∷ ss) o x y = absurd y
  AllOpened-AllServed b (target ∷ targets) (p ∷ ps) (q ∷ qs) [] o x y = absurd y

  -- What a client that `build` gives was made of.
  pub record BuiltFrom (b : ClientBuilder) (c : Client Pool) : Type 0 where
    pub some_server : b.targets ≢ []
    pub served : AllServed b b.targets c.connections
    pub hashing : c.hash_function ≡ b.hash_function

  built_targets :
      (b : ClientBuilder) (targets : List Bytes) (c : Client Pool)
      → b.targets ≡ targets
      → build_targets r2d2 parse_url b targets ≡ ok c
      → BuiltFrom b c
  unfolding build_targets set_timeouts set_read_timeout set_write_timeout
  built_targets b [] c t e = cc
  built_targets b (target ∷ targets) c t e =
      let (pools, p, q) = bind-ok (build_pools r2d2 parse_url b (target ∷ targets)) _ c e in
      let (d, p', q') = bind-ok (kept (set_read_timeout r2d2 b.read_timeout _)) _ c q in
      let (reads, same) = each-AllDid r2d2 _ _ d p' in
      let (writes, same') = each-AllDid r2d2 _ d c q' in
      record {
        some_server = λ none. cc;
        served =
            subst (λ l. AllServed b l c.connections) (sym t)
              (AllOpened-AllServed b (target ∷ targets) pools d.connections c.connections
                (build_pools-AllOpened b (target ∷ targets) pools p) reads writes);
        hashing = same' ∙ same;
      }

  -- When the builder gives a client, there was at least one server, the client has the builder's hash
  -- function, and exactly one pool for each target, in their order. For each of them the target was
  -- parsed as a url whose scheme is the text memcache, memcache+tls or memcache+udp; a pool was built for
  -- it with the builder's max_size, min_idle and max_lifetime, and with its connection_timeout or the
  -- default of the pool library; and the pool of the client is this pool after the builder's read
  -- timeout, and then its write timeout, were set with success on a connection of it.
  pub build-BuiltFrom :
      (b : ClientBuilder) (c : Client Pool) → build r2d2 parse_url b ≡ ok c → BuiltFrom b c
  unfolding build
  build-BuiltFrom b c e = built_targets b b.targets c refl e
