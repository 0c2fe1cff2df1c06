-- ===== src/Client/Refusals.antt =====
-- Servers that `build` refuses, and what it does to a connection that it made.
use rust_memcache.Prelude.{
  ℕ, ◌≡◌, refl, ap, ◌∙◌, Bytes, bytes, bytes_eq, false, List, [], ◌∷◌, ◌++◌, Option, some, none,
}
use rust_memcache.Error.{bad_url}
use rust_memcache.External.{External, good}
use rust_memcache.Outcome.{Outcome, ok, err}
use rust_memcache.Exec
use rust_memcache.Stream
use rust_memcache.Stream.Sockets
use rust_memcache.Stream.Sockets.{Socket}
use rust_memcache.Url.{Url}
use rust_memcache.Reader
use rust_memcache.Reader.{CappedLineReader}
use rust_memcache.Protocol
use rust_memcache.Protocol.{Protocol}
use rust_memcache.Connection.{Connection, on_protocol}
use rust_memcache.Connection.FromUrl.{Transport, from_url, split_plus, transport_for}
use rust_memcache.Pool.{R2d2, on_pool, use_guard}
use rust_memcache.Client.{set_read_timeout, set_write_timeout, each_connection, each_pool, and_rest}
use rust_memcache.Client.Builder.{
  ClientBuilder, is_supported, build_pool, build_pools, set_timeouts, build_targets, build,
}
use rust_memcache.Client.Building.{Opened}

-- The protocol on a TCP socket: ASCII with the buffer of a reader, or binary.
abbrev pub over_tcp : Option CappedLineReader → Socket → Protocol
over_tcp none s = Protocol.binary (Stream.tcp s)
over_tcp (some reader) s = Protocol.ascii (record reader { inner = Stream.tcp s })

abbrev pub tcp_connection : Option CappedLineReader → Bytes → Socket → Connection
tcp_connection reader url s = record { protocol = over_tcp reader s; url = url }

module _ {Pool : Type 0} (r2d2 : R2d2 Pool) (parse_url : Bytes → External Bytes Url) where
  build_pool-unsupported :
      (b : ClientBuilder) (target : Bytes) (url : Url)
      → parse_url target ≡ good url
      → is_supported url.scheme ≡ false
      → build_pool r2d2 parse_url b target
        ≡ err (bad_url (bytes "Unsupported protocol: " ++ url.scheme))
  unfolding build_pool
  build_pool-unsupported b target url p s = rw (p, s) refl

  build-unsupported :
      (b : ClientBuilder) (target : Bytes) (targets : List Bytes) (url : Url)
      → b.targets ≡ target ∷ targets
      → parse_url target ≡ good url
      → is_supported url.scheme ≡ false
      → build r2d2 parse_url b ≡ err (bad_url (bytes "Unsupported protocol: " ++ url.scheme))
  unfolding build build_targets build_pools
  build-unsupported b target targets url t p s =
      rw (t, build_pool-unsupported b target url p s) refl

  -- A url with the scheme "memcache+unix" is a Unix socket for `Transport::from_url`, and the builder
  -- refuses it as an unsupported protocol, when it is the first server.
  pub unix_scheme_refused :
      (seconds : Bytes → Option (Outcome ℕ)) (b : ClientBuilder) (target : Bytes)
      (targets : List Bytes) (url : Url)
      → b.targets ≡ target ∷ targets
      → parse_url target ≡ good url
      → url.scheme ≡ bytes "memcache+unix"
      → (from_url seconds url ≡ ok Transport.unix)
        × (build r2d2 parse_url b ≡ err (bad_url (bytes "Unsupported protocol: memcache+unix")))
  unfolding from_url split_plus transport_for bytes_eq is_supported
  unix_scheme_refused seconds b target targets url t p s = (
    rw s refl,
    build-unsupported b target targets url t p (rw s refl)
        ∙ ap (λ scheme. err (bad_url (bytes "Unsupported protocol: " ++ scheme))) s,
  )

  build_pool-Opened :
      (b : ClientBuilder) (target : Bytes) (pool : Pool)
      → Opened r2d2 parse_url b target pool
      → build_pool r2d2 parse_url b target ≡ ok pool
  unfolding build_pool
  build_pool-Opened b target pool o = rw (o.parsed, o.supported, o.built) refl

  read_cleared :
      (reader : Option CappedLineReader) (url : Bytes) (s : Socket) (p p' : Pool)
      → r2d2.get p ≡ (good (tcp_connection reader url s), p')
      → on_pool r2d2 (on_protocol (Protocol.set_read_timeout none)) p
        ≡ (ok tt, r2d2.put (tcp_connection reader url (record s { read_timeout = none })) p')
  unfolding on_pool use_guard on_protocol Protocol.set_read_timeout Protocol.dispatch
      Reader.on_stream Stream.set_read_timeout Sockets.set_read_timeout
  read_cleared none url s p p' g = rw g refl
  read_cleared (some reader) url s p p' g = rw g refl

  write_cleared :
      (reader : Option CappedLineReader) (url : Bytes) (s : Socket) (p p' : Pool)
      → r2d2.get p ≡ (good (tcp_connection reader url s), p')
      → on_pool r2d2 (on_protocol (Protocol.set_write_timeout none)) p
        ≡ (ok tt, r2d2.put (tcp_connection reader url (record s { write_timeout = none })) p')
  unfolding on_pool use_guard on_protocol Protocol.set_write_timeout Protocol.dispatch
      Reader.on_stream Stream.set_write_timeout Sockets.set_write_timeout
  write_cleared none url s p p' g = rw g refl
  write_cleared (some reader) url s p p' g = rw g refl

  -- A builder with one server and no timeouts of its own, which opens a pool for it, sets the timeouts of
  -- the connection that it gets from the pool to none, whatever they were before. The connection is on a
  -- TCP socket without TLS, with the ASCII or the binary protocol, and the pool gives it again after it
  -- was put back, with its read timeout of none.
  pub build_clears_timeouts :
      (reader : Option CappedLineReader) (b : ClientBuilder) (target url : Bytes) (pool p p' : Pool)
      (s s' : Socket)
      → b.targets ≡ target ∷ []
      → b.read_timeout ≡ none
      → b.write_timeout ≡ none
      → Opened r2d2 parse_url b target pool
      → r2d2.get pool ≡ (good (tcp_connection reader url s), p)
      → r2d2.get (r2d2.put (tcp_connection reader url (record s { read_timeout = none })) p)
        ≡ (good (tcp_connection reader url s'), p')
      → s'.read_timeout ≡ none
      → build r2d2 parse_url b
        ≡ ok (record {
          connections =
              r2d2.put
                (tcp_connection reader url
                  (record s' { read_timeout = none; write_timeout = none }))
                p'
              ∷ [];
          hash_function = b.hash_function;
        })
  unfolding build build_targets build_pools set_timeouts set_read_timeout set_write_timeout
      each_connection each_pool and_rest Exec.◌>>=◌ Exec.pure
  build_clears_timeouts reader b target url pool p p' s s' t r w o g g' kept =
      rw
        (
          t,
          build_pool-Opened b target pool o,
          r,
          w,
          read_cleared reader url s pool p g,
          write_cleared reader url s' _ p' g',
        )
        (ap
          (λ (x : Option ℕ). ok (record {
            connections =
                r2d2.put
                  (tcp_connection reader url (record s' { read_timeout = x; write_timeout = none }))
                  p'
                ∷ [];
            hash_function = b.hash_function;
          }))
          kept)
