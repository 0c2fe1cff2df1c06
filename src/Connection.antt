-- ===== src/Connection.antt =====
-- src/connection.rs: a connection is a protocol on a stream that was opened as the url says. Opening sockets
-- and TLS sessions is done by parameters.
pub mod FromUrl
pub mod Tls
pub mod Health
pub mod Total
use rust_memcache.Prelude.{
  ℕ, Bytes, bytes, Bool, true, false, [], ◌∷◌, Option, none, some, if◌then◌else◌, ◌&&◌, not,
}
use rust_memcache.Error.{MemcacheError, IoError, bad_url, io_error, openssl_error}
use rust_memcache.External.{External, or_error}
use rust_memcache.Outcome.{Outcome, ok, err, map_ok, ◌>>=◌}
use rust_memcache.Exec
use rust_memcache.Exec.{Exec}
use rust_memcache.Stream.{Stream}
use rust_memcache.Stream
use rust_memcache.Stream.Sockets
use rust_memcache.Stream.Sockets.{Socket}
use rust_memcache.Stream.Udp
use rust_memcache.Stream.Udp.{UdpSocket}
use rust_memcache.Url.{Url, any_param}
use rust_memcache.Reader
use rust_memcache.Protocol
use rust_memcache.Protocol.{Protocol, ascii, binary}
use FromUrl.{SslVerifyMode, TcpOptions, TlsOptions, Transport, from_url}

pub record Connection : Type 0 where
  pub protocol : Protocol
  pub url : Bytes

-- `DerefMut`: a method of the protocol.
unfoldable pub on_protocol : {A : Type 0} → Exec Protocol A → Exec Connection A
on_protocol m c = let (r, protocol) = m c.protocol in (r, record c { protocol = protocol })

pub record ConnectionManager : Type 0 where
  pub url : Url

-- What the system, the rand crate and the openssl crate do. `tcp_connect` and `udp_connect` resolve the
-- address of the url too; `random` is the number that `rand::random` gives.
pub record Network (SslBuilder : Type 0) : Type 0 where
  pub seconds : Bytes → Option (Outcome ℕ)
  pub tcp_connect : Url → External IoError Socket
  pub udp_connect : Url → External IoError UdpSocket
  pub random : ℕ
  pub unix_connect : Bytes → External IoError Socket
  pub ssl_builder : External Bytes SslBuilder
  pub set_verify : SslVerifyMode → SslBuilder → SslBuilder
  pub set_ca_file : Bytes → SslBuilder → External Bytes SslBuilder
  pub set_private_key_file : Bytes → SslBuilder → External Bytes SslBuilder
  pub set_certificate_chain_file : Bytes → SslBuilder → External Bytes SslBuilder
  pub ssl_connect : SslBuilder → Bytes → Socket → External Bytes Socket

-- `if timeout.is_some()`, both timeouts are set; then the nodelay flag.
unfoldable pub set_options : TcpOptions → Exec Socket (Unit {0})
set_options options k = elim options.timeout [
  | none ↦ Sockets.set_nodelay options.nodelay k
  | some t ↦
      (Exec.◌>>◌
          (Exec.◌>>◌ (Sockets.set_read_timeout (some t)) (Sockets.set_write_timeout (some t)))
          (Sockets.set_nodelay options.nodelay))
        k
]

-- The socket after calls on it that succeed.
abbrev pub kept : {A : Type 0} → Outcome A × Socket → Outcome Socket
kept (r, k) = map_ok (λ _. k) r

-- `if let Some(path)`, a call of the builder.
unfoldable pub with_path :
    {B : Type 0} → (Bytes → B → External Bytes B) → Option Bytes → B → Outcome B
with_path set none b = ok b
with_path set (some path) b = or_error openssl_error (set path b)

-- `ok_or(BadURL("host required for TLS connection"))`
unfoldable pub tls_host : Option Bytes → Outcome Bytes
tls_host none = err (bad_url (bytes "host required for TLS connection"))
tls_host (some host) = ok host

module _ {SslBuilder : Type 0} (net : Network SslBuilder) where
  unfoldable pub tcp_stream : Url → TcpOptions → Outcome Socket
  unfolding set_options
  tcp_stream url options = do
    k ← or_error io_error (net.tcp_connect url)
    kept (set_options options k)

  -- `UdpStream::new`
  unfoldable pub udp_stream : Url → Outcome Stream
  udp_stream url =
      map_ok (λ k. Stream.udp (Udp.new k net.random)) (or_error io_error (net.udp_connect url))

  -- The arm of `Transport::Tls`.
  unfoldable pub tls_stream : Url → TlsOptions → Outcome Socket
  unfolding tcp_stream with_path tls_host
  tls_stream url options = do
    host ← tls_host url.host
    b₀ ← or_error openssl_error net.ssl_builder
    b₁ ← with_path net.set_ca_file options.ca_path (net.set_verify options.verify_mode b₀)
    b₂ ← with_path net.set_private_key_file options.key_path b₁
    b₃ ← with_path net.set_certificate_chain_file options.cert_path b₂
    k ← tcp_stream url options.tcp_options
    or_error openssl_error (net.ssl_connect b₃ host k)

  -- The `match transport` of `Connection::connect`.
  unfoldable pub open_stream : Url → Transport → Outcome Stream
  unfolding tcp_stream udp_stream tls_stream
  open_stream url (Transport.tcp options) = map_ok Stream.tcp (tcp_stream url options)
  open_stream url Transport.udp = udp_stream url
  open_stream url Transport.unix =
      map_ok Stream.unix (or_error io_error (net.unix_connect url.path))
  open_stream url (Transport.tls options) = map_ok Stream.tls (tls_stream url options)

  -- `Connection::connect`
  unfoldable pub connect : Url → Outcome Connection
  unfolding open_stream
  connect url = do
    transport ← from_url net.seconds url
    let is_ascii = any_param (bytes "protocol") (bytes "ascii") url.query_pairs
    stream ← open_stream url transport
    ok (record {
      protocol = if is_ascii then ascii (Reader.new stream) else binary stream;
      url = url.to_string;
    })

  -- The test of `ConnectionManager::connect`, and the credentials.
  unfoldable pub credentials : Url → Option (Bytes × Bytes)
  credentials url = elim url.username [
    | [] ↦ none
    | c ∷ name ↦ elim url.password [
      | none ↦ none
      | some password ↦ if url.has_authority then some (c ∷ name, password) else none
    ]
  ]

  -- The end of `ConnectionManager::connect`.
  unfoldable pub login : Option (Bytes × Bytes) → Connection → Outcome Connection
  login none c = ok c
  login (some (username, password)) c =
      let (r, c') = on_protocol (Protocol.auth username password) c in map_ok (λ _. c') r

  -- `ConnectionManager::connect`
  unfoldable pub manager_connect : ConnectionManager → Outcome Connection
  unfolding connect credentials login
  manager_connect m = connect m.url >>= login (credentials m.url)

-- `ConnectionManager::is_valid`
unfoldable pub is_valid : Exec Connection (Unit {0})
is_valid = Exec.◌>>◌ (on_protocol Protocol.version) (Exec.pure tt)

-- `ConnectionManager::has_broken`
unfoldable pub has_broken : Connection → Bool
has_broken c = false
