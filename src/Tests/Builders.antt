-- ===== src/Tests/Builders.antt =====
-- Examples for urls and the builder of clients.
use rust_memcache.Prelude.{
  ℕ, ◌≡◌, ◌++◌, arith, refl, Bytes, bytes, bytes_eq, true, List, [], ◌∷◌, Option, some, none,
}
use rust_memcache.Error.{bad_url}
use rust_memcache.External.{External, good}
use rust_memcache.Outcome.{Outcome, ok, err}
use rust_memcache.Stream
use rust_memcache.Stream.Sockets.{Socket}
use rust_memcache.Exec
use rust_memcache.Reader
use rust_memcache.Reader.{new}
use rust_memcache.Pool
use rust_memcache.Client
use rust_memcache.Connection
use rust_memcache.Stream.Sockets
use rust_memcache.Url
use rust_memcache.Url.{Url}
use rust_memcache.Protocol
use rust_memcache.Connection.{Connection}
use rust_memcache.Connection.FromUrl.{Transport, TlsOptions, unverified, from_url}
use rust_memcache.Connection.Tls.{TlsFrom, from_url-TlsFrom}
use rust_memcache.Pool.{R2d2}
use rust_memcache.Client.{Client}
use rust_memcache.Client.Builder
use rust_memcache.Client.Builder.{ClientBuilder, build, is_supported}
use rust_memcache.Client.Building.{Opened, BuiltFrom, build-BuiltFrom}
use rust_memcache.Client.Refusals.{tcp_connection, unix_scheme_refused, build_clears_timeouts}
use rust_memcache.Connection.{is_valid}
use rust_memcache.Connection.Health.{binary_connection, Checked, is_valid-Checked}
use rust_memcache.Packet.{Opcode, Response}
use rust_memcache.Packet.RoundTrip.{IsResponse, response_bytes}
use rust_memcache.Binary.Requests.{request_bytes, plain}
use rust_memcache.Text.Utf8.{is_utf8, string_from_utf8}
use rust_memcache.Tests.Channels.{socket_with, tcp_with, tcp-Ready, reply, reply-IsResponse}
use rust_memcache.Tests.Clients.{one_connection}

abbrev url_with : Bytes → Bytes → List (Bytes × Bytes) → Url
url_with scheme text pairs = record {
  scheme = scheme;
  has_authority = true;
  username = [];
  password = none;
  host = some (bytes "a");
  port = none;
  path = [];
  query_pairs = pairs;
  to_string = text;
}

-- No text is a number of seconds.
abbrev no_seconds : Bytes → Option (Outcome ℕ)
no_seconds text = none

abbrev secured : Url
secured =
    url_with (bytes "memcache+tls") (bytes "memcache+tls://a?verify_mode=none")
      ((bytes "verify_mode", bytes "none") ∷ [])

abbrev unverified_tls : TlsOptions
unverified_tls = record {
  tcp_options = record { timeout = none; nodelay = true };
  ca_path = none;
  key_path = none;
  cert_path = none;
  verify_mode = unverified;
}

secured-from_url : from_url no_seconds secured ≡ ok (Transport.tls unverified_tls)
unfolding from_url bytes_eq Url.find_param Url.any_param
secured-from_url = refl

from_url-TlsFrom_example :
    (bytes "memcache+tls" ≡ bytes "memcache+tls") × TlsFrom secured unverified_tls
from_url-TlsFrom_example = from_url-TlsFrom no_seconds secured unverified_tls secured-from_url

-- Texts are parsed as urls of one scheme.
abbrev parse_as : Bytes → Bytes → External Bytes Url
parse_as scheme text = good (url_with scheme text [])

abbrev builder : ClientBuilder
builder = record (Builder.new (λ key. 0)) { targets = bytes "memcache://a" ∷ [] }

abbrev unix_builder : ClientBuilder
unix_builder = record (Builder.new (λ key. 0)) { targets = bytes "memcache+unix:///tmp/a" ∷ [] }

unix_scheme_refused_example :
    (from_url no_seconds (url_with (bytes "memcache+unix") (bytes "memcache+unix:///tmp/a") [])
      ≡ ok Transport.unix)
    × (build one_connection (parse_as (bytes "memcache+unix")) unix_builder
        ≡ err (bad_url (bytes "Unsupported protocol: memcache+unix")))
unix_scheme_refused_example =
    unix_scheme_refused one_connection (parse_as (bytes "memcache+unix")) no_seconds unix_builder
      (bytes "memcache+unix:///tmp/a") []
      (url_with (bytes "memcache+unix") (bytes "memcache+unix:///tmp/a") []) refl refl refl

-- The socket of a connection whose url asked for a timeout of ten seconds.
abbrev impatient : Socket
impatient = record (socket_with []) { read_timeout = some 10000; write_timeout = some 10000 }

abbrev ten_seconds : R2d2 Connection
ten_seconds = record one_connection {
  build = λ settings manager.
      good (tcp_connection (some (new (tcp_with []))) (bytes "memcache://a?timeout=10") impatient);
}

opened :
    Opened ten_seconds
      (parse_as (bytes "memcache"))
      builder
      (bytes "memcache://a")
      (tcp_connection (some (new (tcp_with []))) (bytes "memcache://a?timeout=10") impatient)
unfolding is_supported bytes_eq
opened = record {
  url = url_with (bytes "memcache") (bytes "memcache://a") [];
  parsed = refl;
  supported = refl;
  built = refl;
}

-- A client that `build` gives.
abbrev built : Client Connection
built = record {
  connections =
      tcp_connection (some (new (tcp_with []))) (bytes "memcache://a?timeout=10")
        (record impatient { read_timeout = none; write_timeout = none })
      ∷ [];
  hash_function = λ key. 0;
}

build_clears_timeouts_example : build ten_seconds (parse_as (bytes "memcache")) builder ≡ ok built
unfolding Builder.new
build_clears_timeouts_example =
    build_clears_timeouts ten_seconds (parse_as (bytes "memcache")) (some (new (tcp_with [])))
      builder (bytes "memcache://a") (bytes "memcache://a?timeout=10")
      (tcp_connection (some (new (tcp_with []))) (bytes "memcache://a?timeout=10") impatient)
      (tcp_connection (some (new (tcp_with []))) (bytes "memcache://a?timeout=10") impatient)
      (tcp_connection (some (new (tcp_with []))) (bytes "memcache://a?timeout=10")
        (record impatient { read_timeout = none }))
      impatient (record impatient { read_timeout = none }) refl refl refl opened refl refl refl

-- The run of `build` at these targets.
build_runs : build ten_seconds (parse_as (bytes "memcache")) builder ≡ ok built
unfolding build bytes_eq Client.set_read_timeout Client.set_write_timeout Exec.◌>>=◌
    Client.each_connection Pool.on_pool Connection.on_protocol Protocol.set_read_timeout
    Protocol.set_write_timeout Protocol.dispatch Reader.on_stream Stream.set_read_timeout
    Stream.set_write_timeout Sockets.set_read_timeout Sockets.set_write_timeout Builder.new
build_runs = refl

build-BuiltFrom_example : BuiltFrom ten_seconds (parse_as (bytes "memcache")) builder built
build-BuiltFrom_example =
    build-BuiltFrom ten_seconds (parse_as (bytes "memcache")) builder built build_runs

-- A server that tells its version.
abbrev version_reply : Response
version_reply = reply 0x0b 0 0 [] [] (bytes "1.6.21")

version_reply-IsResponse : IsResponse version_reply
version_reply-IsResponse =
    reply-IsResponse 0x0b 0 0 [] [] (bytes "1.6.21") (omega arith) (omega arith) (omega arith)
      (omega arith) (omega arith) (omega arith)

is_valid-Checked_example :
    Checked
      (is_valid
        (binary_connection (bytes "memcache://a") (tcp_with (response_bytes version_reply ++ []))))
      (ok tt)
      (bytes "memcache://a")
      ([] ++ request_bytes (plain Opcode.version []))
      []
unfolding is_utf8 string_from_utf8
is_valid-Checked_example =
    is_valid-Checked (bytes "memcache://a") version_reply
      (tcp_with (response_bytes version_reply ++ [])) [] [] version_reply-IsResponse
      (tcp-Ready (response_bytes version_reply ++ []))
