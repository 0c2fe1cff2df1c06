-- ===== src/Connection/FromUrl.antt =====
-- `Transport` of src/connection.rs and its options, read from a `Url`. Modelled for unix with the feature
-- `tls`, which is on by default.
use rust_memcache.Prelude.{
  ℕ, Bytes, bytes, bytes_eq, Bool, not, ◌&&◌, [], ◌∷◌, Option, none, some, is_none, ◌==◌,
  if◌then◌else◌,
}
use rust_memcache.Error.{bad_url}
use rust_memcache.Outcome.{Outcome, ok, err, map_ok, ◌>>=◌, ◌>>◌}
use rust_memcache.Url.{Url, find_param, any_param}

pub data SslVerifyMode : Type 0 where
  unverified peer : SslVerifyMode

pub record TcpOptions : Type 0 where
  pub timeout : Option ℕ
  pub nodelay : Bool

pub record TlsOptions : Type 0 where
  pub tcp_options : TcpOptions
  pub ca_path : Option Bytes
  pub key_path : Option Bytes
  pub cert_path : Option Bytes
  pub verify_mode : SslVerifyMode

pub data Transport : Type 0 where
  tcp : TcpOptions → Transport
  udp : Transport
  unix : Transport
  tls : TlsOptions → Transport

unfoldable pub get_param : Url → Bytes → Option Bytes
get_param url key = find_param key url.query_pairs

-- The `match` on the parameter `verify_mode`.
unfoldable pub read_verify_mode : Option Bytes → Outcome SslVerifyMode
read_verify_mode none = ok peer
read_verify_mode (some mode) =
    if bytes_eq mode (bytes "none")
    then ok unverified
    else if bytes_eq mode (bytes "peer")
    then ok peer
    else err (bad_url (bytes "unknown verify_mode, expected 'none' or 'peer'"))

-- A key needs a certificate, and a certificate a key.
unfoldable pub check_key_pair : Option Bytes → Option Bytes → Outcome (Unit {0})
check_key_pair (some key) none =
    err (bad_url (bytes "cert_path must be specified when key_path is specified"))
check_key_pair none (some cert) =
    err (bad_url (bytes "key_path must be specified when cert_path is specified"))
check_key_pair (some key) (some cert) = ok tt
check_key_pair none none = ok tt

-- What comes in front of the first "+", and what comes behind it: `splitn(2, "+")`.
unfoldable pub split_plus : Bytes → Bytes × Option Bytes
split_plus [] = ([], none)
split_plus (c ∷ s) =
    let (first, rest) = split_plus s in if c == 43 then ([], some s) else (c ∷ first, rest)

-- `parse::<f64>().ok().map(Duration::from_secs_f64)` on a text is a parameter: none when it is no number,
-- a duration, or the panic of `from_secs_f64` on a number that is no duration.
module _ (seconds : Bytes → Option (Outcome ℕ)) where
  unfoldable pub read_seconds : Option Bytes → Outcome (Option ℕ)
  read_seconds none = ok none
  read_seconds (some text) = elim (seconds text) [ none ↦ ok none | some d ↦ map_ok some d ]

  -- `TcpOptions::from_url`
  unfoldable pub tcp_options : Url → Outcome TcpOptions
  unfolding read_seconds
  tcp_options url = do
    let nodelay = not (any_param (bytes "tcp_nodelay") (bytes "false") url.query_pairs)
    timeout ← read_seconds (find_param (bytes "timeout") url.query_pairs)
    ok (record { timeout = timeout; nodelay = nodelay })

  -- `TlsOptions::from_url`
  unfoldable pub tls_options : Url → Outcome TlsOptions
  unfolding get_param read_verify_mode check_key_pair tcp_options
  tls_options url = do
    verify_mode ← read_verify_mode (get_param url (bytes "verify_mode"))
    let ca_path = get_param url (bytes "ca_path")
    let key_path = get_param url (bytes "key_path")
    let cert_path = get_param url (bytes "cert_path")
    check_key_pair key_path cert_path
    tcp_options ← tcp_options url
    ok (record {
      tcp_options = tcp_options;
      ca_path = ca_path;
      key_path = key_path;
      cert_path = cert_path;
      verify_mode = verify_mode;
    })

  -- What follows the test that the scheme starts with "memcache".
  unfoldable pub transport_for : Option Bytes → Url → Outcome Transport
  unfolding tcp_options tls_options
  transport_for (some proto) url =
      if bytes_eq proto (bytes "tcp")
      then map_ok tcp (tcp_options url)
      else if bytes_eq proto (bytes "udp")
      then ok udp
      else if bytes_eq proto (bytes "unix")
      then ok unix
      else if bytes_eq proto (bytes "tls")
      then map_ok tls (tls_options url)
      else err (
          bad_url (
            bytes
              "memcache URL's scheme should be 'memcache+tcp' or 'memcache+udp' or 'memcache+unix' or 'memcache+tls'"))
  transport_for none url =
      if any_param (bytes "udp") (bytes "true") url.query_pairs
      then ok udp
      else if is_none url.host && is_none url.port
      then ok unix
      else map_ok tcp (tcp_options url)

  -- `Transport::from_url`
  unfoldable pub from_url : Url → Outcome Transport
  unfolding split_plus transport_for
  from_url url =
      if bytes_eq (split_plus url.scheme).0 (bytes "memcache")
      then transport_for (split_plus url.scheme).1 url
      else err (bad_url (bytes "memcache URL's scheme should start with 'memcache'"))
