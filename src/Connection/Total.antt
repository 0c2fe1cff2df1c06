-- ===== src/Connection/Total.antt =====
-- A connection is opened fit for use, and each method of its protocol keeps it so.
use rust_memcache.Prelude.{Bytes, bytes, Option, none, some, ◌≡◌, Bool, true, false, if◌then◌else◌}
use mathlib.Core.Path.{subst}
use rust_memcache.Outcome.{ok, bind-ok, ok-inj, map_ok-ok}
use rust_memcache.Exec.{Exec}
use rust_memcache.Exec.Total.{Total, Total-pure, Total-bind}
use rust_memcache.Stream.{Stream}
use rust_memcache.Url.{Url, any_param}
use rust_memcache.Reader
use rust_memcache.Reader.View.{new-IsValid}
use rust_memcache.Protocol
use rust_memcache.Protocol.{Protocol, ascii, binary}
use rust_memcache.Protocol.Total.{IsSound, Total-auth, Total-version}
use rust_memcache.Connection.{
  Connection, ConnectionManager, Network, on_protocol, open_stream, connect, credentials, login,
  manager_connect, is_valid,
}
use rust_memcache.Connection.FromUrl.{from_url}

abbrev pub IsFit : Connection → Type 0
IsFit c = IsSound c.protocol

pub Total-on_protocol :
    {A : Type 0} {m : Exec Protocol A} → Total IsSound m → Total IsFit (on_protocol m)
unfolding on_protocol
Total-on_protocol t = record {
  at = λ c v. let x = t.at c.protocol v in record { done = x.done; keeps = x.keeps };
}

pub Total-is_valid : Total IsFit is_valid
unfolding is_valid
Total-is_valid = Total-bind (Total-on_protocol Total-version) (λ v. Total-pure tt)

chosen : (b : Bool) (s : Stream) → IsSound (if b then ascii (Reader.new s) else binary s)
chosen true s = new-IsValid s
chosen false s = tt

module _ {SslBuilder : Type 0} (net : Network SslBuilder) where
  connect-IsFit : (url : Url) (c : Connection) → connect net url ≡ ok c → IsFit c
  unfolding connect
  connect-IsFit url c e =
      let (transport, _, e₁) = bind-ok (from_url net.seconds url) _ c e in
      let (stream, _, e₂) = bind-ok (open_stream net url transport) _ c e₁ in
      subst IsFit (ok-inj _ c e₂)
        (chosen (any_param (bytes "protocol") (bytes "ascii") url.query_pairs) stream)

  login-IsFit :
      (who : Option (Bytes × Bytes)) (k c : Connection) → IsFit k → login net who k ≡ ok c → IsFit c
  unfolding login
  login-IsFit none k c v e = subst IsFit (ok-inj k c e) v
  login-IsFit (some (username, password)) k c v e =
      let (_, _, e₁) = map_ok-ok (λ _. (on_protocol (Protocol.auth username password) k).1) _ c e in
      subst IsFit e₁ ((Total-on_protocol (Total-auth username password)).at k v).keeps

  pub manager_connect-IsFit :
      (m : ConnectionManager) (c : Connection) → manager_connect net m ≡ ok c → IsFit c
  unfolding manager_connect
  manager_connect-IsFit m c e =
      let (k, e₁, e₂) = bind-ok (connect net m.url) _ c e in
      login-IsFit (credentials net m.url) k c (connect-IsFit m.url k e₁) e₂
