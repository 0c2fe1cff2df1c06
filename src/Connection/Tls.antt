-- ===== src/Connection/Tls.antt =====
-- When a url leads to a TLS connection, and how its certificates are checked.
use rust_memcache.Prelude.{
  ℕ, ◌≡◌, refl, ap, ◌∙◌, Bytes, bytes, bytes_eq, Option, none, some, is_none, Bool-cases, inl, inr,
  if◌then◌else◌, ◌++◌, ◌∷◌, [], ◌==◌, ◌&&◌, arith, bytes_eq→eq,
}
use rust_memcache.Outcome.{Outcome, ok, bind-ok, map_ok-ok, ok-inj}
use mathlib.Core.Path.{subst}
use rust_memcache.Url.{Url, find_param, any_param}
use rust_memcache.Connection.FromUrl.{
  Transport, TlsOptions, SslVerifyMode, unverified, peer, get_param, read_verify_mode,
  check_key_pair, split_plus, tcp_options, tls_options, transport_for, from_url,
}

-- The verification that the parameter `verify_mode` asks for: none only for "none".
abbrev pub asked_verification : Option Bytes → SslVerifyMode
asked_verification none = peer
asked_verification (some mode) = if bytes_eq mode (bytes "none") then unverified else peer

read_verify_mode-asked :
    (o : Option Bytes) (mode : SslVerifyMode)
    → read_verify_mode o ≡ ok mode
    → mode ≡ asked_verification o
unfolding read_verify_mode
read_verify_mode-asked none mode e = cc
read_verify_mode-asked (some text) mode e = ground arith

check_key_pair-both :
    (key cert : Option Bytes) (u : Unit {0})
    → check_key_pair key cert ≡ ok u
    → is_none key ≡ is_none cert
unfolding check_key_pair
check_key_pair-both none none u e = refl
check_key_pair-both (some key) (some cert) u e = refl
check_key_pair-both (some key) none u e = cc
check_key_pair-both none (some cert) u e = cc

-- What TLS options say of the url that they are read from.
pub record TlsFrom (url : Url) (o : TlsOptions) : Type 0 where
  pub verification :
      o.verify_mode ≡ asked_verification (find_param (bytes "verify_mode") url.query_pairs)
  pub ca : o.ca_path ≡ find_param (bytes "ca_path") url.query_pairs
  pub key : o.key_path ≡ find_param (bytes "key_path") url.query_pairs
  pub cert : o.cert_path ≡ find_param (bytes "cert_path") url.query_pairs
  pub both : is_none o.key_path ≡ is_none o.cert_path

-- A scheme with a "+" is put together again from what comes in front of the first one and behind it.
split_plus-join :
    (s : Bytes) {first rest : Bytes}
    → split_plus s ≡ (first, some rest)
    → s ≡ first ++ (bytes "+" ++ rest)
unfolding split_plus
split_plus-join [] e = cc
split_plus-join (c ∷ s) {first} {rest} e = elim (Bool-cases (c == 43)) [
  | inl h ↦
      let plus : c ≡ 43 = ground arith in
      let x = rw h at e in cc (plus, ap (λ p. p.0) x, ap (λ p. p.1) x)
  | inr h ↦
      let x = rw h at e in
      let again = split_plus-join s (ap (λ p. ((split_plus s).0, p.1)) x) in
      ap (λ t. c ∷ t) again ∙ ap (λ f. f ++ (bytes "+" ++ rest)) (ap (λ p. p.0) x)
]

tls-inj : (x y : TlsOptions) → Transport.tls x ≡ Transport.tls y → x ≡ y
tls-inj x y h = cc

module _ (seconds : Bytes → Option (Outcome ℕ)) where
  tls_options-TlsFrom :
      (url : Url) (o : TlsOptions) → tls_options seconds url ≡ ok o → TlsFrom url o
  unfolding tls_options get_param
  tls_options-TlsFrom url o e =
      let (mode, p, q) =
        bind-ok (read_verify_mode (find_param (bytes "verify_mode") url.query_pairs)) _ o e in
      let (u, p', q') =
        bind-ok
          (check_key_pair (find_param (bytes "key_path") url.query_pairs)
            (find_param (bytes "cert_path") url.query_pairs))
          _ o q in
      let (tcp, p'', q'') = bind-ok (tcp_options seconds url) _ o q' in
      let same = read_verify_mode-asked (find_param (bytes "verify_mode") url.query_pairs) mode p in
      let both =
        check_key_pair-both (find_param (bytes "key_path") url.query_pairs)
          (find_param (bytes "cert_path") url.query_pairs) u p' in
      subst (TlsFrom url) (ok-inj _ o q'')
        (record { verification = same; ca = refl; key = refl; cert = refl; both = both })

  -- Only the scheme "memcache+tls" leads to TLS.
  transport_for-tls :
      (rest : Option Bytes) (url : Url) (o : TlsOptions)
      → transport_for seconds rest url ≡ ok (Transport.tls o)
      → (rest ≡ some (bytes "tls")) × (tls_options seconds url ≡ ok o)
  unfolding transport_for
  transport_for-tls none url o e =
      elim (Bool-cases (any_param (bytes "udp") (bytes "true") url.query_pairs)) [
        | inl u ↦ let no = rw u at e in cc
        | inr u ↦ elim (Bool-cases (is_none url.host && is_none url.port)) [
          | inl h ↦ let no = rw (u, h) at e in cc
          | inr h ↦
              let (t, p, q) =
                map_ok-ok Transport.tcp (tcp_options seconds url) (Transport.tls o)
                  (rw (u, h) at e) in
              cc
        ]
      ]
  transport_for-tls (some proto) url o e = elim (Bool-cases (bytes_eq proto (bytes "tcp"))) [
    | inl t ↦
        let (x, p, q) =
          map_ok-ok Transport.tcp (tcp_options seconds url) (Transport.tls o) (rw t at e) in
        cc
    | inr t ↦ elim (Bool-cases (bytes_eq proto (bytes "udp"))) [
      | inl u ↦ let no = rw (t, u) at e in cc
      | inr u ↦ elim (Bool-cases (bytes_eq proto (bytes "unix"))) [
        | inl x ↦ let no = rw (t, u, x) at e in cc
        | inr x ↦ elim (Bool-cases (bytes_eq proto (bytes "tls"))) [
          | inl s ↦
              let (y, p, q) =
                map_ok-ok Transport.tls (tls_options seconds url) (Transport.tls o)
                  (rw (t, u, x, s) at e) in
              (ap some (bytes_eq→eq proto (bytes "tls") s), p ∙ ap ok (tls-inj y o q))
          | inr s ↦ let no = rw (t, u, x, s) at e in cc
        ]
      ]
    ]
  ]

  -- A url leads to a TLS connection only if its scheme is the text "memcache+tls". The server's
  -- certificate is then left unverified only if the first parameter `verify_mode` of the url is "none";
  -- the paths of the CA file, the key and the certificate are those of the url, and there is a key
  -- exactly when there is a certificate.
  pub from_url-TlsFrom :
      (url : Url) (o : TlsOptions)
      → from_url seconds url ≡ ok (Transport.tls o)
      → (url.scheme ≡ bytes "memcache+tls") × TlsFrom url o
  unfolding from_url
  from_url-TlsFrom url o e =
      elim (Bool-cases (bytes_eq (split_plus url.scheme).0 (bytes "memcache"))) [
        | inl m ↦
            let (p, q) = transport_for-tls (split_plus url.scheme).1 url o (rw m at e) in
            (
              split_plus-join url.scheme (
                  ap (λ first. (first, (split_plus url.scheme).1))
                    (bytes_eq→eq _ (bytes "memcache") m)
                  ∙ ap (λ rest. (bytes "memcache", rest)) p),
              tls_options-TlsFrom url o q,
            )
        | inr m ↦ let no = rw m at e in cc
      ]
