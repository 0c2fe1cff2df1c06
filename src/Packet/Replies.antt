-- ===== src/Packet/Replies.antt =====
-- What each parser makes of a response, status by status.
use rust_memcache.Prelude.{
  ==_iff, Bool-cases, inl, inr, ℕ, ◌^◌, ◌<◌, ◌≡◌, ◌≢◌, refl, Bytes, Bool, true, false, [],
  append-nil, length, le→ltb, take_all, ap, ◌∙◌, ◌==◌, if◌then◌else◌, arith, none, some,
}
use rust_memcache.Error.{command_error, command_error_from}
use rust_memcache.Outcome.{Outcome, ok, err, map_ok}
use rust_memcache.Exec.{on_result, pure, lift, ◌>>=◌}
use rust_memcache.Exec.Talks.{Talks, Talks-value, Talks-bind, Talks-subst}
use rust_memcache.Wire.{to_be}
use rust_memcache.Wire.RoundTrip.{from_be-to_be, length-to_be}
use rust_memcache.Stream.{Stream}
use rust_memcache.Stream.Channels.{Reads}
use rust_memcache.Text.Utf8.{string_from_utf8}
use rust_memcache.Value.{FromMemcacheValueExt}
use rust_memcache.Packet.{
  Response, response_err, expect_ok, parse_delete_response, parse_touch_response,
  parse_cas_response, parse_get_response, parse_counter_response, parse_version_response,
  parse_start_auth_response, cursor_read,
}
use rust_memcache.Packet.RoundTrip.{IsResponse, response_bytes, Talks-parse_response}

abbrev pub status : Response → ℕ
status r = r.header.vbucket_id_or_status

-- The error that a status stands for.
abbrev pub failed : {A : Type 0} → Response → Outcome A
failed r = err (command_error (command_error_from (status r)))

pub response_err_ok : (r : Response) → status r ≡ 0 → response_err r ≡ ok r
unfolding response_err
response_err_ok r h = ground arith

response_err-failed : (r : Response) → status r ≢ 0 → response_err r ≡ failed r
unfolding response_err
response_err-failed r h = ground arith

-- Status 0 is true, "not found" is false, all else is an error.
abbrev pub found : Response → Outcome Bool
found r = if status r == 0 then ok true else if status r == 1 then ok false else failed r

-- A mismatch of the cas id ("exists") is false too.
abbrev pub stored : Response → Outcome Bool
stored r =
    if status r == 0
    then ok true
    else if status r == 1
    then ok false
    else if status r == 2
    then ok false
    else failed r

pub cursor_read-to_be :
    (w n : ℕ) (bs : Bytes) → n < 256 ^ w → bs ≡ to_be w n → cursor_read w bs ≡ ok n
unfolding cursor_read
cursor_read-to_be w n bs h e =
    let l : length bs ≡ w = ap length e ∙ length-to_be w n in
    rw (le→ltb (length bs) w (omega arith), take_all w bs (omega arith), e, from_be-to_be w n h)

module _ {Fit : Stream → Bytes → Bytes → Type 0} ⦃c : Reads Fit⦄ (r : Response)
    (i : IsResponse r) where
  pub Talks-parse_delete_response : Talks Fit parse_delete_response (found r) [] (response_bytes r)
  unfolding parse_delete_response on_result pure
  Talks-parse_delete_response =
      Talks-subst (Talks-bind _ (Talks-parse_response r i) (Talks-value (λ s. ground arith))) refl
        (append-nil _)

  pub Talks-parse_touch_response : Talks Fit parse_touch_response (found r) [] (response_bytes r)
  unfolding parse_touch_response on_result pure
  Talks-parse_touch_response =
      Talks-subst (Talks-bind _ (Talks-parse_response r i) (Talks-value (λ s. ground arith))) refl
        (append-nil _)

  pub Talks-parse_cas_response : Talks Fit parse_cas_response (stored r) [] (response_bytes r)
  unfolding parse_cas_response on_result pure
  Talks-parse_cas_response =
      Talks-subst (Talks-bind _ (Talks-parse_response r i) (Talks-value (λ s. ground arith))) refl
        (append-nil _)

  pub Talks-expect_ok :
      Talks Fit expect_ok (if status r == 0 then ok tt else failed r) [] (response_bytes r)
  unfolding pure response_err lift ◌>>=◌
  Talks-expect_ok =
      Talks-subst (Talks-bind _ (Talks-parse_response r i) (Talks-value (λ s. ground arith))) refl
        (append-nil _)

  pub Talks-parse_version_response :
      Talks Fit parse_version_response
        (if status r == 0 then string_from_utf8 r.value else failed r)
        []
        (response_bytes r)
  unfolding parse_version_response response_err lift ◌>>=◌
  Talks-parse_version_response =
      Talks-subst (Talks-bind _ (Talks-parse_response r i) (Talks-value (λ s. ground arith))) refl
        (append-nil _)

  pub Talks-parse_start_auth_response :
      Talks Fit parse_start_auth_response
        (if status r == 0 then ok true else failed r)
        []
        (response_bytes r)
  unfolding parse_start_auth_response response_err lift pure ◌>>=◌
  Talks-parse_start_auth_response =
      Talks-subst (Talks-bind _ (Talks-parse_response r i) (Talks-value (λ s. ground arith))) refl
        (append-nil _)

  -- The number in the value of a counter's response.
  pub Talks-parse_counter_response :
      (n : ℕ)
      → n < 2 ^ 64
      → (status r ≡ 0 → r.value ≡ to_be 8 n)
      → Talks Fit parse_counter_response
          (if status r == 0 then ok n else failed r)
          []
          (response_bytes r)
  unfolding parse_counter_response response_err lift ◌>>=◌
  Talks-parse_counter_response n h e =
      Talks-subst
        (Talks-bind _ (Talks-parse_response r i) (
          Talks-value (λ s. elim (Bool-cases (status r == 0)) [
            | inl q ↦
                let f = cursor_read-to_be 8 n r.value h (e ((==_iff (status r) 0).0 q)) in
                ground (arith, f)
            | inr q ↦ ground arith
          ])))
        refl (append-nil _)

  -- The flags stand in the extras of a hit.
  pub Talks-parse_get_response :
      {V : Type 0} (from : FromMemcacheValueExt V) (flags : ℕ)
      → flags < 2 ^ 32
      → (status r ≡ 0 → r.extras ≡ to_be 4 flags)
      → Talks Fit
          (parse_get_response from)
          (if status r == 0
            then map_ok some (from.from_memcache_value r.value flags (some r.header.cas))
            else if status r == 1
            then ok none
            else failed r)
          []
          (response_bytes r)
  unfolding parse_get_response response_err lift on_result pure ◌>>=◌
  Talks-parse_get_response from flags h e =
      Talks-subst
        (Talks-bind _ (Talks-parse_response r i) (
          Talks-value (λ s. elim (Bool-cases (status r == 0)) [
            | inl q ↦
                let f = cursor_read-to_be 4 flags r.extras h (e ((==_iff (status r) 0).0 q)) in
                ground (arith, f)
            | inr q ↦ ground arith
          ])))
        refl (append-nil _)
