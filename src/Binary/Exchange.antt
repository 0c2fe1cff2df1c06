-- ===== src/Binary/Exchange.antt =====
-- Whole exchanges of the other binary commands on a socket: the request that is written, byte for byte, and
-- the result that each status of the response gives.
use rust_memcache.Stream.Channels.{Ready-Reads, Ready-Writes}
use rust_memcache.Prelude.{
  ℕ, ◌+◌, ◌%◌, ◌^◌, ◌<◌, ◌≡◌, refl, Bytes, [], ◌∷◌, ◌++◌, append-nil, length, length-append, ◌==◌,
  if◌then◌else◌, arith, none, some, bytes, Bool-cases, inl, inr,
}
use rust_memcache.Outcome.{ok, map_ok}
use rust_memcache.Exec.{pure, ◌>>◌}
use rust_memcache.Exec.Talks.{
  Ends, Talks, Talks-bind, Talks-bind_err, Talks-lift_bind, Talks-subst, Talks-pure,
}
use rust_memcache.Wire.{to_be}
use rust_memcache.Stream.{Stream}
use rust_memcache.Stream.Exchange.{Ready, Talks-flush}
use rust_memcache.Stream.Exact.{Talks-write_all, Talks-write_fmt}
use rust_memcache.Value.{FromMemcacheValueExt}
use mathlib.Core.List.{flatten}
use rust_memcache.Packet.{parse_start_auth_response, Opcode, opcode_u8, magic_u8, Response}
use rust_memcache.Packet.RoundTrip.{IsResponse, response_bytes}
use rust_memcache.Packet.Replies.{
  status, failed, found, Talks-parse_delete_response, Talks-parse_touch_response,
  Talks-parse_start_auth_response, Talks-parse_counter_response, Talks-parse_get_response,
}
use rust_memcache.Binary.{send_counter, get, delete, touch, increment, decrement, auth, add_u32}
use rust_memcache.Binary.Requests.{Request, request_bytes, plain, Talks-request_header}

-- The request of `increment` and `decrement`: amount, initial value 0, expiration 0.
abbrev pub counter_request : Opcode → ℕ → Bytes → Request
counter_request opcode amount key = record {
  opcode = opcode_u8 opcode;
  cas = 0;
  extras = to_be 8 amount ++ (to_be 8 0 ++ to_be 4 0);
  key = key;
  value = [];
}

-- On a ready socket on which a well formed response arrives, which has four bytes of flags when its status
-- is 0, the binary `get` writes exactly one get request and reads exactly the response: status 0 gives the
-- value as its type reads it with its flags and cas id, status 1 gives none, any other status is its error.
-- The key is shorter than 2^16 bytes.
pub get_exchange :
    {V : Type 0} (from : FromMemcacheValueExt V) (key : Bytes) (flags : ℕ) (r : Response)
    (s : Stream) (w a : Bytes)
    → length key < 2 ^ 16
    → IsResponse r
    → flags < 2 ^ 32
    → (status r ≡ 0 → r.extras ≡ to_be 4 flags)
    → Ready s w (response_bytes r ++ a)
    → Ends Ready
        (get from key s)
        (if status r == 0
          then map_ok some (from.from_memcache_value r.value flags (some r.header.cas))
          else if status r == 1
          then ok none
          else failed r)
        (w ++ request_bytes (plain Opcode.get key))
        a
unfolding get request_bytes magic_u8
get_exchange from key flags r s w a h i f e ready =
    (Talks-subst
        (Talks-bind _
          (Talks-request_header (plain Opcode.get key) (length key % 2 ^ 16) (length key % 2 ^ 32)
            (omega arith) (omega arith))
          (Talks-bind _ (Talks-write_all key)
            (Talks-bind _ Talks-flush (Talks-parse_get_response r i from flags f e))))
        (rw append-nil) refl).at
      s w a ready

-- On a ready socket on which a well formed response arrives, the binary `delete` writes exactly one delete
-- request and reads exactly the response: status 0 gives true, status 1 gives false, any other status is
-- its error. The key is shorter than 2^16 bytes.
pub delete_exchange :
    (key : Bytes) (r : Response) (s : Stream) (w a : Bytes)
    → length key < 2 ^ 16
    → IsResponse r
    → Ready s w (response_bytes r ++ a)
    → Ends Ready (delete key s) (found r) (w ++ request_bytes (plain Opcode.delete key)) a
unfolding delete request_bytes magic_u8
delete_exchange key r s w a h i ready =
    (Talks-subst
        (Talks-bind _
          (Talks-request_header (plain Opcode.delete key) (length key % 2 ^ 16)
            (length key % 2 ^ 32) (omega arith) (omega arith))
          (Talks-bind _ (Talks-write_all key)
            (Talks-bind _ Talks-flush (Talks-parse_delete_response r i))))
        (rw append-nil) refl).at
      s w a ready

abbrev pub touch_request : Bytes → ℕ → Request
touch_request key expiration = record (plain Opcode.touch key) { extras = to_be 4 expiration }

pub add_u32_lem : (n : ℕ) → n + 4 < 2 ^ 32 → add_u32 (n % 2 ^ 32) 4 ≡ ok (n + 4)
unfolding add_u32
add_u32_lem n h = ground arith

-- On a ready socket on which a well formed response arrives, the binary `touch` writes exactly one touch
-- request with the expiration and reads exactly the response: status 0 gives true, status 1 gives false,
-- any other status is its error. The key is shorter than 2^16 bytes.
pub touch_exchange :
    (key : Bytes) (expiration : ℕ) (r : Response) (s : Stream) (w a : Bytes)
    → length key < 2 ^ 16
    → IsResponse r
    → Ready s w (response_bytes r ++ a)
    → Ends Ready
        (touch key expiration s)
        (found r)
        (w ++ request_bytes (touch_request key expiration))
        a
unfolding touch request_bytes magic_u8 to_be
touch_exchange key expiration r s w a h i ready =
    (Talks-subst
        (Talks-lift_bind _ (add_u32_lem (length key) (omega arith)) (
          Talks-bind _
            (Talks-request_header (touch_request key expiration) (length key % 2 ^ 16)
              (length key + 4) (omega arith) (omega arith))
            (Talks-bind _ (Talks-write_all _) (
              Talks-bind _ (Talks-write_all key)
                (Talks-bind _ Talks-flush (Talks-parse_touch_response r i))))))
        (rw append-nil) refl).at
      s w a ready

Talks-send_counter :
    (opcode : Opcode) (key : Bytes) (amount : ℕ)
    → length key < 2 ^ 16
    → Talks Ready
        (send_counter opcode key amount)
        (ok tt)
        (request_bytes (counter_request opcode amount key))
        []
unfolding send_counter request_bytes magic_u8 to_be
Talks-send_counter opcode key amount h =
    Talks-subst
      (Talks-bind _
        (Talks-request_header (counter_request opcode amount key) (length key % 2 ^ 16)
          ((20 + length key) % 2 ^ 32) (omega arith) (omega arith))
        (Talks-bind _ (Talks-write_all _) (
          Talks-bind _ (Talks-write_all _)
            (Talks-bind _ (Talks-write_all _) (Talks-bind _ (Talks-write_all key) Talks-flush)))))
      (rw append-nil) refl

-- On a ready socket on which a well formed response with an eight byte counter arrives, the binary
-- `increment` and `decrement` write exactly one request with the amount, initial value 0 and expiration 0,
-- and read exactly the response: status 0 gives the counter, any other status is its error. The key is
-- shorter than 2^16 bytes.
pub counter_exchange :
    (key : Bytes) (amount n : ℕ) (r : Response) (s : Stream) (w a : Bytes)
    → length key < 2 ^ 16
    → IsResponse r
    → n < 2 ^ 64
    → (status r ≡ 0 → r.value ≡ to_be 8 n)
    → Ready s w (response_bytes r ++ a)
    → Ends Ready
        (increment key amount s)
        (if status r == 0 then ok n else failed r)
        (w ++ request_bytes (counter_request Opcode.increment amount key))
        a
      × Ends Ready
          (decrement key amount s)
          (if status r == 0 then ok n else failed r)
          (w ++ request_bytes (counter_request Opcode.decrement amount key))
          a
unfolding increment decrement
counter_exchange key amount n r s w a h i b e ready = (
  (Talks-subst
        (Talks-bind _ (Talks-send_counter Opcode.increment key amount h)
          (Talks-parse_counter_response r i n b e))
        (append-nil _) refl).at
      s w a ready,
  (Talks-subst
        (Talks-bind _ (Talks-send_counter Opcode.decrement key amount h)
          (Talks-parse_counter_response r i n b e))
        (append-nil _) refl).at
      s w a ready,
)

-- The SASL PLAIN request: the mechanism as key, the credentials behind zero bytes as value.
abbrev pub auth_request : Bytes → Bytes → Request
auth_request username password = record (plain Opcode.start_auth (bytes "PLAIN")) {
  value = 0 ∷ (username ++ (0 ∷ password));
}

auth_reply :
    (r : Response)
    → IsResponse r
    → Talks Ready
        (parse_start_auth_response >> pure tt)
        (if status r == 0 then ok tt else failed r)
        []
        (response_bytes r)
auth_reply r i = elim (Bool-cases (status r == 0)) [
  | inl e ↦ rw e (
      Talks-subst
        (Talks-bind _ (rw e at (Talks-parse_start_auth_response {Fit = Ready} r i)) (Talks-pure tt))
        refl (append-nil _))
  | inr e ↦ rw e (Talks-bind_err _ (rw e at (Talks-parse_start_auth_response {Fit = Ready} r i)))
]

-- On a ready socket on which a well formed response arrives, the binary `auth` writes exactly one SASL
-- PLAIN request, whose value is the user name and the password, each behind a zero byte, and reads exactly
-- the response: status 0 is success, any other status is its error. User name and password together are
-- shorter than 2^32 - 7 bytes.
pub auth_exchange :
    (username password : Bytes) (r : Response) (s : Stream) (w a : Bytes)
    → length username + length password + 7 < 2 ^ 32
    → IsResponse r
    → Ready s w (response_bytes r ++ a)
    → Ends Ready
        (auth username password s)
        (if status r == 0 then ok tt else failed r)
        (w ++ request_bytes (auth_request username password))
        a
unfolding auth request_bytes magic_u8 flatten
auth_exchange username password r s w a h i ready =
    (Talks-subst
        (Talks-bind _
          (Talks-request_header (auth_request username password) 5
            ((5 + length username + length password + 2) % 2 ^ 32) refl
            (omega (arith, length-append {0} username (0 ∷ password))))
          (Talks-bind _ (Talks-write_all (bytes "PLAIN")) (
            Talks-bind _ (Talks-write_fmt ((0 ∷ []) ∷ username ∷ (0 ∷ []) ∷ password ∷ []))
              (Talks-bind _ Talks-flush (auth_reply r i)))))
        (simp append-nil) refl).at
      s w a ready
