-- ===== src/Binary/Gets.antt =====
-- `gets` of the binary protocol: quiet requests ended by a no-op, and hits ended by its response.
use mathlib.Core.List.{flatten, map}
use rust_memcache.Stream.Channels.{Ready-Reads, Ready-Writes}
use rust_memcache.Prelude.{
  ℕ, zero, suc, ◌+◌, ◌%◌, ◌^◌, ◌<◌, ◌≤◌, ◌≡◌, ◌≢◌, refl, sym, Bytes, List, [], ◌∷◌, ◌++◌,
  append-nil, append_assoc, length, ◌==◌, if◌then◌else◌, arith, some, bytes, true, false, All,
}
use rust_memcache.Error.{server_error, bad_response}
use rust_memcache.Outcome.{Outcome, ok, err}
use rust_memcache.Exec.{Exec, pure}
use rust_memcache.Exec.Talks.{
  Ends, Talks, Talks-bind, Talks-lift_bind, Talks-subst, Talks-pure, Talks-raise,
}
use rust_memcache.Wire.{to_be}
use rust_memcache.Stream.{Stream}
use rust_memcache.Stream.Exchange.{Ready}
use rust_memcache.Stream.Exact.{Talks-write_all}
use rust_memcache.HashMap
use rust_memcache.HashMap.{HashMap, key_bytes}
use rust_memcache.Text.Utf8.{is_utf8, string_from_utf8}
use rust_memcache.Value.{FromMemcacheValueExt}
use rust_memcache.Packet.{
  Opcode, opcode_u8, magic_u8, write_header, Response, gets_loop, gets_item, parse_gets_response,
}
use rust_memcache.Packet.RoundTrip.{
  IsResponse, response_bytes, Talks-write_header, Talks-parse_response,
}
use rust_memcache.Packet.Replies.{status, response_err_ok, cursor_read-to_be}
use rust_memcache.Binary.{request_header, write_get_kqs, gets}
use rust_memcache.Binary.Requests.{request_bytes, plain, Talks-request_header}

-- A response that brings the value `v` of `key`.
pub record IsHit {V : Type 0} (from : FromMemcacheValueExt V) (r : Response) (key : Bytes) (v : V)
    : Type 0 where
  pub framed : IsResponse r
  pub success : status r ≡ 0
  pub not_last : r.header.opcode ≢ 0x0a
  pub key_sent : r.key ≡ key
  pub text : is_utf8 key ≡ true
  pub flags : ℕ
  pub flags_fit : flags < 2 ^ 32
  pub flags_sent : r.extras ≡ to_be 4 flags
  pub read_as : from.from_memcache_value r.value flags (some r.header.cas) ≡ ok v

-- The response to the no-op.
pub record IsLast (r : Response) : Type 0 where
  pub framed : IsResponse r
  pub success : status r ≡ 0
  pub last : r.header.opcode ≡ 0x0a

-- The quiet requests of the keys.
abbrev pub quiet_requests : List Bytes → Bytes
quiet_requests [] = []
quiet_requests (key ∷ keys) = request_bytes (plain Opcode.get_kq key) ++ quiet_requests keys

abbrev pub gets_requests : List Bytes → Bytes
gets_requests keys = quiet_requests keys ++ request_bytes (plain Opcode.noop [])

Talks-write_get_kqs :
    (keys : List Bytes)
    → All (λ key. length key < 2 ^ 16) keys
    → Talks Ready (write_get_kqs keys) (ok tt) (quiet_requests keys) []
unfolding write_get_kqs magic_u8
Talks-write_get_kqs [] h = Talks-pure tt
Talks-write_get_kqs (key ∷ keys) h =
    Talks-subst
      (Talks-bind _
        (Talks-request_header (plain Opcode.get_kq key) (length key % 2 ^ 16) (length key % 2 ^ 32)
          (omega (arith, h.0)) (omega (arith, h.0)))
        (Talks-bind _ (Talks-write_all key) (Talks-write_get_kqs keys h.1)))
      (unfold request_bytes in simp (append_assoc, append-nil)) refl

Talks-noop :
    Talks Ready
      (write_header (request_header Opcode.noop))
      (ok tt)
      (request_bytes (plain Opcode.noop []))
      []
unfolding request_bytes magic_u8
Talks-noop = Talks-subst (Talks-write_header _) (sym (append-nil _)) refl

module _ {V : Type 0} (from : FromMemcacheValueExt V) where
  abbrev pub Hits : List Response → List (Bytes × V) → Type 0
  Hits [] [] = Unit
  Hits [] (kv ∷ kvs) = ⊥
  Hits (r ∷ rs) [] = ⊥
  Hits (r ∷ rs) ((k, v) ∷ kvs) = IsHit from r k v × Hits rs kvs

  utf8_lem : (bs key : Bytes) → bs ≡ key → is_utf8 key ≡ true → string_from_utf8 bs ≡ ok key
  unfolding string_from_utf8
  utf8_lem bs key p h = rw (p, h)

  Talks-gets_item :
      (next : HashMap Bytes V → Exec Stream (HashMap Bytes V)) (m : HashMap Bytes V) (r : Response)
      (key : Bytes) (v : V) {o : Outcome (HashMap Bytes V)} {u w : Bytes}
      → IsHit from r key v
      → Talks Ready (next (HashMap.insert key v m)) o u w
      → Talks Ready (gets_item from next m r) o u w
  unfolding gets_item opcode_u8
  Talks-gets_item next m r key v h t = rw (not_noop r.header.opcode h.not_last) (
      Talks-lift_bind _ (cursor_read-to_be 4 h.flags r.extras h.flags_fit h.flags_sent)
        (Talks-lift_bind _ (utf8_lem r.key key h.key_sent h.text) (Talks-lift_bind _ h.read_as t)))
    where
      not_noop : (n : ℕ) → n ≢ 0x0a → (n == 0x0a) ≡ false
      not_noop n p = ground arith

  Talks-hit :
      (n : ℕ) (m : HashMap Bytes V) (r : Response) (key : Bytes) (v : V)
      {o : Outcome (HashMap Bytes V)} {u w : Bytes}
      → IsHit from r key v
      → Talks Ready (gets_loop from n (HashMap.insert key v m)) o u w
      → Talks Ready (gets_loop from (suc n) m) o u (response_bytes r ++ w)
  unfolding gets_loop
  Talks-hit n m r key v h t = Talks-bind _ (Talks-parse_response r h.framed) (
      Talks-lift_bind _ (response_err_ok r h.success)
        (Talks-gets_item (gets_loop from n) m r key v h t))

  ended :
      (n : ℕ) (m : HashMap Bytes V) (rest : Exec Stream (HashMap Bytes V))
      → n ≡ 0x0a
      → Talks Ready (if n == 0x0a then pure m else rest) (ok m) [] []
  ended n m rest e = rw e (Talks-pure m)

  Talks-last :
      (n : ℕ) (m : HashMap Bytes V) (r : Response)
      → IsLast r
      → Talks Ready (gets_loop from (suc n) m) (ok m) [] (response_bytes r)
  unfolding gets_loop gets_item opcode_u8
  Talks-last n m r h =
      Talks-subst
        (Talks-bind _ {v' = []} (Talks-parse_response r h.framed)
          (Talks-lift_bind _ (response_err_ok r h.success) (ended r.header.opcode m _ h.last)))
        refl (append-nil _)

  Talks-gets_loop :
      (n : ℕ) (m : HashMap Bytes V) (rs : List Response) (kvs : List (Bytes × V)) (last : Response)
      → Hits rs kvs
      → IsLast last
      → length rs ≤ n
      → Talks Ready
          (gets_loop from (suc n) m)
          (ok (HashMap.extend m kvs))
          []
          (flatten (map response_bytes rs) ++ response_bytes last)
  unfolding HashMap.extend flatten
  Talks-gets_loop n m [] [] last hs l k = Talks-last n m last l
  Talks-gets_loop n m [] (kv ∷ kvs) last hs l k = absurd hs
  Talks-gets_loop n m (r ∷ rs) [] last hs l k = absurd hs
  Talks-gets_loop zero m (r ∷ rs) (kv ∷ kvs) last hs l k = absurd (omega arith)
  Talks-gets_loop (suc n) m (r ∷ rs) ((key, v) ∷ kvs) last hs l k =
      Talks-subst
        (Talks-hit (suc n) m r key v hs.0
          (Talks-gets_loop n (HashMap.insert key v m) rs kvs last hs.1 l (omega arith)))
        refl (sym (append_assoc (response_bytes r) _ _))

  Talks-too_many :
      (n : ℕ) (m : HashMap Bytes V) (rs : List Response) (kvs : List (Bytes × V))
      → Hits rs kvs
      → length rs ≡ n
      → Talks Ready
          (gets_loop from n m)
          (err (server_error (bad_response (bytes "Expected end of gets response"))))
          []
          (flatten (map response_bytes rs))
  unfolding flatten gets_loop
  Talks-too_many zero m [] [] hs k = Talks-raise _
  Talks-too_many (suc n) m [] kvs hs k = absurd (omega arith)
  Talks-too_many zero m (r ∷ rs) kvs hs k = absurd (omega arith)
  Talks-too_many zero m [] (kv ∷ kvs) hs k = absurd hs
  Talks-too_many (suc n) m (r ∷ rs) [] hs k = absurd hs
  Talks-too_many (suc n) m (r ∷ rs) ((key, v) ∷ kvs) hs k =
      Talks-hit n m r key v hs.0
        (Talks-too_many n (HashMap.insert key v m) rs kvs hs.1 (omega arith))

  -- When the server answers the quiet requests of `gets` with at most as many hits as there are keys, of
  -- any keys, and then answers the no-op, `gets` writes one quiet request for each key and the no-op,
  -- reads exactly these responses, and gives the map of the hits, a later hit over an earlier one of the
  -- same key. Each key is shorter than 2^16 bytes, and the type reads each value.
  pub gets_exchange :
      (keys : List Bytes) (rs : List Response) (kvs : List (Bytes × V)) (last : Response)
      (s : Stream) (w a : Bytes)
      → All (λ key. length key < 2 ^ 16) keys
      → Hits rs kvs
      → IsLast last
      → length rs ≤ length keys
      → Ready s w ((flatten (map response_bytes rs) ++ response_bytes last) ++ a)
      → Ends Ready (gets from keys s) (ok (HashMap.extend [] kvs)) (w ++ gets_requests keys) a
  unfolding gets parse_gets_response
  gets_exchange keys rs kvs last s w a h hs l k ready =
      (Talks-subst
          (Talks-bind _ (Talks-write_get_kqs keys h)
            (Talks-bind _ Talks-noop (Talks-gets_loop (length keys) [] rs kvs last hs l k)))
          (simp append-nil) refl).at
        s w a ready

  -- When one hit more arrives than there were keys, and no answer to the no-op before it, the binary
  -- `gets` fails with a bad response, after it wrote all its requests and read exactly these hits. Each
  -- key is shorter than 2^16 bytes, and the type reads each value.
  pub gets_too_many :
      (keys : List Bytes) (rs : List Response) (kvs : List (Bytes × V)) (s : Stream) (w a : Bytes)
      → All (λ key. length key < 2 ^ 16) keys
      → Hits rs kvs
      → length rs ≡ length keys + 1
      → Ready s w (flatten (map response_bytes rs) ++ a)
      → Ends Ready
          (gets from keys s)
          (err (server_error (bad_response (bytes "Expected end of gets response"))))
          (w ++ gets_requests keys)
          a
  unfolding gets parse_gets_response
  gets_too_many keys rs kvs s w a h hs l ready =
      (Talks-subst
          (Talks-bind _ (Talks-write_get_kqs keys h) (
            Talks-bind _ Talks-noop
              (Talks-too_many (suc (length keys)) [] rs kvs hs (omega arith))))
          (simp append-nil) refl).at
        s w a ready
