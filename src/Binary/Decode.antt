-- ===== src/Binary/Decode.antt =====
-- A server's reading of the requests: by the lengths in the header.
use rust_memcache.Prelude.{
  ℕ, ◌+◌, ◌-◌, ◌≡◌, refl, ap, ◌∙◌, Bytes, ◌++◌, append_assoc, length, length-append, take, drop,
  take_prefix, drop_prefix, ◌==◌, if◌then◌else◌, arith, Option, none, some,
}
use rust_memcache.Wire.{to_be, from_be}
use rust_memcache.Wire.RoundTrip.{from_be-to_be}
use rust_memcache.Packet.RoundTrip.{header_bytes}
use rust_memcache.Binary.Requests.{Request, IsRequest, request_bytes}

-- The field of `w` bytes at offset `o`.
abbrev field_at : ℕ → ℕ → Bytes → ℕ
field_at o w bs = from_be (take w (drop o bs))

-- The body of `n` bytes, cut by the lengths of extras and key, and what follows it.
unfoldable pub decode_request : Bytes → Option (Request × Bytes)
decode_request bs =
    if field_at 0 1 bs == 0x80
    then (let body = drop 24 bs in
        let extras_length = field_at 4 1 bs in
        let key_length = field_at 2 2 bs in
        let total = field_at 8 4 bs in
        some (
          record {
            opcode = field_at 1 1 bs;
            cas = field_at 16 8 bs;
            extras = take extras_length body;
            key = take key_length (drop extras_length body);
            value =
                take (total - extras_length - key_length)
                  (drop key_length (drop extras_length body));
          },
          drop total body,
        ))
    else none

drop_total :
    (x y z rest : Bytes) → drop (length x + length y + length z) (x ++ (y ++ (z ++ rest))) ≡ rest
drop_total x y z rest =
    let e : x ++ (y ++ (z ++ rest)) ≡ (x ++ (y ++ z)) ++ rest = simp append_assoc in
    rw e (
      drop_prefix _ (x ++ (y ++ z)) rest
        (omega (arith, length-append {0} x (y ++ z), length-append {0} y z)))

decode_fields :
    (bs : Bytes) (r : Request) (rest : Bytes)
    → field_at 0 1 bs ≡ 0x80
    → field_at 1 1 bs ≡ r.opcode
    → field_at 2 2 bs ≡ length r.key
    → field_at 4 1 bs ≡ length r.extras
    → field_at 8 4 bs ≡ length r.extras + length r.key + length r.value
    → field_at 16 8 bs ≡ r.cas
    → drop 24 bs ≡ r.extras ++ (r.key ++ (r.value ++ rest))
    → decode_request bs ≡ some (r, rest)
unfolding decode_request
decode_fields bs r rest m o k x t c body =
    let v : length r.extras + length r.key + length r.value - length r.extras - length r.key
        ≡ length r.value =
      omega arith in
    rw (
      m,
      o,
      k,
      x,
      t,
      c,
      body,
      v,
      take_prefix (length r.extras) r.extras _ refl,
      drop_prefix (length r.extras) r.extras _ refl,
      take_prefix (length r.key) r.key _ refl,
      drop_prefix (length r.key) r.key _ refl,
      take_prefix (length r.value) r.value _ refl,
      drop_total r.extras r.key r.value rest,
    )

-- A request is read back, whatever follows it: the lengths in the header are right, so that no byte of one
-- request is taken for another's.
pub decode-request_bytes :
    (r : Request) (rest : Bytes)
    → IsRequest r
    → decode_request (request_bytes r ++ rest) ≡ some (r, rest)
unfolding request_bytes header_bytes to_be
decode-request_bytes r rest i =
    decode_fields (request_bytes r ++ rest) r rest (from_be-to_be 1 0x80 (omega arith))
      (from_be-to_be 1 r.opcode i.opcode) (from_be-to_be 2 (length r.key) i.key)
      (from_be-to_be 1 (length r.extras) i.extras)
      (from_be-to_be 4 (length r.extras + length r.key + length r.value) i.body)
      (from_be-to_be 8 r.cas i.cas)
      (append_assoc r.extras _ rest ∙ ap (λ l. r.extras ++ l) (append_assoc r.key r.value rest))
