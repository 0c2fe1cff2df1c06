-- ===== src/Binary/Framing.antt =====
-- What a store command writes is read by the lengths in its header as the request it is.
use rust_memcache.Prelude.{
  ℕ, ◌+◌, ◌^◌, ◌<◌, ◌≡◌, Bytes, [], ◌++◌, length, ◌==◌, if◌then◌else◌, arith, Option, some,
}
use rust_memcache.Outcome.{ok}
use rust_memcache.Exec.Talks.{Ends, Talks}
use rust_memcache.Wire.{to_be}
use rust_memcache.Stream.{Stream}
use rust_memcache.Stream.Exchange.{Ready}
use rust_memcache.Value.{ToMemcacheValue}
use rust_memcache.Packet.{Opcode, opcode_u8, Response}
use rust_memcache.Packet.RoundTrip.{IsResponse, response_bytes}
use rust_memcache.Packet.Replies.{status, failed}
use rust_memcache.Binary.{store, cas_or_zero}
use rust_memcache.Binary.Requests.{IsRequest, request_bytes}
use rust_memcache.Binary.Decode.{decode_request, decode-request_bytes}
use rust_memcache.Binary.Storing.{store_request, store_exchange}

opcode_u8-lt : (opcode : Opcode) → opcode_u8 opcode < 2 ^ 8
unfolding opcode_u8
opcode_u8-lt opcode = ground arith

store_request-IsRequest :
    (opcode : Opcode) (flags expiration cas : ℕ) (key payload : Bytes)
    → cas < 2 ^ 64
    → length key < 2 ^ 16
    → 8 + length key + length payload < 2 ^ 32
    → IsRequest (store_request opcode flags expiration key payload cas)
unfolding to_be
store_request-IsRequest opcode flags expiration cas key payload c k l = record {
  opcode = opcode_u8-lt opcode;
  cas = c;
  key = k;
  extras = omega arith;
  body = l;
}

module _ {V : Type 0} (to : ToMemcacheValue V) (value : V) (payload : Bytes)
    (writes : Talks Ready (to.write_to value) (ok tt) payload [])
    (framed : to.get_length value ≡ length payload) where
  -- What a binary store command writes on a ready socket on which a well formed response arrives is read
  -- by the lengths in its header as one request with the command's opcode, cas id, flags, expiration, key
  -- and value, whatever follows it, so that no byte of it is taken for another request's. The key is
  -- shorter than 2^16 bytes, the body shorter than 2^32, the cas id fits 64 bits, and the value writes
  -- the number of bytes that it announces.
  pub store-decode_request :
      (opcode : Opcode) (key : Bytes) (expiration : ℕ) (c : Option ℕ) (r : Response) (s : Stream)
      (w a rest : Bytes)
      → length key < 2 ^ 16
      → 8 + length key + length payload < 2 ^ 32
      → cas_or_zero c < 2 ^ 64
      → IsResponse r
      → Ready s w (response_bytes r ++ a)
      → (text : Bytes) × Ends Ready
          (store to opcode key value expiration c s)
          (if status r == 0 then ok tt else failed r)
          (w ++ text)
          a
        × (decode_request (text ++ rest)
            ≡ some (
              store_request opcode (to.get_flags value) expiration key payload (cas_or_zero c),
              rest,
            ))
  store-decode_request opcode key expiration c r s w a rest h k l i ready =
      let q = store_request opcode (to.get_flags value) expiration key payload (cas_or_zero c) in
      (
        request_bytes q,
        store_exchange to value payload writes framed opcode key expiration c r s w a h k i ready,
        decode-request_bytes q rest (
            store_request-IsRequest opcode (to.get_flags value) expiration (cas_or_zero c) key
              payload l h k),
      )
