-- ===== src/Binary/Storing.antt =====
-- Whole exchanges of the binary store commands on a socket: the request that is written, byte for byte, and
-- the result that each status of the response gives. `payload` is what the value writes of itself.
use rust_memcache.Stream.Channels.{Ready-Reads, Ready-Writes}
use rust_memcache.Prelude.{
  ℕ, ◌+◌, ◌%◌, ◌^◌, ◌<◌, ◌≡◌, refl, Bytes, [], ◌++◌, append-nil, length, ◌==◌, if◌then◌else◌, arith,
  Option, some,
}
use rust_memcache.Outcome.{ok}
use rust_memcache.Exec.Talks.{Ends, Talks, Talks-bind, Talks-subst, Talks-pure}
use rust_memcache.Wire.{to_be}
use rust_memcache.Stream.{Stream}
use rust_memcache.Stream.Exchange.{Ready, Talks-flush}
use rust_memcache.Stream.Exact.{Talks-write_all}
use rust_memcache.Value.{ToMemcacheValue}
use rust_memcache.Packet.{Opcode, opcode_u8, magic_u8, Response}
use rust_memcache.Packet.RoundTrip.{IsResponse, response_bytes, Talks-parse_response}
use rust_memcache.Packet.Replies.{status, failed, stored, Talks-parse_cas_response, Talks-expect_ok}
use rust_memcache.Binary.{send_request, send_concat, store, cas, append, prepend, cas_or_zero}
use rust_memcache.Binary.Requests.{Request, request_bytes, plain, Talks-request_header}

-- The request of `set`, `add`, `replace` and `cas`.
abbrev pub store_request : Opcode → ℕ → ℕ → Bytes → Bytes → ℕ → Request
store_request opcode flags expiration key payload cas_id = record {
  opcode = opcode_u8 opcode;
  cas = cas_id;
  extras = to_be 4 flags ++ to_be 4 expiration;
  key = key;
  value = payload;
}

module _ {V : Type 0} (to : ToMemcacheValue V) (value : V) (payload : Bytes)
    (writes : Talks Ready (to.write_to value) (ok tt) payload [])
    (framed : to.get_length value ≡ length payload) where
  Talks-send_request :
      (opcode : Opcode) (key : Bytes) (expiration : ℕ) (c : Option ℕ)
      → length key < 2 ^ 16
      → 8 + length key + length payload < 2 ^ 32
      → Talks Ready
          (send_request to opcode key value expiration c)
          (ok tt)
          (request_bytes
            (store_request opcode (to.get_flags value) expiration key payload (cas_or_zero c)))
          []
  unfolding send_request request_bytes magic_u8 to_be
  Talks-send_request opcode key expiration c h k =
      Talks-subst
        (Talks-bind _
          (Talks-request_header
            (store_request opcode (to.get_flags value) expiration key payload (cas_or_zero c))
            (length key % 2 ^ 16) ((8 + length key + to.get_length value) % 2 ^ 32) (omega arith)
            (omega arith))
          (Talks-bind _ (Talks-write_all _) (
            Talks-bind _ (Talks-write_all _)
              (Talks-bind _ (Talks-write_all key) (Talks-bind _ writes Talks-flush)))))
        (rw append-nil) refl

  -- On a ready socket on which a well formed response arrives, in chunks of any size, a binary store
  -- command (set, add, replace) writes exactly one request with flags, expiration, key and value, reads
  -- exactly the response, and gives success at status 0 and the error of the status otherwise. The key is
  -- shorter than 2^16 bytes, the body shorter than 2^32, and the value writes the number of bytes that it
  -- announces.
  pub store_exchange :
      (opcode : Opcode) (key : Bytes) (expiration : ℕ) (c : Option ℕ) (r : Response) (s : Stream)
      (w a : Bytes)
      → length key < 2 ^ 16
      → 8 + length key + length payload < 2 ^ 32
      → IsResponse r
      → Ready s w (response_bytes r ++ a)
      → Ends Ready
          (store to opcode key value expiration c s)
          (if status r == 0 then ok tt else failed r)
          (w
            ++ request_bytes
                (store_request opcode (to.get_flags value) expiration key payload (cas_or_zero c)))
          a
  unfolding store
  store_exchange opcode key expiration c r s w a h k i ready =
      (Talks-subst
          (Talks-bind _ (Talks-send_request opcode key expiration c h k) (Talks-expect_ok r i))
          (append-nil _) refl).at
        s w a ready

  -- On a ready socket on which a well formed response arrives, the binary `cas` writes exactly one set
  -- request with the cas id and reads exactly the response: status 0 gives true, statuses 1 and 2
  -- (missing, exists) give false, any other status is its error. The key is shorter than 2^16 bytes, the
  -- body shorter than 2^32, and the value writes the number of bytes that it announces.
  pub cas_exchange :
      (key : Bytes) (expiration id : ℕ) (r : Response) (s : Stream) (w a : Bytes)
      → length key < 2 ^ 16
      → 8 + length key + length payload < 2 ^ 32
      → IsResponse r
      → Ready s w (response_bytes r ++ a)
      → Ends Ready
          (cas to key value expiration id s)
          (stored r)
          (w
            ++ request_bytes
                (store_request Opcode.set (to.get_flags value) expiration key payload id))
          a
  unfolding cas
  cas_exchange key expiration id r s w a h k i ready =
      (Talks-subst
          (Talks-bind _ (Talks-send_request Opcode.set key expiration (some id) h k)
            (Talks-parse_cas_response r i))
          (append-nil _) refl).at
        s w a ready

  Talks-send_concat :
      (opcode : Opcode) (key : Bytes)
      → length key < 2 ^ 16
      → length key + length payload < 2 ^ 32
      → Talks Ready
          (send_concat to opcode key value)
          (ok tt)
          (request_bytes (record (plain opcode key) { value = payload }))
          []
  unfolding send_concat request_bytes magic_u8
  Talks-send_concat opcode key h k =
      Talks-subst
        (Talks-bind _
          (Talks-request_header (record (plain opcode key) { value = payload })
            (length key % 2 ^ 16) ((length key + to.get_length value) % 2 ^ 32) (omega arith)
            (omega arith))
          (Talks-bind _ (Talks-write_all key) (Talks-bind _ writes Talks-flush)))
        (rw append-nil) refl

  -- On a ready socket on which a well formed response arrives, the binary `append` writes exactly one
  -- append request with key and value and reads exactly the response: status 0 is success, any other
  -- status is its error. The key is shorter than 2^16 bytes, the body shorter than 2^32, and the value
  -- writes the number of bytes that it announces.
  pub append_exchange :
      (key : Bytes) (r : Response) (s : Stream) (w a : Bytes)
      → length key < 2 ^ 16
      → length key + length payload < 2 ^ 32
      → IsResponse r
      → Ready s w (response_bytes r ++ a)
      → Ends Ready
          (append to key value s)
          (if status r == 0 then ok tt else failed r)
          (w ++ request_bytes (record (plain Opcode.append key) { value = payload }))
          a
  unfolding append
  append_exchange key r s w a h k i ready =
      (Talks-subst (Talks-bind _ (Talks-send_concat Opcode.append key h k) (Talks-expect_ok r i))
          (append-nil _) refl).at
        s w a ready

  -- On a ready socket on which a well formed response arrives, the binary `prepend` writes exactly one
  -- prepend request with key and value, reads exactly the response, and gives success whatever its status
  -- is. The key is shorter than 2^16 bytes, the body shorter than 2^32, and the value writes the number
  -- of bytes that it announces.
  pub prepend_exchange :
      (key : Bytes) (r : Response) (s : Stream) (w a : Bytes)
      → length key < 2 ^ 16
      → length key + length payload < 2 ^ 32
      → IsResponse r
      → Ready s w (response_bytes r ++ a)
      → Ends Ready
          (prepend to key value s)
          (ok tt)
          (w ++ request_bytes (record (plain Opcode.prepend key) { value = payload }))
          a
  unfolding prepend
  prepend_exchange key r s w a h k i ready =
      (Talks-subst
          (Talks-bind _ (Talks-send_concat Opcode.prepend key h k)
            (Talks-bind _ (Talks-parse_response r i) (Talks-pure tt)))
          (append-nil _) (append-nil _)).at
        s w a ready
