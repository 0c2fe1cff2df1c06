-- ===== src/Binary/Requests.antt =====
-- The requests of the binary protocol as the memcached documentation lays them out, a reader of them that
-- goes by the lengths in the header, and that the client writes nothing else.
use rust_memcache.Prelude.{
  ℕ, ◌+◌, ◌%◌, ◌^◌, ◌<◌, ◌≡◌, refl, Bytes, [], ◌++◌, append-nil, length, arith,
}
use rust_memcache.Outcome.{ok}
use rust_memcache.Exec.{◌>>=◌}
use rust_memcache.Exec.Talks.{Talks, Talks-bind, Talks-subst}
use rust_memcache.Stream
use rust_memcache.Stream.{Stream}
use rust_memcache.Stream.Channels.{Ready-Reads, Ready-Writes, Writes}
use rust_memcache.Stream.Exchange.{Ready}
use rust_memcache.Stream.Exact.{Talks-write_all}
use rust_memcache.Packet.{PacketHeader, Opcode, opcode_u8, write_header, magic_u8}
use rust_memcache.Packet.RoundTrip.{header_bytes, Talks-write_header}
use rust_memcache.Binary.{key_header}

pub record Request : Type 0 where
  pub opcode : ℕ
  pub cas : ℕ
  pub extras : Bytes
  pub key : Bytes
  pub value : Bytes

-- The header of a request: magic 0x80, the lengths, and zero for data type, vbucket and opaque.
abbrev pub header_for : Request → PacketHeader
header_for r = record {
  magic = 0x80;
  opcode = r.opcode;
  key_length = length r.key;
  extras_length = length r.extras;
  data_type = 0;
  vbucket_id_or_status = 0;
  total_body_length = length r.extras + length r.key + length r.value;
  opaque = 0;
  cas = r.cas;
}

unfoldable pub request_bytes : Request → Bytes
request_bytes r = header_bytes (header_for r) ++ (r.extras ++ (r.key ++ r.value))

-- Everything fits its field.
pub record IsRequest (r : Request) : Type 0 where
  pub opcode : r.opcode < 2 ^ 8
  pub cas : r.cas < 2 ^ 64
  pub key : length r.key < 2 ^ 16
  pub extras : length r.extras < 2 ^ 8
  pub body : length r.extras + length r.key + length r.value < 2 ^ 32

abbrev pub plain : Opcode → Bytes → Request
plain opcode key = record { opcode = opcode_u8 opcode; cas = 0; extras = []; key = key; value = [] }

module _ {Fit : Stream → Bytes → Bytes → Type 0} ⦃c : Writes Fit⦄ where
  -- The header that the client builds is that of the request, when the casts of the lengths keep them.
  pub Talks-request_header :
      (r : Request) (k t : ℕ)
      → k ≡ length r.key
      → t ≡ length r.extras + length r.key + length r.value
      → Talks Fit
          (write_header (record (header_for r) { key_length = k; total_body_length = t }))
          (ok tt)
          (header_bytes (header_for r))
          []
  Talks-request_header r k t p q =
      let same : record (header_for r) { key_length = k; total_body_length = t } ≡ header_for r =
        λ i. record (header_for r) { key_length = p i; total_body_length = q i } in
      rw same (Talks-write_header (header_for r))

pub Talks-key_request :
    (opcode : Opcode) (key : Bytes)
    → length key < 2 ^ 16
    → Talks Ready
        (write_header (key_header opcode key) >>= λ _. Stream.write_all key)
        (ok tt)
        (request_bytes (plain opcode key))
        []
unfolding request_bytes magic_u8
Talks-key_request opcode key h =
    Talks-subst
      (Talks-bind _
        (Talks-request_header (plain opcode key) (length key % 2 ^ 16) (length key % 2 ^ 32)
          (omega arith) (omega arith))
        (Talks-write_all key))
      (rw append-nil) refl
