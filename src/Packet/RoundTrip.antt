-- ===== src/Packet/RoundTrip.antt =====
-- The header and the response packets as byte sequences, and that they are read as they were written.
use rust_memcache.Prelude.{
  ℕ, ◌+◌, ◌^◌, ◌<◌, ◌≡◌, refl, Bytes, [], ◌++◌, append-nil, length, arith, ◌==◌, ==_iff, sym, true,
}
use rust_memcache.Outcome.{ok}
use rust_memcache.Exec.Talks.{Ends, Talks, Talks-pure, Talks-bind, Talks-lift_bind, Talks-subst}
use rust_memcache.Wire.{to_be}
use rust_memcache.Wire.RoundTrip.{from_be-to_be, length-to_be}
use rust_memcache.Stream.{Stream}
use rust_memcache.Stream.Exchange.{Ready}
use rust_memcache.Stream.Channels.{Ready-Reads, Ready-Writes, Reads, Writes}
use rust_memcache.Packet.{
  PacketHeader, Response, write_header, read_header, read_fields, parse_response, checked_sub,
  read_be,
}

-- The layout of a header: 24 bytes.
unfoldable pub header_bytes : PacketHeader → Bytes
header_bytes h =
    to_be 1 h.magic
    ++ (to_be 1 h.opcode
        ++ (to_be 2 h.key_length
            ++ (to_be 1 h.extras_length
                ++ (to_be 1 h.data_type
                    ++ (to_be 2 h.vbucket_id_or_status
                        ++ (to_be 4 h.total_body_length ++ (to_be 4 h.opaque ++ to_be 8 h.cas)))))))

-- The fields fit the machine types of the struct.
pub record IsWire (h : PacketHeader) : Type 0 where
  pub magic : h.magic < 2 ^ 8
  pub opcode : h.opcode < 2 ^ 8
  pub key_length : h.key_length < 2 ^ 16
  pub extras_length : h.extras_length < 2 ^ 8
  pub data_type : h.data_type < 2 ^ 8
  pub vbucket_id_or_status : h.vbucket_id_or_status < 2 ^ 16
  pub total_body_length : h.total_body_length < 2 ^ 32
  pub opaque : h.opaque < 2 ^ 32
  pub cas : h.cas < 2 ^ 64

-- A response whose lengths are those that its header states.
pub record IsResponse (r : Response) : Type 0 where
  pub wire : IsWire r.header
  pub magic : r.header.magic ≡ 0x81
  pub key_length : r.header.key_length ≡ length r.key
  pub extras_length : r.header.extras_length ≡ length r.extras
  pub total_body_length :
      r.header.total_body_length ≡ length r.extras + length r.key + length r.value

unfoldable pub response_bytes : Response → Bytes
response_bytes r = header_bytes r.header ++ (r.extras ++ (r.key ++ r.value))

module _ {Fit : Stream → Bytes → Bytes → Type 0} ⦃c : Reads Fit⦄ where
  pub Talks-read_be : (w n : ℕ) → n < 256 ^ w → Talks Fit (read_be w) (ok n) [] (to_be w n)
  Talks-read_be w n h =
      Talks-subst
        (Talks-bind _ (c.talks w (to_be w n) (length-to_be w n))
          (rw (from_be-to_be w n h) (Talks-pure n)))
        refl (append-nil (to_be w n))

pub length-header_bytes : (h : PacketHeader) → length (header_bytes h) ≡ 24
unfolding header_bytes to_be
length-header_bytes h = refl

module _ {Fit : Stream → Bytes → Bytes → Type 0} ⦃c : Writes Fit⦄ where
  pub Talks-write_header :
      (h : PacketHeader) → Talks Fit (write_header h) (ok tt) (header_bytes h) []
  unfolding write_header header_bytes
  Talks-write_header h = Talks-bind _ (c.talks _) (
      Talks-bind _ (c.talks _) (
        Talks-bind _ (c.talks _) (
          Talks-bind _ (c.talks _) (
            Talks-bind _ (c.talks _) (
              Talks-bind _ (c.talks _)
                (Talks-bind _ (c.talks _) (Talks-bind _ (c.talks _) (c.talks _))))))))

-- The fields behind the magic byte.
field_bytes : PacketHeader → Bytes
field_bytes h =
    to_be 1 h.opcode
    ++ (to_be 2 h.key_length
        ++ (to_be 1 h.extras_length
            ++ (to_be 1 h.data_type
                ++ (to_be 2 h.vbucket_id_or_status
                    ++ (to_be 4 h.total_body_length
                        ++ (to_be 4 h.opaque ++ (to_be 8 h.cas ++ [])))))))

module _ {Fit : Stream → Bytes → Bytes → Type 0} ⦃c : Reads Fit⦄ where
  Talks-read_fields :
      (h : PacketHeader) → IsWire h → Talks Fit (read_fields h.magic) (ok h) [] (field_bytes h)
  unfolding read_fields field_bytes
  Talks-read_fields h i = Talks-bind _ (Talks-read_be 1 h.opcode i.opcode) (
      Talks-bind _ (Talks-read_be 2 h.key_length i.key_length) (
        Talks-bind _ (Talks-read_be 1 h.extras_length i.extras_length) (
          Talks-bind _ (Talks-read_be 1 h.data_type i.data_type) (
            Talks-bind _ (Talks-read_be 2 h.vbucket_id_or_status i.vbucket_id_or_status) (
              Talks-bind _ (Talks-read_be 4 h.total_body_length i.total_body_length) (
                Talks-bind _ (Talks-read_be 4 h.opaque i.opaque)
                  (Talks-bind _ (Talks-read_be 8 h.cas i.cas) (Talks-pure h))))))))

magic_test : (h : PacketHeader) → h.magic ≡ 0x81 → (h.magic == 0x81) ≡ true
magic_test h m = (==_iff h.magic 0x81).1 m

field_bytes-nil : (h : PacketHeader) → to_be 1 h.magic ++ field_bytes h ≡ header_bytes h
unfolding field_bytes header_bytes
field_bytes-nil h = rw append-nil

module _ {Fit : Stream → Bytes → Bytes → Type 0} ⦃c : Reads Fit⦄ where
  pub Talks-read_header :
      (h : PacketHeader)
      → IsWire h
      → h.magic ≡ 0x81
      → Talks Fit read_header (ok h) [] (header_bytes h)
  unfolding read_header
  Talks-read_header h i m =
      Talks-subst
        (Talks-bind _ {r = ok h} {u' = []} {v' = field_bytes h} (Talks-read_be 1 h.magic i.magic)
          (rw (magic_test h m) (Talks-read_fields h i)))
        refl (field_bytes-nil h)

checked_sub_lem : (a b c : ℕ) → a ≡ c + b → checked_sub a b ≡ ok c
unfolding checked_sub
checked_sub_lem a b c h = ground arith

module _ {Fit : Stream → Bytes → Bytes → Type 0} ⦃c : Reads Fit⦄ where
  pub Talks-parse_response :
      (r : Response) → IsResponse r → Talks Fit parse_response (ok r) [] (response_bytes r)
  unfolding parse_response response_bytes
  Talks-parse_response r i =
      Talks-subst
        (Talks-bind _ (Talks-read_header r.header i.wire i.magic) (
          Talks-bind _ (c.talks _ r.extras (sym i.extras_length)) (
            Talks-bind _ (c.talks _ r.key (sym i.key_length)) (
              Talks-lift_bind _
                (checked_sub_lem _ _ (length r.extras + length r.value) (omega arith))
                (Talks-lift_bind _ (checked_sub_lem _ _ (length r.value) (omega arith))
                  (Talks-bind _ (c.talks _ r.value refl) (Talks-pure r)))))))
        refl (rw append-nil)

-- When a response whose lengths are those of its header arrives, in chunks of any size and with anything
-- behind it, `parse_response` gives that response, writes nothing, and leaves what is behind it.
pub parse_response_lem :
    (r : Response) (s : Stream) (w a : Bytes)
    → IsResponse r
    → Ready s w (response_bytes r ++ a)
    → Ends Ready (parse_response s) (ok r) w a
parse_response_lem r s w a i ready =
    rw (append-nil w) at ((Talks-parse_response {Fit = Ready} r i).at s w a ready)
