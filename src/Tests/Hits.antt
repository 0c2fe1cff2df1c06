-- ===== src/Tests/Hits.antt =====
-- Responses to `gets` for the examples.
use rust_memcache.Prelude.{refl, Bytes, bytes, [], ◌∷◌, arith}
use rust_memcache.Wire.{to_be}
use rust_memcache.Value.{from_bytes, without_cas}
use rust_memcache.Packet.{Response}
use rust_memcache.Binary.Gets.{IsHit, IsLast}
use rust_memcache.Tests.Channels.{reply, reply-IsResponse}

abbrev pub flags_5 : Bytes
flags_5 = 0 ∷ 0 ∷ 0 ∷ 5 ∷ []

abbrev pub hit_of : Bytes → Bytes → Response
hit_of key value = reply 0x0d 0 9 flags_5 key value

abbrev pub last_reply : Response
last_reply = reply 0x0a 0 0 [] [] []

pub last_reply-IsLast : IsLast last_reply
last_reply-IsLast = record {
  framed =
      reply-IsResponse 0x0a 0 0 [] [] [] (omega arith) (omega arith) (omega arith) (omega arith)
        (omega arith) (omega arith);
  success = refl;
  last = refl;
}

pub foo-IsHit :
    IsHit (without_cas from_bytes) (hit_of (bytes "foo") (bytes "bar")) (bytes "foo") (bytes "bar")
unfolding to_be rust_memcache.Text.Utf8.is_utf8
foo-IsHit = record {
  framed =
      reply-IsResponse 0x0d 0 9 flags_5 (bytes "foo") (bytes "bar") (omega arith) (omega arith)
        (omega arith) (omega arith) (omega arith) (omega arith);
  success = refl;
  not_last = omega arith;
  key_sent = refl;
  text = refl;
  flags = 5;
  flags_fit = omega arith;
  flags_sent = refl;
  read_as = refl;
}

pub ab-IsHit :
    IsHit (without_cas from_bytes) (hit_of (bytes "ab") (bytes "cd")) (bytes "ab") (bytes "cd")
unfolding to_be rust_memcache.Text.Utf8.is_utf8
ab-IsHit = record {
  framed =
      reply-IsResponse 0x0d 0 9 flags_5 (bytes "ab") (bytes "cd") (omega arith) (omega arith)
        (omega arith) (omega arith) (omega arith) (omega arith);
  success = refl;
  not_last = omega arith;
  key_sent = refl;
  text = refl;
  flags = 5;
  flags_fit = omega arith;
  flags_sent = refl;
  read_as = refl;
}
