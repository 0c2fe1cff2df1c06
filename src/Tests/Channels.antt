-- ===== src/Tests/Channels.antt =====
-- Channels for the examples: a TCP socket on which some bytes arrive, a reader on it, and responses.
use rust_memcache.Prelude.{
  ℕ, ◌+◌, ◌^◌, ◌<◌, ◌≡◌, refl, ap, Bytes, [], ◌∷◌, append-nil, none, false, length, arith,
}
use rust_memcache.Stream.{Stream, tcp}
use rust_memcache.Stream.Sockets.{Socket, chunk}
use rust_memcache.Stream.Exchange.{Ready, arriving}
use rust_memcache.Packet.{Response}
use rust_memcache.Packet.RoundTrip.{IsResponse}
use rust_memcache.Reader.{CappedLineReader, new}
use rust_memcache.Reader.View.{IsOpen, new-IsValid}

abbrev pub socket_with : Bytes → Socket
socket_with bs = record {
  incoming = chunk bs ∷ [];
  written = [];
  write_events = [];
  flush_events = [];
  read_timeout = none;
  write_timeout = none;
  nodelay = false;
}

abbrev pub tcp_with : Bytes → Stream
tcp_with bs = tcp (socket_with bs)

arriving_lem : (bs : Bytes) → arriving (chunk bs ∷ []) ≡ bs
unfolding arriving
arriving_lem [] = refl
arriving_lem (b ∷ bs) = ap (λ r. b ∷ r) (append-nil bs)

pub tcp-Ready : (bs : Bytes) → Ready (tcp_with bs) [] bs
tcp-Ready bs = record { written = refl; arrives = arriving_lem bs; takes = refl; flushes = refl }

abbrev pub reader_with : Bytes → CappedLineReader
reader_with bs = new (tcp_with bs)

pub reader-IsOpen : (bs : Bytes) → IsOpen (reader_with bs) [] bs
unfolding new
reader-IsOpen bs = record {
  valid = new-IsValid (tcp_with bs);
  later = bs;
  queue = refl;
  ready = record { written = refl; arrives = arriving_lem bs; takes = refl; flushes = refl };
}

-- A response with the lengths of its parts.
abbrev pub reply : ℕ → ℕ → ℕ → Bytes → Bytes → Bytes → Response
reply opcode status cas extras key value = record {
  header = record {
    magic = 0x81;
    opcode = opcode;
    key_length = length key;
    extras_length = length extras;
    data_type = 0;
    vbucket_id_or_status = status;
    total_body_length = length extras + length key + length value;
    opaque = 0;
    cas = cas;
  };
  extras = extras;
  key = key;
  value = value;
}

pub reply-IsResponse :
    (opcode status cas : ℕ) (extras key value : Bytes)
    → opcode < 2 ^ 8
    → status < 2 ^ 16
    → cas < 2 ^ 64
    → length extras < 2 ^ 8
    → length key < 2 ^ 16
    → length extras + length key + length value < 2 ^ 32
    → IsResponse (reply opcode status cas extras key value)
reply-IsResponse opcode status cas extras key value o s c e k t = record {
  wire = record {
    magic = omega arith;
    opcode = o;
    key_length = k;
    extras_length = e;
    data_type = omega arith;
    vbucket_id_or_status = s;
    total_body_length = t;
    opaque = omega arith;
    cas = c;
  };
  magic = refl;
  key_length = refl;
  extras_length = refl;
  total_body_length = refl;
}
