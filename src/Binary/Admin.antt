-- ===== src/Binary/Admin.antt =====
-- `version`, `flush` and `flush_with_delay` of the binary protocol on a socket.
use rust_memcache.Stream.Channels.{Ready-Reads, Ready-Writes}
use rust_memcache.Prelude.{ℕ, refl, sym, Bytes, [], ◌++◌, append-nil, ◌==◌, if◌then◌else◌}
use rust_memcache.Outcome.{ok}
use rust_memcache.Exec.Talks.{Ends, Talks, Talks-bind, Talks-subst}
use rust_memcache.Wire.{to_be}
use rust_memcache.Text.Utf8.{string_from_utf8}
use rust_memcache.Stream.{Stream}
use rust_memcache.Stream.Exchange.{Ready, Talks-flush}
use rust_memcache.Stream.Exact.{Talks-write_all}
use rust_memcache.Packet.{Opcode, Response, magic_u8, write_header}
use rust_memcache.Packet.RoundTrip.{IsResponse, response_bytes, Talks-write_header}
use rust_memcache.Packet.Replies.{status, failed, Talks-expect_ok, Talks-parse_version_response}
use rust_memcache.Binary.{version, flush, flush_with_delay, request_header}
use rust_memcache.Binary.Requests.{Request, request_bytes, plain, Talks-request_header}

-- A request with no key and no value.
Talks-bare :
    (opcode : Opcode)
    → Talks Ready
        (write_header (request_header opcode))
        (ok tt)
        (request_bytes (plain opcode []))
        []
unfolding request_bytes magic_u8
Talks-bare opcode = Talks-subst (Talks-write_header _) (sym (append-nil _)) refl

abbrev pub delay_request : ℕ → Request
delay_request delay = record (plain Opcode.flush []) { extras = to_be 4 delay }

-- On a ready socket on which a well formed response arrives, the binary `flush` writes exactly one flush
-- request with no body, and `flush_with_delay` one with the delay as extras; each reads exactly the
-- response: status 0 is success, any other status is its error.
pub flush_exchange :
    (delay : ℕ) (r : Response) (s t : Stream) (w a : Bytes)
    → IsResponse r
    → Ready s w (response_bytes r ++ a)
    → Ready t w (response_bytes r ++ a)
    → Ends Ready
        (flush s)
        (if status r == 0 then ok tt else failed r)
        (w ++ request_bytes (plain Opcode.flush []))
        a
      × Ends Ready
          (flush_with_delay delay t)
          (if status r == 0 then ok tt else failed r)
          (w ++ request_bytes (delay_request delay))
          a
unfolding flush flush_with_delay request_bytes magic_u8 to_be
flush_exchange delay r s t w a i ready prepared = (
  (Talks-subst
        (Talks-bind _ (Talks-bare Opcode.flush) (Talks-bind _ Talks-flush (Talks-expect_ok r i)))
        (append-nil _) refl).at
      s w a ready,
  (Talks-subst
        (Talks-bind _ (Talks-request_header (delay_request delay) 0 4 refl refl)
          (Talks-bind _ (Talks-write_all _) (Talks-bind _ Talks-flush (Talks-expect_ok r i))))
        (simp append-nil) refl).at
      t w a prepared,
)

-- The binary `version` writes exactly one version request and reads exactly the response: status 0 gives the
-- value as text, or the error for bytes that are not UTF-8; any other status is its error.
pub version_exchange :
    (r : Response) (s : Stream) (w a : Bytes)
    → IsResponse r
    → Ready s w (response_bytes r ++ a)
    → Ends Ready
        (version s)
        (if status r == 0 then string_from_utf8 r.value else failed r)
        (w ++ request_bytes (plain Opcode.version []))
        a
unfolding version
version_exchange r s w a i ready =
    (Talks-subst
        (Talks-bind _ (Talks-bare Opcode.version)
          (Talks-bind _ Talks-flush (Talks-parse_version_response r i)))
        (append-nil _) refl).at
      s w a ready
