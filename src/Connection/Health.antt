-- ===== src/Connection/Health.antt =====
-- The health check that a pool makes: what it sends, and what it takes for a connection that is in order.
use rust_memcache.Prelude.{
  Bool, true, false, ◌≡◌, refl, ap, ◌∙◌, Bytes, [], ◌++◌, ◌==◌, if◌then◌else◌,
}
use rust_memcache.Outcome.{Outcome, ok, err, panic, stuck, map_ok}
use rust_memcache.Exec.{pure, ◌>>=◌}
use rust_memcache.Stream.{Stream}
use rust_memcache.Stream.Exchange.{Ready}
use rust_memcache.Text.Utf8.{string_from_utf8}
use rust_memcache.Packet.{Opcode, Response}
use rust_memcache.Packet.RoundTrip.{IsResponse, response_bytes}
use rust_memcache.Packet.Replies.{status, failed}
use rust_memcache.Binary
use rust_memcache.Binary.Admin.{version_exchange}
use rust_memcache.Binary.Requests.{request_bytes, plain}
use rust_memcache.Protocol
use rust_memcache.Protocol.{Protocol, binary}
use rust_memcache.Connection.{Connection, on_protocol, is_valid}

abbrev pub binary_connection : Bytes → Stream → Connection
binary_connection url s = record { protocol = binary s; url = url }

-- The outcome of a method whose value is dropped, and the connection as the method leaves it.
checked :
    (url : Bytes) (o : Outcome Bytes) (s : Stream)
    → ((λ (c : Connection). (o, c)) >>= λ _. pure tt) (binary_connection url s)
      ≡ (map_ok (λ _. tt) o, binary_connection url s)
unfolding ◌>>=◌ pure
checked url (ok v) s = refl
checked url (err e) s = refl
checked url panic s = refl
checked url stuck s = refl

is_valid-version :
    (url : Bytes) (s : Stream)
    → is_valid (binary_connection url s)
      ≡ (map_ok (λ _. tt) (Binary.version s).0, binary_connection url (Binary.version s).1)
unfolding is_valid on_protocol Protocol.version Protocol.dispatch ◌>>=◌
is_valid-version url s = checked url (Binary.version s).0 (Binary.version s).1

without_value :
    (b : Bool) (o : Outcome Bytes) (r : Response)
    → map_ok (λ (v : Bytes). tt) (if b then o else failed r)
      ≡ (if b then map_ok (λ _. tt) o else failed r)
without_value true o r = refl
without_value false o r = refl

-- A health check that is over: its outcome, and the stream of the connection.
pub record Checked (x : Outcome (Unit {0}) × Connection) (o : Outcome (Unit {0})) (url w a : Bytes)
    : Type 0 where
  pub gives : x.0 ≡ o
  pub stream : Stream
  pub stays : x.1 ≡ binary_connection url stream
  pub leaves : Ready stream w a

-- The health check of a connection with the binary protocol, on a ready stream on which a well formed
-- response arrives, writes exactly one version request and reads exactly the response, so that the
-- connection is as fit for the next call as it was: status 0 with UTF-8 text is success, other bytes are a
-- parse error, any other status is its error.
pub is_valid-Checked :
    (url : Bytes) (r : Response) (s : Stream) (w a : Bytes)
    → IsResponse r
    → Ready s w (response_bytes r ++ a)
    → Checked
        (is_valid (binary_connection url s))
        (if status r == 0 then map_ok (λ _. tt) (string_from_utf8 r.value) else failed r)
        url
        (w ++ request_bytes (plain Opcode.version []))
        a
is_valid-Checked url r s w a i ready =
    let e = version_exchange r s w a i ready in
    record {
      gives =
          ap (λ x. x.0) (is_valid-version url s)
          ∙ ap (map_ok (λ _. tt)) e.gives
          ∙ without_value (status r == 0) (string_from_utf8 r.value) r;
      stream = (Binary.version s).1;
      stays = ap (λ x. x.1) (is_valid-version url s);
      leaves = e.leaves;
    }
