-- ===== src/Calls/Settling.antt =====
-- A call on a connection with the binary protocol: its request, and its outcome by the response.
use rust_memcache.Prelude.{
  ℕ, ◌^◌, ◌<◌, ◌≡◌, refl, ap, Bytes, ◌++◌, ◌==◌, if◌then◌else◌, arith, none, some,
}
use rust_memcache.Outcome.{Outcome, ok, map_ok}
use rust_memcache.Exec.{Exec}
use rust_memcache.Exec.Talks.{Ends}
use rust_memcache.Wire.{to_be}
use rust_memcache.Stream.{Stream}
use rust_memcache.Stream.Exchange.{Ready}
use rust_memcache.Stream.Exact.{Talks-write_all}
use rust_memcache.Value.{FromMemcacheValueExt, bytes_value}
use rust_memcache.Packet.{Opcode, Response}
use rust_memcache.Packet.RoundTrip.{IsResponse, response_bytes}
use rust_memcache.Packet.Replies.{status, failed, found, stored}
use rust_memcache.Ascii.{AsciiProtocol}
use rust_memcache.Binary
use rust_memcache.Binary.{BinaryProtocol}
use rust_memcache.Binary.Requests.{Request, IsRequest, request_bytes, plain}
use rust_memcache.Binary.Storing.{
  store_request, store_exchange, cas_exchange, append_exchange, prepend_exchange,
}
use rust_memcache.Binary.Exchange.{
  counter_request, touch_request, get_exchange, delete_exchange, touch_exchange, counter_exchange,
}
use rust_memcache.Protocol
use rust_memcache.Protocol.{Protocol, ascii, binary, dispatch}
use rust_memcache.Calls.{Call, Reply, replies, call_protocol}

-- The request that a call is for.
abbrev pub request_of : Call Bytes → Request
request_of (Call.get key) = plain Opcode.get key
request_of (Call.set key v e) = store_request Opcode.set 0 e key v 0
request_of (Call.add key v e) = store_request Opcode.add 0 e key v 0
request_of (Call.replace key v e) = store_request Opcode.replace 0 e key v 0
request_of (Call.cas key v e id) = store_request Opcode.set 0 e key v id
request_of (Call.append key v) = record (plain Opcode.append key) { value = v }
request_of (Call.prepend key v) = record (plain Opcode.prepend key) { value = v }
request_of (Call.delete key) = plain Opcode.delete key
request_of (Call.increment key n) = counter_request Opcode.increment n key
request_of (Call.decrement key n) = counter_request Opcode.decrement n key
request_of (Call.touch key e) = touch_request key e

-- What a success must carry: the flags of a hit, the number of a counter.
abbrev pub Carries : Call Bytes → Response → Type 0
Carries (Call.get key) r =
    (flags : ℕ) × (flags < 2 ^ 32) × (status r ≡ 0 → r.extras ≡ to_be 4 flags)
Carries (Call.increment key n) r = (m : ℕ) × (m < 2 ^ 64) × (status r ≡ 0 → r.value ≡ to_be 8 m)
Carries (Call.decrement key n) r = (m : ℕ) × (m < 2 ^ 64) × (status r ≡ 0 → r.value ≡ to_be 8 m)
Carries _ r = Unit

-- Success at status 0.
abbrev pub accepted : {A : Type 0} → A → Response → Outcome A
accepted x r = if status r == 0 then ok x else failed r

module _ {W : Type 0} (from : FromMemcacheValueExt W) where
  -- The result of a call by the server's response.
  abbrev pub outcome_of : (call : Call Bytes) (r : Response) → Carries call r → Outcome (Reply W)
  outcome_of (Call.get key) r c = map_ok Reply.value (
      if status r == 0
      then map_ok some (from.from_memcache_value r.value c.0 (some r.header.cas))
      else if status r == 1
      then ok none
      else failed r)
  outcome_of (Call.set key v e) r c = map_ok Reply.done (accepted tt r)
  outcome_of (Call.add key v e) r c = map_ok Reply.done (accepted tt r)
  outcome_of (Call.replace key v e) r c = map_ok Reply.done (accepted tt r)
  outcome_of (Call.cas key v e id) r c = map_ok Reply.flag (stored r)
  outcome_of (Call.append key v) r c = map_ok Reply.done (accepted tt r)
  outcome_of (Call.prepend key v) r c = ok (Reply.done tt)
  outcome_of (Call.delete key) r c = map_ok Reply.flag (found r)
  outcome_of (Call.increment key n) r c = map_ok Reply.count (accepted c.0 r)
  outcome_of (Call.decrement key n) r c = map_ok Reply.count (accepted c.0 r)
  outcome_of (Call.touch key e) r c = map_ok Reply.flag (found r)

  -- A call that is over: its outcome, what was written to the stream, and what arrives on it still.
  pub record Settles (x : Outcome (Reply W) × Protocol) (o : Outcome (Reply W)) (w a : Bytes)
      : Type 0 where
    pub gives : x.0 ≡ o
    pub stream : Stream
    pub stays : x.1 ≡ binary stream
    pub leaves : Ready stream w a

  Ends-Settles :
      {A : Type 0} (f : A → Reply W) (n : Exec AsciiProtocol A) (m : Exec BinaryProtocol A)
      (s : Stream) (o : Outcome A) (w a : Bytes)
      → Ends Ready (m s) o w a
      → Settles (replies f (dispatch n m) (binary s)) (map_ok f o) w a
  unfolding dispatch
  Ends-Settles f n m s o w a e = record {
    gives = ap (map_ok f) e.gives;
    stream = (m s).1;
    stays = refl;
    leaves = e.leaves;
  }

  pub call-Settles :
      (call : Call Bytes) (r : Response) (c : Carries call r) (s : Stream) (w a : Bytes)
      → IsRequest (request_of call)
      → IsResponse r
      → Ready s w (response_bytes r ++ a)
      → Settles
          (call_protocol bytes_value from call (binary s))
          (outcome_of call r c)
          (w ++ request_bytes (request_of call))
          a
  unfolding call_protocol Protocol.get Protocol.set Protocol.add Protocol.replace Protocol.cas
      Protocol.append Protocol.prepend Protocol.delete Protocol.increment Protocol.decrement
      Protocol.touch Binary.set Binary.add Binary.replace to_be
  call-Settles (Call.get key) r c s w a q i ready =
      Ends-Settles Reply.value _ _ s _ _ a (get_exchange from key c.0 r s w a q.key i c.1 c.2 ready)
  call-Settles (Call.set key v e) r c s w a q i ready = Ends-Settles Reply.done _ _ s _ _ a (
      store_exchange bytes_value v v (Talks-write_all v) refl Opcode.set key e none r s w a q.key
        q.body i ready)
  call-Settles (Call.add key v e) r c s w a q i ready = Ends-Settles Reply.done _ _ s _ _ a (
      store_exchange bytes_value v v (Talks-write_all v) refl Opcode.add key e none r s w a q.key
        q.body i ready)
  call-Settles (Call.replace key v e) r c s w a q i ready = Ends-Settles Reply.done _ _ s _ _ a (
      store_exchange bytes_value v v (Talks-write_all v) refl Opcode.replace key e none r s w a
        q.key q.body i ready)
  call-Settles (Call.cas key v e id) r c s w a q i ready =
      Ends-Settles Reply.flag _ _ s _ _ a (
        cas_exchange bytes_value v v (Talks-write_all v) refl key e id r s w a q.key q.body i ready)
  call-Settles (Call.append key v) r c s w a q i ready = Ends-Settles Reply.done _ _ s _ _ a (
      append_exchange bytes_value v v (Talks-write_all v) refl key r s w a q.key
        (omega (arith, q.body)) i ready)
  call-Settles (Call.prepend key v) r c s w a q i ready = Ends-Settles Reply.done _ _ s _ _ a (
      prepend_exchange bytes_value v v (Talks-write_all v) refl key r s w a q.key
        (omega (arith, q.body)) i ready)
  call-Settles (Call.delete key) r c s w a q i ready =
      Ends-Settles Reply.flag _ _ s _ _ a (delete_exchange key r s w a q.key i ready)
  call-Settles (Call.increment key n) r c s w a q i ready =
      Ends-Settles Reply.count _ _ s _ _ a
        (counter_exchange key n c.0 r s w a q.key i c.1 c.2 ready).0
  call-Settles (Call.decrement key n) r c s w a q i ready =
      Ends-Settles Reply.count _ _ s _ _ a
        (counter_exchange key n c.0 r s w a q.key i c.1 c.2 ready).1
  call-Settles (Call.touch key e) r c s w a q i ready =
      Ends-Settles Reply.flag _ _ s _ _ a (touch_exchange key e r s w a q.key i ready)
