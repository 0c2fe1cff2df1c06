-- ===== src/Calls/Udp.antt =====
-- A call with the binary protocol over UDP: the request is one datagram, and the response is put together
-- from datagrams that arrive in any order.
use rust_memcache.Prelude.{
  ℕ, ◌+◌, ◌%◌, ◌^◌, ◌<◌, ◌≡◌, refl, ap, Bytes, [], ◌++◌, append-nil, length, arith, Option, none,
  some,
}
use rust_memcache.Outcome.{Outcome, ok, map_ok}
use rust_memcache.Exec.{Exec, pure, lift, ◌>>=◌, ◌>>◌}
use rust_memcache.Exec.Talks.{Talks, Talks-bind, Talks-pure, Talks-subst}
use rust_memcache.Wire.{to_be}
use rust_memcache.Stream
use rust_memcache.Packet
use rust_memcache.Stream.{Stream, udp, write_all}
use rust_memcache.Stream.Datagrams.{
  Out, In, In-Reads, Out-Writes, Arrives, answered, Sends, Exchanges, Sends-flush, Sends-write,
  Sends-subst, Exchanges-subst, Exchanges-read, Exchanges-write, Exchanges-lift,
}
use rust_memcache.Stream.Udp.{UdpStream}
use rust_memcache.Value.{FromMemcacheValueExt, bytes_value}
use rust_memcache.Packet.{Opcode, opcode_u8, magic_u8, Response}
use rust_memcache.Packet.RoundTrip.{IsResponse, response_bytes, Talks-parse_response}
use rust_memcache.Packet.Replies.{
  Talks-parse_cas_response, Talks-expect_ok, Talks-parse_delete_response,
  Talks-parse_touch_response, Talks-parse_counter_response, Talks-parse_get_response,
}
use rust_memcache.Ascii.{AsciiProtocol}
use rust_memcache.Binary
use rust_memcache.Binary.{BinaryProtocol, send_request, send_concat, send_counter, cas_or_zero}
use rust_memcache.Binary.Requests.{IsRequest, request_bytes, plain, Talks-request_header}
use rust_memcache.Binary.Storing.{store_request}
use rust_memcache.Binary.Exchange.{counter_request, touch_request, add_u32_lem}
use rust_memcache.Protocol
use rust_memcache.Protocol.{Protocol, binary, dispatch}
use rust_memcache.Calls.{Call, Reply, replies, call_protocol}
use rust_memcache.Calls.Settling.{request_of, Carries, outcome_of}

module _ {k : UdpStream} where
  writes : (bs : Bytes) → Talks (Out k) (write_all bs) (ok tt) bs []
  writes = Out-Writes.talks

module _ {k : UdpStream} {a : Bytes} {d : Arrives k a} where
  Sends-request :
      (opcode : Opcode) (key v : Bytes) (e : ℕ) (c : Option ℕ)
      → length key < 2 ^ 16
      → 8 + length key + length v < 2 ^ 32
      → Sends k a d
          (send_request bytes_value opcode key v e c)
          (request_bytes (store_request opcode 0 e key v (cas_or_zero c)))
  unfolding send_request request_bytes magic_u8 to_be
  Sends-request opcode key v e c h l =
      Sends-subst
        (Sends-write _
          (Talks-request_header (store_request opcode 0 e key v (cas_or_zero c))
            (length key % 2 ^ 16) ((8 + length key + length v) % 2 ^ 32) (omega arith)
            (omega arith))
          (Sends-write _ (writes _) (
            Sends-write _ (writes _)
              (Sends-write _ (writes key) (Sends-write _ (writes v) Sends-flush)))))
        (rw append-nil refl)

  Sends-concat :
      (opcode : Opcode) (key v : Bytes)
      → length key < 2 ^ 16
      → length key + length v < 2 ^ 32
      → Sends k a d
          (send_concat bytes_value opcode key v)
          (request_bytes (record (plain opcode key) { value = v }))
  unfolding send_concat request_bytes magic_u8
  Sends-concat opcode key v h l =
      Sends-subst
        (Sends-write _
          (Talks-request_header (record (plain opcode key) { value = v }) (length key % 2 ^ 16)
            ((length key + length v) % 2 ^ 32) (omega arith) (omega arith))
          (Sends-write _ (writes key) (Sends-write _ (writes v) Sends-flush)))
        (rw append-nil refl)

  Sends-counter :
      (opcode : Opcode) (key : Bytes) (amount : ℕ)
      → length key < 2 ^ 16
      → Sends k a d
          (send_counter opcode key amount)
          (request_bytes (counter_request opcode amount key))
  unfolding send_counter request_bytes magic_u8 to_be
  Sends-counter opcode key amount h =
      Sends-subst
        (Sends-write _
          (Talks-request_header (counter_request opcode amount key) (length key % 2 ^ 16)
            ((20 + length key) % 2 ^ 32) (omega arith) (omega arith))
          (Sends-write _ (writes _) (
            Sends-write _ (writes _)
              (Sends-write _ (writes _) (Sends-write _ (writes key) Sends-flush)))))
        (rw append-nil refl)

  module _ {A : Type 0} {m : Exec Stream A} {o : Outcome A} {bs rest : Bytes} (e : a ≡ bs ++ rest)
      (t : (j : UdpStream) → Talks (In j) m o [] bs) where
    -- The key as the whole body, the flush, and the response.
    asks_key :
        (opcode : Opcode) (key : Bytes)
        → length key < 2 ^ 16
        → Exchanges k a d
            (Packet.write_header (Binary.key_header opcode key) >>= λ _.
              write_all key >>= λ _. Stream.flush >>= λ _. m)
            o
            (request_bytes (plain opcode key))
            rest
    unfolding request_bytes magic_u8
    asks_key opcode key h =
        Exchanges-subst
          (Exchanges-write _
            (Talks-request_header (plain opcode key) (length key % 2 ^ 16) (length key % 2 ^ 32)
              (omega arith) (omega arith))
            (Exchanges-write _ (writes key) (Exchanges-read _ e Sends-flush t)))
          (rw append-nil refl)

    asks_touch :
        (key : Bytes) (expiration : ℕ)
        → length key < 2 ^ 16
        → Exchanges k a d
            (lift (Binary.add_u32 (length key % 2 ^ 32) 4) >>= λ total. do
              Packet.write_header (record (Binary.request_header Opcode.touch) {
                key_length = Binary.as_u16 (length key);
                extras_length = 4;
                total_body_length = total;
              })
              Packet.write_be 4 expiration
              write_all key
              Stream.flush
              m)
            o
            (request_bytes (touch_request key expiration))
            rest
    unfolding request_bytes magic_u8 to_be
    asks_touch key expiration h =
        Exchanges-subst
          (Exchanges-lift _ (add_u32_lem (length key) (omega arith)) (
            Exchanges-write _
              (Talks-request_header (touch_request key expiration) (length key % 2 ^ 16)
                (length key + 4) (omega arith) (omega arith))
              (Exchanges-write _ (writes _)
                (Exchanges-write _ (writes key) (Exchanges-read _ e Sends-flush t)))))
          (rw append-nil refl)

Talks-dropped :
    {A : Type 0} {j : UdpStream} {m : Exec Stream A} {x : A} {bs : Bytes}
    → Talks (In j) m (ok x) [] bs
    → Talks (In j) (m >>= λ _. pure tt) (ok tt) [] bs
Talks-dropped t = Talks-subst (Talks-bind _ t (Talks-pure tt)) refl (append-nil _)

module _ {W : Type 0} (from : FromMemcacheValueExt W) where
  -- A call that is over: its outcome, and the stream of the connection.
  pub record OverUdp (x : Outcome (Reply W) × Protocol) (o : Outcome (Reply W)) (k : UdpStream)
      : Type 0 where
    pub gives : x.0 ≡ o
    pub stays : x.1 ≡ binary (udp k)

  Exchanges-OverUdp :
      {A : Type 0} (f : A → Reply W) (n : Exec AsciiProtocol A) {m : Exec BinaryProtocol A}
      (k : UdpStream) (a : Bytes) (d : Arrives k a) {o : Outcome A} {u rest : Bytes}
      → Exchanges k a d m o u rest
      → OverUdp
          (replies f (dispatch n m) (binary (udp k)))
          (map_ok f o)
          (record (answered k a d (k.write_buf ++ u)) { read_buf = rest })
  unfolding dispatch
  Exchanges-OverUdp f n k a d t =
      let x = t.at k.write_buf in
      record { gives = ap (map_ok f) x.gives; stays = ap binary x.leaves.here }

  -- Over UDP, each call with the binary protocol (get, set, add, replace, cas, append, prepend, delete,
  -- increment, decrement, touch) sends exactly one datagram, the UDP header with the request id and then
  -- what was in the write buffer and the call's request, and gives the result that the server's response
  -- stands for, put together from datagrams that arrive in any order. Then the write buffer is empty,
  -- what came behind the response in its datagrams is left to be read, and the request id has moved on.
  -- The datagrams of the response arrive each once and none is missing, with the request id, their
  -- numbers and at most 1392 bytes each; the send works; the request fits the fields of its header, the
  -- response is well formed, and at status 0 the answer to get has four bytes of flags and the answer to
  -- increment and decrement an eight byte number.
  pub call-OverUdp :
      (call : Call Bytes) (r : Response) (c : Carries call r) (k : UdpStream) (rest : Bytes)
      (d : Arrives k (response_bytes r ++ rest))
      → IsRequest (request_of call)
      → IsResponse r
      → OverUdp
          (call_protocol bytes_value from call (binary (udp k)))
          (outcome_of from call r c)
          (record (answered k _ d (k.write_buf ++ request_bytes (request_of call))) {
            read_buf = rest;
          })
  unfolding call_protocol Protocol.get Protocol.set Protocol.add Protocol.replace Protocol.cas
      Protocol.append Protocol.prepend Protocol.delete Protocol.increment Protocol.decrement
      Protocol.touch Binary.get Binary.set Binary.add Binary.replace Binary.store Binary.cas
      Binary.append Binary.prepend Binary.delete Binary.increment Binary.decrement Binary.touch
      to_be
  call-OverUdp (Call.get key) r c k rest d q i =
      Exchanges-OverUdp Reply.value _ k _ d
        (asks_key refl (λ j. Talks-parse_get_response r i from c.0 c.1 c.2) Opcode.get key q.key)
  call-OverUdp (Call.set key v e) r c k rest d q i = Exchanges-OverUdp Reply.done _ k _ d (
      Exchanges-read _ refl (Sends-request Opcode.set key v e none q.key q.body)
        (λ j. Talks-expect_ok r i))
  call-OverUdp (Call.add key v e) r c k rest d q i = Exchanges-OverUdp Reply.done _ k _ d (
      Exchanges-read _ refl (Sends-request Opcode.add key v e none q.key q.body)
        (λ j. Talks-expect_ok r i))
  call-OverUdp (Call.replace key v e) r c k rest d q i = Exchanges-OverUdp Reply.done _ k _ d (
      Exchanges-read _ refl (Sends-request Opcode.replace key v e none q.key q.body)
        (λ j. Talks-expect_ok r i))
  call-OverUdp (Call.cas key v e id) r c k rest d q i = Exchanges-OverUdp Reply.flag _ k _ d (
      Exchanges-read _ refl (Sends-request Opcode.set key v e (some id) q.key q.body)
        (λ j. Talks-parse_cas_response r i))
  call-OverUdp (Call.append key v) r c k rest d q i = Exchanges-OverUdp Reply.done _ k _ d (
      Exchanges-read _ refl (Sends-concat Opcode.append key v q.key (omega (arith, q.body)))
        (λ j. Talks-expect_ok r i))
  call-OverUdp (Call.prepend key v) r c k rest d q i = Exchanges-OverUdp Reply.done _ k _ d (
      Exchanges-read _ refl (Sends-concat Opcode.prepend key v q.key (omega (arith, q.body)))
        (λ j. Talks-dropped (Talks-parse_response r i)))
  call-OverUdp (Call.delete key) r c k rest d q i =
      Exchanges-OverUdp Reply.flag _ k _ d
        (asks_key refl (λ j. Talks-parse_delete_response r i) Opcode.delete key q.key)
  call-OverUdp (Call.increment key n) r c k rest d q i = Exchanges-OverUdp Reply.count _ k _ d (
      Exchanges-read _ refl (Sends-counter Opcode.increment key n q.key)
        (λ j. Talks-parse_counter_response r i c.0 c.1 c.2))
  call-OverUdp (Call.decrement key n) r c k rest d q i = Exchanges-OverUdp Reply.count _ k _ d (
      Exchanges-read _ refl (Sends-counter Opcode.decrement key n q.key)
        (λ j. Talks-parse_counter_response r i c.0 c.1 c.2))
  call-OverUdp (Call.touch key e) r c k rest d q i =
      Exchanges-OverUdp Reply.flag _ k _ d
        (asks_touch refl (λ j. Talks-parse_touch_response r i) key e q.key)
