-- ===== src/Ascii/Silence.antt =====
-- Commands that do not flush the stream, over UDP: nothing is sent, and no response is waited for.
use rust_memcache.Prelude.{
  ℕ, zero, suc, ◌≡◌, suc-==_zero, refl, sym, ap, ◌∙◌, Bytes, bytes, Bool, List, [], ◌∷◌, append-nil,
  append_assoc, length, drop, take, ltb, if◌then◌else◌, replicate,
}
use mathlib.Core.List.{flatten}
use rust_memcache.Error.{MemcacheError, ClientError, client_error}
use rust_memcache.Outcome.{Outcome, ok, err}
use rust_memcache.Exec.{Exec, continue, pure, ◌>>=◌, ◌>>◌}
use rust_memcache.Stream
use rust_memcache.Stream.{Stream, udp, write_all, write_all_loop, write_fmt}
use rust_memcache.Stream.Datagrams.{buffered, write_all_udp}
use rust_memcache.Stream.Udp
use rust_memcache.Stream.Udp.{UdpStream}
use rust_memcache.Value.{FromMemcacheValueExt}
use rust_memcache.Reader.{
  CappedLineReader, capacity, new, get_line, get_line_from, line_or, received, read_loop, read_line,
  on_stream,
}
use rust_memcache.Ascii.Commands.{crlf}
use rust_memcache.Text.Decimal.{to_decimal}
use rust_memcache.Ascii.Responses.{ok_response, u64_response}
use rust_memcache.Ascii.{
  get, gets, increment, decrement, flush, parse_get_response, gets_loop, join_spaces,
}

abbrev no_line : MemcacheError
no_line = client_error (ClientError.error (bytes "Ascii protocol no line found"))

-- A step that succeeds is followed by the rest.
after :
    {S A B : Type 0} (m : Exec S A) (f : A → Exec S B) (s s' : S) (a : A)
    → m s ≡ (ok a, s')
    → (m >>= f) s ≡ f a s'
unfolding ◌>>=◌
after {S = S} {A = A} m f s s' a h = ap (λ (r : Outcome A × S). let (o, t) = r in continue o f t) h

write_fmt_udp :
    (pieces : List Bytes) (k : UdpStream)
    → write_fmt pieces (udp k) ≡ (ok tt, udp (buffered k (flatten pieces)))
unfolding write_fmt pure flatten
write_fmt_udp [] k =
    ap (λ w. (ok tt, udp (record k { write_buf = w }))) (sym (append-nil k.write_buf))
write_fmt_udp (p ∷ ps) k =
    after (write_all p) (λ _. write_fmt ps) (udp k) (udp (buffered k p)) tt (write_all_udp p k)
    ∙ write_fmt_udp ps (buffered k p)
    ∙ ap (λ w. (ok tt, udp (record k { write_buf = w }))) (append_assoc k.write_buf p (flatten ps))

-- A read of a UDP stream with no datagram in its buffer gives no bytes.
read_udp : (n : ℕ) (k : UdpStream) → k.read_buf ≡ [] → Stream.read n (udp k) ≡ (ok [], udp k)
unfolding Stream.read Udp.read
read_udp n k h =
    ap (λ (rb : Bytes). read_from rb) h
    ∙ nothing (if ltb 0 n then 0 else n)
    ∙ ap (λ (rb : Bytes). of_rest rb) (sym h)
  where
    of_rest : Bytes → Outcome Bytes × Stream
    of_rest rb = (ok [], udp (record k { read_buf = rb }))

    read_of : ℕ → Bytes → Outcome Bytes × Stream
    read_of m rb = (ok (take m rb), udp (record k { read_buf = drop m rb }))

    read_from : Bytes → Outcome Bytes × Stream
    read_from rb = read_of (if ltb (length rb) n then length rb else n) rb

    nothing : (m : ℕ) → read_of m [] ≡ of_rest []
    nothing zero = refl
    nothing (suc m) = refl

-- The reader over the stream `k`, with nothing in its buffer `buf`.
abbrev over : UdpStream → Bytes → CappedLineReader
over k buf = record { inner = udp k; filled = 0; buf = buf }

read_loop_udp :
    {T : Type 0} (cb : Bytes → Outcome T) (fuel : ℕ) (k : UdpStream) (b : ℕ) (bs : Bytes)
    → k.read_buf ≡ []
    → read_loop cb (suc fuel) (over k (b ∷ bs)) ≡ (err no_line, over k (b ∷ bs))
unfolding received read_loop
read_loop_udp {T = T} cb fuel k b bs h =
    ap (λ (t : Bool). branch t) (suc-==_zero (length bs))
    ∙ ap (λ (x : Outcome Bytes × Stream). received cb (read_loop cb fuel) (over k (b ∷ bs)) x)
        (read_udp (length (b ∷ bs)) k h)
  where
    branch : Bool → Outcome T × CappedLineReader
    branch t =
        if t
        then (
          err (client_error (ClientError.error (bytes "Ascii protocol response too long"))),
          over k (b ∷ bs),
        )
        else received cb (read_loop cb fuel) (over k (b ∷ bs))
            (Stream.read (length (b ∷ bs)) (udp k))

read_line_udp :
    {T : Type 0} (cb : Bytes → Outcome T) (k : UdpStream)
    → k.read_buf ≡ []
    → read_line cb (new (udp k)) ≡ (err no_line, new (udp k))
unfolding read_line line_or get_line get_line_from new
read_line_udp cb k h = read_loop_udp cb capacity k 0 (replicate 2047 0) h

failed :
    {S A B : Type 0} (m : Exec S A) (f : A → Exec S B) (s s' : S) (e : MemcacheError)
    → m s ≡ (err e, s')
    → (m >>= f) s ≡ (err e, s')
unfolding ◌>>=◌
failed {S = S} {A = A} m f s s' a h = ap (λ (r : Outcome A × S). let (o, t) = r in continue o f t) h

-- What asks the network for more than has arrived: it fails, and changes nothing.
Starved : {A : Type 0} → Exec CappedLineReader A → Type 0
Starved m = (k : UdpStream) → k.read_buf ≡ [] → m (new (udp k)) ≡ (err no_line, new (udp k))

Starved-bind :
    {A B : Type 0} (m : Exec CappedLineReader A) (f : A → Exec CappedLineReader B)
    → Starved m
    → Starved (m >>= f)
unfolding Starved
Starved-bind m f g k h = failed m f (new (udp k)) (new (udp k)) no_line (g k h)

Starved-read_line : {T : Type 0} (cb : Bytes → Outcome T) → Starved (read_line cb)
unfolding Starved
Starved-read_line cb k h = read_line_udp cb k h

on_stream_udp :
    (pieces : List Bytes) (k : UdpStream)
    → on_stream (write_fmt pieces) (new (udp k)) ≡ (ok tt, new (udp (buffered k (flatten pieces))))
unfolding on_stream new
on_stream_udp pieces k =
    ap (λ (x : Outcome (Unit {0}) × Stream). (x.0, record (new (udp k)) { inner = x.1 }))
      (write_fmt_udp pieces k)

-- The command stays in the write buffer of the stream `k`, whose socket is as it was, and the call fails.
pub SendsNothing : {A : Type 0} → Exec CappedLineReader A → UdpStream → List Bytes → Type 0
SendsNothing m k pieces = m (new (udp k)) ≡ (err no_line, new (udp (buffered k (flatten pieces))))

-- A command that is written, and a response that is asked for with no flush between.
unflushed :
    {A : Type 0} (pieces : List Bytes) (m : Exec CappedLineReader A) (k : UdpStream)
    → k.read_buf ≡ []
    → Starved m
    → SendsNothing (on_stream (write_fmt pieces) >> m) k pieces
unfolding Starved SendsNothing
unflushed pieces m k h g =
    after (on_stream (write_fmt pieces)) (λ _. m) (new (udp k))
      (new (udp (buffered k (flatten pieces)))) tt (on_stream_udp pieces k)
    ∙ g (buffered k (flatten pieces)) h

-- Over UDP, with nothing in the stream's read buffer, the ASCII `get`, `gets`, `increment`, `decrement` and
-- `flush` on a new reader send nothing: the command stays in the write buffer, the socket is as it was, and
-- the call fails because it finds no line.
pub unflushed_udp :
    {V : Type 0} (from : FromMemcacheValueExt V) (key : Bytes) (keys : List Bytes) (amount : ℕ)
    (k : UdpStream)
    → k.read_buf ≡ []
    → SendsNothing (get from key) k (bytes "get " ∷ key ∷ crlf ∷ [])
      × SendsNothing (gets from keys) k (bytes "gets " ∷ join_spaces keys ∷ crlf ∷ [])
      × SendsNothing
          (increment key amount)
          k
          (bytes "incr " ∷ key ∷ bytes " " ∷ to_decimal amount ∷ crlf ∷ [])
      × SendsNothing
          (decrement key amount)
          k
          (bytes "decr " ∷ key ∷ bytes " " ∷ to_decimal amount ∷ crlf ∷ [])
      × SendsNothing flush k (bytes "flush_all\r\n" ∷ [])
unfolding get gets parse_get_response gets_loop increment decrement flush
unflushed_udp from key keys amount k h = (
  unflushed _ _ k h (Starved-bind _ _ (Starved-bind _ _ (Starved-read_line _))),
  unflushed _ _ k h (Starved-bind _ _ (Starved-bind _ _ (Starved-read_line _))),
  unflushed _ _ k h (Starved-read_line u64_response),
  unflushed _ _ k h (Starved-read_line u64_response),
  unflushed _ _ k h (Starved-read_line ok_response),
)
