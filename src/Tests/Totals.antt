-- ===== src/Tests/Totals.antt =====
-- Examples on networks that fail.
use rust_memcache.Prelude.{◌≡◌, Bytes, bytes, List, [], ◌∷◌, All, length, some}
use mathlib.Core.Path.{subst}
use rust_memcache.Error.{interrupted}
use rust_memcache.External.{good}
use rust_memcache.Exec.Total.{IsDone, Halts}
use rust_memcache.Stream.{tcp}
use rust_memcache.Stream.Sockets.{Socket, ReadEvent, WriteEvent, chunk, accept}
use rust_memcache.Stream.Total.{Total-write_all}
use rust_memcache.Reader.{new}
use rust_memcache.Reader.View.{new-IsValid}
use rust_memcache.Value.{bytes_value, from_raw}
use rust_memcache.Value.Total.{from_raw-Decodes}
use rust_memcache.Protocol.{ascii, binary}
use rust_memcache.Connection.{Connection}
use rust_memcache.Connection.Total.{IsFit}
use rust_memcache.Pool.Total.{HoldsFit}
use rust_memcache.Client.{
  Client, version, flush, flush_with_delay, stats, set_read_timeout, set_write_timeout,
}
use rust_memcache.Client.Gets.{gets}
use rust_memcache.Client.Total.{AllHold, methods_end}
use rust_memcache.Calls.{Call, run_client}
use rust_memcache.Calls.Total.{run_client_ends}
use rust_memcache.Tests.Channels.{socket_with}
use rust_memcache.Tests.Sessions.{stack}

-- It takes one byte at a time at first, and its peer is cut off in the middle of a line.
abbrev broken : Socket
broken = record (socket_with []) {
  incoming = ReadEvent.fault interrupted ∷ chunk (bytes "STOR") ∷ chunk [] ∷ [];
  write_events = accept 1 ∷ WriteEvent.fault interrupted ∷ accept 3 ∷ [];
}

abbrev broken_client : Client (List Connection)
broken_client = record {
  connections =
      (record { protocol = ascii (new (tcp broken)); url = bytes "memcache://a" } ∷ [])
      ∷ (record { protocol = binary (tcp broken); url = bytes "memcache://b" } ∷ [])
      ∷ [];
  hash_function = λ key. length key;
}

gives-IsFit :
    (p : List Connection) (k : Connection) → All IsFit p → (stack.get p).0 ≡ good k → IsFit k
gives-IsFit [] k h e = cc
gives-IsFit (j ∷ p) k h e = let q : j ≡ k = cc in subst IsFit q h.0

leaves-IsFit : (p : List Connection) → All IsFit p → All IsFit (stack.get p).1
leaves-IsFit [] h = tt
leaves-IsFit (j ∷ p) h = h.1

stack-HoldsFit : HoldsFit stack (All IsFit)
stack-HoldsFit = record { gives = gives-IsFit; rest = leaves-IsFit; takes = λ k p f h. (f, h) }

abbrev three_calls : List (Call Bytes)
three_calls =
    Call.set (bytes "ab") (bytes "v") 0 ∷ Call.get (bytes "a") ∷ Call.increment (bytes "ab") 1 ∷ []

run_client_ends_example :
    All IsDone (run_client bytes_value from_raw stack three_calls broken_client).0
    × AllHold (All IsFit) (run_client bytes_value from_raw stack three_calls broken_client).1
run_client_ends_example =
    run_client_ends bytes_value from_raw Total-write_all from_raw-Decodes stack (All IsFit)
      stack-HoldsFit three_calls broken_client ((new-IsValid (tcp broken), tt), ((tt, tt), tt))

methods_end_example :
    Halts
      (AllHold (All IsFit))
      (gets stack from_raw (λ groups. groups) (bytes "ab" ∷ bytes "a" ∷ []) broken_client)
    × Halts (AllHold (All IsFit)) (version stack broken_client)
    × Halts (AllHold (All IsFit)) (flush stack broken_client)
    × Halts (AllHold (All IsFit)) (flush_with_delay stack 5 broken_client)
    × Halts (AllHold (All IsFit)) (stats stack broken_client)
    × Halts (AllHold (All IsFit)) (set_read_timeout stack (some 1) broken_client)
    × Halts (AllHold (All IsFit)) (set_write_timeout stack (some 1) broken_client)
methods_end_example =
    methods_end stack (All IsFit) stack-HoldsFit from_raw from_raw-Decodes (λ groups. groups)
      (bytes "ab" ∷ bytes "a" ∷ []) 5 (some 1) broken_client
      ((new-IsValid (tcp broken), tt), ((tt, tt), tt))
