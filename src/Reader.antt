-- ===== src/Reader.antt =====
-- `CappedLineReader` of src/protocol/ascii.rs: a buffer of 2048 bytes in front of the stream, from which
-- lines that end in CR LF are taken.
pub mod View
pub mod Line
pub mod Talk
pub mod BadLine
pub mod Total
pub mod Yields
use rust_memcache.Prelude.{
  ℕ, zero, suc, ◌+◌, ◌-◌, Bytes, bytes, Bool, true, false, [], ◌∷◌, ◌++◌, Option, none, some,
  length, take, drop, replicate, min, ◌==◌, ◌&&◌, if◌then◌else◌,
}
use rust_memcache.Error.{MemcacheError, ClientError, client_error}
use rust_memcache.Outcome.{Outcome, ok, err, panic, stuck, map_ok, ◌>>=◌}
use rust_memcache.Exec.{Exec}
use rust_memcache.Stream
use rust_memcache.Stream.{Stream}
use rust_memcache.Text.Utf8.{str_from_utf8}

abbrev pub capacity : ℕ
capacity = 2048

pub record CappedLineReader : Type 0 where
  pub inner : Stream
  pub filled : ℕ
  pub buf : Bytes

unfoldable pub starts_with_lf : Bytes → Bool
starts_with_lf [] = false
starts_with_lf (b ∷ bs) = b == 10

-- The loop of `get_line`, `i` bytes in.
unfoldable pub get_line_from : ℕ → Bytes → Option ℕ
unfolding starts_with_lf
get_line_from i [] = none
get_line_from i (r ∷ rest) =
    let later = get_line_from (i + 1) rest in
    if (r == 13) && starts_with_lf rest then some (i + 2) else later

-- The length of the first line, its CR LF included.
unfoldable pub get_line : Bytes → Option ℕ
unfolding get_line_from
get_line buf = get_line_from 0 buf

unfoldable pub new : Stream → CappedLineReader
new inner = record { inner = inner; filled = 0; buf = replicate capacity 0 }

-- `buf.copy_within(amount..filled, 0)` moves the bytes that are left to the front.
unfoldable pub consume : ℕ → CappedLineReader → CappedLineReader
consume n r =
    let amount = min r.filled n in
    record r {
      buf = drop amount (take r.filled r.buf) ++ drop (r.filled - amount) r.buf;
      filled = r.filled - amount;
    }

-- `self.inner.read_exact(rest)?`, when `rest` is not empty, behind the bytes from the buffer.
unfoldable pub read_rest : Bytes → ℕ → Exec CappedLineReader Bytes
read_rest front n r =
    let (o, inner) = Stream.read_exact n r.inner in
    if n == 0 then (ok front, r) else (map_ok (λ rest. front ++ rest) o, record r { inner = inner })

unfoldable pub read_exact : ℕ → Exec CappedLineReader Bytes
unfolding read_rest consume
read_exact n r = let m = min n r.filled in read_rest (take m r.buf) (n - m) (consume m r)

module _ {T : Type 0} (cb : Bytes → Outcome T) where
  -- A line of `n` bytes is in the buffer. One that is not UTF-8 is not consumed.
  unfoldable pub take_line : ℕ → Exec CappedLineReader T
  take_line n r = elim (str_from_utf8 (take n r.buf)) [
    | ok line ↦ (cb line, consume n r)
    | err e ↦ (err e, r)
    | panic ↦ (panic, r)
    | stuck ↦ (stuck, r)
  ]

  -- What follows the search for a line.
  unfoldable pub line_or : Exec CappedLineReader T → Option ℕ → Exec CappedLineReader T
  line_or more none r = more r
  line_or more (some n) r = take_line n r

  -- What follows a read into the free part of the buffer.
  unfoldable pub received :
      Exec CappedLineReader T
      → CappedLineReader
      → Outcome Bytes × Stream
      → Outcome T × CappedLineReader
  received more r (ok [], inner) = (
    err (client_error (ClientError.error (bytes "Ascii protocol no line found"))),
    record r { inner = inner },
  )
  received more r (ok (b ∷ bs), inner) =
      let read = length (b ∷ bs) in
      let r' : CappedLineReader = record {
        inner = inner;
        filled = r.filled + read;
        buf = take r.filled r.buf ++ ((b ∷ bs) ++ drop (r.filled + read) r.buf);
      } in
      line_or more (get_line (take r'.filled r'.buf)) r'
  received more r (err e, inner) = (err e, record r { inner = inner })
  received more r (panic, inner) = (panic, record r { inner = inner })
  received more r (stuck, inner) = (stuck, record r { inner = inner })

  -- The loop of `read_line`, on fuel: each round adds a byte to the buffer at least.
  unfoldable pub read_loop : ℕ → Exec CappedLineReader T
  read_loop zero r = (stuck, r)
  read_loop (suc fuel) r =
      let free = length (drop r.filled r.buf) in
      let more = received (read_loop fuel) r (Stream.read free r.inner) in
      if free == 0
      then (err (client_error (ClientError.error (bytes "Ascii protocol response too long"))), r)
      else more

  unfoldable pub read_line : Exec CappedLineReader T
  unfolding take_line line_or received read_loop
  read_line r = line_or (read_loop (suc capacity)) (get_line (take r.filled r.buf)) r

-- A call on what `get_mut` gives.
unfoldable pub on_stream : {A : Type 0} → Exec Stream A → Exec CappedLineReader A
on_stream m r = let (o, inner) = m r.inner in (o, record r { inner = inner })
