-- ===== src/Calls/Lines/Injection.antt =====
-- A key with a line end in it: the client does not refuse it, and its rest is another command.
use rust_memcache.Prelude.{◌≤◌, ◌≡◌, Bytes, bytes, ◌++◌, append_assoc, some, All, length, arith}
use mathlib.Core.Path.{subst}
use rust_memcache.Outcome.{ok}
use rust_memcache.Exec.Talks.{Ends}
use rust_memcache.Reader.{CappedLineReader}
use rust_memcache.Reader.View.{IsOpen}
use rust_memcache.Ascii.{delete}
use rust_memcache.Ascii.Commands.{crlf}
use rust_memcache.Ascii.Deleting.{Answer, IsFound, answer_line, answer_outcome, delete_exchange}
use rust_memcache.Ascii.HeaderLine.{IsKeyChar}
use rust_memcache.Client.{check_key_len}
use rust_memcache.Calls.{Call}
use rust_memcache.Calls.Lines.{command_of}
use rust_memcache.Calls.Lines.Decode.{decode_command}
use rust_memcache.Calls.Lines.Decode.RoundTrip.{decode-command_of}

short_key : (key : Bytes) → length key ≤ 250 → check_key_len key ≡ ok tt
unfolding check_key_len
short_key key h = ground arith

two_lines :
    (k t : Bytes)
    → bytes "delete " ++ ((k ++ (crlf ++ t)) ++ crlf) ≡ command_of (Call.delete k) ++ (t ++ crlf)
two_lines k t = simp append_assoc

-- A key of at most 250 bytes with CR LF in it passes the check of the client, and the ASCII delete with it
-- sends two commands: a server that reads lines takes the first for a delete of what stands before the CR
-- LF, and what stands behind it is the next command. The delete reads one answer only. What stands before
-- the CR LF has no space or CR. The answer is DELETED, NOT_FOUND, ERROR, or a line CLIENT_ERROR or
-- SERVER_ERROR that is UTF-8 text of at most 2048 bytes whose first CR LF is at its end.
pub delete_injects :
    (k t : Bytes) (x : Answer) (p : CappedLineReader) (w a : Bytes)
    → All IsKeyChar k
    → length (k ++ (crlf ++ t)) ≤ 250
    → IsFound x
    → IsOpen p w (answer_line (bytes "DELETED") x ++ a)
    → (check_key_len (k ++ (crlf ++ t)) ≡ ok tt)
      × Ends IsOpen
          (delete (k ++ (crlf ++ t)) p)
          (answer_outcome x)
          (w ++ (command_of (Call.delete k) ++ (t ++ crlf)))
          a
      × (decode_command (command_of (Call.delete k) ++ (t ++ crlf))
          ≡ some (0, Call.delete k, t ++ crlf))
delete_injects k t x p w a h l f o = (
  short_key (k ++ (crlf ++ t)) l,
  subst (λ text. Ends IsOpen (delete (k ++ (crlf ++ t)) p) (answer_outcome x) (w ++ text) a)
      (two_lines k t) (delete_exchange (k ++ (crlf ++ t)) x p w a f o),
  decode-command_of (Call.delete k) (t ++ crlf) h,
)
