-- ===== src/Tests/Lines.antt =====
-- Examples for sequences of calls on connections with the ASCII protocol.
use rust_memcache.Prelude.{
  ℕ, ◌+◌, ◌^◌, ◌<◌, ◌≤◌, ◌≡◌, refl, Bytes, bytes, List, [], ◌∷◌, ◌++◌, All, length, some, arith,
  true,
}
use rust_memcache.Error.{command_error, invalid_command}
use rust_memcache.Ascii.Faults.{unknown}
use rust_memcache.Outcome.{ok, err}
use rust_memcache.Exec.Talks.{Ends}
use rust_memcache.Text.Utf8.{is_utf8}
use rust_memcache.Text.Decimal.{to_decimal}
use rust_memcache.Value.{bytes_value, from_bytes, without_cas}
use rust_memcache.Reader.{capacity}
use rust_memcache.Reader.View.{IsOpen}
use rust_memcache.Protocol.{ascii}
use rust_memcache.Connection.{Connection}
use rust_memcache.Client.{Client, check_key_len}
use rust_memcache.Ascii
use rust_memcache.Ascii.Counting.{counted, refused}
use rust_memcache.Ascii.Deleting.{done}
use rust_memcache.Ascii.HeaderLine.{IsKeyChar, value_line}
use rust_memcache.Ascii.StoreReply.{stored}
use rust_memcache.Calls.{Call, Reply, run_client}
use rust_memcache.Calls.Session.{run_protocol}
use rust_memcache.Calls.Servers.{results_of}
use rust_memcache.Calls.Lines.{AnswerTo, hit, commands, IsHit}
use rust_memcache.Calls.Lines.Decode.{decode_command, decode_commands}
use rust_memcache.Calls.Lines.Session.{
  answer_texts, LineSession, run_protocol-LineSession, run_client-lines,
}
use rust_memcache.Calls.Lines.Injection.{delete_injects}
use rust_memcache.Tests.Channels.{reader_with, reader-IsOpen}
use rust_memcache.Tests.Sessions.{stack}

-- A server with one counter that it only increments.
abbrev line_server : ℕ → (call : Call Bytes) → AnswerTo call × ℕ
line_server n (Call.get key) = (hit 0 (to_decimal n), n)
line_server n (Call.set key v e) = (stored, n)
line_server n (Call.add key v e) = (stored, n)
line_server n (Call.replace key v e) = (stored, n)
line_server n (Call.cas key v e id) = (stored, n)
line_server n (Call.append key v) = (stored, n)
line_server n (Call.prepend key v) = (stored, n)
line_server n (Call.delete key) = (done, 0)
line_server n (Call.increment key k) = (counted (n + k), n + k)
line_server n (Call.decrement key k) = (refused unknown, n)
line_server n (Call.touch key e) = (done, n)

abbrev served_calls : List (Call Bytes)
served_calls =
    Call.increment (bytes "n") 2 ∷ Call.get (bytes "n") ∷ Call.decrement (bytes "n") 1 ∷ []

abbrev answers_arrive : Bytes
answers_arrive = answer_texts line_server served_calls 0 ++ []

n_chars : All IsKeyChar (bytes "n")
n_chars = omega arith

n-is_utf8 : is_utf8 (bytes "n") ≡ true
unfolding is_utf8
n-is_utf8 = refl

two_fits :
    (length (to_decimal 2) + 2 < 2 ^ 63)
    × (length (value_line (bytes "n") 0 (length (to_decimal 2))) ≤ capacity)
unfolding to_decimal
two_fits = (omega arith, omega arith)

abbrev two_hit : IsHit (without_cas from_bytes) (bytes "n") 0 (to_decimal 2)
two_hit = record {
  chars = n_chars;
  text = n-is_utf8;
  flags_fit = omega arith;
  size = two_fits.0;
  line = two_fits.1;
  result = to_decimal 2;
  read_as = refl;
}

run_protocol-LineSession_example :
    LineSession
      (run_protocol (without_cas from_bytes) served_calls (ascii (reader_with answers_arrive)))
      (ok (Reply.count 2)
        ∷ ok (Reply.value (some (to_decimal 2)))
        ∷ err (command_error invalid_command)
        ∷ [])
      served_calls
      []
      []
    × (decode_commands 3 (commands served_calls) ≡ some served_calls)
run_protocol-LineSession_example =
    run_protocol-LineSession line_server (without_cas from_bytes) served_calls 0
      (omega arith, (two_hit, (tt, tt))) (reader_with answers_arrive) [] []
      ((n_chars, omega arith), (n_chars, ((n_chars, omega arith), tt)))
      (reader-IsOpen answers_arrive)

abbrev counting : Connection
counting = record { protocol = ascii (reader_with answers_arrive); url = bytes "memcache://a" }

-- There is no connection to the first server.
abbrev two_servers : Client (List Connection)
two_servers = record { connections = [] ∷ (counting ∷ []) ∷ []; hash_function = λ key. length key }

abbrev client_calls : List (Call Bytes)
client_calls =
    Call.increment (bytes "n") 2
    ∷ Call.get (bytes "ab")
    ∷ Call.get (bytes "n")
    ∷ Call.decrement (bytes "n") 1
    ∷ []

run_client-lines_example :
    results_of
      (λ key. length key)
      2
      1
      client_calls
      (run_client bytes_value (without_cas from_bytes) stack client_calls two_servers).0
    ≡ ok (Reply.count 2)
      ∷ ok (Reply.value (some (to_decimal 2)))
      ∷ err (command_error invalid_command)
      ∷ []
run_client-lines_example =
    run_client-lines line_server (without_cas from_bytes) stack client_calls two_servers 1 counting
      (reader_with answers_arrive) [] [] 0 (omega arith, (two_hit, (tt, tt))) (λ k ks. refl)
      (record { rest = []; here = refl }) refl (omega arith, (omega arith, (omega arith, tt)))
      (reader-IsOpen answers_arrive)

-- The key is "a", CR LF, "flush_all".
delete_injects_example :
    (check_key_len (bytes "a\r\nflush_all") ≡ ok tt)
    × Ends IsOpen
        (Ascii.delete (bytes "a\r\nflush_all") (reader_with (bytes "DELETED\r\n")))
        (ok true)
        (bytes "delete a\r\nflush_all\r\n")
        []
    × (decode_command (bytes "delete a\r\nflush_all\r\n")
        ≡ some (0, Call.delete (bytes "a"), bytes "flush_all\r\n"))
delete_injects_example =
    delete_injects (bytes "a") (bytes "flush_all") done (reader_with (bytes "DELETED\r\n")) [] []
      (omega arith) (omega arith) tt (reader-IsOpen (bytes "DELETED\r\n"))
