-- ===== src/Calls/Lines.antt =====
-- A call on a connection with the ASCII protocol: its command, the answers of a server, and its outcome.
pub mod Session
pub mod Decode
pub mod Injection
use rust_memcache.Prelude.{
  ℕ, ◌+◌, ◌^◌, ◌<◌, ◌≤◌, ◌≡◌, refl, ap, Bytes, bytes, true, List, [], ◌∷◌, ◌++◌, Option, none, some,
  All, length,
}
use rust_memcache.Error.{
  ClientError, ServerError, client_error, server_error, command_error, invalid_command,
}
use rust_memcache.Outcome.{Outcome, ok, err, map_ok}
use rust_memcache.Exec.{Exec}
use rust_memcache.Exec.Talks.{Ends}
use rust_memcache.Stream.Exact.{Talks-write_all}
use rust_memcache.Text.Decimal.{to_decimal}
use rust_memcache.Text.Utf8.{is_utf8}
use rust_memcache.Value.{FromMemcacheValueExt, bytes_value}
use rust_memcache.Reader.{CappedLineReader, capacity}
use rust_memcache.Reader.View.{IsOpen}
use rust_memcache.Reader.Line.{IsLine}
use rust_memcache.Ascii
use rust_memcache.Ascii.{AsciiProtocol}
use rust_memcache.Ascii.Faults.{Fault, fault_line, fault_error, IsFault}
use rust_memcache.Ascii.Commands.{StoreCommand, crlf}
use rust_memcache.Ascii.Counting.{
  Tally, IsTally, tally_line, tally_outcome, count_text, count_exchange,
}
use rust_memcache.Ascii.Deleting
use rust_memcache.Ascii.Deleting.{
  Answer, IsFound, answer_line, answer_outcome, delete_exchange, touch_exchange,
}
use rust_memcache.Ascii.HeaderLine.{IsKeyChar, value_line}
use rust_memcache.Ascii.Retrieval.{end_line, get_hit, get_miss, get_refused}
use rust_memcache.Ascii.StoreReply
use rust_memcache.Ascii.StoreReply.{
  stored, not_stored, exists, not_found, error, client_fault, server_fault, reply_line,
  unit_outcome,
}
use rust_memcache.Ascii.Storing.{
  store_line, cas_outcome, cas_line_exchange, set_exchange, concat_exchange,
}
use rust_memcache.Binary.{BinaryProtocol}
use rust_memcache.Protocol
use rust_memcache.Protocol.{Protocol, ascii, dispatch}
use rust_memcache.Calls.{Call, Reply, replies, call_protocol}

-- A store command, the value and CR LF.
abbrev stored_text : StoreCommand → Bytes → ℕ → Option ℕ → Bytes → Bytes
stored_text command key e c v = store_line command key 0 e (length v) c ++ (v ++ crlf)

-- The command that a call is sent as.
abbrev pub command_of : Call Bytes → Bytes
command_of (Call.get key) = bytes "get " ++ (key ++ crlf)
command_of (Call.set key v e) = stored_text StoreCommand.set key e none v
command_of (Call.add key v e) = stored_text StoreCommand.add key e none v
command_of (Call.replace key v e) = stored_text StoreCommand.replace key e none v
command_of (Call.cas key v e id) = stored_text StoreCommand.cas key e (some id) v
command_of (Call.append key v) = stored_text StoreCommand.append key 0 none v
command_of (Call.prepend key v) = stored_text StoreCommand.prepend key 0 none v
command_of (Call.delete key) = bytes "delete " ++ (key ++ crlf)
command_of (Call.increment key n) = count_text (bytes "incr ") key n
command_of (Call.decrement key n) = count_text (bytes "decr ") key n
command_of (Call.touch key e) = bytes "touch " ++ (key ++ (bytes " " ++ (to_decimal e ++ crlf)))

-- The commands of the calls, in their order.
abbrev pub commands : List (Call Bytes) → Bytes
commands [] = []
commands (call ∷ calls) = command_of call ++ commands calls

-- What a server can answer to a get: a miss, the flags and the value, or an error line.
pub data GetAnswer : Type 0 where
  miss : GetAnswer
  hit : ℕ → Bytes → GetAnswer
  refused : Fault → GetAnswer

-- What a server can answer to a call. To each of them it can answer an error line.
abbrev pub AnswerTo : Call Bytes → Type 0
AnswerTo (Call.get key) = GetAnswer
AnswerTo (Call.set key v e) = StoreReply.Reply
AnswerTo (Call.add key v e) = StoreReply.Reply
AnswerTo (Call.replace key v e) = StoreReply.Reply
AnswerTo (Call.cas key v e id) = StoreReply.Reply
AnswerTo (Call.append key v) = StoreReply.Reply
AnswerTo (Call.prepend key v) = StoreReply.Reply
AnswerTo (Call.delete key) = Answer
AnswerTo (Call.increment key n) = Tally
AnswerTo (Call.decrement key n) = Tally
AnswerTo (Call.touch key e) = Answer

-- The text of an answer to a get.
abbrev pub got_text : Bytes → GetAnswer → Bytes
got_text key miss = end_line
got_text key (hit flags payload) =
    (value_line key flags (length payload) ++ (payload ++ crlf)) ++ end_line
got_text key (refused f) = fault_line f

abbrev pub answer_text : (call : Call Bytes) → AnswerTo call → Bytes
answer_text (Call.get key) x = got_text key x
answer_text (Call.set key v e) x = reply_line x
answer_text (Call.add key v e) x = reply_line x
answer_text (Call.replace key v e) x = reply_line x
answer_text (Call.cas key v e id) x = reply_line x
answer_text (Call.append key v) x = reply_line x
answer_text (Call.prepend key v) x = reply_line x
answer_text (Call.delete key) x = answer_line (bytes "DELETED") x
answer_text (Call.increment key n) x = tally_line x
answer_text (Call.decrement key n) x = tally_line x
answer_text (Call.touch key e) x = answer_line (bytes "TOUCHED") x

module _ {W : Type 0} (from : FromMemcacheValueExt W) where
  -- A hit: the key and the header line are such as the protocol allows, and the type reads the value.
  pub record IsHit (key : Bytes) (flags : ℕ) (payload : Bytes) : Type 0 where
    pub chars : All IsKeyChar key
    pub text : is_utf8 key ≡ true
    pub flags_fit : flags < 2 ^ 32
    pub size : length payload + 2 < 2 ^ 63
    pub line : length (value_line key flags (length payload)) ≤ capacity
    pub result : W
    pub read_as : from.from_memcache_value payload flags none ≡ ok result

  abbrev pub IsGot : Bytes → GetAnswer → Type 0
  IsGot key miss = Unit
  IsGot key (hit flags payload) = IsHit key flags payload
  IsGot key (refused f) = IsFault f

  -- The lines of an answer are such as the reader takes, its numbers fit, and the type reads its value.
  abbrev pub IsAnswer : (call : Call Bytes) → AnswerTo call → Type 0
  IsAnswer (Call.get key) x = IsGot key x
  IsAnswer (Call.set key v e) x = IsLine (reply_line x)
  IsAnswer (Call.add key v e) x = IsLine (reply_line x)
  IsAnswer (Call.replace key v e) x = IsLine (reply_line x)
  IsAnswer (Call.cas key v e id) x = IsLine (reply_line x)
  IsAnswer (Call.append key v) x = IsLine (reply_line x)
  IsAnswer (Call.prepend key v) x = IsLine (reply_line x)
  IsAnswer (Call.delete key) x = IsFound x
  IsAnswer (Call.increment key n) x = IsTally x
  IsAnswer (Call.decrement key n) x = IsTally x
  IsAnswer (Call.touch key e) x = IsFound x

  abbrev pub got : (key : Bytes) (x : GetAnswer) → IsGot key x → Outcome (Option W)
  got key miss i = ok none
  got key (hit flags payload) i = ok (some i.result)
  got key (refused f) i = err (fault_error f)

  -- The result of a call by the server's answer.
  abbrev pub line_outcome :
      (call : Call Bytes) (x : AnswerTo call) → IsAnswer call x → Outcome (Reply W)
  line_outcome (Call.get key) x i = map_ok Reply.value (got key x i)
  line_outcome (Call.set key v e) x i = map_ok Reply.done (unit_outcome x)
  line_outcome (Call.add key v e) x i = map_ok Reply.done (unit_outcome x)
  line_outcome (Call.replace key v e) x i = map_ok Reply.done (unit_outcome x)
  line_outcome (Call.cas key v e id) x i = map_ok Reply.flag (cas_outcome x)
  line_outcome (Call.append key v) x i = map_ok Reply.done (unit_outcome x)
  line_outcome (Call.prepend key v) x i = map_ok Reply.done (unit_outcome x)
  line_outcome (Call.delete key) x i = map_ok Reply.flag (answer_outcome x)
  line_outcome (Call.increment key n) x i = map_ok Reply.count (tally_outcome x)
  line_outcome (Call.decrement key n) x i = map_ok Reply.count (tally_outcome x)
  line_outcome (Call.touch key e) x i = map_ok Reply.flag (answer_outcome x)

  got_exchange :
      (key : Bytes) (x : GetAnswer) (i : IsGot key x) (r : CappedLineReader) (w a : Bytes)
      → IsOpen r w (got_text key x ++ a)
      → Ends IsOpen (Ascii.get from key r) (got key x i) (w ++ (bytes "get " ++ (key ++ crlf))) a
  got_exchange key miss i r w a o = get_miss from key r w a o
  got_exchange key (refused f) i r w a o = get_refused from key f r w a i o
  got_exchange key (hit flags payload) i r w a o =
      get_hit from key flags i.chars i.text payload i.result i.flags_fit i.size i.line i.read_as r w
        a o

  -- A call that is over: its outcome, what was written to the stream, and what arrives still.
  pub record Answered (x : Outcome (Reply W) × Protocol) (o : Outcome (Reply W)) (w a : Bytes)
      : Type 0 where
    pub gives : x.0 ≡ o
    pub reader : CappedLineReader
    pub stays : x.1 ≡ ascii reader
    pub leaves : IsOpen reader w a

  Ends-Answered :
      {A : Type 0} (f : A → Reply W) (m : Exec AsciiProtocol A) (n : Exec BinaryProtocol A)
      (r : CappedLineReader) (o : Outcome A) (w a : Bytes)
      → Ends IsOpen (m r) o w a
      → Answered (replies f (dispatch m n) (ascii r)) (map_ok f o) w a
  unfolding dispatch
  Ends-Answered f m n r o w a e = record {
    gives = ap (map_ok f) e.gives;
    reader = (m r).1;
    stays = refl;
    leaves = e.leaves;
  }

  pub call-Answered :
      (call : Call Bytes) (x : AnswerTo call) (i : IsAnswer call x) (r : CappedLineReader)
      (w a : Bytes)
      → IsOpen r w (answer_text call x ++ a)
      → Answered
          (call_protocol bytes_value from call (ascii r))
          (line_outcome call x i)
          (w ++ command_of call)
          a
  unfolding call_protocol Protocol.get Protocol.set Protocol.add Protocol.replace Protocol.cas
      Protocol.append Protocol.prepend Protocol.delete Protocol.increment Protocol.decrement
      Protocol.touch
  call-Answered (Call.get key) x i r w a o =
      Ends-Answered Reply.value _ _ r _ _ a (got_exchange key x i r w a o)
  call-Answered (Call.set key v e) x i r w a o =
      Ends-Answered Reply.done _ _ r _ _ a
        (set_exchange bytes_value v v (Talks-write_all v) key e x r w a i o).0
  call-Answered (Call.add key v e) x i r w a o =
      Ends-Answered Reply.done _ _ r _ _ a
        (set_exchange bytes_value v v (Talks-write_all v) key e x r w a i o).1
  call-Answered (Call.replace key v e) x i r w a o =
      Ends-Answered Reply.done _ _ r _ _ a
        (set_exchange bytes_value v v (Talks-write_all v) key e x r w a i o).2
  call-Answered (Call.cas key v e id) x i r w a o =
      Ends-Answered Reply.flag _ _ r _ _ a
        (cas_line_exchange bytes_value v v (Talks-write_all v) key e id x r w a i o)
  call-Answered (Call.append key v) x i r w a o =
      Ends-Answered Reply.done _ _ r _ _ a
        (concat_exchange bytes_value v v (Talks-write_all v) key x r w a i o).0
  call-Answered (Call.prepend key v) x i r w a o =
      Ends-Answered Reply.done _ _ r _ _ a
        (concat_exchange bytes_value v v (Talks-write_all v) key x r w a i o).1
  call-Answered (Call.delete key) x i r w a o =
      Ends-Answered Reply.flag _ _ r _ _ a (delete_exchange key x r w a i o)
  call-Answered (Call.increment key n) x i r w a o =
      Ends-Answered Reply.count _ _ r _ _ a (count_exchange key n x r w a i o).0
  call-Answered (Call.decrement key n) x i r w a o =
      Ends-Answered Reply.count _ _ r _ _ a (count_exchange key n x r w a i o).1
  call-Answered (Call.touch key e) x i r w a o =
      Ends-Answered Reply.flag _ _ r _ _ a (touch_exchange key e x r w a i o)
