-- ===== src/Calls/Lines/Session.antt =====
-- Sequences of calls on connections with the ASCII protocol, against a server that answers commands.
use rust_memcache.Prelude.{
  ℕ, ◌≤◌, ◌≡◌, refl, ap, some, ◌∙◌, Bytes, List, [], ◌∷◌, ◌++◌, append-nil, append_assoc, length,
  All,
}
use rust_memcache.Outcome.{Outcome}
use rust_memcache.Reader.{CappedLineReader}
use rust_memcache.Reader.View.{IsOpen}
use rust_memcache.Value.{FromMemcacheValueExt, bytes_value}
use rust_memcache.Protocol.{Protocol, ascii}
use rust_memcache.Connection.{Connection}
use rust_memcache.Pool.{R2d2}
use rust_memcache.Client.{Client}
use rust_memcache.Calls.{Call, Reply, key_of, call_protocol, run_client}
use rust_memcache.Calls.Session.{run_protocol}
use rust_memcache.Calls.Servers.{calls_of, results_of, GivesBack, Holds, calls-Serves}
use rust_memcache.Calls.Lines.Decode.{IsCommand, decode_commands}
use rust_memcache.Calls.Lines.Decode.RoundTrip.{decode_commands-commands}
use rust_memcache.Calls.Lines.{
  command_of, commands, AnswerTo, answer_text, IsAnswer, line_outcome, call-Answered,
}

-- Calls that are over: their results, what was written to the stream, and what arrives still.
pub record LineSession {W : Type 0} (x : List (Outcome (Reply W)) × Protocol)
    (rs : List (Outcome (Reply W))) (calls : List (Call Bytes)) (w a : Bytes) : Type 0 where
  pub gives : x.0 ≡ rs
  pub reader : CappedLineReader
  pub stays : x.1 ≡ ascii reader
  pub leaves : IsOpen reader (w ++ commands calls) a

-- A server has a state, and answers each call by it.
module _ {St : Type 0} (answer : St → (call : Call Bytes) → AnswerTo call × St) where
  -- What arrives when the server answers the calls.
  abbrev pub answer_texts : List (Call Bytes) → St → Bytes
  answer_texts [] st = []
  answer_texts (call ∷ calls) st =
      answer_text call (answer st call).0 ++ answer_texts calls (answer st call).1

  module _ {W : Type 0} (from : FromMemcacheValueExt W) where
    abbrev pub AllAnswers : List (Call Bytes) → St → Type 0
    AllAnswers [] st = Unit
    AllAnswers (call ∷ calls) st =
        IsAnswer from call (answer st call).0 × AllAnswers calls (answer st call).1

    -- The results when each call is a direct call of the server.
    abbrev pub line_outcomes :
        (calls : List (Call Bytes)) (st : St) → AllAnswers calls st → List (Outcome (Reply W))
    line_outcomes [] st h = []
    line_outcomes (call ∷ calls) st h =
        line_outcome from call (answer st call).0 h.0 ∷ line_outcomes calls (answer st call).1 h.1

    protocol-LineSession :
        (calls : List (Call Bytes)) (st : St) (h : AllAnswers calls st) (p : Protocol)
        (r : CappedLineReader) (w a : Bytes)
        → p ≡ ascii r
        → IsOpen r w (answer_texts calls st ++ a)
        → LineSession (run_protocol from calls p) (line_outcomes calls st h) calls w a
    unfolding run_protocol
    protocol-LineSession [] st h p r w a e o = record {
      gives = refl;
      reader = r;
      stays = e;
      leaves = rw (append-nil w) o;
    }
    protocol-LineSession (call ∷ calls) st h p r w a e o =
        let x = (answer st call).0 in
        let st' = (answer st call).1 in
        let first =
          call-Answered from call x h.0 r w (answer_texts calls st' ++ a)
            (rw (append_assoc (answer_text call x) (answer_texts calls st') a) at o) in
        let p' = (call_protocol bytes_value from call (ascii r)).1 in
        let more =
          protocol-LineSession calls st' h.1 p' first.reader (w ++ command_of call) a first.stays
            first.leaves in
        rw e (record {
          gives =
              ap (λ o. o ∷ (run_protocol from calls p').0) first.gives
              ∙ ap (λ rs. line_outcome from call x h.0 ∷ rs) more.gives;
          reader = more.reader;
          stays = more.stays;
          leaves = rw (append_assoc w (command_of call) (commands calls)) at more.leaves;
        })

    -- A server is any function that gives for its state and a call an answer and a new state. When its
    -- answers to a list of calls (get, set, add, replace, cas, append, prepend, delete, increment,
    -- decrement, touch) arrive in lines and values on a reader of the ASCII protocol, in chunks of any
    -- size, partly in its buffer, and with anything behind them, the calls with the ASCII protocol on
    -- that connection give, one by one, the results of asking the server directly: each call gets the
    -- answer to its own command. What was written is exactly the commands of the calls, which a server
    -- that splits lines into words reads back as these calls, and what comes behind the answers is
    -- left. No key has a space or a CR, and numbers and lengths fit their types. The answers are those
    -- of the protocol: to a get END or one value; to a store command STORED, NOT_STORED, EXISTS or
    -- NOT_FOUND; to a delete or touch DELETED or TOUCHED, or NOT_FOUND; to an incr or decr a 64-bit
    -- number or NOT_FOUND; and to every command ERROR, CLIENT_ERROR or SERVER_ERROR with any text. Each
    -- line is UTF-8 text of at most 2048 bytes that ends at its first CR LF, and for a hit the key is
    -- UTF-8 text with no space or CR, the flags fit 32 bits, the value is shorter than 2^63 bytes and
    -- the type reads it.
    pub run_protocol-LineSession :
        (calls : List (Call Bytes)) (st : St) (h : AllAnswers calls st) (r : CappedLineReader)
        (w a : Bytes)
        → All IsCommand calls
        → IsOpen r w (answer_texts calls st ++ a)
        → LineSession (run_protocol from calls (ascii r)) (line_outcomes calls st h) calls w a
          × (decode_commands (length calls) (commands calls) ≡ some calls)
    run_protocol-LineSession calls st h r w a q o =
        (protocol-LineSession calls st h (ascii r) r w a refl o, decode_commands-commands calls q)

    module _ {Pool : Type 0} (r2d2 : R2d2 Pool) where
      -- A client has several servers, each with a pool that gives the connection that was put back
      -- last, as it was. For any list of calls with keys and for each server whose connection runs
      -- the ASCII protocol, the results of the calls whose keys hash to that server are, in their
      -- order, the results of asking it directly for these calls alone, whatever the other pools and
      -- servers do. The server gives for its state and a call an answer and a new state; its answers
      -- to these calls arrive on the connection's reader, in chunks of any size; and the keys of
      -- these calls have at most 250 bytes. The answers are those of the protocol: to a get END or
      -- one value; to a store command STORED, NOT_STORED, EXISTS or NOT_FOUND; to a delete or touch
      -- DELETED or TOUCHED, or NOT_FOUND; to an incr or decr a 64-bit number or NOT_FOUND; and to
      -- every command ERROR, CLIENT_ERROR or SERVER_ERROR with any text. Each line is UTF-8 text of
      -- at most 2048 bytes that ends at its first CR LF, and for a hit the key is UTF-8 text with no
      -- space or CR, the flags fit 32 bits, the value is shorter than 2^63 bytes and the type reads
      -- it.
      pub run_client-lines :
          (calls : List (Call Bytes)) (c : Client Pool) (i : ℕ) (k : Connection)
          (r : CappedLineReader) (w a : Bytes) (st : St)
          (h : AllAnswers (calls_of c.hash_function (length c.connections) i calls) st)
          → GivesBack r2d2
          → Holds r2d2 from c i k
          → k.protocol ≡ ascii r
          → All
              (λ call. length (key_of call) ≤ 250)
              (calls_of c.hash_function (length c.connections) i calls)
          → IsOpen r w
              (answer_texts (calls_of c.hash_function (length c.connections) i calls) st ++ a)
          → results_of c.hash_function
              (length c.connections)
              i
              calls
              (run_client bytes_value from r2d2 calls c).0
            ≡ line_outcomes (calls_of c.hash_function (length c.connections) i calls) st h
      run_client-lines calls c i k r w a st h law holds p short o =
          let mine = calls_of c.hash_function (length c.connections) i calls in
          (calls-Serves r2d2 from calls c i k c.hash_function (length c.connections) law refl refl
            short holds).results
          ∙ ap (λ t. (run_protocol from mine t).0) p
          ∙ (protocol-LineSession mine st h (ascii r) r w a refl o).gives
