-- ===== src/Ascii/Storing.antt =====
-- Whole exchanges of the store commands of the ASCII protocol on a socket: the text that is sent, and the
-- result that each line of the server gives.
use mathlib.Core.List.{flatten}
use rust_memcache.Prelude.{
  ℕ, ◌≡◌, refl, ap, Bytes, bytes, Bool, true, false, [], ◌++◌, append-nil, Option, none, some,
  if◌then◌else◌,
}
use rust_memcache.Error.{
  ClientError, ServerError, client_error, server_error, command_error, invalid_command,
  is_missing_or_exists,
}
use rust_memcache.Outcome.{Outcome, ok, err, handle}
use rust_memcache.Exec.{Exec, pure, ◌>>◌}
use rust_memcache.Exec.Talks.{
  Ends, Talks, Talks-bind, Talks-bind_err, Talks-lift_bind, Talks-pure, Talks-subst,
}
use rust_memcache.Stream.Exchange.{Ready, Talks-write, Talks-flush}
use rust_memcache.Stream.Exact.{Talks-write_fmt}
use rust_memcache.Text.Decimal.{to_decimal}
use rust_memcache.Value.{ToMemcacheValue}
use rust_memcache.Reader.{CappedLineReader}
use rust_memcache.Reader.View.{IsOpen}
use rust_memcache.Reader.Line.{IsLine}
use rust_memcache.Reader.Talk.{Talks-read_line, Talks-on_stream}
use rust_memcache.Ascii.{store, cas, set, add, replace, append, prepend}
use rust_memcache.Ascii.Commands.{
  default_options, StoreCommand, command_text, crlf, check_cas, store_pieces,
}
use rust_memcache.Ascii.Responses.{store_response}
use rust_memcache.Ascii.StoreReply.{
  Reply, stored, not_stored, exists, not_found, error, client_fault, server_fault, reply_line,
  store_outcome, unit_outcome, store_response-reply_line,
}

-- "<command> <key> <flags> <exptime> <length>", " <cas>" if there is one, and CR LF.
abbrev pub cas_text : Option ℕ → Bytes
cas_text none = []
cas_text (some id) = bytes " " ++ to_decimal id

abbrev pub store_line : StoreCommand → Bytes → ℕ → ℕ → ℕ → Option ℕ → Bytes
store_line command key flags exptime vlen c =
    command_text command
    ++ (bytes " "
        ++ (key
            ++ (bytes " "
                ++ (to_decimal flags
                    ++ (bytes " "
                        ++ (to_decimal exptime
                            ++ (bytes " " ++ (to_decimal vlen ++ (cas_text c ++ crlf)))))))))

flatten-store_pieces :
    (command : StoreCommand) (key : Bytes) (flags exptime vlen : ℕ) (c : Option ℕ)
    → flatten (store_pieces command key flags exptime vlen c [])
      ≡ store_line command key flags exptime vlen c
unfolding store_pieces flatten
flatten-store_pieces command key flags exptime vlen none = refl
flatten-store_pieces command key flags exptime vlen (some id) = refl

-- The result of `cas` by the reply.
abbrev pub cas_outcome : Reply → Outcome Bool
cas_outcome stored = ok true
cas_outcome not_stored = ok false
cas_outcome exists = ok false
cas_outcome not_found = ok false
cas_outcome error = err (command_error invalid_command)
cas_outcome (client_fault text) =
    err (client_error (ClientError.error (reply_line (client_fault text))))
cas_outcome (server_fault text) =
    err (server_error (ServerError.error (reply_line (server_fault text))))

-- The cas id that a command needs is there.
abbrev HasCas : StoreCommand → Option ℕ → Type 0
HasCas command c = check_cas command c ≡ ok tt

Talks-unit :
    (r : Reply) {m : Exec CappedLineReader Bool} {u v : Bytes}
    → Talks IsOpen m (store_outcome r) u v
    → Talks IsOpen (m >> pure tt) (unit_outcome r) u v
Talks-unit stored t = Talks-subst (Talks-bind _ t (Talks-pure tt)) (append-nil _) (append-nil _)
Talks-unit not_stored t = Talks-subst (Talks-bind _ t (Talks-pure tt)) (append-nil _) (append-nil _)
Talks-unit exists t = Talks-bind_err _ t
Talks-unit not_found t = Talks-bind_err _ t
Talks-unit error t = Talks-bind_err _ t
Talks-unit (client_fault text) t = Talks-bind_err _ t
Talks-unit (server_fault text) t = Talks-bind_err _ t

module _ {V : Type 0} (to : ToMemcacheValue V) (value : V) (payload : Bytes)
    (writes : Talks Ready (to.write_to value) (ok tt) payload []) where
  -- The line, the value and CR LF.
  abbrev pub store_text : StoreCommand → Bytes → ℕ → Option ℕ → Bytes
  store_text command key expiration c =
      store_line command key (to.get_flags value) expiration (to.get_length value) c
      ++ (payload ++ crlf)

  Talks-store :
      (command : StoreCommand) (key : Bytes) (expiration : ℕ) (c : Option ℕ) (r : Reply)
      → HasCas command c
      → IsLine (reply_line r)
      → Talks IsOpen
          (store to command key value (record default_options { exptime = expiration; cas = c }))
          (store_outcome r)
          (store_text command key expiration c)
          (reply_line r)
  unfolding store
  Talks-store command key expiration c r h l =
      Talks-subst
        (Talks-lift_bind _ h (
          Talks-bind _
            (Talks-on_stream _ (
              Talks-write_fmt (
                store_pieces command key (to.get_flags value) expiration (to.get_length value) c
                  [])))
            (Talks-bind _ (Talks-on_stream _ writes) (
              Talks-bind _ (Talks-on_stream _ (Talks-write crlf)) (
                Talks-bind _ (Talks-on_stream _ Talks-flush) (
                  rw (store_response-reply_line r) at
                    (Talks-read_line store_response (reply_line r) l)))))))
        (ap (λ t. t ++ (payload ++ crlf))
          (flatten-store_pieces command key (to.get_flags value) expiration (to.get_length value)
            c))
        refl

  -- The ASCII `cas` sends its command line with the cas id, the value and CR LF, and reads one line:
  -- "STORED" gives true; "NOT_STORED", "EXISTS" and "NOT_FOUND" give false; "ERROR", "CLIENT_ERROR ..."
  -- and "SERVER_ERROR ..." are their errors. The reply is a line that the reader takes, and the value
  -- writes without an error.
  pub cas_line_exchange :
      (key : Bytes) (expiration id : ℕ) (r : Reply) (p : CappedLineReader) (w a : Bytes)
      → IsLine (reply_line r)
      → IsOpen p w (reply_line r ++ a)
      → Ends IsOpen
          (cas to key value expiration id p)
          (cas_outcome r)
          (w ++ store_text StoreCommand.cas key expiration (some id))
          a
  unfolding cas check_cas
  cas_line_exchange key expiration id r p w a l o =
      let e = (Talks-store StoreCommand.cas key expiration (some id) r refl l).at p w a o in
      record { gives = cas_result r _ e.gives; leaves = e.leaves }
    where
      cas_result :
          (r : Reply) (o : Outcome Bool)
          → o ≡ store_outcome r
          → handle o ok (λ e. if is_missing_or_exists e then ok false else err e) ≡ cas_outcome r
      cas_result stored o e = rw e refl
      cas_result not_stored o e = rw e refl
      cas_result exists o e = rw e refl
      cas_result not_found o e = rw e refl
      cas_result error o e = rw e refl
      cas_result (client_fault text) o e = rw e refl
      cas_result (server_fault text) o e = rw e refl

  -- The ASCII `set`, `add` and `replace` send their command line, the value and CR LF, and read one line.
  -- "STORED" and "NOT_STORED" both count as success; the other replies are their errors. The reply is a
  -- line that the reader takes, and the value writes without an error.
  pub set_exchange :
      (key : Bytes) (expiration : ℕ) (r : Reply) (p : CappedLineReader) (w a : Bytes)
      → IsLine (reply_line r)
      → IsOpen p w (reply_line r ++ a)
      → Ends IsOpen
          (set to key value expiration p)
          (unit_outcome r)
          (w ++ store_text StoreCommand.set key expiration none)
          a
        × Ends IsOpen
            (add to key value expiration p)
            (unit_outcome r)
            (w ++ store_text StoreCommand.add key expiration none)
            a
        × Ends IsOpen
            (replace to key value expiration p)
            (unit_outcome r)
            (w ++ store_text StoreCommand.replace key expiration none)
            a
  unfolding set add replace check_cas
  set_exchange key expiration r p w a l o = (
    (Talks-unit r (Talks-store StoreCommand.set key expiration none r refl l)).at p w a o,
    (Talks-unit r (Talks-store StoreCommand.add key expiration none r refl l)).at p w a o,
    (Talks-unit r (Talks-store StoreCommand.replace key expiration none r refl l)).at p w a o,
  )

  -- The ASCII `append` and `prepend` send their command line with flags of the value and expiration 0,
  -- the value and CR LF, and read one line. "STORED" and "NOT_STORED" both count as success; the other
  -- replies are their errors. The reply is a line that the reader takes, and the value writes without an
  -- error.
  pub concat_exchange :
      (key : Bytes) (r : Reply) (p : CappedLineReader) (w a : Bytes)
      → IsLine (reply_line r)
      → IsOpen p w (reply_line r ++ a)
      → Ends IsOpen
          (append to key value p)
          (unit_outcome r)
          (w ++ store_text StoreCommand.append key 0 none)
          a
        × Ends IsOpen
            (prepend to key value p)
            (unit_outcome r)
            (w ++ store_text StoreCommand.prepend key 0 none)
            a
  unfolding append prepend check_cas
  concat_exchange key r p w a l o = (
    (Talks-unit r (Talks-store StoreCommand.append key 0 none r refl l)).at p w a o,
    (Talks-unit r (Talks-store StoreCommand.prepend key 0 none r refl l)).at p w a o,
  )
