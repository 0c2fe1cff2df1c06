-- ===== src/Lib.antt =====
-- A memcached client: its servers, the wire protocols and the streams they run on.
--
-- The program. A client (src/client.rs) has a pool of connections for each server, picks the pool of a key
-- by its hash, and shares the keys of `gets` out among the pools; a builder opens the pools. A connection
-- (src/connection.rs) runs one of two protocols (src/protocol/mod.rs) on a stream, which its url says how to
-- open. The binary protocol (src/protocol/binary.rs) writes packets of a 24 byte header, extras, key and
-- value (src/protocol/binary_packet.rs). The ASCII protocol (src/protocol/ascii.rs) writes command lines and
-- reads lines and values through a reader with a buffer of 2048 bytes. A stream (src/stream/mod.rs) is a
-- TCP, TLS, Unix or UDP socket; UDP (src/stream/udp_stream.rs) collects what is written and, on a flush,
-- sends it in one datagram and puts the datagrams of the response together. What is stored and read goes
-- through the traits of src/value.rs, and everything fails with the errors of src/error.rs.
--
-- How it is modelled. A method that changes `self` is a function from the state to an outcome and the new
-- state (Exec). An outcome is `ok`, `err` with the error, `panic`, or `stuck` when a loop of the model has used
-- up its fuel (Outcome). Integers are natural numbers with casts written as remainders; an addition or
-- subtraction that overflows is a panic, as in a build with overflow checks.
-- The network is a part of the state: a finite script of what a socket's reads, writes and flushes will
-- find, in order.
--   Prelude       lists, byte strings, tests on numbers
--   Error, Response   src/error.rs: the error types, `try_from` on a response line
--   Outcome, Exec     results and state passing; Exec.Talks says what a method sends, reads and gives,
--                 Exec.Total that it ends and keeps a property of the state
--   Stream        src/stream/mod.rs, and `read_exact`, `write_all` and `write_fmt` of the standard library
--   Stream.Sockets    the sockets of the standard library, as the code uses them
--   Stream.Udp    src/stream/udp_stream.rs
--   Wire          numbers in big endian order (the byteorder crate)
--   HashMap       `std::collections::HashMap`, one entry for each key
--   Text          the text functions of the standard library: trimming, splitting, UTF-8, decimal numbers
--   Value         src/value.rs
--   Packet        src/protocol/binary_packet.rs
--   Binary        src/protocol/binary.rs; Binary.Requests is the layout of a request, Binary.Decode a reader
--                 of requests by the lengths in their headers
--   Reader        `CappedLineReader` of src/protocol/ascii.rs
--   Ascii         the rest of src/protocol/ascii.rs; Ascii.Commands has the command lines, Ascii.Responses
--                 the callbacks that read one line, Ascii.Faults the lines that are errors
--   Ascii.Silence what a command does over UDP that is not flushed
--   Protocol      src/protocol/mod.rs: the two protocols as one
--   External, Url what calls of other crates give; the `Url` of the url crate by what its methods give
--   Connection    src/connection.rs; Connection.FromUrl has `Transport::from_url` and its options,
--                 Connection.Health is about the health check, Connection.Tls about TLS
--   Pool          the pools of the r2d2 crate, as a parameter
--   Client        src/client.rs: the client; Client.Gets has `gets`, Client.Builder `Connectable`, the builder
--                 and the constructors; Client.Routing, Grouping, Looping, Building, Refusals and NoServers
--                 are about them
--   Calls         the calls with one key as values; Calls.Settling is one call against a response,
--                 Calls.Session a sequence of calls against a server, Calls.Servers a client with several
--                 servers; Calls.Lines is the same for the ASCII protocol, with Calls.Lines.Decode a reader of
--                 its commands and Calls.Lines.Injection about keys with a line end; Calls.Udp is a call over UDP
--   Error.Display the texts of the errors
--   Tests         the theorems at concrete inputs
--
-- Channels. Stream.Exchange.Ready says that a stream over a socket takes every write and flush, what was
-- written to it, and what arrives on it before the first fault, in chunks of any size. Reader.View.IsOpen says
-- the same of a reader, whose buffer holds a part of what arrives. Ends says what a call gives and in which
-- state it leaves the channel: what was written then, and what is still to be read. Stream.Channels says what the
-- packets need of a channel. Over UDP there are two: Stream.Datagrams.Out before the flush, In behind it.
--
-- Totality. The module Total of each part says that its methods end on any network and keep what their state
-- must have: of a stream nothing, of a reader a buffer of its size that is not filled beyond it, of a protocol
-- the reader's, of a connection its protocol's. Connection.Total opens connections that are fit for use in this
-- sense, Pool.Total.HoldsFit asks of a pool to give such connections when it is given such ones, and Client.Total
-- and Calls.Total put it together. Value.Total has the types of src/value.rs whose conversions end.
--
-- Fuel. `read_exact` and `write_all` have fuel for the bytes and the events of the script, which is enough
-- (Stream.Termination). `read_line` has a round for each byte of its buffer and one more: each round adds a
-- byte. The ASCII `stats` never goes into a second round. The binary `stats` has a round for each byte and
-- event that can still arrive: each response takes a byte (Stream.Supply).
--
-- Parameters. `Url::parse`, the parsing of a number of seconds and `Duration`, the r2d2 crate (R2d2), sockets,
-- name resolution, random numbers and the openssl crate (Network), the default hasher, the order in which a hash
-- map is iterated, and how the standard library displays its own errors. A floating point type is `number_value`
-- and `from_number` at the printer and the parser of the standard library. `usize` has 64 bits. The code is that
-- for unix with the feature tls, which is on by default.
--
-- Not modelled: several threads or clones of a client that share a pool, since a call here uses its connection
-- alone; and `source` of the errors, which passes on what the standard library gives.
pub mod Prelude
pub mod Error
pub mod Outcome
pub mod Exec
pub mod Response
pub mod Stream
pub mod Wire
pub mod HashMap
pub mod Text
pub mod Value
pub mod Packet
pub mod Binary
pub mod Reader
pub mod Ascii
pub mod External
pub mod Protocol
pub mod Url
pub mod Connection
pub mod Pool
pub mod Client
pub mod Calls
pub mod Tests
