-- ===== src/Lib.antt =====
-- A model of moqtransport, an implementation of Media over QUIC Transport in Go, and of the erasure
-- code that this repository adds to it.
--
-- The parts, and how they interact:
-- Base has the tests on numbers, lists measured by numbers, Go maps (Base.Assoc), and `Result` for Go's
-- pairs of a value and an error. `panic` and `hang` are its two other outcomes.
-- Wire is the package internal/wire, which turns control messages into bytes and back. Wire.Env is
-- what it takes from outside, quic-go's quicvarint; Wire.Quic is an instance, for the tests alone.
-- Wire.Fields are varint_bytes.go, tuple.go, location.go and version.go; Wire.Params are
-- key_value_pair.go and kvp_list.go; Wire.Filter is the subscription filter. Wire.Setup, Subscribe,
-- SubscribeOk, Fetch, FetchReply, Status, Announce and Announces have a record, an `append_` and a
-- `parse_` function for each of the 26 messages that the parser knows, after the files named like
-- the message. Wire.Message has the type numbers of control_message_type.go, and Wire.Control
-- compileMessage of session_helpers.go and ControlMessageParser.Parse. Wire.Rules are the rules by
-- which the proofs of the messages simplify.
-- Wire.Objects are the headers of streams and the objects on them (object_message.go,
-- stream_header_subgroup_message.go, fetch_header_message.go), Wire.Streams is
-- object_stream_parser.go, Wire.Datagram object_datagram_message.go, Wire.Token token.go and
-- Wire.Publish the three messages of publishing, which the parser does not know.
-- Fec is fec. Fec.Bits has the laws of the exclusive or; Fec.Xor is the encoder and the decoder of
-- fec/xor/xor.go; Fec.Xor.Parity, Blocks and Recovery prove what each does, and Transfer what they do
-- together. Fec.ReedSolomon is fec/reed-solomon/reed-solomon.go; the package that it wraps is the
-- parameter `Codec`.
-- Session is the root directory. Session.Errors are its errors. Its maps and counters are Session.Ids
-- (request_id.go and sequence.go), LocalTracks (local_track_map.go), RemoteTracks
-- (remote_track_map.go) and Announcements (announcement_map.go, announcement_subscription_map.go and
-- track_status_request_map.go). Session.State has the fields of Session (session.go) that the handshake
-- reads, and the write of control_stream.go; Session.Handshake has sendClientSetup, onClientSetup,
-- onServerSetup and onMaxRequestID of session.go with the parameters that session_helpers.go reads;
-- Session.Window has addLocalTrack and getRequestID. Session.Tracks is local_track.go, and
-- Session.Streams is subgroup.go, fetch_stream.go, what remote_track.go and session.go do with a
-- stream or a datagram that arrives, and ReadObject, where the case that a `select` takes is an argument.
-- After the handshake, Session.Peer is the whole state of a session. Session.Requests (subscriptions
-- and fetches) and Session.Announcing are the calls by which an application asks something of the peer,
-- each cut where it waits for an answer. Session.Handlers has the handlers of the peer's requests;
-- they call the application, whose calls on the response writers (Session.Writers) lead to the replies
-- of Session.Replies. Session.Answers has the handlers of all other messages, and Session.Receive
-- joins them as `receive` and readControlStream do. Session.Parameters is the part of messages.go
-- that reads parameters, with the option that adds a token; Session.Texts are the reasons that are sent.
--
-- How the code is read: a byte is a natural number, a string or a slice the list of its bytes, a
-- struct a record, and a method that changes its receiver returns the new one. Where Go reslices
-- beyond a slice's length, the model keeps the bytes up to the capacity (Slice). Arithmetic on
-- uint64 is modulo 2^64 where it can overflow. A lock or an atomic operation makes a call one step.
-- Whether the peer's stream takes a message is a parameter, `accepts`, of the session's handlers.
-- Before that, quicvarint panics on a number from 2^62 on: Wire.Encodable lists the numbers of a
-- control message, and `write` in Session.State then sets `panicked`, which says that the program
-- has ended. Streams and datagrams are modelled for numbers that have an encoding, which their
-- theorems ask for. A pointer that two maps share is an address, and what it points to stands in a
-- list of the session's state; a channel of one place is an optional answer. The order in which Go
-- ranges over a map is the parameter `Ranging`, and the application is the parameter `Application`.
--
-- Bounds and fuel: three loops have fuel, since the code does not bound them by a list or a count.
-- `parse_length` takes it as an argument, and ends by `hang` without it; so do `parse_datagram` and
-- `read_datagram`, which call it. `read_until_error` gets one round more than there are bytes, while
-- each round takes a byte at least; and `read_stream` likewise, since each object takes a byte.
--
-- Not modelled: the connection and its QUIC and WebTransport adapters, which are third-party; the
-- goroutines that accept streams and datagrams; the options that set one field; the conversion
-- between the two types of parameter lists; logging with the methods LogValue and String; and
-- examples, which have no logic of their own.
pub mod Base
pub mod Wire
pub mod Fec
pub mod Session
