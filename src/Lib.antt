-- ===== src/Lib.antt =====
-- Verification library of quote-link-rs: packets over one QUIC stream between a client and a server.
--
-- The program. A peer turns packets into bytes (link/src/packets.rs), hands them to a QUIC
-- connection and gets bytes in chunks from it; a buffer (link/src/simple_buf.rs) collects them until
-- a packet is whole (link/src/transport/link.rs). On top of this stand the client with its
-- connections, heartbeats and pending requests (link/src/client.rs) and the server with a session
-- for each connection and a map of the clients (link/src/server.rs).
--
-- The files.
-- - Base: Boolean tests, list lemmas, results, `usize` arithmetic, strings as lists.
-- - Channel: the sending end of a tokio channel; `room` is how many values the receiver still takes.
-- - Deku: the crate deku as a parameter, with the behaviour that it documents; Deku.Msb is an
--   instance of it, Deku.Fields what follows for the fields of this program.
-- - Protos: the messages of link/protos/control.proto, with the codecs of prost as parameters.
-- - Packet: link/src/packets.rs and link/src/packet_utils.rs. Enums has the numbers of the variants,
--   Codec the readers and writers (`from_bytes`, `to_bytes`), Layout the diagram of the bytes,
--   Build the constructors (`new_request`, `new_heartbeat`, ...), Convert the bodies
--   (`TryFrom<Response>`, `parse_quotation`); Decode, Canonical, Header, Whole, Extend and Front
--   are about the reader on whole packets, on too few bytes and on more bytes.
-- - SimpleBuf: link/src/simple_buf.rs; Window is the queue that it promises to be.
-- - Transport: Parse is `parse_packet_buf`, ReadLoop `link_read_loop`, WriteLoop `link_write_loop`,
--   ProcessLoop `quic_process_loop`, and SendLoop its branch that sends, all of
--   link/src/transport/link.rs; Token the retry tokens of link/src/transport/server.rs; Udp the loops
--   between a socket and the channels, Handshake `quic_handshake` and the task of `accept_new_conn`
--   (link/src/transport/client.rs, link/src/transport/server.rs); Listen `listen_at` and Connect
--   `connect` with the loops that are started (link/src/transport/transport.rs); Path the way from
--   one peer to the other.
-- - Server: the handle and the accepting loop of link/src/server.rs; Session the main loop of each
--   connection, Clients the map of the clients, Callback the loop that calls the handler, Stale the
--   session and the map together, from what Session.Notices says that a session reports.
-- - Client: the handle of link/src/client.rs; Conn the loop of one connection, Pending the requests
--   that wait for a response, Link the loop that connects again, with Retry on its limit and its ids.
-- - Resolve: `addr_resolve` of link/src/utils.rs. Config: link/src/config.rs.
-- - Metrics: the functions of metrics/src/ that record a metric; StateMetric is
--   metrics/src/state_metric.rs, and Accounts adds up what it reports.
--
-- State and steps. A struct is a record; a method or one round of a loop is a function from the old
-- state to the new one, with the error or the way in which the loop is left. A `select!` loop gets
-- its events as a list, in the order in which they are taken. What a task sends to others, or calls
-- of the user, is a log in the state. An answer of the user or of another task comes with the event.
--
-- Bounds and fuel. A byte is a number below 256, and `usize` has 64 bits and wraps. The loop of
-- `parse_packet_buf` takes fuel: each round but the last takes a packet of at least five bytes, so
-- one more than the number of bytes is enough. The same holds of the loops that hand bytes to a
-- connection or a socket, whose rounds take at least one byte each, if the callee keeps to its
-- documentation. The loop over `stream_recv` has one more round than the connection says that reads
-- are left.
--
-- Not modelled: TLS certificates, the registration and the export of the metrics and the calls that
-- record them in link/, logging, reading the configuration with serde, and the time limits on the
-- callbacks of the user.
pub mod Base
pub mod Channel
pub mod Deku
pub mod Protos
pub mod Packet
pub mod SimpleBuf
pub mod Transport
pub mod Server
pub mod Client
pub mod Resolve
pub mod Config
pub mod Metrics
