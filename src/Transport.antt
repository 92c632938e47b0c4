-- ===== src/Transport.antt =====
-- The transport of link/src/transport/: the loops between the UDP socket, the QUIC connection and
-- the packets.
pub mod Parse
pub mod ReadLoop
pub mod WriteLoop
pub mod SendLoop
pub mod Token
pub mod Udp
pub mod Handshake
pub mod Listen
pub mod Connect
pub mod ProcessLoop
pub mod Path
mod Tests
