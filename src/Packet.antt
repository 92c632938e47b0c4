-- ===== src/Packet.antt =====
-- The packets of link/src/packets.rs: the types that go over the wire, their sizes and how the
-- program builds them. A `u8` is a number below 256, and a body is a list of such.
-- The bodies that prost encodes (a third-party crate) are arguments of the builders.
pub mod Enums
pub mod Codec
pub mod Layout
pub mod Decode
pub mod Canonical
pub mod Header
pub mod Whole
pub mod Extend
pub mod Front
pub mod Samples
mod Codecs
pub mod Build
pub mod Convert
mod Tests
use quote_link_rs.Base.{ℕ, ◌+◌, ◌%◌, ◌^◌, List}
use quote_link_rs.Packet.Enums.{Command, MsgType, ResponseStatus}

abbrev pub default_request_timeout : ℕ
default_request_timeout = 5

abbrev pub request_header_size : ℕ
request_header_size = 8

abbrev pub response_header_size : ℕ
response_header_size = 8

abbrev pub push_header_size : ℕ
push_header_size = 5

abbrev pub min_packet_header_size : ℕ
min_packet_header_size = 5

pub record Request : Type 0 where
  pub reserved : ℕ
  pub command : Command
  pub id : ℕ
  pub timeout : ℕ
  pub body_len : ℕ
  pub body : List ℕ

pub record Response : Type 0 where
  pub reserved : ℕ
  pub command : Command
  pub id : ℕ
  pub status : ResponseStatus
  pub body_len : ℕ
  pub body : List ℕ

pub record Push : Type 0 where
  pub reserved : ℕ
  pub command : Command
  pub msg_type : MsgType
  pub body_len : ℕ
  pub body : List ℕ

pub data Packet : Type 0 where
  request : Request → Packet
  response : Response → Packet
  push : Push → Packet

pub record RequestHeader : Type 0 where
  pub reserved : ℕ
  pub command : Command
  pub id : ℕ
  pub timeout : ℕ
  pub body_len : ℕ

pub record ResponseHeader : Type 0 where
  pub reserved : ℕ
  pub command : Command
  pub id : ℕ
  pub status : ResponseStatus
  pub body_len : ℕ

pub record PushHeader : Type 0 where
  pub reserved : ℕ
  pub command : Command
  pub msg_type : MsgType
  pub body_len : ℕ

pub data PacketHeader : Type 0 where
  request : RequestHeader → PacketHeader
  response : ResponseHeader → PacketHeader
  push : PushHeader → PacketHeader

unfoldable pub get_request_id : Packet → ℕ
get_request_id (Packet.request v) = v.id
get_request_id (Packet.response v) = v.id
get_request_id (Packet.push v) = 0

unfoldable pub total_bytes : Packet → ℕ
total_bytes (Packet.request r) = r.body_len + request_header_size
total_bytes (Packet.response r) = r.body_len + response_header_size
total_bytes (Packet.push r) = r.body_len + push_header_size

unfoldable pub need_bytes : PacketHeader → ℕ
need_bytes (PacketHeader.request r) = r.body_len + request_header_size
need_bytes (PacketHeader.response r) = r.body_len + response_header_size
need_bytes (PacketHeader.push r) = r.body_len + push_header_size
