-- ===== src/Transport/ReadLoop.antt =====
-- `link_read_loop` of link/src/transport/link.rs: the received bytes go into a buffer, and the
-- packets at its front go to the receiver of the packets. The channel of the received chunks is the
-- list of the chunks that arrive before it is closed. Logging and metrics are left out.
pub mod Push
pub mod Step
pub mod Stream
pub mod Stop
use quote_link_rs.Base.{
  ℕ, List, [], ◌∷◌, Option, none, some, Result, ok, err, length, ltb, leb, if◌then◌else◌,
}
use quote_link_rs.Channel.{Sender}
use quote_link_rs.Deku.{Deku}
use quote_link_rs.Packet.{Packet, min_packet_header_size}
use quote_link_rs.SimpleBuf
use quote_link_rs.SimpleBuf.{SimpleBuf, BufError}
use quote_link_rs.Transport.Parse.{Parsed, parsed, Outcome, parse_packet_buf}

pub record ReadState : Type 0 where
  pub packet_buffer : SimpleBuf
  pub need_size : ℕ
  pub response_tx : Sender Packet

-- The values with which the loop is left.
pub data ReadError : Type 0 where
  no_room push_failed free_failed recv_closed : ReadError
  parse_failed : Parsed → ReadError

-- The state after one chunk, and the error that ends the loop, if there is one.
abbrev pub Step : Type 0
Step = ReadState × Option ReadError

unfoldable pub start_read : ℕ → Sender Packet → ReadState
start_read stream_read_buffer_size tx = record {
  packet_buffer = SimpleBuf.new stream_read_buffer_size;
  need_size = min_packet_header_size;
  response_tx = tx;
}

-- Room for a chunk: the bytes are moved to the front only if the chunk is longer than they are.
unfoldable pub make_room : SimpleBuf → List ℕ → Result ReadError SimpleBuf
make_room buf b =
    if ltb (SimpleBuf.len buf) (length b)
    then (if ltb (SimpleBuf.max_len buf) (length b) then err no_room else ok (SimpleBuf.reuse buf))
    else ok buf

unfoldable pub finish : ReadState → Step
finish s = (record s { packet_buffer = (SimpleBuf.reuse_if s.packet_buffer).0 }, none)

unfoldable pub on_free : ReadState → ℕ → Result BufError SimpleBuf → Step
unfolding finish
on_free s n (err e) = (s, some free_failed)
on_free s n (ok buf) = finish (record s { packet_buffer = buf; need_size = n })

unfoldable pub on_parsed : ReadState → Outcome → Step
unfolding on_free
on_parsed s (parsed c n, tx) =
    on_free (record s { response_tx = tx }) n (SimpleBuf.free s.packet_buffer c)
on_parsed s (r, tx) = (record s { response_tx = tx }, some (parse_failed r))

module _ (d : Deku) where
  unfoldable pub parse_stage : ReadState → Step
  unfolding on_parsed finish
  parse_stage s =
      if leb s.need_size (SimpleBuf.len s.packet_buffer)
      then on_parsed s (parse_packet_buf d s.response_tx (SimpleBuf.occupied_slice s.packet_buffer))
      else finish s

  unfoldable pub on_push : ReadState → Result BufError SimpleBuf → Step
  unfolding parse_stage
  on_push s (err e) = (s, some push_failed)
  on_push s (ok buf) = parse_stage (record s { packet_buffer = buf })

  unfoldable pub on_room : ReadState → List ℕ → Result ReadError SimpleBuf → Step
  unfolding on_push
  on_room s b (err e) = (s, some e)
  on_room s b (ok buf) = on_push (record s { packet_buffer = buf }) (SimpleBuf.push_slice buf b)

  -- One chunk.
  unfoldable pub read_once : ReadState → List ℕ → Step
  unfolding on_room make_room
  read_once s b = on_room s b (make_room s.packet_buffer b)

  abbrev pub continue : (ReadState → ReadState × ReadError) → Step → ReadState × ReadError
  continue again (s, none) = again s
  continue again (s, some e) = (s, e)

  unfoldable pub read_loop : List (List ℕ) → ReadState → ReadState × ReadError
  unfolding read_once
  read_loop [] s = (s, recv_closed)
  read_loop (b ∷ bs) s = continue (read_loop bs) (read_once s b)

  unfoldable pub link_read_loop : ℕ → Sender Packet → List (List ℕ) → ReadState × ReadError
  unfolding read_loop start_read
  link_read_loop stream_read_buffer_size tx chunks =
      read_loop chunks (start_read stream_read_buffer_size tx)
