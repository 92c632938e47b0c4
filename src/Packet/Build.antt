-- ===== src/Packet/Build.antt =====
-- How the program builds packets: `request_id_trim`, the constructors of `Packet` and `Response` in
-- link/src/packets.rs, and the push of `send_quotation` in link/src/server.rs.
use quote_link_rs.Base.{
  ℕ, ◌<◌, ◌≡◌, ◌∙◌, ◌%◌, ◌^◌, refl, sym, append-nil, ap, List, [], Bool, some, ok, length, All,
  arith,
}
use quote_link_rs.Deku.{Deku, IsMsbFirst, IsByte}
use quote_link_rs.Deku.Fields.{u24_mod}
use quote_link_rs.Packet.Enums.{Command, MsgType, ResponseStatus, auth, heartbeat, success}
use quote_link_rs.Packet.{Request, Response, Packet, get_request_id, default_request_timeout}
use quote_link_rs.Packet.Codec.{packet_to_bytes, packet_from_bytes}
use quote_link_rs.Packet.Layout.{IsWellFormed, encoding, packet_to_bytes-encoding}
use quote_link_rs.Packet.Decode.{packet_from_bytes-encoding}
use quote_link_rs.Protos.{Text, Message, IsMessage, Heartbeat, AuthRequest, SubscribeRequest}

-- The low 24 bits.
unfoldable pub request_id_trim : ℕ → ℕ
request_id_trim id = id % 2 ^ 24

-- `len() as u32`.
abbrev len_u32 : List ℕ → ℕ
len_u32 body = length body % 2 ^ 32

unfoldable pub new_request : Command → ℕ → List ℕ → Packet
unfolding request_id_trim
new_request cmd id body = Packet.request (record {
  reserved = 0;
  command = cmd;
  id = request_id_trim id;
  timeout = default_request_timeout;
  body_len = len_u32 body;
  body = body;
})

unfoldable pub new_response_from : Request → ResponseStatus → List ℕ → Packet
new_response_from req status body = Packet.response (record {
  reserved = 0;
  command = req.command;
  id = req.id;
  status = status;
  body_len = len_u32 body;
  body = body;
})

-- `Response::new`, which keeps all bits of the id.
unfoldable pub new_response : Command → ℕ → ResponseStatus → List ℕ → Response
new_response cmd id status body = record {
  reserved = 0;
  command = cmd;
  id = id;
  status = status;
  body_len = len_u32 body;
  body = body;
}

unfoldable pub new_auth : Message AuthRequest → ℕ → Text → Text → Text → Packet
unfolding request_id_trim
new_auth m id username password client_name =
    let body = m.encode_to_vec (record {
      auth_info =
          some (record { user_name = username; password = password; client_name = client_name });
    }) in
    Packet.request (record {
      reserved = 0;
      command = auth;
      id = request_id_trim id;
      timeout = default_request_timeout;
      body_len = len_u32 body;
      body = body;
    })

unfoldable pub new_subscribe : Message SubscribeRequest → Command → ℕ → Bool → ℕ → Packet
unfolding request_id_trim
new_subscribe m cmd id sub_all span_idx =
    let body =
      m.encode_to_vec (record { all = sub_all; counter_ids = []; span_index = span_idx }) in
    Packet.request (record {
      reserved = 0;
      command = cmd;
      id = request_id_trim id;
      timeout = default_request_timeout;
      body_len = len_u32 body;
      body = body;
    })

-- `now` is what `unix_micros` reads from the clock.
unfoldable pub new_heartbeat : Message Heartbeat → ℕ → ℕ → Packet
unfolding request_id_trim
new_heartbeat m now id =
    let raw_body = m.encode_to_vec (record { timestamp = now }) in
    Packet.request (record {
      reserved = 0;
      command = heartbeat;
      id = request_id_trim id;
      timeout = default_request_timeout;
      body_len = len_u32 raw_body;
      body = raw_body;
    })

unfoldable pub new_heartbeat_response : Request → Packet
new_heartbeat_response req = Packet.response (record {
  reserved = 0;
  command = heartbeat;
  id = req.id;
  status = success;
  body_len = req.body_len;
  body = req.body;
})

-- The packet that `send_quotation` sends.
unfoldable pub quotation_push : {A : Type 0} → Message A → A → Command → MsgType → Packet
quotation_push m quotation cmd msg_type =
    let raw_data = m.encode_to_vec quotation in
    Packet.push (record {
      reserved = 0;
      command = cmd;
      msg_type = msg_type;
      body_len = len_u32 raw_data;
      body = raw_data;
    })

-- `new_request` makes a well formed packet for every id, also one of more than 24 bits, and every
-- body of fewer than 2^24 bytes.
pub new_request-IsWellFormed :
    (cmd : Command) (id : ℕ) (body : List ℕ)
    → All IsByte body
    → length body < u24_mod
    → IsWellFormed (new_request cmd id body)
unfolding new_request request_id_trim
new_request-IsWellFormed cmd id body hb h =
    (omega arith, omega arith, omega arith, omega arith, omega arith, hb)

new_heartbeat-IsWellFormed :
    (m : Message Heartbeat) (now id : ℕ)
    → All IsByte (m.encode_to_vec (record { timestamp = now }))
    → length (m.encode_to_vec (record { timestamp = now })) < u24_mod
    → IsWellFormed (new_heartbeat m now id)
unfolding new_heartbeat request_id_trim
new_heartbeat-IsWellFormed m now id hb h =
    (omega arith, omega arith, omega arith, omega arith, omega arith, hb)

pub new_heartbeat_response-IsWellFormed :
    (req : Request) → IsWellFormed (Packet.request req) → IsWellFormed (new_heartbeat_response req)
unfolding new_heartbeat_response
new_heartbeat_response-IsWellFormed req (a, b, c, e, f, g) = (omega arith, b, e, f, g)

-- The body of a packet.
abbrev pub body_of_packet : Packet → List ℕ
body_of_packet (Packet.request r) = r.body
body_of_packet (Packet.response r) = r.body
body_of_packet (Packet.push r) = r.body

-- The bytes of a packet and no more are read back.
alone :
    {d : Deku} (l : IsMsbFirst d) (p : Packet)
    → IsWellFormed p
    → packet_from_bytes d (encoding p, 0) ≡ ok (([], 0), p)
alone {d} l p h =
    ap (λ bs. packet_from_bytes d (bs, 0)) (sym (append-nil (encoding p)))
    ∙ packet_from_bytes-encoding l p [] h

-- A heartbeat comes back: for a timestamp that prost can encode in fewer than 2^24 bytes, and any
-- id, the client's heartbeat is written, the server reads a request from its bytes, the response
-- to that request is written and read back at the client, and this response carries the low 24
-- bits of the id and a body that decodes to the timestamp.
pub heartbeat_echo :
    {d : Deku} (l : IsMsbFirst d) (m : Message Heartbeat) (IsValue : Heartbeat → Type 0)
    (p : IsMessage m IsValue) (now id : ℕ)
    → IsValue (record { timestamp = now })
    → length (m.encode_to_vec (record { timestamp = now })) < u24_mod
    → (bs : List ℕ) × (req : Request) × (bs' : List ℕ) × (packet_to_bytes d (new_heartbeat m now id)
        ≡ ok bs)
      × (packet_from_bytes d (bs, 0) ≡ ok (([], 0), Packet.request req))
      × (packet_to_bytes d (new_heartbeat_response req) ≡ ok bs')
      × (packet_from_bytes d (bs', 0) ≡ ok (([], 0), new_heartbeat_response req))
      × (get_request_id (new_heartbeat_response req) ≡ id % 2 ^ 24)
      × (m.decode (body_of_packet (new_heartbeat_response req)) ≡ some (record { timestamp = now }))
unfolding new_heartbeat new_heartbeat_response get_request_id request_id_trim
heartbeat_echo {d} l m IsValue p now id v h = (
  encoding (Packet.request ping),
  ping,
  encoding (new_heartbeat_response ping),
  packet_to_bytes-encoding l (Packet.request ping) ping-fits,
  alone l (Packet.request ping) ping-fits,
  packet_to_bytes-encoding l (new_heartbeat_response ping) pong-fits,
  alone l (new_heartbeat_response ping) pong-fits,
  refl,
  p.decode-encode _ v,
)
  where
    raw_body : List ℕ
    raw_body = m.encode_to_vec (record { timestamp = now })

    ping : Request
    ping = record {
      reserved = 0;
      command = heartbeat;
      id = request_id_trim id;
      timeout = default_request_timeout;
      body_len = len_u32 raw_body;
      body = raw_body;
    }

    ping-fits : IsWellFormed (Packet.request ping)
    ping-fits = new_heartbeat-IsWellFormed m now id (p.encode-IsByte _) h

    pong-fits : IsWellFormed (new_heartbeat_response ping)
    pong-fits = new_heartbeat_response-IsWellFormed ping ping-fits
