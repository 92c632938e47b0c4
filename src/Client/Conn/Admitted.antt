-- ===== src/Client/Conn/Admitted.antt =====
-- What a connection of link/src/client.rs does when the peer has let it in: it hands the response on
-- and subscribes.
use quote_link_rs.Base.{
  ℕ, ◌+◌, ◌-◌, ◌%◌, ◌^◌, ◌<◌, ◌≤◌, ◌≡◌, ◌≢◌, ◌∙◌, refl, sym, ap, List, [], ◌∷◌, ◌++◌, append-nil,
  append_assoc, true, none, length, arith,
}
use quote_link_rs.Channel.{send_open}
use quote_link_rs.Packet.{Packet, Response}
use quote_link_rs.Packet.Build.{request_id_trim, new_subscribe}
use quote_link_rs.Protos.{Message, Heartbeat, SubscribeRequest}
use quote_link_rs.Client.{next_id, is_success}
use quote_link_rs.Client.Conn.{
  Subscribe, ConnConf, ConnState, sub_packets, send_all, subscribe_all, on_auth_response,
}

-- The request with the low 24 bits of `id` that asks for one subscription.
abbrev pub subscription : Message SubscribeRequest → Subscribe → ℕ → Packet
subscription subs sub id =
    let body =
      subs.encode_to_vec
        (record { all = sub.sub_all; counter_ids = []; span_index = sub.span_index }) in
    Packet.request (record {
      reserved = 0;
      command = sub.cmd;
      id = id % 2 ^ 24;
      timeout = 5;
      body_len = length body % 2 ^ 32;
      body = body;
    })

-- One packet for each subscription of the configuration, in its order, with the ids that follow
-- `id`.
abbrev pub subscriptions : Message SubscribeRequest → List Subscribe → ℕ → List Packet
subscriptions subs [] id = []
subscriptions subs (sub ∷ rest) id = subscription subs sub id ∷ subscriptions subs rest (id + 1)

module _ (heartbeats : Message Heartbeat) (subs : Message SubscribeRequest) where
  new_subscribe-eq :
      (sub : Subscribe) (id : ℕ)
      → new_subscribe subs sub.cmd (id % 2 ^ 32) sub.sub_all sub.span_index
        ≡ subscription subs sub id
  unfolding new_subscribe request_id_trim
  new_subscribe-eq sub id =
      let low : id % 2 ^ 32 % 2 ^ 24 ≡ id % 2 ^ 24 = omega arith in rw low refl

  -- The generator wraps at 2^32, which the low 24 bits do not show.
  sub_packets-eq :
      (xs : List Subscribe) (id : ℕ)
      → sub_packets heartbeats subs xs (id % 2 ^ 32)
        ≡ (subscriptions subs xs id, (id + length xs) % 2 ^ 32)
  unfolding sub_packets
  sub_packets-eq [] id = ground arith
  sub_packets-eq (sub ∷ rest) id =
      let next : next_id (id % 2 ^ 32) ≡ (id + 1) % 2 ^ 32 = omega arith in
      rw (next, sub_packets-eq rest (id + 1), new_subscribe-eq sub id)
        (ap (λ n. (subscription subs sub id ∷ subscriptions subs rest (id + 1), n % 2 ^ 32))
          (omega arith))

  send_all-eq :
      (ps : List Packet) (s : ConnState)
      → length ps ≤ s.inner_request_tx.room
      → send_all heartbeats subs ps s ≡ (
        record s {
          inner_request_tx = record {
            room = s.inner_request_tx.room - length ps;
            sent = s.inner_request_tx.sent ++ ps;
          };
        },
        none,
      )
  unfolding send_all
  send_all-eq [] s h = ground (arith, append-nil s.inner_request_tx.sent)
  send_all-eq (p ∷ ps) s h = rw (send_open s.inner_request_tx p (omega arith)) (
      send_all-eq ps _ (omega arith)
      ∙ ground (arith, append_assoc s.inner_request_tx.sent (p ∷ []) ps))

  -- The response that lets the client in: if the task that calls the consumer is there and the
  -- transport takes the packets, then the response goes to that task, one subscription for each of
  -- the configuration goes to the transport, in order, with the command, the fields and the low 24
  -- bits of an id that follow one another from the next id of the generator on, and the connection
  -- goes on, let in. No request of the user takes an id meanwhile.
  pub on_auth_response-success :
      (conf : ConnConf) (s : ConnState) (r : Response)
      → is_success r.status ≡ true
      → s.packet_process_tx.room ≢ 0
      → length (subscriptions subs conf.subscribes s.request_id_gen) ≤ s.inner_request_tx.room
      → s.request_id_gen < 2 ^ 32
      → on_auth_response heartbeats subs conf s r ≡ (
        record s {
          is_authed = true;
          request_id_gen = (s.request_id_gen + length conf.subscribes) % 2 ^ 32;
          packet_process_tx = record {
            room = s.packet_process_tx.room - 1;
            sent = s.packet_process_tx.sent ++ (Packet.response r ∷ []);
          };
          inner_request_tx = record {
            room =
                s.inner_request_tx.room
                - length (subscriptions subs conf.subscribes s.request_id_gen);
            sent = s.inner_request_tx.sent ++ subscriptions subs conf.subscribes s.request_id_gen;
          };
        },
        none,
      )
  unfolding on_auth_response subscribe_all
  on_auth_response-success conf s r good taken room small =
      rw
        (
          good,
          send_open s.packet_process_tx (Packet.response r) taken,
          (sym (ap (sub_packets heartbeats subs conf.subscribes) (u32 s.request_id_gen small))
              ∙ sub_packets-eq conf.subscribes s.request_id_gen),
        )
        (send_all-eq _ _ room)
    where
      u32 : (id : ℕ) → id < 2 ^ 32 → id % 2 ^ 32 ≡ id
      u32 id h = omega arith
