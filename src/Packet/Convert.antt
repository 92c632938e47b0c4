-- ===== src/Packet/Convert.antt =====
-- What the bodies of packets are turned into: the `TryFrom<Response>` of link/src/packet_utils.rs,
-- and `Quotation` with `parse_quotation` of link/src/packets.rs. The messages of
-- link/protos/base.proto are type parameters, since their fields are never read; the codecs that
-- prost derives are `Message`s. Logging is left out.
use quote_link_rs.Base.{
  ℕ, ◌≡◌, ◌⊎◌, Option-cases, inl, inr, refl, sym, ap, ◌∙◌, List, Option, some, none, Result, ok,
  err, arith,
}
use mathlib.Core.Option
use quote_link_rs.Packet.Enums.{
  Command, MsgType, auth, cmd_sub_all_type, cmd_un_sub_all_type, cmd_sub_order_book,
  cmd_un_sub_order_book, cmd_sub_trades, cmd_sub_brokers, cmd_sub_depth, cmd_un_sub_depth,
  cmd_sub_market_info, cmd_un_sub_brokers,
}
use quote_link_rs.Packet.{Response}
use quote_link_rs.Protos.{Message, IsMessage, AuthResponse, SubscribeResponse, UnsubscribeResponse}

pub data ConvertError : Type 0 where
  decode_failed wrong_command : ConvertError

abbrev decoded : {A : Type 0} → Option A → Result ConvertError A
decoded none = err decode_failed
decoded (some a) = ok a

unfoldable pub subscribe_response :
    Message SubscribeResponse → Response → Result ConvertError SubscribeResponse
subscribe_response m r = on r.command
  where
    on : Command → Result ConvertError SubscribeResponse
    on cmd_sub_all_type = decoded (m.decode r.body)
    on cmd_sub_order_book = decoded (m.decode r.body)
    on cmd_sub_trades = decoded (m.decode r.body)
    on cmd_sub_brokers = decoded (m.decode r.body)
    on cmd_sub_depth = decoded (m.decode r.body)
    on cmd_sub_market_info = decoded (m.decode r.body)
    on c = err wrong_command

unfoldable pub auth_response : Message AuthResponse → Response → Result ConvertError AuthResponse
auth_response m r = on r.command
  where
    on : Command → Result ConvertError AuthResponse
    on auth = decoded (m.decode r.body)
    on c = err wrong_command

unfoldable pub unsubscribe_response :
    Message UnsubscribeResponse → Response → Result ConvertError UnsubscribeResponse
unsubscribe_response m r = on r.command
  where
    on : Command → Result ConvertError UnsubscribeResponse
    on cmd_un_sub_all_type = decoded (m.decode r.body)
    on cmd_un_sub_order_book = decoded (m.decode r.body)
    on cmd_un_sub_depth = decoded (m.decode r.body)
    on cmd_un_sub_brokers = decoded (m.decode r.body)
    on c = err wrong_command

module _ (subs : Message SubscribeResponse) (auths : Message AuthResponse)
    (unsubs : Message UnsubscribeResponse) where
  -- At most one of the conversions does not refuse the command.
  abbrev pub Exclusive : Response → Type 0
  Exclusive r =
      ((subscribe_response subs r ≡ err wrong_command)
        ⊎ (auth_response auths r ≡ err wrong_command))
      × ((subscribe_response subs r ≡ err wrong_command)
          ⊎ (unsubscribe_response unsubs r ≡ err wrong_command))
      × ((auth_response auths r ≡ err wrong_command)
          ⊎ (unsubscribe_response unsubs r ≡ err wrong_command))

  by_command : (r : Response) (c : Command) → Exclusive (record r { command = c })
  unfolding subscribe_response auth_response unsubscribe_response
  by_command r cmd_sub_all_type = (inr refl, inr refl, inl refl)
  by_command r cmd_sub_order_book = (inr refl, inr refl, inl refl)
  by_command r cmd_sub_trades = (inr refl, inr refl, inl refl)
  by_command r cmd_sub_brokers = (inr refl, inr refl, inl refl)
  by_command r cmd_sub_depth = (inr refl, inr refl, inl refl)
  by_command r cmd_sub_market_info = (inr refl, inr refl, inl refl)
  by_command r auth = (inl refl, inl refl, inr refl)
  by_command r c = (inl refl, inl refl, inl refl)

  -- Of the conversions of a response to a subscription, to an authentication and to the end of a
  -- subscription, at most one accepts the command of a response; the others refuse it, whatever its
  -- body is.
  pub conversions-Exclusive : (r : Response) → Exclusive r
  conversions-Exclusive r = by_command r r.command

pub data Quotation (TradePrice Snapshot Depths Brokers Kline OrderBookV2 : Type 0) : Type 0 where
  trade : TradePrice → Quotation TradePrice Snapshot Depths Brokers Kline OrderBookV2
  price : Snapshot → Quotation TradePrice Snapshot Depths Brokers Kline OrderBookV2
  depth : Depths → Quotation TradePrice Snapshot Depths Brokers Kline OrderBookV2
  broker : Brokers → Quotation TradePrice Snapshot Depths Brokers Kline OrderBookV2
  k_line : Kline → Quotation TradePrice Snapshot Depths Brokers Kline OrderBookV2
  order_book : OrderBookV2 → Quotation TradePrice Snapshot Depths Brokers Kline OrderBookV2

module _ {T S D B K O : Type 0} (m_t : Message T) (m_s : Message S) (m_d : Message D)
    (m_b : Message B) (m_k : Message K) (m_o : Message O) where
  unfoldable pub quotation_msg_type : Quotation T S D B K O → MsgType
  quotation_msg_type (Quotation.trade x) = MsgType.trade
  quotation_msg_type (Quotation.price x) = MsgType.snapshot
  quotation_msg_type (Quotation.depth x) = MsgType.depths
  quotation_msg_type (Quotation.broker x) = MsgType.brokers
  quotation_msg_type (Quotation.k_line x) = MsgType.kline
  quotation_msg_type (Quotation.order_book x) = MsgType.order_book

  unfoldable pub quotation_encode_to_vec : Quotation T S D B K O → List ℕ
  quotation_encode_to_vec (Quotation.trade x) = m_t.encode_to_vec x
  quotation_encode_to_vec (Quotation.price x) = m_s.encode_to_vec x
  quotation_encode_to_vec (Quotation.depth x) = m_d.encode_to_vec x
  quotation_encode_to_vec (Quotation.broker x) = m_b.encode_to_vec x
  quotation_encode_to_vec (Quotation.k_line x) = m_k.encode_to_vec x
  quotation_encode_to_vec (Quotation.order_book x) = m_o.encode_to_vec x

  unfoldable pub parse_quotation : MsgType → List ℕ → Option (Quotation T S D B K O)
  parse_quotation MsgType.unknown bytes = none
  parse_quotation MsgType.snapshot bytes = Option.map Quotation.price (m_s.decode bytes)
  parse_quotation MsgType.trade bytes = Option.map Quotation.trade (m_t.decode bytes)
  parse_quotation MsgType.depths bytes = Option.map Quotation.depth (m_d.decode bytes)
  parse_quotation MsgType.brokers bytes = Option.map Quotation.broker (m_b.decode bytes)
  parse_quotation MsgType.market_info bytes = none
  parse_quotation MsgType.order_book bytes = Option.map Quotation.order_book (m_o.decode bytes)
  parse_quotation MsgType.kline bytes = Option.map Quotation.k_line (m_k.decode bytes)

  -- Each codec reads back what it wrote.
  pub record AllMessages : Type 1 where
    pub on_trade : IsMessage m_t (λ _. Unit {0})
    pub on_price : IsMessage m_s (λ _. Unit {0})
    pub on_depth : IsMessage m_d (λ _. Unit {0})
    pub on_broker : IsMessage m_b (λ _. Unit {0})
    pub on_k_line : IsMessage m_k (λ _. Unit {0})
    pub on_order_book : IsMessage m_o (λ _. Unit {0})

  -- What comes out of a decoder and a constructor of one type has this type.
  of_map :
      {A : Type 0} (m : Message A) (bytes : List ℕ) (con : A → Quotation T S D B K O) (t : MsgType)
      → ((x : A) → quotation_msg_type (con x) ≡ t)
      → (q : Quotation T S D B K O) → Option.map con (m.decode bytes) ≡ some q
      → quotation_msg_type q ≡ t
  of_map m bytes con t same q h = elim (Option-cases (m.decode bytes)) [
    | inl e ↦ ground arith
    | inr (x, e) ↦
        let k : some (con x) ≡ some q = sym (ap (Option.map con) e) ∙ h in
        let k' : con x ≡ q = ground arith in sym (ap quotation_msg_type k') ∙ same x
  ]

  -- `parse_quotation` gives back the quotation whose type and bytes it is given, if prost's codecs
  -- read back what they wrote; and whatever it returns has the type that it was given.
  pub parse_quotation-encode_to_vec :
      AllMessages
      → ((q : Quotation T S D B K O)
          → parse_quotation (quotation_msg_type q) (quotation_encode_to_vec q) ≡ some q)
        × ((t : MsgType) (bytes : List ℕ) (q : Quotation T S D B K O)
            → parse_quotation t bytes ≡ some q
            → quotation_msg_type q ≡ t)
  unfolding parse_quotation quotation_msg_type quotation_encode_to_vec
  parse_quotation-encode_to_vec a = (back, typed)
    where
      back :
          (q : Quotation T S D B K O)
          → parse_quotation (quotation_msg_type q) (quotation_encode_to_vec q) ≡ some q
      back (Quotation.trade x) = ap (Option.map Quotation.trade) (a.on_trade.decode-encode x tt)
      back (Quotation.price x) = ap (Option.map Quotation.price) (a.on_price.decode-encode x tt)
      back (Quotation.depth x) = ap (Option.map Quotation.depth) (a.on_depth.decode-encode x tt)
      back (Quotation.broker x) = ap (Option.map Quotation.broker) (a.on_broker.decode-encode x tt)
      back (Quotation.k_line x) = ap (Option.map Quotation.k_line) (a.on_k_line.decode-encode x tt)
      back (Quotation.order_book x) =
          ap (Option.map Quotation.order_book) (a.on_order_book.decode-encode x tt)

      typed :
          (t : MsgType) (bytes : List ℕ) (q : Quotation T S D B K O)
          → parse_quotation t bytes ≡ some q
          → quotation_msg_type q ≡ t
      typed MsgType.unknown bytes q h = ground arith
      typed MsgType.market_info bytes q h = ground arith
      typed MsgType.snapshot bytes q h =
          of_map m_s bytes Quotation.price MsgType.snapshot (λ x. refl) q h
      typed MsgType.trade bytes q h = of_map m_t bytes Quotation.trade MsgType.trade (λ x. refl) q h
      typed MsgType.depths bytes q h =
          of_map m_d bytes Quotation.depth MsgType.depths (λ x. refl) q h
      typed MsgType.brokers bytes q h =
          of_map m_b bytes Quotation.broker MsgType.brokers (λ x. refl) q h
      typed MsgType.order_book bytes q h =
          of_map m_o bytes Quotation.order_book MsgType.order_book (λ x. refl) q h
      typed MsgType.kline bytes q h =
          of_map m_k bytes Quotation.k_line MsgType.kline (λ x. refl) q h
