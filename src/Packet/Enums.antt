-- ===== src/Packet/Enums.antt =====
-- `Command`, `MsgType` and `ResponseStatus` of link/src/packets.rs with their numbers on the wire.
-- The numbers of each run from 0 up, so the variant of a number is found by its position.
use quote_link_rs.Base.{
  ℕ, zero, suc, ◌+◌, ◌<◌, ◌≡◌, refl, ◌∙◌, Option, some, List, [], ◌∷◌, map, get_elem?, arith,
}

pub data Command : Type 0 where
  auth heartbeat close reconnect : Command
  cmd_sub_all_type cmd_un_sub_all_type : Command
  cmd_sub_order_book cmd_un_sub_order_book : Command
  cmd_sub_trades cmd_sub_brokers : Command
  cmd_sub_depth cmd_un_sub_depth : Command
  cmd_sub_market_info cmd_un_sub_brokers : Command

pub data MsgType : Type 0 where
  unknown snapshot trade depths brokers market_info order_book kline : MsgType

pub data ResponseStatus : Type 0 where
  success server_timeout client_timeout bad_request bad_response : ResponseStatus
  unauthenticated permission_denied : ResponseStatus
  server_internal_error client_internal_error : ResponseStatus

unfoldable pub command_id : Command → ℕ
command_id auth = 0
command_id heartbeat = 1
command_id close = 2
command_id reconnect = 3
command_id cmd_sub_all_type = 4
command_id cmd_un_sub_all_type = 5
command_id cmd_sub_order_book = 6
command_id cmd_un_sub_order_book = 7
command_id cmd_sub_trades = 8
command_id cmd_sub_brokers = 9
command_id cmd_sub_depth = 10
command_id cmd_un_sub_depth = 11
command_id cmd_sub_market_info = 12
command_id cmd_un_sub_brokers = 13

unfoldable pub msg_type_id : MsgType → ℕ
msg_type_id unknown = 0
msg_type_id snapshot = 1
msg_type_id trade = 2
msg_type_id depths = 3
msg_type_id brokers = 4
msg_type_id market_info = 5
msg_type_id order_book = 6
msg_type_id kline = 7

unfoldable pub status_id : ResponseStatus → ℕ
status_id success = 0
status_id server_timeout = 1
status_id client_timeout = 2
status_id bad_request = 3
status_id bad_response = 4
status_id unauthenticated = 5
status_id permission_denied = 6
status_id server_internal_error = 7
status_id client_internal_error = 8

abbrev commands : List Command
commands =
    auth ∷ heartbeat ∷ close ∷ reconnect ∷ cmd_sub_all_type ∷ cmd_un_sub_all_type
    ∷ cmd_sub_order_book ∷ cmd_un_sub_order_book ∷ cmd_sub_trades ∷ cmd_sub_brokers ∷ cmd_sub_depth
    ∷ cmd_un_sub_depth ∷ cmd_sub_market_info ∷ cmd_un_sub_brokers ∷ []

abbrev msg_types : List MsgType
msg_types = unknown ∷ snapshot ∷ trade ∷ depths ∷ brokers ∷ market_info ∷ order_book ∷ kline ∷ []

abbrev statuses : List ResponseStatus
statuses =
    success ∷ server_timeout ∷ client_timeout ∷ bad_request ∷ bad_response ∷ unauthenticated
    ∷ permission_denied ∷ server_internal_error ∷ client_internal_error ∷ []

-- The variant with a given number, if there is one.
unfoldable pub command_of : ℕ → Option Command
command_of v = get_elem? commands v

unfoldable pub msg_type_of : ℕ → Option MsgType
msg_type_of v = get_elem? msg_types v

unfoldable pub status_of : ℕ → Option ResponseStatus
status_of v = get_elem? statuses v

pub command_of-command_id : (c : Command) → command_of (command_id c) ≡ some c
unfolding command_of command_id
command_of-command_id auth = refl
command_of-command_id _ = refl

pub msg_type_of-msg_type_id : (m : MsgType) → msg_type_of (msg_type_id m) ≡ some m
unfolding msg_type_of msg_type_id
msg_type_of-msg_type_id unknown = refl
msg_type_of-msg_type_id _ = refl

pub status_of-status_id : (s : ResponseStatus) → status_of (status_id s) ≡ some s
unfolding status_of status_id
status_of-status_id success = refl
status_of-status_id _ = refl

-- The numbers from `s` on, `n` of them.
abbrev count_from : ℕ → ℕ → List ℕ
count_from s zero = []
count_from s (suc n) = s ∷ count_from (suc s) n

get_elem?-count_from : (s n i : ℕ) {w : ℕ} → get_elem? (count_from s n) i ≡ some w → w ≡ s + i
get_elem?-count_from s zero i h = ground arith
get_elem?-count_from s (suc n) zero h = ground arith
get_elem?-count_from s (suc n) (suc i) h = omega (arith, get_elem?-count_from (suc s) n i h)

get_elem?-map {ℓ} :
    {A : Type ℓ} (f : A → ℕ) (xs : List A) (i : ℕ) {x : A}
    → get_elem? xs i ≡ some x
    → get_elem? (map f xs) i ≡ some (f x)
get_elem?-map f [] i h = ground arith
get_elem?-map f (x ∷ xs) zero h = cc
get_elem?-map f (x ∷ xs) (suc i) h = get_elem?-map f xs i h

pub command_id-command_of : (v : ℕ) {c : Command} → command_of v ≡ some c → command_id c ≡ v
unfolding command_of command_id
command_id-command_of v h =
    get_elem?-count_from 0 14 v (get_elem?-map command_id commands v h) ∙ omega arith

pub msg_type_id-msg_type_of : (v : ℕ) {m : MsgType} → msg_type_of v ≡ some m → msg_type_id m ≡ v
unfolding msg_type_of msg_type_id
msg_type_id-msg_type_of v h =
    get_elem?-count_from 0 8 v (get_elem?-map msg_type_id msg_types v h) ∙ omega arith

pub status_id-status_of : (v : ℕ) {s : ResponseStatus} → status_of v ≡ some s → status_id s ≡ v
unfolding status_of status_id
status_id-status_of v h =
    get_elem?-count_from 0 9 v (get_elem?-map status_id statuses v h) ∙ omega arith

pub command_id-lt : (c : Command) → command_id c < 16
unfolding command_id
command_id-lt auth = omega arith
command_id-lt _ = omega arith

pub msg_type_id-lt : (m : MsgType) → msg_type_id m < 256
unfolding msg_type_id
msg_type_id-lt unknown = omega arith
msg_type_id-lt _ = omega arith

pub status_id-lt : (s : ResponseStatus) → status_id s < 256
unfolding status_id
status_id-lt success = omega arith
status_id-lt _ = omega arith

pub Command-discrete : Discrete Command
Command-discrete = hlevel

pub ResponseStatus-discrete : Discrete ResponseStatus
ResponseStatus-discrete = hlevel
