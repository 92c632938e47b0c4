-- ===== src/Protos.antt =====
-- The messages of link/protos/control.proto that go in the bodies of packets. Their encoders and
-- decoders are derived by prost, which is not part of the repository: a `Message` stands for them,
-- and `IsMessage` for what prost documents. A string is the list of its UTF-8 bytes, and an `int64`
-- its 64 bits.
use quote_link_rs.Base.{ℕ, ◌≡◌, Bool, Option, some, List, All}
use quote_link_rs.Deku.{IsByte}

abbrev pub Text : Type 0
Text = List ℕ

pub record Heartbeat : Type 0 where
  pub timestamp : ℕ

pub record AuthInfo : Type 0 where
  pub user_name : Text
  pub password : Text
  pub client_name : Text

pub record AuthRequest : Type 0 where
  pub auth_info : Option AuthInfo

pub record SubscribeRequest : Type 0 where
  pub all : Bool
  pub counter_ids : List Text
  pub span_index : ℕ

pub record AuthResponse : Type 0 where
  pub auth_info : Option AuthInfo

pub record SubscribeResponse : Type 0 where
  pub success : List Text
  pub failed : List Text

pub record UnsubscribeResponse : Type 0 where
  pub success : List Text
  pub failed : List Text

pub record LinkError : Type 0 where
  pub code : ℕ
  pub msg : Text

pub record Message (A : Type 0) : Type 0 where
  pub encode_to_vec : A → List ℕ
  pub decode : List ℕ → Option A

pub record IsMessage {A : Type 0} (m : Message A) (IsValue : A → Type 0) : Type 0 where
  pub encode-IsByte : (a : A) → All IsByte (m.encode_to_vec a)
  pub decode-encode : (a : A) → IsValue a → m.decode (m.encode_to_vec a) ≡ some a
