-- ===== src/Session.antt =====
-- src/codelldb/src/dap_session.rs: the dispatcher between the channel to the client, on which the
-- messages of src/adapter-protocol/src/lib.rs pass, and the code that handles them.
pub mod Dispatch
pub mod Numbers
pub mod Replies
pub mod Order
mod Tests
use codelldb.Prelude.{ℕ, Bool, true, false, Option, none, some, List, ◌∷◌, []}
use codelldb.Prelude.Text.{Chars}

-- The bodies of requests, events and responses, which the dispatcher only passes on, and serde_json
-- values with what the dispatcher asks of them.
pub record Protocol : Type 1 where
  pub RequestArguments : Type 0
  pub EventBody : Type 0
  pub ResponseBody : Type 0
  pub Value : Type 0
  pub Error : Type 0
  pub Object : Type 0
  pub as_object : Value → Option Object
  pub get : Object → Chars → Option Value
  pub as_u64 : Value → Option ℕ

module _ (p : Protocol) where
  pub data ResponseResult : Type 0 where
    success : p.ResponseBody → ResponseResult
    error : (command message : Chars) (show_user : Option Bool) → ResponseResult

  pub record Response : Type 0 where
    pub request_seq : ℕ
    pub success : Bool
    pub result : ResponseResult

  pub data ProtocolMessageType : Type 0 where
    request : p.RequestArguments → ProtocolMessageType
    response : Response → ProtocolMessageType
    event : p.EventBody → ProtocolMessageType

  pub record ProtocolMessage : Type 0 where
    pub seq : ℕ
    pub type_ : ProtocolMessageType
