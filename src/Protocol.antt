-- ===== src/Protocol.antt =====
-- The wire messages of web/src/protocol.ts. The opaque payloads are texts.
use e2eanon.Prelude.{ℕ, List, Option, Text}
use e2eanon.Prelude.Int.{ℤ}

pub data Role : Type 0 where
  owner member : Role

pub record MemberInfo : Type 0 where
  pub id : Text
  pub nick : Text
  pub role : Role

-- Client to server, in the order of the union in the source. The optional session id comes last.
pub data ClientMsg : Type 0 where
  create : Text → Option Text → ClientMsg
  redeem : Text → Text → Option Text → ClientMsg
  msg : Text → ClientMsg
  leave : ClientMsg
  invite : ClientMsg
  pake : Text → Text → ClientMsg
  key_deliver : Text → Text → ClientMsg
  member_key : Text → Text → ClientMsg
  enter : Text → ClientMsg
  rekey : Text → Text → ClientMsg
  transfer : Text → ClientMsg
  kick : Text → ClientMsg
  roster : Text → ClientMsg
  file_start : Text → Text → Text → ClientMsg
  file_chunk : Text → ℕ → Text → ClientMsg
  file_end : Text → ClientMsg
  file_abort : Text → ClientMsg

pub data ServerType : Type 0 where
  welcome presence chat room_closed error invite_created invite_redeemed redeem_ok pake key_deliver
        member_key rekey roster file_start file_chunk file_end file_abort :
      ServerType

-- A number that JSON reads: a whole one; or its floor, with the text that it is as the key of a property.
pub data Number : Type 0 where
  integer : ℤ → Number
  fractional : ℤ → Text → Number

-- Server to client: one record, whose fields are all optional but the type.
pub record ServerMsg : Type 0 where
  pub type : ServerType
  pub room : Option Text
  pub member_id : Option Text
  pub role : Option Role
  pub members : Option (List MemberInfo)
  pub from : Option Text
  pub nick : Option Text
  pub body : Option Text
  pub ts : Option ℕ
  pub reason : Option Text
  pub error : Option Text
  pub token : Option Text
  pub handshake : Option Text
  pub data_text : Option Text
  pub transfer : Option Text
  pub key_id : Option Text
  pub index : Option Number
