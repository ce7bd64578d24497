-- ===== src/Client/State.antt =====
-- The state of web/src/main.ts. Keys are mutable buffers that several places may hold, so a key is
-- the index of its buffer in a heap; a message or a public key, which nobody overwrites while it is
-- in use, is a plain value.
use e2eanon.Prelude.{
  ℕ, List, [], ◌∷◌, Bool, Option, none, some, Text, length, set, get_elem?, replicate, Result, ok,
  err,
}
use e2eanon.Crypto.Base64url.{Bytes}
use e2eanon.Handshake.{HandshakeSession}
use e2eanon.Protocol.{Role, MemberInfo, ClientMsg}

-- A buffer of key material.
abbrev pub Ref : Type 0
Ref = ℕ

pub record FileMeta : Type 0 where
  pub name : Text
  pub type : Text
  pub size : ℕ
  pub chunks : ℕ

-- The parts of a file; `others` are those that an index which is no whole number has put beside them, by
-- the key of the property, which `Blob` does not read.
pub record Incoming : Type 0 where
  pub key : Ref
  pub meta : FileMeta
  pub nick : Text
  pub parts : List (Option Bytes)
  pub others : List (Text × Bytes)
  pub received : ℕ

-- A file message while its transfer runs: who sent it and what it is. Its bar is the page's.
pub record FileMsgHandle : Type 0 where
  pub nick : Text
  pub meta : FileMeta
  pub mine : Bool

pub data HsRole : Type 0 where
  owner_side joiner_side : HsRole

pub record HsRecord : Type 0 where
  pub hs : HandshakeSession
  pub role : HsRole
  pub joiner_member_id : Option Text
  pub ke : Option Ref
  pub pending_key_deliver : Option Text

-- `readyState` of the socket.
pub data ReadyState : Type 0 where
  connecting opened closing closed : ReadyState

pub record Session : Type 0 where
  pub ws : ReadyState
  pub room : Text
  pub member_id : Text
  pub role : Role
  pub owner_id : Text
  -- Newest first.
  pub keys : List Ref
  pub public_key : Bytes
  pub private_key : Ref
  pub pending_invites : List (Text × Text)
  pub handshakes : List (Text × HsRecord)
  pub member_pubs : List (Text × Bytes)
  pub known_members : List Text
  pub first_owner_pub : Option Bytes
  pub last_members : List MemberInfo
  pub incoming : List (Text × Incoming)
  pub file_msgs : List (Text × FileMsgHandle)
  pub object_urls : List Text

pub record Invite : Type 0 where
  pub token : Text
  pub code : Text

pub record ChatLine : Type 0 where
  pub nick : Text
  pub body : Text
  pub mine : Bool

-- What the page shows, as far as the handlers set it.
pub record View : Type 0 where
  pub in_room : Bool
  pub lobby_error : Text
  pub lobby_status : Text
  pub room_notice : Text
  pub room_id : Text
  pub members : List MemberInfo
  pub messages : List ChatLine
  pub invite_link : Text
  pub invite_button : Bool
  -- What was handed to `new Blob`: the type and the parts.
  pub blobs : List (Text × List (Option Bytes))

-- The module's variables, the heap, how often randomness was drawn, and what was handed to sockets.
pub record Client : Type 0 where
  pub session : Option Session
  pub pending_join : Option Invite
  pub intentional_close : Bool
  pub heap : List Bytes
  pub drawn : ℕ
  pub sent : List ClientMsg
  pub view : View

abbrev pub max_kept_keys : ℕ
max_kept_keys = 5

-- The bytes of a buffer.
abbrev pub read_from : Option Bytes → Bytes
read_from none = []
read_from (some b) = b

abbrev pub read : List Bytes → Ref → Bytes
read heap k = read_from (get_elem? heap k)

-- `key.fill(0)`.
abbrev pub fill_zero : List Bytes → Ref → List Bytes
fill_zero heap k = set heap k (replicate (length (read heap k)) 0)

-- `for (const old of keys) wipeKey(old)`.
unfoldable pub wipe_keys : List Ref → List Bytes → List Bytes
wipe_keys [] heap = heap
wipe_keys (k ∷ ks) heap = wipe_keys ks (fill_zero heap k)

-- `wipeKey` at a key that may be null.
abbrev pub wipe_key : Option Ref → List Bytes → List Bytes
wipe_key none heap = heap
wipe_key (some k) heap = fill_zero heap k

-- A run that may throw on the way: the state that it leaves, and its value.
abbrev pub M {ℓ} : Type ℓ → Type ℓ
M A = Client → Client × Result A

infixl 5 ◌>>=◌ ◌>>◌
abbrev pub ◌>>=◌ {ℓ κ} :
    {A : Type ℓ} {B : Type κ}
    → (Client → Client × Result A)
    → (A → Client → Client × Result B)
    → Client
    → Client × Result B
◌>>=◌ m f cl = let (cl', r) = m cl in elim r [ ok a ↦ f a cl' | err e ↦ (cl', err e) ]

abbrev pub ◌>>◌ {ℓ} :
    {B : Type ℓ}
    → (Client → Client × Result (Unit {0}))
    → (Client → Client × Result B)
    → Client
    → Client × Result B
m >> k = m >>= λ _. k
