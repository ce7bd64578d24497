-- ===== src/Client/Connecting.antt =====
-- Connecting, errors and leaving: `closeCurrentSession`, `connect`, `handleError`, `closeReason`,
-- `doLeave`, `recoverIfSocketDead` and the forms of the lobby in web/src/main.ts. Where `connect` waits
-- for the old socket to close, it is in two parts, and other events may come between them.
pub mod Joins
use e2eanon.Prelude.{
  ℕ, suc, List, [], ◌∷◌, ◌++◌, Bool, true, false, not, ◌&&◌, Option, none, some, Text, text_eq,
  erase, Result, ok, err, if◌then◌else◌,
}
use e2eanon.Crypto.Base64url.{Bytes}
use e2eanon.Crypto.Primitives.{Primitives}
use e2eanon.Crypto.Envelope.{codes, key_len}
use e2eanon.Crypto.KeyExchange.{KeyPair, generate_key_pair}
use e2eanon.Protocol.{Role, member, ServerMsg, ClientMsg, create, redeem, leave}
use e2eanon.Client.State.{
  Ref, ReadyState, connecting, opened, closing, closed, Session, Invite, View, Client,
}
use e2eanon.Client.Keyring.{allocate}
use e2eanon.Client.Membership.{or_empty, given, update, send, draw}
use e2eanon.Client.Lifecycle.{was_in_room, teardown, on_close}
use e2eanon.Client.Transfer.{end_transfer}
use e2eanon.Client.Invites.{Web, parse_invite}

abbrev pub show_lobby : Text → Text → Client → Client
show_lobby error status cl = record cl {
  view = record cl.view { lobby_error = error; lobby_status = status };
}

abbrev pub show_lobby_error : Text → Client → Client
show_lobby_error error cl = record cl { view = record cl.view { lobby_error = error } }

abbrev pub show_notice : Text → Client → Client
show_notice text cl = record cl { view = record cl.view { room_notice = text } }

abbrev pub text_or : Option Text → Text → Text
text_or none d = d
text_or (some t) d = t

-- `if (msg.transfer) { incoming.delete; failFileMessage }`.
unfoldable pub drop_transfer : Option Text → Client → Client
drop_transfer transfer cl = elim (given transfer) [
  | none ↦ cl
  | some t ↦ update (end_transfer t) cl
]

unfoldable pub handle_error : ServerMsg → Client → Client
handle_error msg cl =
    if text_eq (or_empty msg.reason) (codes "file_rejected")
    then show_notice
        (codes "Attachment rejected: " ++ (text_or msg.error (codes "too large") ++ codes "."))
        (drop_transfer msg.transfer cl)
    else if text_eq (or_empty msg.reason) (codes "already_in_room")
    then teardown false (
        show_lobby
          (codes "This tab is already in a room "
            ++ 0x2014 ∷ codes " leave it before joining another.")
          [] cl)
    else if was_in_room cl.session
    then show_notice (text_or msg.error (codes "Error")) cl
    else teardown false (show_lobby (text_or msg.error (codes "Error")) [] cl)

unfoldable pub close_reason : Option Text → Text
close_reason reason =
    let r = or_empty reason in
    if text_eq r (codes "owner_left")
    then codes "The owner left. This room has been destroyed."
    else if text_eq r (codes "kicked")
    then codes "You were removed from this room."
    else if text_eq r (codes "idle_timeout")
    then codes "Room closed due to inactivity."
    else if text_eq r (codes "server_shutdown")
    then codes "The server is shutting down."
    else codes "This room has been closed."

-- The `room_closed` case of `onMessage`.
unfoldable pub on_room_closed : ServerMsg → Client → Client
on_room_closed msg cl =
    show_lobby_error (close_reason msg.reason)
      (teardown true (record cl { intentional_close = true }))

unfoldable pub do_leave : Client → Client
do_leave cl = teardown true (send leave (record cl { intentional_close = true }))

-- The choice "Transfer & leave". Where nobody is chosen, it only leaves.
unfoldable pub transfer_and_leave : Text → Client → Client
transfer_and_leave target cl = elim (given (some target)) [
  | none ↦ do_leave cl
  | some id ↦ do_leave (send (ClientMsg.transfer id) cl)
]

abbrev pub is_dead : ReadyState → Bool
is_dead connecting = false
is_dead opened = false
is_dead closing = true
is_dead closed = true

unfoldable pub recover_if_socket_dead : Client → Client
recover_if_socket_dead cl = elim cl.session [
  | none ↦ cl
  | some s ↦ if is_dead s.ws then on_close (record cl { intentional_close = false }) else cl
]

-- `closeCurrentSession`, up to its wait.
unfoldable pub close_current_session : Client → Client
close_current_session cl = elim cl.session [ none ↦ cl | some s ↦ teardown false cl ]

-- `connect` up to its await.
unfoldable pub begin_connect : Client → Client
begin_connect cl = close_current_session (show_lobby_error [] cl)

abbrev pub fresh_session : Bytes → Ref → Session
fresh_session public_key private_key = record {
  ws = connecting;
  room = [];
  member_id = [];
  role = member;
  owner_id = [];
  keys = [];
  public_key = public_key;
  private_key = private_key;
  pending_invites = [];
  handshakes = [];
  member_pubs = [];
  known_members = [];
  first_owner_pub = none;
  last_members = [];
  incoming = [];
  file_msgs = [];
  object_urls = [];
}

-- What the two forms of the lobby send first: the nick, trimmed, and the id of the browser's session.
abbrev pub create_hello : Text → Text → ClientMsg
create_hello nick session_id = create nick (some session_id)

abbrev pub redeem_hello : Invite → Text → Text → ClientMsg
redeem_hello invite nick session_id = redeem invite.token nick (some session_id)

-- The listener of the socket's "open" event, which sends the first message.
unfoldable pub on_open : ClientMsg → Client → Client
on_open hello cl = elim cl.session [
  | none ↦ cl
  | some s ↦ record cl { session = some (record s { ws = opened }); sent = cl.sent ++ hello ∷ [] }
]

abbrev pub socket_failed : Text
socket_failed = codes "Connection failed."

-- The listener of the socket's "error" event.
unfoldable pub on_socket_error : Client → Client
on_socket_error cl = if was_in_room cl.session then cl else show_lobby_error socket_failed cl

module _ (p : Primitives) (random : ℕ → ℕ → Bytes) where
  -- `connect` from its await on: a new socket, and a session with a key pair of its own.
  unfoldable pub finish_connect : Client → Client
  finish_connect cl =
      let (bytes, cl1) = draw p random 32 cl in
      let kp = generate_key_pair p bytes in
      let (k, cl2) = allocate kp.private_key cl1 in
      record cl2 { session = some (fresh_session kp.public_key k) }

  -- The button that creates a room, from the await on: `session.keys = [generateRoomKey()]`.
  unfoldable pub finish_create : Client → Client
  finish_create cl =
      let (bytes, cl1) = draw p random key_len (finish_connect cl) in
      let (k, cl2) = allocate bytes cl1 in update (λ s. record s { keys = k ∷ [] }) cl2

  -- The form that joins a room, up to the await of `connect`; the text has been trimmed.
  unfoldable pub submit_join : Web → Text → Client → Client
  submit_join web input cl = elim (parse_invite web input) [
    | none ↦ show_lobby_error (codes "That invite link is invalid or missing its code.") cl
    | some invite ↦ begin_connect (record cl {
      pending_join = some invite;
      view = record cl.view { lobby_status = codes "Redeeming invite" ++ 0x2026 ∷ [] };
    })
  ]
