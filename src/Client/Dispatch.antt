-- ===== src/Client/Dispatch.antt =====
-- The events of a client: `onMessage`, the listeners of the socket and of the page's forms and buttons
-- in web/src/main.ts.
pub mod Chat
pub mod Invariant
pub mod Members
pub mod Handshakes
pub mod Callbacks
pub mod Files
pub mod Events
use e2eanon.Prelude.{
  ℕ, List, [], ◌∷◌, ◌++◌, Bool, true, false, Option, none, some, Text, if◌then◌else◌,
}
use e2eanon.Crypto.Base64url.{Bytes}
use e2eanon.Crypto.Primitives.{Primitives}
use e2eanon.Crypto.Envelope.{codes, nonce_len, encrypt_message}
use e2eanon.Spake2.Suite.{Curve, Hashes}
use e2eanon.Handshake.{FrameJson}
use e2eanon.Protocol.{ServerType, ServerMsg, ClientMsg}
use e2eanon.Client.State.{Ref, Client, read, M}
use e2eanon.Client.Keyring.{decrypt_any}
use e2eanon.Client.Membership.{
  RosterJson, done, or_empty, is_owner, send, draw, on_presence, on_rekey, apply_roster,
}
use e2eanon.Client.Lifecycle.{members_or_none, on_welcome, on_close}
use e2eanon.Client.Joining.{on_member_key, on_key_deliver}
use e2eanon.Client.Handshaking.{on_invite_created, on_invite_redeemed, on_redeem_ok, on_pake}
use e2eanon.Client.Transfer.{MetaJson, nick_or, on_file_start, on_file_chunk, on_file_end}
use e2eanon.Client.Upload.{File, announced, begin_upload, send_chunk, finish_upload}
use e2eanon.Client.Invites.{Web}
use e2eanon.Client.Connecting.{
  handle_error, drop_transfer, on_room_closed, do_leave, transfer_and_leave, recover_if_socket_dead,
  begin_connect, finish_connect, finish_create, on_open, on_socket_error, submit_join,
}

-- All that the client calls and that is not its own code. A text is blank if `trim` leaves nothing.
pub record Outside : Type 1 where
  pub primitives : Primitives
  pub frames : FrameJson
  pub curve : Curve
  pub hashes : Hashes
  pub random : ℕ → ℕ → Bytes
  pub rosters : RosterJson
  pub metas : MetaJson
  pub web : Web
  pub is_blank : Text → Bool

abbrev pub add_message : Text → Text → Bool → Client → Client
add_message nick body mine cl = record cl {
  view = record cl.view {
    messages = cl.view.messages ++ record { nick = nick; body = body; mine = mine } ∷ [];
  };
}

abbrev pub or_unreadable : Option Text → Text
or_unreadable none = codes "[unable to decrypt]"
or_unreadable (some t) = t

-- What may happen to a client, one event at a time. The sending of a file
-- goes on in the events `announce_due`, `chunk_due` and `upload_due`, one after each await, with what it has
-- captured.
pub data Event : Type 0 where
  message : ServerMsg → Event
  socket_opened : ClientMsg → Event
  socket_closed socket_failed : Event
  create_clicked connect_goes_on create_goes_on : Event
  join_submitted : Text → Event
  message_submitted : Text → Event
  invite_clicked : Event
  transfer_clicked kick_clicked : Text → Event
  -- The owner has chosen a new owner before it leaves.
  handed_over : Text → Event
  left woken unloaded : Event
  file_submitted : Event
  announce_due : Ref → Text → Text → File → Event
  chunk_due : Ref → Text → Bytes → ℕ → Event
  upload_due : Text → File → Event

module _ (o : Outside) where
  open o use {primitives, frames, curve, hashes, random, rosters, metas, web, is_blank}

  unfoldable pub on_chat : ServerMsg → Client → Client
  on_chat m cl =
      add_message (nick_or m.nick) (or_unreadable (decrypt_any primitives cl (or_empty m.body)))
        false cl

  -- The `switch` of `onMessage`.
  unfoldable pub on_type : ServerType → ServerMsg → M (Unit {0})
  on_type ServerType.welcome m cl = done (on_welcome m cl)
  on_type ServerType.presence m cl =
      on_presence primitives random rosters (members_or_none m.members) cl
  on_type ServerType.chat m cl = done (on_chat m cl)
  on_type ServerType.room_closed m cl = done (on_room_closed m cl)
  on_type ServerType.error m cl = done (handle_error m cl)
  on_type ServerType.invite_created m cl = on_invite_created primitives random web m cl
  on_type ServerType.invite_redeemed m cl =
      on_invite_redeemed primitives random frames curve hashes m cl
  on_type ServerType.redeem_ok m cl = on_redeem_ok primitives random frames curve hashes m cl
  on_type ServerType.pake m cl = on_pake primitives random frames curve hashes m cl
  on_type ServerType.key_deliver m cl = done (on_key_deliver primitives m cl)
  on_type ServerType.member_key m cl = on_member_key primitives random m cl
  on_type ServerType.rekey m cl = done (on_rekey primitives random m cl)
  on_type ServerType.roster m cl =
      done (apply_roster primitives random rosters (or_empty m.data_text) cl)
  on_type ServerType.file_start m cl = done (on_file_start primitives metas m cl)
  on_type ServerType.file_chunk m cl = done (on_file_chunk primitives m cl)
  on_type ServerType.file_end m cl = done (on_file_end m cl)
  on_type ServerType.file_abort m cl = done (drop_transfer m.transfer cl)

  unfoldable pub on_message : ServerMsg → M (Unit {0})
  on_message m cl = on_type m.type m cl

  -- The form that sends a message; an attachment that is staged is sent after it.
  unfoldable pub submit_message : Text → Client → Client
  submit_message body cl = elim cl.session [
    | none ↦ cl
    | some s ↦ elim s.keys [
      | [] ↦ cl
      | k ∷ ks ↦
          if is_blank body
          then cl
          else let (nonce, cl') = draw primitives random nonce_len cl in
            add_message (codes "you") body true
              (send (ClientMsg.msg (encrypt_message primitives (read cl.heap k) nonce body)) cl')
    ]
  ]

  -- The buttons beside a member's name; a transfer has been confirmed.
  unfoldable pub on_member_action : ClientMsg → Client → Client
  on_member_action m cl = elim cl.session [
    | none ↦ cl
    | some s ↦ if is_owner s.role then send m cl else cl
  ]

  -- An error that nobody catches ends the event, and the client goes on where it stands.
  unfoldable pub step : Event → Client → Client
  step (message m) cl = (on_message m cl).0
  step (socket_opened hello) cl = on_open hello cl
  step socket_closed cl = on_close cl
  step socket_failed cl = on_socket_error cl
  step create_clicked cl = begin_connect cl
  step connect_goes_on cl = finish_connect primitives random cl
  step create_goes_on cl = finish_create primitives random cl
  step (join_submitted input) cl = submit_join primitives random web input cl
  step (message_submitted body) cl = submit_message body cl
  step invite_clicked cl = send ClientMsg.invite cl
  step (transfer_clicked id) cl = on_member_action (ClientMsg.transfer id) cl
  step (kick_clicked id) cl = on_member_action (ClientMsg.kick id) cl
  step left cl = do_leave cl
  step (handed_over target) cl = transfer_and_leave target cl
  step woken cl = recover_if_socket_dead cl
  step file_submitted cl = begin_upload primitives random cl
  step (announce_due key id transfer file) cl =
      announced primitives random metas key id transfer file cl
  step (chunk_due key transfer buf i) cl = send_chunk primitives random key transfer buf i cl
  step (upload_due transfer file) cl = finish_upload primitives random transfer file cl
  step unloaded cl = send ClientMsg.leave cl

  unfoldable pub run_events : List Event → Client → Client
  run_events [] cl = cl
  run_events (e ∷ es) cl = run_events es (step e cl)
