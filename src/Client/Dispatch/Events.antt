-- ===== src/Client/Dispatch/Events.antt =====
-- What every event of a client keeps, and what that means for the end of its session.
use e2eanon.Prelude.{
  ℕ, suc, ◌<◌, ◌≡◌, refl, List, [], ◌∷◌, ◌++◌, All, All-append, Bool, true, false, none, some, Text,
  text_eq, length, length-append, arith, if◌then◌else◌,
}
use e2eanon.Crypto.Base64url.{Bytes}
use e2eanon.Crypto.Primitives.{Primitives}
use e2eanon.Crypto.Envelope.{codes, key_len, nonce_len, encrypt_message}
use e2eanon.Crypto.KeyExchange.{generate_key_pair}
use e2eanon.Protocol.{ServerType, ServerMsg, ClientMsg}
use e2eanon.Client.State.{Ref, opened, Session, Client, read}
use e2eanon.Client.Keyring.{allocate}
use e2eanon.Client.Keyring.Heap.{IsWiped}
use e2eanon.Client.Membership.{is_owner, or_empty, given, send}
use e2eanon.Client.Lifecycle.{members_or_none, was_in_room, teardown, on_close}
use e2eanon.Client.Lifecycle.Wiping.{key_refs, handshake_refs, teardown-IsWiped}
use e2eanon.Client.Invites.{Web, parse_invite}
use e2eanon.Client.Connecting.{
  is_dead, text_or, show_lobby, show_lobby_error, show_notice, socket_failed as socket_failed_text,
  handle_error, on_room_closed, do_leave, transfer_and_leave, recover_if_socket_dead,
  close_current_session, begin_connect, on_open, on_socket_error, finish_connect, finish_create,
  submit_join,
}
use e2eanon.Client.Dispatch.{
  Outside, add_message, on_chat, on_type, on_message, submit_message, on_member_action, Event,
  message, socket_opened, socket_closed, socket_failed, create_clicked, connect_goes_on,
  create_goes_on, join_submitted, message_submitted, invite_clicked, transfer_clicked, kick_clicked,
  left, handed_over, woken, unloaded, file_submitted, announce_due, chunk_due, upload_due, step,
  run_events,
}
use e2eanon.Client.Dispatch.Invariant.{
  IsKeyed, on_option, on_if, spare_IsSafe, IsKeyed-session, none-IsKeyed, send-IsKeyed,
  update-IsKeyed, allocate-IsKeyed, teardown-IsKeyed,
}
use e2eanon.Client.Dispatch.Members.{
  on_welcome-IsKeyed, on_close-IsKeyed, on_presence-IsKeyed, on_rekey-IsKeyed, apply_roster-IsKeyed,
}
use e2eanon.Client.Dispatch.Handshakes.{on_key_deliver-IsKeyed, on_member_key-IsKeyed}
use e2eanon.Client.Dispatch.Files.{
  on_file_chunk-IsKeyed, on_file_end-IsKeyed, on_file_start-IsKeyed, drop_transfer-IsKeyed,
  begin_upload-IsKeyed, announced-IsKeyed, send_chunk-IsKeyed, finish_upload-IsKeyed,
}
use e2eanon.Client.Dispatch.Callbacks.{
  on_invite_created-IsKeyed, on_invite_redeemed-IsKeyed, on_redeem_ok-IsKeyed, on_pake-IsKeyed,
}

handle_error-IsKeyed : (msg : ServerMsg) (cl : Client) → IsKeyed cl → IsKeyed (handle_error msg cl)
unfolding handle_error
handle_error-IsKeyed msg cl h =
    let reason = or_empty msg.reason in
    let lobby = show_lobby (text_or msg.error (codes "Error")) [] cl in
    let shown = show_notice (text_or msg.error (codes "Error")) cl in
    let full =
      show_lobby
        (codes "This tab is already in a room "
          ++ 0x2014 ∷ codes " leave it before joining another.")
        [] cl in
    let last = if was_in_room cl.session then shown else teardown false lobby in
    let next = if text_eq reason (codes "already_in_room") then teardown false full else last in
    on_if IsKeyed (text_eq reason (codes "file_rejected")) _ next
      (drop_transfer-IsKeyed msg.transfer cl h)
      (on_if IsKeyed (text_eq reason (codes "already_in_room")) (teardown false full) last
        (teardown-IsKeyed false full)
        (on_if IsKeyed (was_in_room cl.session) shown (teardown false lobby) h
          (teardown-IsKeyed false lobby)))

on_room_closed-IsKeyed : (msg : ServerMsg) (cl : Client) → IsKeyed (on_room_closed msg cl)
unfolding on_room_closed
on_room_closed-IsKeyed msg cl = teardown-IsKeyed true (record cl { intentional_close = true })

recover_if_socket_dead-IsKeyed : (cl : Client) → IsKeyed cl → IsKeyed (recover_if_socket_dead cl)
unfolding recover_if_socket_dead
recover_if_socket_dead-IsKeyed cl h = on_option IsKeyed cl.session cl _ h (λ s _.
    let cl' = record cl { intentional_close = false } in
    on_if IsKeyed (is_dead s.ws) (on_close cl') cl (on_close-IsKeyed cl' h) h)

begin_connect-IsKeyed : (cl : Client) → IsKeyed cl → IsKeyed (begin_connect cl)
unfolding begin_connect close_current_session
begin_connect-IsKeyed cl h = on_option IsKeyed cl.session _ _ h (λ s _. teardown-IsKeyed false _)

on_open-IsKeyed : (hello : ClientMsg) (cl : Client) → IsKeyed cl → IsKeyed (on_open hello cl)
unfolding on_open
on_open-IsKeyed hello cl h = on_option IsKeyed cl.session cl _ h (λ s e.
    spare_IsSafe s (record s { ws = opened }) cl.heap refl refl refl (IsKeyed-session s cl e h))

on_socket_error-IsKeyed : (cl : Client) → IsKeyed cl → IsKeyed (on_socket_error cl)
unfolding on_socket_error
on_socket_error-IsKeyed cl h =
    on_if IsKeyed (was_in_room cl.session) cl (show_lobby_error socket_failed_text cl) h h

module _ (p : Primitives) (random : ℕ → ℕ → Bytes) where
  -- A new session has a private key of its own and no other key.
  finish_connect-IsKeyed : (cl : Client) → IsKeyed (finish_connect p random cl)
  unfolding finish_connect allocate generate_key_pair
  finish_connect-IsKeyed cl = record {
    ring = record { bounded = omega arith; in_heap = tt; distinct = tt };
    own = omega (arith, length-append cl.heap (random cl.drawn 32 ∷ []));
    secrets = tt;
  }

  finish_create-IsKeyed : (cl : Client) → IsKeyed (finish_create p random cl)
  unfolding finish_create allocate
  finish_create-IsKeyed cl =
      let connected = finish_connect p random cl in
      let bytes = random connected.drawn key_len in
      let cl1 = record connected { drawn = suc connected.drawn } in
      let (k, cl2) = allocate bytes cl1 in
      let there : k < length cl2.heap = omega (arith, length-append connected.heap (bytes ∷ [])) in
      update-IsKeyed (λ s. record s { keys = k ∷ [] }) cl2
        (λ s safe. record {
          ring = record { bounded = omega arith; in_heap = (there, tt); distinct = (tt, tt) };
          own = safe.own;
          secrets = safe.secrets;
        })
        (allocate-IsKeyed bytes cl1 (finish_connect-IsKeyed cl))

  submit_join-IsKeyed :
      (web : Web) (input : Text) (cl : Client)
      → IsKeyed cl
      → IsKeyed (submit_join p random web input cl)
  unfolding submit_join
  submit_join-IsKeyed web input cl h =
      on_option IsKeyed (parse_invite web input) _ _ h (λ invite _. begin_connect-IsKeyed _ h)

module _ (o : Outside) where
  on_type-IsKeyed :
      (t : ServerType) (m : ServerMsg) (cl : Client) → IsKeyed cl → IsKeyed (on_type o t m cl).0
  unfolding on_type on_chat
  on_type-IsKeyed ServerType.welcome m cl h = on_welcome-IsKeyed m cl h
  on_type-IsKeyed ServerType.presence m cl h =
      on_presence-IsKeyed o.primitives o.random o.rosters (members_or_none m.members) cl h
  on_type-IsKeyed ServerType.chat m cl h = h
  on_type-IsKeyed ServerType.room_closed m cl h = on_room_closed-IsKeyed m cl
  on_type-IsKeyed ServerType.error m cl h = handle_error-IsKeyed m cl h
  on_type-IsKeyed ServerType.invite_created m cl h =
      on_invite_created-IsKeyed o.primitives o.random o.web m cl h
  on_type-IsKeyed ServerType.invite_redeemed m cl h =
      on_invite_redeemed-IsKeyed o.primitives o.random o.frames o.curve o.hashes m cl h
  on_type-IsKeyed ServerType.redeem_ok m cl h =
      on_redeem_ok-IsKeyed o.primitives o.random o.frames o.curve o.hashes m cl h
  on_type-IsKeyed ServerType.pake m cl h =
      on_pake-IsKeyed o.primitives o.random o.frames o.curve o.hashes m cl h
  on_type-IsKeyed ServerType.key_deliver m cl h = on_key_deliver-IsKeyed o.primitives m cl h
  on_type-IsKeyed ServerType.member_key m cl h = on_member_key-IsKeyed o.primitives o.random m cl h
  on_type-IsKeyed ServerType.rekey m cl h = on_rekey-IsKeyed o.primitives o.random m cl h
  on_type-IsKeyed ServerType.roster m cl h =
      apply_roster-IsKeyed o.primitives o.random o.rosters (or_empty m.data_text) cl h
  on_type-IsKeyed ServerType.file_start m cl h = on_file_start-IsKeyed o.primitives o.metas m cl h
  on_type-IsKeyed ServerType.file_chunk m cl h = on_file_chunk-IsKeyed o.primitives m cl h
  on_type-IsKeyed ServerType.file_end m cl h = on_file_end-IsKeyed m cl h
  on_type-IsKeyed ServerType.file_abort m cl h = drop_transfer-IsKeyed m.transfer cl h

  submit_message-IsKeyed :
      (body : Text) (cl : Client) → IsKeyed cl → IsKeyed (submit_message o body cl)
  unfolding submit_message
  submit_message-IsKeyed body cl h = on_option IsKeyed cl.session cl _ h (λ s _. with_keys s.keys)
    where
      with_keys :
          (ks : List Ref)
          → IsKeyed (elim ks [
            | [] ↦ cl
            | k ∷ others ↦
                if o.is_blank body
                then cl
                else add_message (codes "you") body true (
                    send
                      (ClientMsg.msg (
                        encrypt_message o.primitives
                          (read cl.heap k)
                          (o.random cl.drawn nonce_len)
                          body))
                      (record cl { drawn = suc cl.drawn }))
          ])
      with_keys [] = h
      with_keys (k ∷ others) =
          on_if IsKeyed (o.is_blank body) cl _ h
            (send-IsKeyed _ (record cl { drawn = suc cl.drawn }) h)

  on_member_action-IsKeyed :
      (m : ClientMsg) (cl : Client) → IsKeyed cl → IsKeyed (on_member_action o m cl)
  unfolding on_member_action
  on_member_action-IsKeyed m cl h =
      on_option IsKeyed cl.session cl _ h
        (λ s _. on_if IsKeyed (is_owner s.role) (send m cl) cl (send-IsKeyed m cl h) h)

  step-IsKeyed : (e : Event) (cl : Client) → IsKeyed cl → IsKeyed (step o e cl)
  unfolding step on_message do_leave transfer_and_leave
  step-IsKeyed (message m) cl h = on_type-IsKeyed m.type m cl h
  step-IsKeyed (socket_opened hello) cl h = on_open-IsKeyed hello cl h
  step-IsKeyed socket_closed cl h = on_close-IsKeyed cl h
  step-IsKeyed socket_failed cl h = on_socket_error-IsKeyed cl h
  step-IsKeyed create_clicked cl h = begin_connect-IsKeyed cl h
  step-IsKeyed connect_goes_on cl h = finish_connect-IsKeyed o.primitives o.random cl
  step-IsKeyed create_goes_on cl h = finish_create-IsKeyed o.primitives o.random cl
  step-IsKeyed (join_submitted input) cl h =
      submit_join-IsKeyed o.primitives o.random o.web input cl h
  step-IsKeyed (message_submitted body) cl h = submit_message-IsKeyed body cl h
  step-IsKeyed invite_clicked cl h = send-IsKeyed ClientMsg.invite cl h
  step-IsKeyed (transfer_clicked id) cl h = on_member_action-IsKeyed (ClientMsg.transfer id) cl h
  step-IsKeyed (kick_clicked id) cl h = on_member_action-IsKeyed (ClientMsg.kick id) cl h
  step-IsKeyed left cl h = teardown-IsKeyed true _
  step-IsKeyed (handed_over target) cl h =
      on_option IsKeyed (given (some target)) _ _ (teardown-IsKeyed true _)
        (λ id _. teardown-IsKeyed true _)
  step-IsKeyed woken cl h = recover_if_socket_dead-IsKeyed cl h
  step-IsKeyed file_submitted cl h = begin_upload-IsKeyed o.primitives o.random cl h
  step-IsKeyed (announce_due key id transfer file) cl h =
      announced-IsKeyed o.primitives o.random o.metas key id transfer file cl h
  step-IsKeyed (chunk_due key transfer buf i) cl h =
      send_chunk-IsKeyed o.primitives o.random key transfer buf i cl h
  step-IsKeyed (upload_due transfer file) cl h =
      finish_upload-IsKeyed o.primitives o.random transfer file cl h
  step-IsKeyed unloaded cl h = send-IsKeyed ClientMsg.leave cl h

  -- Whatever events a client goes through, in whatever order: if its keys are in order before, they
  -- are afterwards. Then the room keys are at most five, each a buffer of its own, and the private
  -- key and every secret of a handshake are buffers that exist.
  pub run_events-IsKeyed :
      (es : List Event) (cl : Client) → IsKeyed cl → IsKeyed (run_events o es cl)
  unfolding run_events
  run_events-IsKeyed [] cl h = h
  run_events-IsKeyed (e ∷ es) cl h = run_events-IsKeyed es (step o e cl) (step-IsKeyed e cl h)

  -- Whatever events a client without a session goes through: if they leave it in a session, tearing
  -- this down wipes all of its room keys, its private key and the secrets of its handshakes.
  pub teardown-run_events-IsWiped :
      (back : Bool) (es : List Event) (cl : Client) (s : Session)
      → cl.session ≡ none
      → (run_events o es cl).session ≡ some s
      → ((teardown back (run_events o es cl)).session ≡ none)
        × All (IsWiped (teardown back (run_events o es cl)).heap) (key_refs s)
  teardown-run_events-IsWiped back es cl s start e =
      let cl' = run_events o es cl in
      let h = IsKeyed-session s cl' e (run_events-IsKeyed es cl (none-IsKeyed cl start)) in
      let exist : All (λ k. k < length cl'.heap) (key_refs s) =
        All-append (λ k. k < length cl'.heap) s.keys (s.private_key ∷ handshake_refs s.handshakes)
          h.ring.in_heap (h.own, h.secrets) in
      teardown-IsWiped back cl' s e exist
