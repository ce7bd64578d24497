-- ===== src/Client/Connecting/Joins.antt =====
-- What becomes of an invite that is entered in the lobby.
use e2eanon.Prelude.{ℕ, ◌≡◌, refl, ◌∷◌, none, some, Text, ok, Option-cases, inl, inr, arith}
use e2eanon.Crypto.Base64url.{Bytes}
use e2eanon.Crypto.Primitives.{Primitives}
use e2eanon.Spake2.Suite.{Curve, Hashes}
use e2eanon.Handshake.{FrameJson}
use e2eanon.Protocol.{ServerMsg, ClientMsg}
use e2eanon.Client.State.{Session, Invite, Client}
use e2eanon.Client.Membership.{or_empty, given}
use e2eanon.Client.Keyring.{allocate}
use e2eanon.Client.Lifecycle.{teardown}
use e2eanon.Client.Handshaking.{start_as_joiner, on_redeem_ok}
use e2eanon.Client.Invites.{Web, parse_invite}
use e2eanon.Client.Connecting.{
  close_current_session, begin_connect, on_open, finish_connect, submit_join,
}

module _ (p : Primitives) (random : ℕ → ℕ → Bytes) (web : Web) where
  -- An invite is entered, and the socket opened.
  abbrev pub joining : Text → ClientMsg → Client → Client
  joining input hello cl =
      on_open hello (finish_connect p random (submit_join p random web input cl))

  kept :
      (input : Text) (hello : ClientMsg) (invite : Invite) (cl : Client)
      → parse_invite web input ≡ some invite
      → cl.session ≡ none
      → (joining input hello cl).pending_join ≡ some invite
  unfolding submit_join begin_connect close_current_session finish_connect on_open allocate
  kept input hello invite cl e s = ground arith

  lost :
      (input : Text) (hello : ClientMsg) (invite : Invite) (s : Session) (cl : Client)
      → parse_invite web input ≡ some invite
      → cl.session ≡ some s
      → (joining input hello cl).pending_join ≡ none
  unfolding submit_join begin_connect close_current_session finish_connect on_open teardown allocate
  lost input hello invite s cl e has = ground arith

  has_session :
      (input : Text) (hello : ClientMsg) (cl : Client)
      → (t : Session) × ((joining input hello cl).session ≡ some t)
  unfolding finish_connect on_open
  has_session input hello cl = (_, refl)

  module _ (json : FrameJson) (c : Curve) (h : Hashes) where
    -- Where there is no session yet, the invite that is entered is the one whose code the handshake is
    -- started with, once the server has accepted it.
    pub on_redeem_ok-joining :
        (input : Text) (hello : ClientMsg) (invite : Invite) (cl : Client) (msg : ServerMsg) (d : ℕ)
        (hs : Text)
        → parse_invite web input ≡ some invite
        → cl.session ≡ none
        → on_redeem_ok p random json c h
            (record msg { handshake = some (d ∷ hs) })
            (joining input hello cl)
          ≡ start_as_joiner p random json c h
              (or_empty msg.member_id)
              invite.code
              (d ∷ hs)
              (joining input hello cl)
    unfolding on_redeem_ok
    on_redeem_ok-joining input hello invite cl msg d hs e s =
        let (t, has) = has_session input hello cl in
        let k = kept input hello invite cl e s in ground arith

    -- Where there is a session, closing it forgets the invite that is entered: when the server then
    -- accepts the invite, whatever its `redeem_ok` holds, the client starts no handshake and stays as it
    -- is.
    pub on_redeem_ok-joining_over :
        (input : Text) (hello : ClientMsg) (invite : Invite) (s : Session) (cl : Client)
        (msg : ServerMsg)
        → parse_invite web input ≡ some invite
        → cl.session ≡ some s
        → on_redeem_ok p random json c h msg (joining input hello cl)
          ≡ (joining input hello cl, ok tt)
    unfolding on_redeem_ok
    on_redeem_ok-joining_over input hello invite s cl msg e is =
        let (t, has) = has_session input hello cl in
        let l = lost input hello invite s cl e is in
        elim (Option-cases (given msg.handshake)) [
          | inl missing ↦ ground arith
          | inr (hs, there) ↦ ground arith
        ]
