-- ===== src/Page/Lobby/Address.antt =====
-- An invite link that is opened in a browser: `bootstrapFromHash` of web/src/main.ts and the form that
-- joins.
use e2eanon.Prelude.{ℕ, ◌≡◌, ◌≢◌, ap, ◌∙◌, [], ◌∷◌, Option, none, some, Text, ok, arith}
use mathlib.Core.Option.{some-injective}
use e2eanon.Crypto.Base64url.{Bytes}
use e2eanon.Crypto.Primitives.{Primitives}
use e2eanon.Spake2.Suite.{Curve, Hashes}
use e2eanon.Handshake.{FrameJson}
use e2eanon.Protocol.{ServerMsg, ClientMsg}
use e2eanon.Client.State.{Invite, Client}
use e2eanon.Client.Membership.{or_empty}
use e2eanon.Client.Handshaking.{start_as_joiner, on_redeem_ok}
use e2eanon.Client.Invites.{Web, both, build_invite_link, parse_invite}
use e2eanon.Client.Invites.Links.{WebLaws, parse_invite-build_invite_link}
use e2eanon.Client.Connecting.Joins.{joining, on_redeem_ok-joining}
use e2eanon.Page.Lobby.{Lobby, invite_detected, bootstrap_from_hash}

-- Neither part of an invite is empty.
both-ne-nil :
    (token code : Option Text) (invite : Invite)
    → both token code ≡ some invite
    → (invite.token ≢ []) × (invite.code ≢ [])
both-ne-nil none code invite h = cc
both-ne-nil (some []) code invite h = cc
both-ne-nil (some (t ∷ ts)) none invite h = cc
both-ne-nil (some (t ∷ ts)) (some []) invite h = cc
both-ne-nil (some (t ∷ ts)) (some (c ∷ cs)) invite h =
    let same = some-injective _ invite h in
    (
      λ e. let no : t ∷ ts ≡ [] = ap (λ (i : Invite). i.token) same ∙ e in cc,
      λ e. let no : c ∷ cs ≡ [] = ap (λ (i : Invite). i.code) same ∙ e in cc,
    )

module _ (web : Web) where
  parse_invite-ne-nil :
      (input : Text) (invite : Invite)
      → parse_invite web input ≡ some invite
      → (invite.token ≢ []) × (invite.code ≢ [])
  unfolding parse_invite
  parse_invite-ne-nil input invite h = both-ne-nil _ _ invite h

  bootstrap_from_hash_lem :
      (c : ℕ) (cs link : Text) (invite : Invite) (l : Lobby)
      → l.hash ≡ c ∷ cs
      → parse_invite web (c ∷ cs) ≡ some invite
      → build_invite_link web invite.token invite.code ≡ ok link
      → bootstrap_from_hash web l
        ≡ record l { room_input = link; hash = []; lobby_status = invite_detected }
  unfolding bootstrap_from_hash
  bootstrap_from_hash_lem c cs link invite l at parsed built = ground arith

  module _ (laws : WebLaws web) (p : Primitives) (random : ℕ → ℕ → Bytes) (json : FrameJson)
      (curve : Curve) (h : Hashes) where
    -- The page is opened with an invite in the fragment of its address, whose two parts can be encoded.
    -- The fragment is taken out of the address, and what is filled into the form is an invite link with
    -- just that token and code: when it is submitted as it stands, in a client that has no session, and the server
    -- accepts it, the handshake starts with that code.
    pub on_redeem_ok-bootstrap_from_hash :
        (c : ℕ) (cs link : Text) (invite : Invite) (l : Lobby) (hello : ClientMsg) (cl : Client)
        (msg : ServerMsg) (d : ℕ) (hs : Text)
        → l.hash ≡ c ∷ cs
        → parse_invite web (c ∷ cs) ≡ some invite
        → build_invite_link web invite.token invite.code ≡ ok link
        → cl.session ≡ none
        → let l' = bootstrap_from_hash web l in
          let joined = joining p random web l'.room_input hello cl in
          (l'.hash ≡ [])
          × (parse_invite web l'.room_input ≡ some invite)
          × (on_redeem_ok p random json curve h (record msg { handshake = some (d ∷ hs) }) joined
              ≡ start_as_joiner p random json curve h
                  (or_empty msg.member_id)
                  invite.code
                  (d ∷ hs)
                  joined)
    on_redeem_ok-bootstrap_from_hash c cs link invite l hello cl msg d hs at parsed built free =
        let e = bootstrap_from_hash_lem c cs link invite l at parsed built in
        let (some_token, some_code) = parse_invite-ne-nil (c ∷ cs) invite parsed in
        let input = (bootstrap_from_hash web l).room_input in
        let again : parse_invite web input ≡ some invite =
          ap (λ (x : Lobby). parse_invite web x.room_input) e
          ∙ parse_invite-build_invite_link web laws invite link some_token some_code built in
        (
          ap (λ (x : Lobby). x.hash) e,
          again,
          on_redeem_ok-joining p random web json curve h input hello invite cl msg d hs again free,
        )
