-- ===== src/Client/Handshaking.antt =====
-- The first part of a join: `onInviteCreated`, `onInviteRedeemed`, `onRedeemOk` of web/src/main.ts,
-- what the callbacks of a handshake do, and the `pake` case of `onMessage`.
pub mod Onward
pub mod Starting
pub mod Meeting
pub mod LastMessages
pub mod Entry
pub mod Records
pub mod Callbacks
pub mod Agreement
use e2eanon.Prelude.{
  ℕ, suc, ◌+◌, List, [], ◌∷◌, ◌++◌, Bool, true, false, Option, none, some, Text, lookup, insert,
  erase, Result, ok, err, Error, not_an_object,
}
use e2eanon.Crypto.Base64url.{Bytes}
use e2eanon.Crypto.Primitives.{Primitives}
use e2eanon.Crypto.Envelope.{codes, nonce_len}
use e2eanon.Crypto.KeyExchange.{seal_under_ke}
use e2eanon.Spake2.Suite.{Curve, Hashes}
use e2eanon.Spake2.Exchange.{party_a, party_b, scalar_bytes}
use e2eanon.Handshake.{
  FrameJson, HandshakeSession, Output, send_pake, confirmed, failed, Call, create, on_data,
}
use e2eanon.Protocol.{ServerMsg, ClientMsg, pake, member_key}
use e2eanon.Client.State.{
  Ref, HsRole, owner_side, joiner_side, HsRecord, Session, View, Client, Invite, M, ◌>>=◌, ◌>>◌,
}
use e2eanon.Client.Keyring.{allocate}
use e2eanon.Client.Membership.{done, update, or_empty, given, send, draw}
use e2eanon.Client.Lifecycle.{teardown}
use e2eanon.Client.Joining.{end_handshake}
use e2eanon.Client.Invites.{Web, code_len, generate_code, build_invite_link}

abbrev pub wrong_code : Text
wrong_code = codes "Wrong code or handshake failed."

abbrev pub establishing : Text
establishing = codes "Establishing a secure channel" ++ 0x2026 ∷ []

-- What is assigned to the fields of a record that is in the map.
abbrev pub set_record : Text → (HsRecord → HsRecord) → Session → Session
set_record hs_id f s = elim (lookup hs_id s.handshakes) [
  | none ↦ s
  | some r ↦ record s { handshakes = insert hs_id (f r) s.handshakes }
]

abbrev pub set_ke : Ref → HsRecord → HsRecord
set_ke k r = record r { ke = some k }

abbrev pub set_hs : HandshakeSession → HsRecord → HsRecord
set_hs hs r = record r { hs = hs }

abbrev pub thrown_result : Option Error → Result (Unit {0})
thrown_result none = ok tt
thrown_result (some e) = err e

abbrev pub owner_record : HandshakeSession → Text → HsRecord
owner_record hs joiner = record {
  hs = hs;
  role = owner_side;
  joiner_member_id = some joiner;
  ke = none;
  pending_key_deliver = none;
}

abbrev pub joiner_record : HandshakeSession → HsRecord
joiner_record hs = record {
  hs = hs;
  role = joiner_side;
  joiner_member_id = none;
  ke = none;
  pending_key_deliver = none;
}

-- What the constructor sends goes out before the record is stored.
abbrev pub begin_handshake : Text → HsRecord → Text → Client → Client
begin_handshake hs_id r payload cl =
    update (λ s. record s { handshakes = insert hs_id r s.handshakes })
      (send (pake hs_id payload) cl)

module _ (p : Primitives) (random : ℕ → ℕ → Bytes) where
  -- `onConfirmed`: the record keeps the secret, and our public key goes out sealed under it.
  unfoldable pub on_confirmed : Text → Bytes → M (Unit {0})
  on_confirmed hs_id ke cl = elim cl.session [
    | none ↦ (cl, err not_an_object)
    | some s ↦
        let (k, cl1) = allocate ke cl in
        let (nonce, cl2) = draw p random nonce_len (update (set_record hs_id (set_ke k)) cl1) in
        done (send (member_key hs_id (seal_under_ke p ke nonce s.public_key)) cl2)
  ]

  -- `onFail`, for each side.
  unfoldable pub on_fail : HsRole → Text → M (Unit {0})
  on_fail owner_side hs_id cl = elim cl.session [
    | none ↦ (cl, err not_an_object)
    | some s ↦ (record cl { session = some (end_handshake hs_id s) }, ok tt)
  ]
  on_fail joiner_side hs_id cl =
      done (teardown true (record cl { view = record cl.view { lobby_error = wrong_code } }))

  unfoldable pub on_output : HsRole → Text → Output → M (Unit {0})
  on_output role hs_id (send_pake payload) cl = done (send (pake hs_id payload) cl)
  on_output role hs_id (confirmed ke) cl = on_confirmed hs_id ke cl
  on_output role hs_id failed cl = on_fail role hs_id cl

  -- The callbacks of one call, in order.
  unfoldable pub on_outputs : HsRole → Text → List Output → M (Unit {0})
  on_outputs role hs_id [] = done
  on_outputs role hs_id (o ∷ os) = on_output role hs_id o >> on_outputs role hs_id os

  -- A call of the handshake object: its new state is stored in the record, its callbacks run, and
  -- what it throws is thrown after them.
  unfoldable pub feed : Text → HsRecord → Call → M (Unit {0})
  feed hs_id r call cl =
      (on_outputs r.role hs_id call.outputs >> λ c. (c, thrown_result call.thrown))
        (update (set_record hs_id (set_hs call.session)) cl)

  unfoldable pub on_invite_created : Web → ServerMsg → M (Unit {0})
  on_invite_created web msg cl = elim cl.session [
    | none ↦ (cl, ok tt)
    | some s ↦ elim (given msg.token) [
      | none ↦ (cl, ok tt)
      | some token ↦
          let (bytes, cl1) = draw p random code_len cl in
          let code = generate_code bytes in
          let cl2 = record cl1 {
            session = some (record s { pending_invites = insert token code s.pending_invites });
          } in
          elim (build_invite_link web token code) [
            | err e ↦ (cl2, err e)
            | ok link ↦ (record cl2 { view = record cl2.view { invite_link = link } }, ok tt)
          ]
    ]
  ]

  module _ (json : FrameJson) (c : Curve) (h : Hashes) where
    -- A random scalar is drawn by the constructor.
    unfoldable pub start_as_owner : Text → Text → Text → Text → M (Unit {0})
    start_as_owner token code hs_id joiner cl =
        let (bytes, cl1) =
          draw p random (scalar_bytes + 16)
            (update (λ s. record s { pending_invites = erase token s.pending_invites }) cl) in
        elim (create p json c h party_a code hs_id bytes) [
          | err e ↦ (cl1, err e)
          | ok (hs, payload) ↦ done (begin_handshake hs_id (owner_record hs joiner) payload cl1)
        ]

    -- Past the guards of `onInviteRedeemed`.
    unfoldable pub redeemed : Session → Text → Text → Text → M (Unit {0})
    redeemed s hs_id token joiner cl = elim (given (lookup token s.pending_invites)) [
      | none ↦ (cl, ok tt)
      | some code ↦ start_as_owner token code hs_id joiner cl
    ]

    unfoldable pub on_invite_redeemed : ServerMsg → M (Unit {0})
    on_invite_redeemed msg cl = elim cl.session [
      | none ↦ (cl, ok tt)
      | some s ↦ elim (given msg.handshake) [
        | none ↦ (cl, ok tt)
        | some hs_id ↦ elim (given msg.token) [
          | none ↦ (cl, ok tt)
          | some token ↦ elim (given msg.member_id) [
            | none ↦ (cl, ok tt)
            | some joiner ↦ redeemed s hs_id token joiner cl
          ]
        ]
      ]
    ]

    unfoldable pub start_as_joiner : Text → Text → Text → M (Unit {0})
    start_as_joiner self code hs_id cl =
        let joining = record (update (λ s. record s { member_id = self }) cl) {
          pending_join = none;
          view = record cl.view { lobby_status = establishing };
        } in
        let (bytes, cl1) = draw p random (scalar_bytes + 16) joining in
        elim (create p json c h party_b code hs_id bytes) [
          | err e ↦ (cl1, err e)
          | ok (hs, payload) ↦ done (begin_handshake hs_id (joiner_record hs) payload cl1)
        ]

    unfoldable pub on_redeem_ok : ServerMsg → M (Unit {0})
    on_redeem_ok msg cl = elim cl.session [
      | none ↦ (cl, ok tt)
      | some s ↦ elim (given msg.handshake) [
        | none ↦ (cl, ok tt)
        | some hs_id ↦ elim cl.pending_join [
          | none ↦ (cl, ok tt)
          | some invite ↦ start_as_joiner (or_empty msg.member_id) invite.code hs_id cl
        ]
      ]
    ]

    -- The `pake` case of `onMessage`.
    unfoldable pub on_pake : ServerMsg → M (Unit {0})
    on_pake msg cl = elim (given msg.handshake) [
      | none ↦ (cl, ok tt)
      | some hs_id ↦ elim msg.data_text [
        | none ↦ (cl, ok tt)
        | some payload ↦ elim cl.session [
          | none ↦ (cl, ok tt)
          | some s ↦ elim (lookup hs_id s.handshakes) [
            | none ↦ (cl, ok tt)
            | some r ↦ feed hs_id r (on_data p json c h r.hs payload) cl
          ]
        ]
      ]
    ]
