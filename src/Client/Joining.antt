-- ===== src/Client/Joining.antt =====
-- The last part of a join: `onMemberKey`, `onKeyDeliver` and `finishJoin` of web/src/main.ts.
pub mod Order
pub mod Entering
pub mod Admitting
pub mod Delivering
use e2eanon.Prelude.{
  ℕ, List, [], ◌∷◌, ◌++◌, Bool, true, false, Option, none, some, Text, lookup, insert, erase,
  Result, ok, err,
}
use e2eanon.Crypto.Base64url.{Bytes}
use e2eanon.Crypto.Primitives.{Primitives}
use e2eanon.Crypto.Envelope.{codes}
use e2eanon.Crypto.KeyExchange.{open_under_ke, open_room_key}
use e2eanon.Protocol.{ServerMsg, enter}
use e2eanon.Client.State.{
  Ref, HsRole, owner_side, joiner_side, HsRecord, Session, View, Client, read, wipe_key, M, ◌>>=◌,
  ◌>>◌,
}
use e2eanon.Client.Keyring.{add_key}
use e2eanon.Client.Membership.{done, update, or_empty, send, rotate_for_join}
use e2eanon.Client.Lifecycle.{teardown}

abbrev pub not_received : Text
not_received = codes "Failed to receive the room key."

abbrev pub end_handshake : Text → Session → Session
end_handshake hs_id s = record s { handshakes = erase hs_id s.handshakes }

module _ (p : Primitives) where
  -- `finishJoin` once the sealed room key has been opened, or not.
  unfoldable pub joined : Text → Option Ref → Result Bytes → Client → Client
  joined hs_id ke (err e) cl =
      teardown true (record cl { view = record cl.view { lobby_error = not_received } })
  joined hs_id ke (ok room_key) cl =
      let cl' = add_key room_key cl in
      send (enter hs_id) (update (end_handshake hs_id) (record cl' { heap = wipe_key ke cl'.heap }))

  unfoldable pub finish_join : Text → HsRecord → Text → Client → Client
  finish_join hs_id r env cl = elim cl.session [
    | none ↦ cl
    | some s ↦ elim s.first_owner_pub [
      | none ↦ cl
      | some owner_pub ↦
          joined hs_id r.ke (open_room_key p (read cl.heap s.private_key) owner_pub env) cl
    ]
  ]

  abbrev pub keep_pending : Text → HsRecord → Text → Session → Session
  keep_pending hs_id r env s = record s {
    handshakes = insert hs_id (record r { pending_key_deliver = some env }) s.handshakes;
  }

  unfoldable pub on_key_deliver : ServerMsg → Client → Client
  on_key_deliver msg cl = elim cl.session [
    | none ↦ cl
    | some s ↦ elim msg.handshake [
      | none ↦ cl
      | some [] ↦ cl
      | some (c ∷ cs) ↦ elim msg.data_text [
        | none ↦ cl
        | some env ↦ elim (lookup (c ∷ cs) s.handshakes) [
          | none ↦ cl
          | some r ↦ elim s.first_owner_pub [
            | none ↦ record cl { session = some (keep_pending (c ∷ cs) r env s) }
            | some owner_pub ↦ finish_join (c ∷ cs) r env cl
          ]
        ]
      ]
    ]
  ]

  -- An empty text that is pending counts as none.
  abbrev pub finish_pending : Text → HsRecord → Option Text → Client → Client
  finish_pending hs_id r none cl = cl
  finish_pending hs_id r (some []) cl = cl
  finish_pending hs_id r (some (c ∷ cs)) cl = finish_join hs_id r (c ∷ cs) cl

  module _ (random : ℕ → ℕ → Bytes) where
    -- The peer's public key has been opened. The owner's records all name the joiner.
    unfoldable pub take_peer_pub : Text → HsRecord → HsRole → Bytes → M (Unit {0})
    take_peer_pub hs_id r owner_side peer_pub cl =
        let joiner = or_empty r.joiner_member_id in
        (rotate_for_join p random joiner peer_pub >> λ c. done (update (end_handshake hs_id) c))
          (update (λ s. record s { member_pubs = insert joiner peer_pub s.member_pubs }) cl)
    take_peer_pub hs_id r joiner_side peer_pub cl = done (
        finish_pending hs_id r r.pending_key_deliver
          (update (λ s. record s { first_owner_pub = some peer_pub }) cl))

    unfoldable pub on_sealed_pub : Text → HsRecord → Ref → Text → M (Unit {0})
    on_sealed_pub hs_id r ke env cl = elim (open_under_ke p (read cl.heap ke) env) [
      | err e ↦ (cl, ok tt)
      | ok peer_pub ↦ take_peer_pub hs_id r r.role peer_pub cl
    ]

    unfoldable pub on_member_key : ServerMsg → M (Unit {0})
    on_member_key msg cl = elim cl.session [
      | none ↦ (cl, ok tt)
      | some s ↦ elim msg.handshake [
        | none ↦ (cl, ok tt)
        | some [] ↦ (cl, ok tt)
        | some (c ∷ cs) ↦ elim msg.data_text [
          | none ↦ (cl, ok tt)
          | some env ↦ elim (lookup (c ∷ cs) s.handshakes) [
            | none ↦ (cl, ok tt)
            | some r ↦ elim r.ke [
              | none ↦ (cl, ok tt)
              | some ke ↦ on_sealed_pub (c ∷ cs) r ke env cl
            ]
          ]
        ]
      ]
    ]
