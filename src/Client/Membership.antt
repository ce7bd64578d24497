-- ===== src/Client/Membership.antt =====
-- Presence, rotation and the roster: `onPresence`, `rekeyMember`, `rotateForJoin`, `broadcastRoster`,
-- `applyRoster`, `onRekey` and `ownerIdOf` of web/src/main.ts. A call that may throw leaves the state
-- that it had reached.
pub mod Sending
pub mod Recipients
pub mod Frames
pub mod Rotation
pub mod Delivery
pub mod Departed
pub mod Contents
pub mod News
pub mod Admission
use e2eanon.Prelude.{
  ℕ, suc, ◌+◌, List, [], ◌∷◌, ◌++◌, map, Bool, true, false, not, ◌&&◌, ◌||◌, Option, none, some,
  Text, text_eq, lookup, insert, erase, member, adjoin, length, Result, ok, err, Error,
  if◌then◌else◌, to_option,
}
use e2eanon.Crypto.Base64url.{Bytes}
use e2eanon.Crypto.Primitives.{Primitives}
use e2eanon.Crypto.Envelope.{key_len, nonce_len, bytes_to_b64url, b64url_to_bytes, encrypt_message}
use e2eanon.Crypto.KeyExchange.{seal_room_key, open_room_key}
use e2eanon.Protocol.{Role, owner, MemberInfo, ClientMsg, key_deliver, rekey, roster, ServerMsg}
use e2eanon.Client.State.{
  Ref, HsRecord, ReadyState, opened, Session, View, Client, read, M, ◌>>=◌, ◌>>◌,
}
use e2eanon.Client.Keyring.{allocate, push_key, add_key, decrypt_any}

-- The roster, as JSON reads and writes it: an object from member ids to base64url texts. Reading is
-- `none` where it throws; a value that is no text is read as one that is no base64, which throws in
-- the same place.
pub record RosterJson : Type 0 where
  pub stringify : List (Text × Text) → Text
  pub parse : Text → Option (List (Text × Text))

abbrev pub is_owner : Role → Bool
is_owner Role.owner = true
is_owner Role.member = false

abbrev pub is_open : ReadyState → Bool
is_open opened = true
is_open _ = false

abbrev pub done : M (Unit {0})
done cl = (cl, ok tt)

abbrev pub or_empty : Option Text → Text
or_empty none = []
or_empty (some t) = t

-- A text as a condition: an empty one counts as none.
abbrev pub given : Option Text → Option Text
given none = none
given (some []) = none
given (some (c ∷ cs)) = some (c ∷ cs)

abbrev pub update : (Session → Session) → Client → Client
update f cl = elim cl.session [ none ↦ cl | some s ↦ record cl { session = some (f s) } ]

-- `send`: to an open socket, or nowhere.
unfoldable pub send : ClientMsg → Client → Client
send m cl = elim cl.session [
  | none ↦ cl
  | some s ↦ if is_open s.ws then record cl { sent = cl.sent ++ m ∷ [] } else cl
]

unfoldable pub owner_id_of : List MemberInfo → Text
owner_id_of [] = []
owner_id_of (m ∷ ms) = if is_owner m.role then m.id else owner_id_of ms

-- `new Set(members.map((m) => m.id))`, in the order of the list.
unfoldable pub to_set : List Text → List Text → List Text
to_set s [] = s
to_set s (k ∷ ks) = to_set (adjoin k s) ks

unfoldable pub id_set : List MemberInfo → List Text
unfolding to_set
id_set members = to_set [] (map (λ (m : MemberInfo). m.id) members)

-- `[...known].filter((id) => !current.has(id))`.
unfoldable pub removed_of : List Text → List Text → List Text
removed_of current [] = []
removed_of current (id ∷ known) =
    let rest = removed_of current known in if member id current then rest else id ∷ rest

-- `Set.delete`.
unfoldable pub discard : Text → List Text → List Text
discard id [] = []
discard id (j ∷ ids) = let rest = discard id ids in if text_eq j id then rest else j ∷ rest

-- The loop over the members that have left.
unfoldable pub forget : List Text → Session → Session
forget [] s = s
forget (id ∷ ids) s =
    forget ids (record s {
      known_members = discard id s.known_members;
      member_pubs = erase id s.member_pubs;
    })

abbrev pub role_in : Text → Text → Role
role_in owner_id self = if text_eq owner_id self then Role.owner else Role.member

-- What a presence message changes before the owner's duties; an owner that has just taken over
-- takes the members over as well.
unfoldable pub seen : List MemberInfo → Session → Session
seen members s =
    let owner_id = owner_id_of members in
    let became_owner = text_eq owner_id s.member_id && not (is_owner s.role) in
    record s {
      owner_id = owner_id;
      role = role_in owner_id s.member_id;
      last_members = members;
      known_members = if became_owner then id_set members else s.known_members;
    }

abbrev pub shown : List MemberInfo → Session → View → View
shown members s v = record v { members = members; invite_button = is_owner s.role }

module _ (p : Primitives) (random : ℕ → ℕ → Bytes) where
  abbrev pub draw : ℕ → Client → Bytes × Client
  draw n cl = (random cl.drawn n, record cl { drawn = suc cl.drawn })

  -- `generateRoomKey` and `pushKey`.
  unfoldable pub new_key : Client → Ref × Client
  new_key cl =
      let (bytes, cl') = draw key_len cl in
      let (k, cl'') = allocate bytes cl' in (k, push_key k cl'')

  -- The nonce is drawn once the wrapping key is there; a throw comes before it.
  unfoldable pub sealed_to : Session → Bytes → Ref → Client → Result Text
  sealed_to s their_pub k cl =
      seal_room_key p (read cl.heap s.private_key) their_pub (random cl.drawn nonce_len)
        (read cl.heap k)

  unfoldable pub rekey_member : Text → Ref → M (Unit {0})
  rekey_member id k cl = elim cl.session [
    | none ↦ (cl, ok tt)
    | some s ↦ elim (lookup id s.member_pubs) [
      | none ↦ (cl, ok tt)
      | some their_pub ↦ elim (sealed_to s their_pub k cl) [
        | err e ↦ (cl, err e)
        | ok env ↦ (send (rekey id env) (record cl { drawn = suc cl.drawn }), ok tt)
      ]
    ]
  ]

  -- `for (const id of ids) { if (skip) continue; rekeyMember(id, newKey); }`.
  unfoldable pub rekey_all : List Text → List Text → Ref → M (Unit {0})
  rekey_all skip [] k = done
  rekey_all skip (id ∷ ids) k =
      (if member id skip then done else rekey_member id k) >> rekey_all skip ids k

  -- `Object` with `memberId` first, then the roster's entries set over it.
  unfoldable pub roster_of : List (Text × Text) → List (Text × Bytes) → List (Text × Text)
  roster_of obj [] = obj
  roster_of obj ((id, b) ∷ pubs) = roster_of (insert id (bytes_to_b64url p b) obj) pubs

  unfoldable pub broadcast_roster : RosterJson → Client → Client
  broadcast_roster json cl = elim cl.session [
    | none ↦ cl
    | some s ↦ if not (is_owner s.role) then cl else elim s.keys [
      | [] ↦ cl
      | k ∷ ks ↦
          let (nonce, cl') = draw nonce_len cl in
          let obj = roster_of ((s.member_id, bytes_to_b64url p s.public_key) ∷ []) s.member_pubs in
          send (roster (encrypt_message p (read cl.heap k) nonce (json.stringify obj))) cl'
    ]
  ]

  -- The part of `onPresence` under `removed.length > 0`.
  unfoldable pub rotate_out : List Text → List Text → Text → M (Unit {0})
  rotate_out [] current self cl = done cl
  rotate_out (r ∷ removed) current self cl =
      let (k, cl') = new_key (update (forget (r ∷ removed)) cl) in
      rekey_all (self ∷ []) current k cl'

  -- The end of `onPresence`.
  unfoldable pub settle : RosterJson → List Text → M (Unit {0})
  settle json current cl =
      done (broadcast_roster json (update (λ s. record s { known_members = current }) cl))

  unfoldable pub owner_duties : RosterJson → List Text → Session → M (Unit {0})
  owner_duties json current s =
      rotate_out (removed_of current s.known_members) current s.member_id >> settle json current

  unfoldable pub on_presence : RosterJson → List MemberInfo → M (Unit {0})
  on_presence json members cl = elim cl.session [
    | none ↦ (cl, ok tt)
    | some s ↦
        let s' = seen members s in
        let cl' = record cl { session = some s'; view = shown members s' cl.view } in
        if not (is_owner s'.role) then (cl', ok tt) else owner_duties json (id_set members) s' cl'
  ]

  -- The handshake of a joiner: the first record with its member id.
  unfoldable pub handshake_of : Text → List (Text × HsRecord) → Option Text
  handshake_of joiner [] = none
  handshake_of joiner ((hs_id, r) ∷ rs) =
      let rest = handshake_of joiner rs in
      elim r.joiner_member_id [
        | none ↦ rest
        | some id ↦ if text_eq id joiner then some hs_id else rest
      ]

  unfoldable pub deliver_key : Text → Bytes → Ref → M (Unit {0})
  deliver_key joiner joiner_pub k cl = elim cl.session [
    | none ↦ (cl, ok tt)
    | some s ↦ elim (handshake_of joiner s.handshakes) [
      | none ↦ (cl, ok tt)
      | some [] ↦ (cl, ok tt)
      | some (c ∷ hs_id) ↦ elim (sealed_to s joiner_pub k cl) [
        | err e ↦ (cl, err e)
        | ok env ↦ (send (key_deliver (c ∷ hs_id) env) (record cl { drawn = suc cl.drawn }), ok tt)
      ]
    ]
  ]

  unfoldable pub rotate_for_join : Text → Bytes → M (Unit {0})
  rotate_for_join joiner joiner_pub cl = elim cl.session [
    | none ↦ (cl, ok tt)
    | some s ↦
        let (k, cl') = new_key cl in
        (deliver_key joiner joiner_pub k
            >> rekey_all (s.member_id ∷ joiner ∷ []) s.known_members k
            >> λ c.
                done
                  (update (λ s'. record s' { known_members = adjoin joiner s'.known_members }) c))
          cl'
  ]

  unfoldable pub on_rekey : ServerMsg → Client → Client
  on_rekey msg cl = elim cl.session [
    | none ↦ cl
    | some s ↦ elim msg.data_text [
      | none ↦ cl
      | some env ↦ elim (lookup s.owner_id s.member_pubs) [
        | none ↦ cl
        | some owner_pub ↦ elim (open_room_key p (read cl.heap s.private_key) owner_pub env) [
          | err e ↦ cl
          | ok k ↦ add_key k cl
        ]
      ]
    ]
  ]

  -- The loop of `applyRoster`; a text that is no base64 throws and ends it.
  unfoldable pub merge_roster : List (Text × Text) → Session → Session
  merge_roster [] s = s
  merge_roster ((id, b64) ∷ obj) s = elim (b64url_to_bytes p b64) [
    | err e ↦ s
    | ok b ↦ merge_roster obj (record s { member_pubs = insert id b s.member_pubs })
  ]

  unfoldable pub apply_roster : RosterJson → Text → Client → Client
  apply_roster json text cl = elim cl.session [
    | none ↦ cl
    | some s ↦ elim (decrypt_any p cl text) [
      | none ↦ cl
      | some [] ↦ cl
      | some (c ∷ cs) ↦ elim (json.parse (c ∷ cs)) [
        | none ↦ cl
        | some obj ↦ record cl { session = some (merge_roster obj s) }
      ]
    ]
  ]
