-- ===== src/Client/Lifecycle.antt =====
-- Entering and leaving a room: `onWelcome`, `teardown` and `onClose` of web/src/main.ts. Closing the
-- socket, object URLs and a staged attachment are effects outside the state.
pub mod Wiping
use e2eanon.Prelude.{
  ℕ, List, [], ◌∷◌, ◌++◌, map, Bool, true, false, not, ◌&&◌, Option, none, some, Text, text_eq,
  insert, if◌then◌else◌,
}
use e2eanon.Crypto.Base64url.{Bytes}
use e2eanon.Crypto.Envelope.{codes}
use e2eanon.Protocol.{Role, MemberInfo, ServerMsg}
use e2eanon.Client.State.{Ref, HsRecord, Session, View, Client, fill_zero, wipe_keys, wipe_key}
use e2eanon.Client.Membership.{is_owner, or_empty, role_in, owner_id_of, id_set}

abbrev pub members_or_none : Option (List MemberInfo) → List MemberInfo
members_or_none none = []
members_or_none (some members) = members

abbrev id_or : Option Text → Text → Text
id_or none old = old
id_or (some id) old = id

-- The joiner's entry for the owner, learned during the handshake.
abbrev seed_owner : Option Bytes → Text → List (Text × Bytes) → List (Text × Bytes)
seed_owner none owner_id pubs = pubs
seed_owner (some b) [] pubs = pubs
seed_owner (some b) (c ∷ cs) pubs = insert (c ∷ cs) b pubs

unfoldable pub welcomed : ServerMsg → Session → Session
welcomed msg s =
    let members = members_or_none msg.members in
    let self = id_or msg.member_id s.member_id in
    let owner_id = owner_id_of members in
    record s {
      room = or_empty msg.room;
      member_id = self;
      owner_id = owner_id;
      role = role_in owner_id self;
      known_members = if is_owner (role_in owner_id self) then id_set members else s.known_members;
      member_pubs = seed_owner s.first_owner_pub owner_id s.member_pubs;
      last_members = members;
    }

unfoldable pub on_welcome : ServerMsg → Client → Client
on_welcome msg cl = elim cl.session [
  | none ↦ cl
  | some s ↦
      let s' = welcomed msg s in
      record cl {
        session = some s';
        view = record cl.view {
          room_id = s'.room;
          invite_button = is_owner s'.role;
          lobby_status = [];
          members = s'.last_members;
          in_room = true;
          room_notice = [];
        };
      }
]

-- `for (const rec of s.handshakes.values()) wipeKey(rec.ke ?? null)`.
unfoldable pub wipe_handshakes : List (Text × HsRecord) → List Bytes → List Bytes
wipe_handshakes [] heap = heap
wipe_handshakes ((id, r) ∷ rs) heap = wipe_handshakes rs (wipe_key r.ke heap)

unfoldable pub wipe_session : Session → List Bytes → List Bytes
wipe_session s heap = wipe_handshakes s.handshakes (fill_zero (wipe_keys s.keys heap) s.private_key)

abbrev wipe_maybe : Option Session → List Bytes → List Bytes
wipe_maybe none heap = heap
wipe_maybe (some s) heap = wipe_session s heap

unfoldable pub teardown : Bool → Client → Client
teardown return_to_lobby cl = record cl {
  session = none;
  pending_join = none;
  heap = wipe_maybe cl.session cl.heap;
  view = record cl.view {
    messages = [];
    members = [];
    room_id = [];
    invite_link = [];
    invite_button = false;
    in_room = if return_to_lobby then false else cl.view.in_room;
  };
}

abbrev pub is_empty : Text → Bool
is_empty [] = true
is_empty (c ∷ cs) = false

abbrev pub was_in_room : Option Session → Bool
was_in_room none = false
was_in_room (some s) = not (is_empty s.room)

abbrev pub connection_lost : Text
connection_lost =
    codes "Connection lost " ++ 0x2014 ∷ codes " the room has ended. Rejoin with a new invite."

abbrev pub drop_out : Client → Client
drop_out cl =
    let ended = teardown true cl in
    record ended { view = record ended.view { lobby_error = connection_lost } }

unfoldable pub on_close : Client → Client
on_close cl =
    let in_room = was_in_room cl.session in
    let cl' =
      (if in_room && not cl.intentional_close
        then drop_out cl
        else if not in_room
        then teardown false cl
        else cl) in
    record cl' { intentional_close = false }
