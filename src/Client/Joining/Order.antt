-- ===== src/Client/Joining/Order.antt =====
-- The relay may hand over the owner's public key and the room key in either order: `onMemberKey`
-- and `onKeyDeliver` of web/src/main.ts at the joiner.
use e2eanon.Prelude.{
  ℕ, ◌≡◌, refl, ap, sym, ◌∙◌, List, [], ◌∷◌, ◌++◌, Option, none, some, Text, text_eq, text_eq_refl,
  lookup, insert, erase, lookup-insert, length, take, drop, Result, ok, err, Bool-cases, inl, inr,
  arith,
}
use e2eanon.Crypto.Base64url.{Bytes}
use e2eanon.Crypto.Primitives.{Primitives}
use e2eanon.Crypto.KeyExchange.{open_under_ke, open_room_key}
use e2eanon.Protocol.{ServerMsg, enter}
use e2eanon.Client.State.{
  Ref, HsRole, joiner_side, HsRecord, Session, Client, max_kept_keys, read, wipe_keys, wipe_key,
}
use e2eanon.Client.Keyring.{allocate, push_key, add_key}
use e2eanon.Client.Membership.{send}
use e2eanon.Client.Lifecycle.{wipe_handshakes, wipe_session, teardown}
use e2eanon.Client.Joining.{
  joined, finish_join, keep_pending, on_key_deliver, take_peer_pub, on_sealed_pub, on_member_key,
}

erase-insert {ℓ} :
    {V : Type ℓ} (k : Text) (v : V) (m : List (Text × V)) → erase k (insert k v m) ≡ erase k m
erase-insert k v [] = ground (arith, text_eq_refl k)
erase-insert k v ((j, w) ∷ m) = elim (Bool-cases (text_eq j k)) [
  | inl same ↦ ground arith
  | inr other ↦ ground (arith, erase-insert k v m)
]

-- A record that takes another's place and holds the same secret is wiped alike.
wipe_handshakes-insert :
    (k : Text) (r v : HsRecord) (rs : List (Text × HsRecord)) (heap : List Bytes)
    → lookup k rs ≡ some r
    → v.ke ≡ r.ke
    → wipe_handshakes (insert k v rs) heap ≡ wipe_handshakes rs heap
unfolding wipe_handshakes
wipe_handshakes-insert k r v [] heap e same = cc
wipe_handshakes-insert k r v ((j, w) ∷ rs) heap e same = elim (Bool-cases (text_eq j k)) [
  | inl here ↦
      let found : w ≡ r = ground arith in
      rw here (
        ap (λ x. wipe_handshakes rs (wipe_key x heap))
          (same ∙ ap (λ (x : HsRecord). x.ke) (sym found)))
  | inr other ↦
      let later : lookup k rs ≡ some r = ground arith in
      rw other (wipe_handshakes-insert k r v rs (wipe_key w.ke heap) later same)
]

-- The client after a join, with these handshakes left.
abbrev settled : Text → Option Ref → Bytes → List (Text × HsRecord) → Session → Client → Client
settled hs_id ke room_key rs s cl = send (enter hs_id) (record cl {
  session =
      some (record s { keys = take max_kept_keys (length cl.heap ∷ s.keys); handshakes = rs });
  heap =
      wipe_key ke
        (wipe_keys (drop max_kept_keys (length cl.heap ∷ s.keys)) (cl.heap ++ room_key ∷ []));
})

module _ (p : Primitives) where
  joined_lem :
      (hs_id : Text) (ke : Option Ref) (room_key : Bytes) (s : Session) (cl : Client)
      → joined p hs_id ke (ok room_key) (record cl { session = some s })
        ≡ settled hs_id ke room_key (erase hs_id s.handshakes) s cl
  unfolding joined add_key push_key allocate
  joined_lem hs_id ke room_key s cl = refl

  -- Whether a text was pending in the record of the handshake leaves no trace.
  joined-insert :
      (hs_id : Text) (ke : Option Ref) (found : Result Bytes) (r v : HsRecord) (s : Session)
      (cl : Client)
      → lookup hs_id s.handshakes ≡ some r
      → v.ke ≡ r.ke
      → joined p hs_id ke found
          (record cl { session = some (record s { handshakes = insert hs_id v s.handshakes }) })
        ≡ joined p hs_id ke found (record cl { session = some s })
  unfolding joined teardown wipe_session
  joined-insert hs_id ke (err e) r v s cl known same =
      ap (λ h. record (joined p hs_id ke (err e) (record cl { session = some s })) { heap = h })
        (wipe_handshakes-insert hs_id r v s.handshakes _ known same)
  joined-insert hs_id ke (ok room_key) r v s cl known same =
      joined_lem hs_id ke room_key (record s { handshakes = insert hs_id v s.handshakes }) cl
      ∙ ap (λ rs. settled hs_id ke room_key rs s cl) (erase-insert hs_id v s.handshakes)
      ∙ sym (joined_lem hs_id ke room_key s cl)

-- A joiner whose handshake has confirmed a secret, and that has received neither message yet.
pub record IsWaiting (hs_id : Text) (r : HsRecord) (ke : Ref) (s : Session) (cl : Client)
    : Type 0 where
  pub in_session : cl.session ≡ some s
  pub known : lookup hs_id s.handshakes ≡ some r
  pub joins : r.role ≡ joiner_side
  pub confirmed_secret : r.ke ≡ some ke
  pub none_pending : r.pending_key_deliver ≡ none
  pub no_owner_pub : s.first_owner_pub ≡ none

module _ (p : Primitives) (random : ℕ → ℕ → Bytes) where
  -- `onMemberKey`, once the record is found and the public key is open.
  pub on_member_key_lem :
      {role : HsRole} (c : ℕ) (cs key_env : Text) (r : HsRecord) (ke : Ref) (owner_pub : Bytes)
      (s : Session) (cl : Client) (msg : ServerMsg)
      → cl.session ≡ some s
      → lookup (c ∷ cs) s.handshakes ≡ some r
      → r.role ≡ role
      → r.ke ≡ some ke
      → open_under_ke p (read cl.heap ke) key_env ≡ ok owner_pub
      → on_member_key p random
          (record msg { handshake = some (c ∷ cs); data_text = some key_env })
          cl
        ≡ take_peer_pub p random (c ∷ cs) r role owner_pub cl
  unfolding on_member_key on_sealed_pub
  on_member_key_lem c cs key_env r ke owner_pub s cl msg e known joins secret opened = ground arith

  on_key_deliver-known :
      (c : ℕ) (cs env : Text) (r : HsRecord) (owner_pub : Bytes) (s : Session) (cl : Client)
      (msg : ServerMsg)
      → cl.session ≡ some s
      → lookup (c ∷ cs) s.handshakes ≡ some r
      → s.first_owner_pub ≡ some owner_pub
      → on_key_deliver p (record msg { handshake = some (c ∷ cs); data_text = some env }) cl
        ≡ joined p (c ∷ cs) r.ke (open_room_key p (read cl.heap s.private_key) owner_pub env) cl
  unfolding on_key_deliver finish_join
  on_key_deliver-known c cs env r owner_pub s cl msg e known has = ground arith

  on_key_deliver-early :
      (c : ℕ) (cs env : Text) (r : HsRecord) (s : Session) (cl : Client) (msg : ServerMsg)
      → cl.session ≡ some s
      → lookup (c ∷ cs) s.handshakes ≡ some r
      → s.first_owner_pub ≡ none
      → on_key_deliver p (record msg { handshake = some (c ∷ cs); data_text = some env }) cl
        ≡ record cl { session = some (keep_pending p (c ∷ cs) r env s) }
  unfolding on_key_deliver
  on_key_deliver-early c cs env r s cl msg e known has = ground arith

  pub take_peer_pub-alone :
      (hs_id : Text) (r : HsRecord) (owner_pub : Bytes) (s : Session) (cl : Client)
      → cl.session ≡ some s
      → r.pending_key_deliver ≡ none
      → (take_peer_pub p random hs_id r joiner_side owner_pub cl).0
        ≡ record cl { session = some (record s { first_owner_pub = some owner_pub }) }
  unfolding take_peer_pub
  take_peer_pub-alone hs_id r owner_pub s cl e pending = ground arith

  take_peer_pub-pending :
      (hs_id : Text) (d : ℕ) (env : Text) (r : HsRecord) (owner_pub : Bytes) (s : Session)
      (cl : Client)
      → cl.session ≡ some s
      → r.pending_key_deliver ≡ some (d ∷ env)
      → (take_peer_pub p random hs_id r joiner_side owner_pub cl).0
        ≡ joined p hs_id r.ke
            (open_room_key p (read cl.heap s.private_key) owner_pub (d ∷ env))
            (record cl { session = some (record s { first_owner_pub = some owner_pub }) })
  unfolding take_peer_pub finish_join
  take_peer_pub-pending hs_id d env r owner_pub s cl e pending = ground arith

  -- A waiting joiner ends in the same state whichever of the two messages comes first, if the owner's
  -- public key opens under the handshake's secret and the room key's envelope is not empty: whether
  -- it then holds the room key, or cannot open it and is back in the lobby.
  pub on_key_deliver-on_member_key :
      (c : ℕ) (cs : Text) (d : ℕ) (key_env room_env : Text) (r : HsRecord) (ke : Ref)
      (owner_pub : Bytes) (s : Session) (cl : Client) (key_msg room_msg : ServerMsg)
      → IsWaiting (c ∷ cs) r ke s cl
      → open_under_ke p (read cl.heap ke) key_env ≡ ok owner_pub
      → let on_key =
          on_member_key p random
            (record key_msg { handshake = some (c ∷ cs); data_text = some key_env }) in
        let on_room =
          on_key_deliver p
            (record room_msg { handshake = some (c ∷ cs); data_text = some (d ∷ room_env) }) in
        on_room (on_key cl).0 ≡ (on_key (on_room cl)).0
  on_key_deliver-on_member_key c cs d key_env room_env r ke owner_pub s cl key_msg room_msg w
        opened =
      let hs_id = c ∷ cs in
      let env = d ∷ room_env in
      let on_key =
        on_member_key p random
          (record key_msg { handshake = some hs_id; data_text = some key_env }) in
      let on_room =
        on_key_deliver p (record room_msg { handshake = some hs_id; data_text = some env }) in
      let found = open_room_key p (read cl.heap s.private_key) owner_pub env in
      let s' = record s { first_owner_pub = some owner_pub } in
      let v = record r { pending_key_deliver = some env } in
      let early = keep_pending p hs_id r env s in
      let key_first : (on_key cl).0 ≡ record cl { session = some s' } =
        ap (λ (x : Client × Result (Unit {0})). x.0)
          (on_member_key_lem c cs key_env r ke owner_pub s cl key_msg w.in_session w.known w.joins
            w.confirmed_secret opened)
        ∙ take_peer_pub-alone hs_id r owner_pub s cl w.in_session w.none_pending in
      let then_room =
        on_key_deliver-known c cs env r owner_pub s' (record cl { session = some s' }) room_msg refl
          w.known refl in
      let room_first : on_room cl ≡ record cl { session = some early } =
        on_key_deliver-early c cs env r s cl room_msg w.in_session w.known w.no_owner_pub in
      let replaced : lookup hs_id early.handshakes ≡ some v =
        ground (arith, lookup-insert hs_id hs_id v s.handshakes, text_eq_refl hs_id) in
      let then_key =
        ap (λ (x : Client × Result (Unit {0})). x.0)
          (on_member_key_lem c cs key_env v ke owner_pub early (record cl { session = some early })
            key_msg refl replaced w.joins w.confirmed_secret opened)
        ∙ take_peer_pub-pending hs_id d room_env v owner_pub early
            (record cl { session = some early }) refl refl in
      ap on_room key_first
      ∙ then_room
      ∙ sym (joined-insert p hs_id r.ke found r v s' cl w.known refl)
      ∙ sym then_key
      ∙ ap (λ x. (on_key x).0) (sym room_first)
