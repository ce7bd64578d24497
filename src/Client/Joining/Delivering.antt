-- ===== src/Client/Joining/Delivering.antt =====
-- The room key on its way from the owner that has just drawn it to the joiner, in web/src/main.ts.
use e2eanon.Prelude.{
  ℕ, suc, ◌<◌, ◌≡◌, refl, ap, sym, subst, ◌∙◌, List, [], ◌∷◌, ◌++◌, append_assoc, All, some, Text,
  insert, lookup, length, Result, ok, err, Error, inl, inr, arith,
}
use e2eanon.Crypto.Base64url.{Bytes}
use e2eanon.Crypto.Primitives.{Primitives, Laws, IsBytes}
use e2eanon.Crypto.Envelope.{key_len, nonce_len}
use e2eanon.Crypto.KeyExchange.{generate_key_pair, open_under_ke}
use e2eanon.Protocol.{ServerMsg, ClientMsg, key_deliver}
use e2eanon.Client.State.{Ref, opened, owner_side, HsRecord, Session, Client, read}
use e2eanon.Client.Keyring.{add_key}
use e2eanon.Client.Keyring.Lifetime.{
  IsRing, keys_after, add_key_lem, add_key-session, add_key-sent, heap_after_newest,
}
use e2eanon.Client.Membership.{send, deliver_key, rotate_for_join}
use e2eanon.Client.Membership.Admission.{rotate_for_join-after, rotate_for_join-recipients}
use e2eanon.Client.Joining.{take_peer_pub, on_member_key, on_key_deliver}
use e2eanon.Client.Joining.Entering.{AreJoining, HasEntered, on_key_deliver-deliver_key}
use e2eanon.Client.Lifecycle.Wiping.{ref_list}
use e2eanon.Client.Joining.Order.{on_member_key_lem}
use e2eanon.Client.Upload.Sent.{IsRandom, send_up}
use e2eanon.Client.Joining.Admitting.{
  HasKeyPair, IsHost, Admits, read-heap_after, take_peer_pub-host,
}

-- A joiner that has the owner's public key and waits for the room key.
pub record IsGuest (p : Primitives) (hs_id : Text) (r : HsRecord) (owner_pub : Bytes) (t : Session)
    (cl : Client) : Type 0 where
  pub in_session : cl.session ≡ some t
  pub up : t.ws ≡ opened
  pub known : lookup hs_id t.handshakes ≡ some r
  pub trusts : t.first_owner_pub ≡ some owner_pub
  pub secret : All (λ k. k < length cl.heap) (ref_list r.ke)
  pub ring : IsRing t.keys cl.heap
  pub pair : HasKeyPair p t cl.heap

module _ (p : Primitives) (laws : Laws p) (random : ℕ → ℕ → Bytes) (good : IsRandom random) where
  clash : (res : Result Bytes) (x : Error) (z : Bytes) → res ≡ err x → res ≡ ok z → ⊥
  clash res x z e e' = ground arith

  -- The owner has rotated in this step: its private key is where it was.
  are_joining :
      (id : Text) (ch : ℕ) (cs : Text) (r rj : HsRecord) (k : Ref) (b : Bytes) (s t : Session)
      (owner joiner : Client)
      → IsHost p random id (ch ∷ cs) r k s owner
      → IsGuest p (ch ∷ cs) rj s.public_key t joiner
      → let s1 = record s { member_pubs = insert id t.public_key s.member_pubs } in
        let cl2 = add_key b (record owner { session = some s1; drawn = suc owner.drawn }) in
        AreJoining p random id ch cs cl2 joiner
          (record s1 { keys = keys_after s.keys owner.heap })
          t
          rj
        × (read cl2.heap s.private_key ≡ read owner.heap s.private_key)
        × (read cl2.heap (length owner.heap) ≡ b)
  are_joining id ch cs r rj k b s t owner joiner host guest =
      let s1 = record s { member_pubs = insert id t.public_key s.member_pubs } in
      let cl1 = record owner { session = some s1; drawn = suc owner.drawn } in
      let heap' = (add_key_lem b s1.keys cl1 (s1, refl, refl)).1 in
      let private =
        ap (λ h. read h s.private_key) heap'
        ∙ read-heap_after b s.keys owner.heap s.private_key host.pair.in_heap host.pair.apart in
      (
        record {
          owner_session = add_key-session b s1 cl1 refl;
          joiner_session = guest.in_session;
          owner_record = host.asked;
          joiner_record = guest.known;
          owner_pub =
              guest.trusts
              ∙ ap some
                  (host.pair.public ∙ ap (λ x. (generate_key_pair p x).public_key) (sym private));
          up = guest.up;
          ring = guest.ring;
          secret = guest.secret;
          length-owner_key = ap length private ∙ host.pair.length-private;
          length-joiner_key = guest.pair.length-private;
        },
        private,
        ap (λ h. read h (length owner.heap)) heap'
            ∙ heap_after_newest b s.keys owner.heap host.ring,
      )

  -- What the rotation sends when the delivery succeeds.
  delivered_first :
      (id hs_id env : Text) (their_pub : Bytes) (s2 : Session) (cl0 : Client) (s1 : Session)
      → cl0.session ≡ some s1
      → let b = random cl0.drawn key_len in
        let cl2 = add_key b (record cl0 { drawn = suc cl0.drawn }) in
        cl2.session ≡ some s2
        → s2.ws ≡ opened
        → deliver_key p random id their_pub (length cl0.heap) cl2
          ≡ (send (key_deliver hs_id env) (record cl2 { drawn = suc cl2.drawn }), ok tt)
        → (others : List ClientMsg) × ((rotate_for_join p random id their_pub cl0).0.sent
            ≡ cl0.sent ++ key_deliver hs_id env ∷ others)
  delivered_first id hs_id env their_pub s2 cl0 s1 e has up delivered =
      let b = random cl0.drawn key_len in
      let cl1 = record cl0 { drawn = suc cl0.drawn } in
      let cl2 = add_key b cl1 in
      let cl3 = record cl2 { drawn = suc cl2.drawn } in
      let m : ClientMsg = key_deliver hs_id env in
      let (others, sent, any) =
        rotate_for_join-after p random id their_pub s1 cl0 (send m cl3) e delivered in
      (
        others,
        sent
            ∙ ap (λ ms. ms ++ others) (send_up m cl3 (record { now = s2; has = has; up = up }))
            ∙ ap (λ ms. (ms ++ m ∷ []) ++ others) (add_key-sent b cl1)
            ∙ append_assoc cl0.sent (m ∷ []) others,
      )

  -- The owner gets the joiner's sealed public key: it draws a room key, which goes to the joiner first
  -- and makes it enter the room.
  pub on_key_deliver-on_member_key_owner :
      (id : Text) (ch : ℕ) (cs key_env : Text) (r rj : HsRecord) (k : Ref) (z : Bytes)
      (s t : Session) (owner joiner : Client) (key_msg room_msg : ServerMsg)
      → IsHost p random id (ch ∷ cs) r k s owner
      → IsGuest p (ch ∷ cs) rj s.public_key t joiner
      → open_under_ke p (read owner.heap k) key_env ≡ ok t.public_key
      → p.x25519_shared_secret (read owner.heap s.private_key) t.public_key ≡ ok z
      → (env : Text) × Admits
          (ch ∷ cs)
          env
          (random owner.drawn key_len)
          s
          owner
          (on_member_key p random
            (record key_msg { handshake = some (ch ∷ cs); data_text = some key_env })
            owner).0
        × HasEntered (ch ∷ cs) rj.ke (random owner.drawn key_len) t joiner (
            on_key_deliver p
              (record room_msg { handshake = some (ch ∷ cs); data_text = some env })
              joiner)
  on_key_deliver-on_member_key_owner id ch cs key_env r rj k z s t owner joiner key_msg room_msg
        host guest opens accepted =
      let hs_id = ch ∷ cs in
      let b = random owner.drawn key_len in
      let s1 = record s { member_pubs = insert id t.public_key s.member_pubs } in
      let cl0 = record owner { session = some s1 } in
      let cl2 = add_key b (record cl0 { drawn = suc owner.drawn }) in
      let n = length owner.heap in
      let (pair, private, fresh) = are_joining id ch cs r rj k b s t owner joiner host guest in
      let theirs = guest.pair.public in
      let same : on_member_key p random
            (record key_msg { handshake = some hs_id; data_text = some key_env }) owner
          ≡ take_peer_pub p random hs_id r owner_side t.public_key owner =
        on_member_key_lem p random ch cs key_env r k t.public_key s owner key_msg host.in_session
          host.known host.hosts host.secret opens in
      let (sends, rotated) =
        rotate_for_join-recipients p random id t.public_key s1 cl0 refl host.ring in
      elim (on_key_deliver-deliver_key p laws random id ch cs n cl2 joiner _ t rj room_msg pair
        (good.enough cl2.drawn nonce_len) (good.bytes cl2.drawn nonce_len)
        (subst IsBytes (sym fresh) (good.bytes owner.drawn key_len))
        (ap length fresh ∙ good.enough owner.drawn key_len)) [
          | inl (x, thrown, refused) ↦ absurd (
              clash _ x z refused (
                ap (p.x25519_shared_secret (read cl2.heap s.private_key)) (sym theirs)
                ∙ ap (λ y. p.x25519_shared_secret y t.public_key) private
                ∙ accepted))
          | inr (env, delivered, entered) ↦ (
            env,
            rw same (
                take_peer_pub-host p random id hs_id r t.public_key s owner env b host.in_session
                  host.names rotated
                  (delivered_first id hs_id env t.public_key
                    (record s1 { keys = keys_after s.keys owner.heap }) cl0 s1 refl
                    (add_key-session b s1 (record cl0 { drawn = suc owner.drawn }) refl) host.up
                    (ap (λ y. deliver_key p random id y n cl2) theirs ∙ delivered))),
            subst
                (λ x. HasEntered hs_id rj.ke x t joiner (
                  on_key_deliver p
                    (record room_msg { handshake = some hs_id; data_text = some env }) joiner))
                fresh entered,
          )
        ]
