-- ===== src/Client/Handshaking/Entry.antt =====
-- An owner and a joiner of web/src/main.ts, from one invite code to one room key.
use e2eanon.Prelude.{
  ℕ, ◌≡◌, refl, ap, sym, ◌∙◌, List, [], ◌∷◌, ◌++◌, Bool, true, false, none, some, Text, ok,
}
use e2eanon.Crypto.Base64url.{Bytes}
use e2eanon.Crypto.Primitives.{Primitives, Laws}
use e2eanon.Crypto.Envelope.{key_len}
use e2eanon.Spake2.Suite.{Curve, Hashes, CurveLaws, HashesLaws}
use e2eanon.Handshake.{
  confirmation, FrameJson, HandshakeSession, Output, send_pake, confirmed, frame, run,
}
use e2eanon.Handshake.Completeness.{create-agree}
use e2eanon.Protocol.{ServerMsg, ClientMsg, key_deliver, enter}
use e2eanon.Client.State.{Session, Client, read}
use e2eanon.Client.Membership.{handshake_of}
use e2eanon.Client.Handshaking.{owner_record, joiner_record, start_as_owner, start_as_joiner}
use e2eanon.Client.Handshaking.Onward.{member_keys_in}
use e2eanon.Client.Handshaking.Records.{pakes_in}
use e2eanon.Client.Handshaking.Callbacks.{on_pakes}
use e2eanon.Client.Handshaking.Starting.{start_as_owner-Started, start_as_joiner-Started}
use e2eanon.Client.Handshaking.Meeting.{IsReady, on_pakes-Secured}
use e2eanon.Client.Joining.{on_member_key, on_key_deliver}
use e2eanon.Client.Upload.Sent.{IsRandom}
use e2eanon.Client.Handshaking.LastMessages.{ShareKey, last_messages}

-- The first payload and the second, or the second before the first.
abbrev pub in_order : Bool → Text → Text → List Text
in_order true first second = first ∷ second ∷ []
in_order false first second = second ∷ first ∷ []

module _ (p : Primitives) (json : FrameJson) (c : Curve) (h : Hashes) (hs : HandshakeSession)
    (os : List Output) where
  either :
      (straight : Bool) (first second : Text)
      → (run p json c h hs (first ∷ second ∷ [])).1 ≡ os
      → (run p json c h hs (second ∷ first ∷ [])).1 ≡ os
      → (run p json c h hs (in_order straight first second)).1 ≡ os
  either true first second e e' = e
  either false first second e e' = e'

module _ (p : Primitives) (laws : Laws p) (random : ℕ → ℕ → Bytes) (good : IsRandom random) where
  module _ (json : FrameJson) (c : Curve) (h : Hashes) (curve_laws : CurveLaws c)
      (hash_laws : HashesLaws h) where
    -- The clients of an owner and a joiner are in sessions with open sockets, ordered key rings and
    -- sound key pairs, and the owner has no handshake with the joiner yet. They start one with one
    -- code and one handshake id, neither throws, and X25519 accepts the joiner's public key. The relay
    -- hands each of the other's messages over: the two payloads, in either order at either side, then
    -- the sealed public key, then the room key. Both then have the random key that the owner drew as
    -- their newest, and the joiner has told the relay that it enters.
    pub on_key_deliver-on_pakes :
        (msg key_msg room_msg : ServerMsg) (straight_o straight_j : Bool) (ch : ℕ)
        (cs code token id self : Text) (z : Bytes) (s t : Session) (owner joiner : Client)
        → IsReady p s owner
        → IsReady p t joiner
        → handshake_of p random id s.handshakes ≡ none
        → (start_as_owner p random json c h token code (ch ∷ cs) id owner).1 ≡ ok tt
        → (start_as_joiner p random json c h self code (ch ∷ cs) joiner).1 ≡ ok tt
        → p.x25519_shared_secret (read owner.heap s.private_key) t.public_key ≡ ok z
        → let gets = on_pakes p random json c h msg ch cs in
          let key_from = λ (e : Text).
            on_member_key p random
              (record key_msg { handshake = some (ch ∷ cs); data_text = some e }) in
          let room_from = λ (e : Text).
            on_key_deliver p (record room_msg { handshake = some (ch ∷ cs); data_text = some e }) in
          (a1 : Text) × (a2 : Text) × (b1 : Text) × (b2 : Text) × (env : Text) × (env' : Text)
          × (room_env : Text) × (others : List ClientMsg) × let o =
                gets
                  (in_order straight_o b1 b2)
                  (start_as_owner p random json c h token code (ch ∷ cs) id owner).0 in
              let j =
                gets
                  (in_order straight_j a1 a2)
                  (start_as_joiner p random json c h self code (ch ∷ cs) joiner).0 in
              (pakes_in o.sent ≡ pakes_in owner.sent ++ a1 ∷ a2 ∷ [])
              × (pakes_in j.sent ≡ pakes_in joiner.sent ++ b1 ∷ b2 ∷ [])
              × (member_keys_in o.sent ≡ member_keys_in owner.sent ++ env ∷ [])
              × (member_keys_in j.sent ≡ member_keys_in joiner.sent ++ env' ∷ [])
              × ((key_from env' o).0.sent ≡ o.sent ++ key_deliver (ch ∷ cs) room_env ∷ others)
              × ((room_from room_env (key_from env j).0).sent ≡ j.sent ++ enter (ch ∷ cs) ∷ [])
              × ShareKey
                  (random o.drawn key_len)
                  (key_from env' o).0
                  (room_from room_env (key_from env j).0)
    on_key_deliver-on_pakes msg key_msg room_msg straight_o straight_j ch cs code token id self z s
          t owner joiner rs rt none_yet fs ft accepted =
        let hs_id = ch ∷ cs in
        let a =
          start_as_owner-Started p random json c h token code hs_id id s owner rs.in_session rs.up
            fs in
        let b =
          start_as_joiner-Started p random json c h self code hs_id t joiner rt.in_session rt.up
            ft in
        let (ra, rb, same_ke, oa, oa', ob, ob') =
          create-agree p laws json c curve_laws h hash_laws code hs_id a.bytes b.bytes a.hs b.hs
            a.payload b.payload a.made b.made in
        let a2 = frame p json confirmation ra.confirm in
        let b2 = frame p json confirmation rb.confirm in
        let (env, x) =
          on_pakes-Secured p random json c h msg ch cs (in_order straight_o b.payload b2)
            (owner_record a.hs id) a.payload a2 ra.ke s owner
            (start_as_owner p random json c h token code hs_id id owner).0 rs a.begun
            (either p json c h a.hs _ straight_o _ _ oa oa') in
        let (env', y) =
          on_pakes-Secured p random json c h msg ch cs (in_order straight_j a.payload a2)
            (joiner_record b.hs) b.payload b2 ra.ke t joiner
            (start_as_joiner p random json c h self code hs_id joiner).0 rt b.begun
            (either p json c h b.hs _ straight_j _ _ ob ob'
              ∙ ap {A = Bytes} {B = List Output} (λ k. send_pake b2 ∷ confirmed k ∷ [])
                  (sym same_ke)) in
        let (room_env, others, delivered, (entered, shared)) =
          last_messages p laws random good ch cs key_msg room_msg id _ _ ra.ke z s t owner joiner _
            _ rs x y refl refl none_yet refl refl accepted in
        (
          a.payload,
          a2,
          b.payload,
          b2,
          env,
          env',
          room_env,
          others,
          (x.handed_out, y.handed_out, x.told, y.told, delivered, entered, shared),
        )
