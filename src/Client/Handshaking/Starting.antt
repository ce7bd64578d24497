-- ===== src/Client/Handshaking/Starting.antt =====
-- What the start of a handshake leaves behind at either side.
use e2eanon.Prelude.{
  ℕ, suc, ◌+◌, ◌≡◌, refl, ap, ◌∙◌, [], ◌∷◌, ◌++◌, append-nil, none, some, Text, text_eq_refl, erase,
  lookup, insert, lookup-insert, ok, Result-cases, inl, inr, arith,
}
use e2eanon.Crypto.Base64url.{Bytes}
use e2eanon.Crypto.Primitives.{Primitives}
use e2eanon.Spake2.Suite.{Curve, Hashes}
use e2eanon.Spake2.Exchange.{Role, party_a, party_b, scalar_bytes}
use e2eanon.Handshake.{FrameJson, HandshakeSession, create}
use e2eanon.Protocol.{pake}
use e2eanon.Client.State.{opened, HsRecord, Session, Client}
use e2eanon.Client.Membership.{update, send, handshake_of}
use e2eanon.Client.Membership.Sending.{update_at}
use e2eanon.Client.Membership.Frames.{send-Frames}
use e2eanon.Client.Handshaking.{
  establishing, owner_record, joiner_record, begin_handshake, start_as_owner, start_as_joiner,
}
use e2eanon.Client.Handshaking.Onward.{
  HasKeysOf, member_keys_in, send-member_keys_in, handshake_of-insert_new,
}
use e2eanon.Client.Handshaking.Records.{HasRecord, pakes_in, send-pakes_in}

-- From one client, in this session, to the next: the record is stored, the payload has gone out, and
-- the rest is as it was.
pub record Begun (p : Primitives) (random : ℕ → ℕ → Bytes) (hs_id : Text) (r : HsRecord)
    (payload : Text) (s : Session) (cl cl' : Client) : Type 0 where
  pub has : HasRecord hs_id r cl'
  pub handed_out : pakes_in cl'.sent ≡ pakes_in cl.sent ++ payload ∷ []
  pub untold : member_keys_in cl'.sent ≡ member_keys_in cl.sent
  pub same_heap : cl'.heap ≡ cl.heap
  pub same_keys : HasKeysOf s has.now
  pub asked :
      (id : Text)
      → r.joiner_member_id ≡ some id
      → handshake_of p random id s.handshakes ≡ none
      → handshake_of p random id has.now.handshakes ≡ some hs_id

-- What a start that has returned leaves behind.
pub record Started (p : Primitives) (random : ℕ → ℕ → Bytes) (json : FrameJson) (c : Curve)
    (h : Hashes) (side : Role) (code hs_id : Text) (record_of : HandshakeSession → HsRecord)
    (s : Session) (cl cl' : Client) : Type 0 where
  pub bytes : Bytes
  pub hs : HandshakeSession
  pub payload : Text
  pub made : create p json c h side code hs_id bytes ≡ ok (hs, payload)
  pub begun : Begun p random hs_id (record_of hs) payload s cl cl'

module _ (p : Primitives) (random : ℕ → ℕ → Bytes) where
  -- The session may have been changed before, its keys and its records aside.
  begin_handshake-Begun :
      (hs_id : Text) (r : HsRecord) (payload : Text) (s s0 : Session) (cl cl0 : Client)
      → cl.session ≡ some s
      → s.ws ≡ opened
      → cl.heap ≡ cl0.heap
      → cl.sent ≡ cl0.sent
      → HasKeysOf s0 s
      → s.handshakes ≡ s0.handshakes
      → Begun p random hs_id r payload s0 cl0 (begin_handshake hs_id r payload cl)
  begin_handshake-Begun hs_id r payload s s0 cl cl0 e up heap out keys records =
      let sent = send (pake hs_id payload) cl in
      let f = λ (x : Session). record x { handshakes = insert hs_id r x.handshakes } in
      let (fs, fh) = send-Frames (pake hs_id payload) cl in
      let e' : sent.session ≡ some s = fs ∙ e in
      let same : begin_handshake hs_id r payload cl ≡ record sent { session = some (f s) } =
        update_at f s sent e' in
      let found : lookup hs_id (f s).handshakes ≡ some r =
        ground (arith, lookup-insert hs_id hs_id r s.handshakes, text_eq_refl hs_id) in
      record {
        has = record {
          now = f s;
          in_session = ap (λ (x : Client). x.session) same;
          found = found;
          up = up;
        };
        handed_out =
            ap (λ (x : Client). pakes_in x.sent) same
            ∙ send-pakes_in (pake hs_id payload) s cl e up
            ∙ ap (λ ms. pakes_in ms ++ payload ∷ []) out;
        untold =
            ap (λ (x : Client). member_keys_in x.sent) same
            ∙ send-member_keys_in (pake hs_id payload) s cl e up
            ∙ append-nil (member_keys_in cl.sent)
            ∙ ap member_keys_in out;
        same_heap = ap (λ (x : Client). x.heap) same ∙ fh ∙ heap;
        same_keys = record {
          same_keys = keys.same_keys;
          same_private = keys.same_private;
          same_public = keys.same_public;
        };
        asked = λ id named none_yet.
            handshake_of-insert_new p random id hs_id r s.handshakes named
              (ap (handshake_of p random id) records ∙ none_yet);
      }

  module _ (json : FrameJson) (c : Curve) (h : Hashes) where
    pub start_as_owner-Started :
        (token code hs_id joiner : Text) (s : Session) (cl : Client)
        → cl.session ≡ some s
        → s.ws ≡ opened
        → (start_as_owner p random json c h token code hs_id joiner cl).1 ≡ ok tt
        → Started p random json c h party_a code hs_id
            (λ hs. owner_record hs joiner)
            s
            cl
            (start_as_owner p random json c h token code hs_id joiner cl).0
    unfolding start_as_owner
    start_as_owner-Started token code hs_id joiner s cl e up fine =
        let f = λ (x : Session). record x { pending_invites = erase token x.pending_invites } in
        let cl0 = update f cl in
        let cl1 = record cl0 { drawn = suc cl0.drawn } in
        let bytes = random cl0.drawn (scalar_bytes + 16) in
        let at = update_at f s cl e in
        elim (Result-cases (create p json c h party_a code hs_id bytes)) [
          | inr (x, thrown) ↦ absurd (ground arith)
          | inl ((hs, payload), made) ↦
              let r = owner_record hs joiner in
              let same : (start_as_owner p random json c h token code hs_id joiner cl).0
                  ≡ begin_handshake hs_id r payload cl1 =
                ground arith in
              rw same record {
                bytes = bytes;
                hs = hs;
                payload = payload;
                made = made;
                begun =
                    begin_handshake-Begun hs_id r payload (f s) s cl1 cl
                      (ap (λ (x : Client). x.session) at) up (ap (λ (x : Client). x.heap) at)
                      (ap (λ (x : Client). x.sent) at)
                      (record { same_keys = refl; same_private = refl; same_public = refl }) refl;
              }
        ]

    pub start_as_joiner-Started :
        (self code hs_id : Text) (s : Session) (cl : Client)
        → cl.session ≡ some s
        → s.ws ≡ opened
        → (start_as_joiner p random json c h self code hs_id cl).1 ≡ ok tt
        → Started p random json c h party_b code hs_id joiner_record s cl
            (start_as_joiner p random json c h self code hs_id cl).0
    unfolding start_as_joiner
    start_as_joiner-Started self code hs_id s cl e up fine =
        let f = λ (x : Session). record x { member_id = self } in
        let cl0 = record (update f cl) {
          pending_join = none;
          view = record cl.view { lobby_status = establishing };
        } in
        let cl1 = record cl0 { drawn = suc cl0.drawn } in
        let bytes = random cl0.drawn (scalar_bytes + 16) in
        let at = update_at f s cl e in
        elim (Result-cases (create p json c h party_b code hs_id bytes)) [
          | inr (x, thrown) ↦ absurd (ground arith)
          | inl ((hs, payload), made) ↦
              let r = joiner_record hs in
              let same : (start_as_joiner p random json c h self code hs_id cl).0
                  ≡ begin_handshake hs_id r payload cl1 =
                ground arith in
              rw same record {
                bytes = bytes;
                hs = hs;
                payload = payload;
                made = made;
                begun =
                    begin_handshake-Begun hs_id r payload (f s) s cl1 cl
                      (ap (λ (x : Client). x.session) at) up (ap (λ (x : Client). x.heap) at)
                      (ap (λ (x : Client). x.sent) at)
                      (record { same_keys = refl; same_private = refl; same_public = refl }) refl;
              }
        ]
