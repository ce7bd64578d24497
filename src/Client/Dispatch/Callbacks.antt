-- ===== src/Client/Dispatch/Callbacks.antt =====
-- The handshake's start and its callbacks keep the keys in order.
use e2eanon.Prelude.{
  ℕ, suc, ◌+◌, ◌<◌, ◌≡◌, refl, List, [], ◌∷◌, true, none, Text, lookup, erase, insert, length,
  length-append, ok, arith,
}
use e2eanon.Crypto.Base64url.{Bytes}
use e2eanon.Crypto.Primitives.{Primitives}
use e2eanon.Crypto.Envelope.{nonce_len}
use e2eanon.Crypto.KeyExchange.{seal_under_ke}
use e2eanon.Spake2.Suite.{Curve, Hashes}
use e2eanon.Spake2.Exchange.{party_a, party_b, scalar_bytes}
use e2eanon.Handshake.{FrameJson, Output, send_pake, confirmed, failed, Call, create, on_data}
use e2eanon.Protocol.{ServerMsg, pake, member_key}
use e2eanon.Client.State.{HsRole, owner_side, joiner_side, HsRecord, Session, Client}
use e2eanon.Client.Keyring.{allocate}
use e2eanon.Client.Membership.{update, given, or_empty, send}
use e2eanon.Client.Invites.{Web, build_invite_link, code_len, generate_code}
use e2eanon.Client.Handshaking.{
  establishing, set_record, set_ke, set_hs, thrown_result, owner_record, joiner_record,
  begin_handshake, on_confirmed, on_fail, on_output, on_outputs, feed, on_invite_created,
  start_as_owner, redeemed, on_invite_redeemed, start_as_joiner, on_redeem_ok, on_pake,
}
use e2eanon.Client.Dispatch.Invariant.{
  IsSafe, IsKeyed, on_option, on_result, spare_IsSafe, IsKeyed-session, send-IsKeyed,
  update-IsKeyed, allocate-IsKeyed, teardown-IsKeyed, >>-IsKeyed,
}
use e2eanon.Client.Dispatch.Members.{EndsKeyed}
use e2eanon.Client.Dispatch.Handshakes.{Holds, end_handshake-IsSafe, store_IsSafe, lookup-Holds}

set_record-IsSafe :
    (hs_id : Text) (f : HsRecord → HsRecord) (s : Session) (heap : List Bytes)
    → ((r : HsRecord) → Holds heap r → Holds heap (f r))
    → IsSafe s heap
    → IsSafe (set_record hs_id f s) heap
set_record-IsSafe hs_id f s heap k h =
    on_option (λ s'. IsSafe s' heap) (lookup hs_id s.handshakes) s _ h
      (λ r e. store_IsSafe hs_id (f r) s heap (k r (lookup-Holds hs_id r s heap e h)) h)

begin_handshake-IsKeyed :
    (hs_id : Text) (r : HsRecord) (payload : Text) (cl : Client)
    → r.ke ≡ none
    → IsKeyed cl
    → IsKeyed (begin_handshake hs_id r payload cl)
begin_handshake-IsKeyed hs_id r payload cl e h =
    let cl' = send (pake hs_id payload) cl in
    update-IsKeyed (λ s. record s { handshakes = insert hs_id r s.handshakes }) cl'
      (λ s. store_IsSafe hs_id r s cl'.heap (rw e tt)) (send-IsKeyed (pake hs_id payload) cl h)

module _ (p : Primitives) (random : ℕ → ℕ → Bytes) where
  on_confirmed-IsKeyed :
      (hs_id : Text) (ke : Bytes) (cl : Client)
      → IsKeyed cl
      → IsKeyed (on_confirmed p random hs_id ke cl).0
  unfolding on_confirmed allocate
  on_confirmed-IsKeyed hs_id ke cl h = on_option EndsKeyed cl.session _ _ h (λ s _.
      let (k, cl1) = allocate ke cl in
      let there : k < length cl1.heap = omega (arith, length-append cl.heap (ke ∷ [])) in
      let cl2 = update (set_record hs_id (set_ke k)) cl1 in
      let kept : IsKeyed cl2 =
        update-IsKeyed (set_record hs_id (set_ke k)) cl1
          (λ x. set_record-IsSafe hs_id (set_ke k) x cl1.heap (λ r _. (there, tt)))
          (allocate-IsKeyed ke cl h) in
      let nonce = random cl2.drawn nonce_len in
      send-IsKeyed (member_key hs_id (seal_under_ke p ke nonce s.public_key))
        (record cl2 { drawn = suc cl2.drawn }) kept)

  on_fail-IsKeyed :
      (role : HsRole) (hs_id : Text) (cl : Client)
      → IsKeyed cl
      → IsKeyed (on_fail p random role hs_id cl).0
  unfolding on_fail
  on_fail-IsKeyed owner_side hs_id cl h =
      on_option EndsKeyed cl.session _ _ h
        (λ s e. end_handshake-IsSafe hs_id s cl.heap (IsKeyed-session s cl e h))
  on_fail-IsKeyed joiner_side hs_id cl h = teardown-IsKeyed true _

  on_outputs-IsKeyed :
      (role : HsRole) (hs_id : Text) (os : List Output) (cl : Client)
      → IsKeyed cl
      → IsKeyed (on_outputs p random role hs_id os cl).0
  unfolding on_outputs on_output
  on_outputs-IsKeyed role hs_id [] cl h = h
  on_outputs-IsKeyed role hs_id (o ∷ os) cl h =
      >>-IsKeyed (on_output p random role hs_id o) (on_outputs p random role hs_id os) cl (first o)
        (on_outputs-IsKeyed role hs_id os)
    where
      first : (o : Output) → IsKeyed (on_output p random role hs_id o cl).0
      first (send_pake payload) = send-IsKeyed (pake hs_id payload) cl h
      first (confirmed ke) = on_confirmed-IsKeyed hs_id ke cl h
      first failed = on_fail-IsKeyed role hs_id cl h

  feed-IsKeyed :
      (hs_id : Text) (r : HsRecord) (call : Call) (cl : Client)
      → IsKeyed cl
      → IsKeyed (feed p random hs_id r call cl).0
  unfolding feed
  feed-IsKeyed hs_id r call cl h =
      let cl' = update (set_record hs_id (set_hs call.session)) cl in
      >>-IsKeyed (on_outputs p random r.role hs_id call.outputs)
        (λ c. (c, thrown_result call.thrown)) cl'
        (on_outputs-IsKeyed r.role hs_id call.outputs cl' (
          update-IsKeyed (set_record hs_id (set_hs call.session)) cl
            (λ s. set_record-IsSafe hs_id (set_hs call.session) s cl.heap (λ x k. k)) h))
        (λ c hc. hc)

  pub on_invite_created-IsKeyed :
      (web : Web) (msg : ServerMsg) (cl : Client)
      → IsKeyed cl
      → IsKeyed (on_invite_created p random web msg cl).0
  unfolding on_invite_created
  on_invite_created-IsKeyed web msg cl h =
      on_option EndsKeyed cl.session (cl, ok tt) _ h
        (λ s e.
          on_option EndsKeyed (given msg.token) (cl, ok tt) _ h
            (λ token _.
              let code = generate_code (random cl.drawn code_len) in
              let s' = record s { pending_invites = insert token code s.pending_invites } in
              let safe = spare_IsSafe s s' cl.heap refl refl refl (IsKeyed-session s cl e h) in
              on_result EndsKeyed (build_invite_link web token code) _ _ (λ x. safe)
                (λ link _. safe)))

  module _ (json : FrameJson) (c : Curve) (h : Hashes) where
    start_as_owner-IsKeyed :
        (token code hs_id joiner : Text) (cl : Client)
        → IsKeyed cl
        → IsKeyed (start_as_owner p random json c h token code hs_id joiner cl).0
    unfolding start_as_owner
    start_as_owner-IsKeyed token code hs_id joiner cl k =
        let f = λ (s : Session). record s { pending_invites = erase token s.pending_invites } in
        let cl0 = update f cl in
        let cl1 = record cl0 { drawn = suc cl0.drawn } in
        let kept : IsKeyed cl1 =
          update-IsKeyed f cl (λ s. spare_IsSafe s (f s) cl.heap refl refl refl) k in
        on_result EndsKeyed
          (create p json c h party_a code hs_id (random cl0.drawn (scalar_bytes + 16))) _ _
          (λ x. kept)
          (λ made _.
            begin_handshake-IsKeyed hs_id (owner_record made.0 joiner) made.1 cl1 refl kept)

    pub on_invite_redeemed-IsKeyed :
        (msg : ServerMsg) (cl : Client)
        → IsKeyed cl
        → IsKeyed (on_invite_redeemed p random json c h msg cl).0
    unfolding on_invite_redeemed redeemed
    on_invite_redeemed-IsKeyed msg cl k =
        on_option EndsKeyed cl.session (cl, ok tt) _ k
          (λ s _.
            on_option EndsKeyed (given msg.handshake) (cl, ok tt) _ k
              (λ hs_id _.
                on_option EndsKeyed (given msg.token) (cl, ok tt) _ k
                  (λ token _.
                    on_option EndsKeyed (given msg.member_id) (cl, ok tt) _ k
                      (λ joiner _.
                        on_option EndsKeyed (given (lookup token s.pending_invites)) (cl, ok tt) _ k
                          (λ code _. start_as_owner-IsKeyed token code hs_id joiner cl k)))))

    start_as_joiner-IsKeyed :
        (self code hs_id : Text) (cl : Client)
        → IsKeyed cl
        → IsKeyed (start_as_joiner p random json c h self code hs_id cl).0
    unfolding start_as_joiner
    start_as_joiner-IsKeyed self code hs_id cl k =
        let f = λ (s : Session). record s { member_id = self } in
        let cl0 = record (update f cl) {
          pending_join = none;
          view = record cl.view { lobby_status = establishing };
        } in
        let cl1 = record cl0 { drawn = suc cl0.drawn } in
        let kept : IsKeyed cl1 =
          update-IsKeyed f cl (λ s. spare_IsSafe s (f s) cl.heap refl refl refl) k in
        on_result EndsKeyed
          (create p json c h party_b code hs_id (random cl0.drawn (scalar_bytes + 16))) _ _
          (λ x. kept)
          (λ made _. begin_handshake-IsKeyed hs_id (joiner_record made.0) made.1 cl1 refl kept)

    pub on_redeem_ok-IsKeyed :
        (msg : ServerMsg) (cl : Client)
        → IsKeyed cl
        → IsKeyed (on_redeem_ok p random json c h msg cl).0
    unfolding on_redeem_ok
    on_redeem_ok-IsKeyed msg cl k =
        on_option EndsKeyed cl.session (cl, ok tt) _ k
          (λ s _.
            on_option EndsKeyed (given msg.handshake) (cl, ok tt) _ k
              (λ hs_id _.
                on_option EndsKeyed cl.pending_join (cl, ok tt) _ k
                  (λ invite _.
                    start_as_joiner-IsKeyed (or_empty msg.member_id) invite.code hs_id cl k)))

    pub on_pake-IsKeyed :
        (msg : ServerMsg) (cl : Client) → IsKeyed cl → IsKeyed (on_pake p random json c h msg cl).0
    unfolding on_pake
    on_pake-IsKeyed msg cl k =
        on_option EndsKeyed (given msg.handshake) (cl, ok tt) _ k
          (λ hs_id _.
            on_option EndsKeyed msg.data_text (cl, ok tt) _ k
              (λ payload _.
                on_option EndsKeyed cl.session (cl, ok tt) _ k
                  (λ s _.
                    on_option EndsKeyed (lookup hs_id s.handshakes) (cl, ok tt) _ k
                      (λ r _. feed-IsKeyed hs_id r (on_data p json c h r.hs payload) cl k))))
