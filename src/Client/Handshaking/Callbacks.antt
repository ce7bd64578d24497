-- ===== src/Client/Handshaking/Callbacks.antt =====
-- What the callbacks of a handshake do, one call after another, and the payloads that come in.
use e2eanon.Prelude.{
  All-split, ℕ, suc, ◌≡◌, refl, ap, sym, subst, ◌∙◌, List, [], ◌∷◌, ◌++◌, append-nil, All, some,
  Text, length, ok, arith,
}
use e2eanon.Crypto.Base64url.{Bytes}
use e2eanon.Crypto.Primitives.{Primitives}
use e2eanon.Crypto.Envelope.{nonce_len}
use e2eanon.Crypto.KeyExchange.{seal_under_ke}
use e2eanon.Spake2.Suite.{Curve, Hashes}
use e2eanon.Handshake.{FrameJson, Output, send_pake, confirmed, failed, Call, on_data, run}
use e2eanon.Protocol.{ServerMsg, ClientMsg, pake, member_key}
use e2eanon.Client.State.{HsRole, HsRecord, Client}
use e2eanon.Client.Keyring.{allocate}
use e2eanon.Client.Membership.{update, send}
use e2eanon.Client.Membership.Frames.{send-Frames}
use e2eanon.Client.Handshaking.{
  set_record, set_ke, set_hs, on_confirmed, on_output, on_outputs, feed, on_pake,
}
use e2eanon.Client.Handshaking.Records.{
  secrets, payloads, pakes_in, ke_after, Succeeds, HasRecord, Confirmed, HasRecord-Frames,
  HasRecord-set, session-set_record, update-heap, send-pakes_in, Confirmed-trans, update-sent,
  Onward-set, Onward-send,
}
use e2eanon.Client.Handshaking.Onward.{member_keys_in, send-member_keys_in, Onward-trans}

module _ (p : Primitives) (random : ℕ → ℕ → Bytes) where
  on_confirmed-Confirmed :
      (hs_id : Text) (ke : Bytes) (r : HsRecord) (cl : Client)
      → HasRecord hs_id r cl
      → ((on_confirmed p random hs_id ke cl).1 ≡ ok tt)
        × Confirmed p random hs_id r (confirmed ke ∷ []) cl (on_confirmed p random hs_id ke cl).0
  unfolding on_confirmed allocate
  on_confirmed-Confirmed hs_id ke r cl h =
      let k = length cl.heap in
      let cl1 = record cl { heap = cl.heap ++ ke ∷ [] } in
      let here : HasRecord hs_id r cl1 = record {
        now = h.now;
        in_session = h.in_session;
        found = h.found;
        up = h.up;
      } in
      let set = HasRecord-set hs_id (set_ke k) r cl1 here in
      let cl2 = update (set_record hs_id (set_ke k)) cl1 in
      let cl3 = record cl2 { drawn = suc cl2.drawn } in
      let env = seal_under_ke p ke (random cl2.drawn nonce_len) h.now.public_key in
      let m : ClientMsg = member_key hs_id env in
      let frames = send-Frames m cl3 in
      let ready : HasRecord hs_id (set_ke k r) cl3 = record {
        now = set.now;
        in_session = set.in_session;
        found = set.found;
        up = set.up;
      } in
      let e = h.in_session in
      let same : on_confirmed p random hs_id ke cl ≡ (send m cl3, ok tt) = ground arith in
      rw same (
        refl,
        record {
          has = HasRecord-Frames cl3 (send m cl3) frames ready;
          stored = frames.1 ∙ update-heap (set_record hs_id (set_ke k)) cl1;
          handed_out =
              send-pakes_in m set.now cl3 set.in_session set.up
              ∙ ap (λ ms. pakes_in ms ++ []) (update-sent (set_record hs_id (set_ke k)) cl1);
          onward =
              Onward-set p random hs_id (set_ke k) r cl (send m cl3) (ke ∷ []) (env ∷ []) h refl
                (frames.0 ∙ session-set_record hs_id (set_ke k) r cl1 here)
                (send-member_keys_in m set.now cl3 set.in_session set.up
                  ∙ ap (λ ms. member_keys_in ms ++ env ∷ [])
                      (update-sent (set_record hs_id (set_ke k)) cl1))
                ((cl2.drawn, refl), tt);
        },
      )

  on_output-Confirmed :
      (role : HsRole) (hs_id : Text) (o : Output) (r : HsRecord) (cl : Client)
      → HasRecord hs_id r cl
      → Succeeds o
      → ((on_output p random role hs_id o cl).1 ≡ ok tt)
        × Confirmed p random hs_id r (o ∷ []) cl (on_output p random role hs_id o cl).0
  unfolding on_output
  on_output-Confirmed role hs_id (send_pake d) r cl h good =
      let frames = send-Frames (pake hs_id d) cl in
      (
        refl,
        record {
          has = HasRecord-Frames cl (send (pake hs_id d) cl) frames h;
          stored = frames.1 ∙ sym (append-nil cl.heap);
          handed_out = send-pakes_in (pake hs_id d) h.now cl h.in_session h.up;
          onward =
              Onward-send p random hs_id r cl (send (pake hs_id d) cl) h frames.0
                (send-member_keys_in (pake hs_id d) h.now cl h.in_session h.up);
        },
      )
  on_output-Confirmed role hs_id (confirmed ke) r cl h good = on_confirmed-Confirmed hs_id ke r cl h
  on_output-Confirmed role hs_id failed r cl h good = elim good [ ]

  on_outputs-Confirmed :
      (role : HsRole) (hs_id : Text) (os : List Output) (r : HsRecord) (cl : Client)
      → HasRecord hs_id r cl
      → All Succeeds os
      → ((on_outputs p random role hs_id os cl).1 ≡ ok tt)
        × Confirmed p random hs_id r os cl (on_outputs p random role hs_id os cl).0
  unfolding on_outputs
  on_outputs-Confirmed role hs_id [] r cl h good = (
    refl,
    record {
      has = h;
      stored = sym (append-nil cl.heap);
      handed_out = sym (append-nil (pakes_in cl.sent));
      onward =
          Onward-send p random hs_id r cl cl h refl (sym (append-nil (member_keys_in cl.sent)));
    },
  )
  on_outputs-Confirmed role hs_id (o ∷ os) r cl h (good, goods) =
      let (fine, first) = on_output-Confirmed role hs_id o r cl h good in
      let cl1 = (on_output p random role hs_id o cl).0 in
      let r1 = record r { ke = ke_after (length cl.heap) (secrets (o ∷ [])) r.ke } in
      let (well, rest) = on_outputs-Confirmed role hs_id os r1 cl1 first.has goods in
      let same : on_outputs p random role hs_id (o ∷ os) cl
          ≡ on_outputs p random role hs_id os cl1 =
        ground arith in
      rw same (
        well,
        Confirmed-trans (o ∷ []) os cl cl1 (on_outputs p random role hs_id os cl1).0 first.has.now
            first.has.in_session first.onward first.stored first.handed_out rest,
      )

  -- A call of the handshake object whose outputs do not fail.
  feed-Confirmed :
      (hs_id : Text) (call : Call) (r : HsRecord) (cl : Client)
      → HasRecord hs_id r cl
      → All Succeeds call.outputs
      → Confirmed p random hs_id
          (set_hs call.session r)
          call.outputs
          cl
          (feed p random hs_id r call cl).0
  unfolding feed
  feed-Confirmed hs_id call r cl h good =
      let cl1 = update (set_record hs_id (set_hs call.session)) cl in
      let set = HasRecord-set hs_id (set_hs call.session) r cl h in
      let (fine, done) =
        on_outputs-Confirmed r.role hs_id call.outputs (set_hs call.session r) cl1 set good in
      let cl2 = (on_outputs p random r.role hs_id call.outputs cl1).0 in
      let same : (feed p random hs_id r call cl).0 ≡ cl2 = ground arith in
      let heap = update-heap (set_record hs_id (set_hs call.session)) cl in
      rw same record {
        has =
            subst
              (λ n.
                HasRecord hs_id
                  (record r { hs = call.session; ke = ke_after n (secrets call.outputs) r.ke }) cl2)
              (ap length heap) done.has;
        stored = done.stored ∙ ap (λ h. h ++ secrets call.outputs) heap;
        handed_out =
            done.handed_out
            ∙ ap (λ ms. pakes_in ms ++ payloads call.outputs)
                (update-sent (set_record hs_id (set_hs call.session)) cl);
        onward =
            Onward-trans p random cl cl1 cl2 set.now set.in_session
              (Onward-set p random hs_id (set_hs call.session) r cl cl1 [] [] h refl
                (session-set_record hs_id (set_hs call.session) r cl h)
                (ap member_keys_in (update-sent (set_record hs_id (set_hs call.session)) cl)
                  ∙ sym (append-nil (member_keys_in cl.sent)))
                tt)
              done.onward;
      }

  module _ (json : FrameJson) (c : Curve) (h : Hashes) (msg : ServerMsg) (ch : ℕ) (cs : Text) where
    abbrev pub hs_id : Text
    hs_id = ch ∷ cs

    on_pake-Confirmed :
        (d : Text) (r : HsRecord) (cl : Client)
        → HasRecord hs_id r cl
        → All Succeeds (on_data p json c h r.hs d).outputs
        → Confirmed p random hs_id
            (set_hs (on_data p json c h r.hs d).session r)
            (on_data p json c h r.hs d).outputs
            cl
            (on_pake p random json c h
              (record msg { handshake = some hs_id; data_text = some d })
              cl).0
    unfolding on_pake
    on_pake-Confirmed d r cl has good =
        let e = has.in_session in
        let known = has.found in
        let call = on_data p json c h r.hs d in
        let same : on_pake p random json c h
              (record msg { handshake = some hs_id; data_text = some d }) cl
            ≡ feed p random hs_id r call cl =
          ground arith in
        rw same (feed-Confirmed hs_id call r cl has good)

    -- One payload after another, each in a message of its own.
    pub on_pakes : List Text → Client → Client
    on_pakes [] cl = cl
    on_pakes (d ∷ ds) cl =
        on_pakes ds
          (on_pake p random json c h (record msg { handshake = some hs_id; data_text = some d })
            cl).0

    pub on_pakes-Confirmed :
        (ds : List Text) (r : HsRecord) (cl : Client)
        → HasRecord hs_id r cl
        → All Succeeds (run p json c h r.hs ds).1
        → Confirmed p random hs_id
            (set_hs (run p json c h r.hs ds).0 r)
            (run p json c h r.hs ds).1
            cl
            (on_pakes ds cl)
    unfolding on_pakes run
    on_pakes-Confirmed [] r cl has good = record {
      has = has;
      stored = sym (append-nil cl.heap);
      handed_out = sym (append-nil (pakes_in cl.sent));
      onward =
          Onward-send p random hs_id r cl cl has refl (sym (append-nil (member_keys_in cl.sent)));
    }
    on_pakes-Confirmed (d ∷ ds) r cl has good =
        let call = on_data p json c h r.hs d in
        let (rest_hs, rest) = run p json c h call.session ds in
        let (now, later) = All-split Succeeds call.outputs rest good in
        let cl1 =
          (on_pake p random json c h (record msg { handshake = some hs_id; data_text = some d })
            cl).0 in
        let first = on_pake-Confirmed d r cl has now in
        let r1 = record (set_hs call.session r) {
          ke = ke_after (length cl.heap) (secrets call.outputs) r.ke;
        } in
        let after_first = on_pakes-Confirmed ds r1 cl1 first.has later in
        Confirmed-trans call.outputs rest cl cl1 (on_pakes ds cl1) first.has.now
          first.has.in_session first.onward first.stored first.handed_out after_first
