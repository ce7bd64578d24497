-- ===== src/Client/Handshaking/Meeting.antt =====
-- A whole join between two clients of web/src/main.ts: from the start of the handshake at either side to
-- the joiner's first room key.
use e2eanon.Prelude.{
  ℕ, ◌<◌, ◌≡◌, refl, ap, sym, subst, ◌∙◌, List, [], ◌∷◌, ◌++◌, append_assoc, All, All-map, none,
  some, Text, lookup, length, length-append, arith,
}
use e2eanon.Crypto.Base64url.{Bytes}
use e2eanon.Crypto.Primitives.{Primitives, IsBytes}
use e2eanon.Crypto.KeyExchange.{generate_key_pair}
use e2eanon.Spake2.Suite.{Curve, Hashes}
use e2eanon.Handshake.{FrameJson, send_pake, confirmed, run}
use e2eanon.Protocol.{ServerMsg}
use e2eanon.Client.State.{Ref, opened, HsRecord, Session, Client, read}
use e2eanon.Client.Keyring.Heap.{Differs, read-append}
use e2eanon.Client.Keyring.Lifetime.{IsRing}
use e2eanon.Client.Membership.{handshake_of}
use e2eanon.Client.Handshaking.Onward.{
  HasKeysOf, HasKeysOf-trans, member_keys_in, IsSealed, AreSealed,
}
use e2eanon.Client.Handshaking.Records.{Succeeds, secrets, payloads, pakes_in, ke_after}
use e2eanon.Client.Handshaking.Callbacks.{on_pakes, on_pakes-Confirmed}
use e2eanon.Client.Handshaking.Starting.{Begun}
use e2eanon.Client.Joining.Admitting.{HasKeyPair}

-- In this session, with an open socket, an ordered key ring and a key pair.
pub record IsReady (p : Primitives) (s : Session) (cl : Client) : Type 0 where
  pub in_session : cl.session ≡ some s
  pub up : s.ws ≡ opened
  pub ring : IsRing s.keys cl.heap
  pub pair : HasKeyPair p s cl.heap

-- The handshake is over at this side: the record holds the secret, and the public key of before went
-- out sealed under it.
pub record Secured (p : Primitives) (random : ℕ → ℕ → Bytes) (hs_id first payload env : Text)
    (r : HsRecord) (ke : Bytes) (s : Session) (before after : Client) : Type 0 where
  pub now : Session
  pub ready : IsReady p now after
  pub found : lookup hs_id now.handshakes ≡ some (record r { ke = some (length before.heap) })
  pub stored : after.heap ≡ before.heap ++ ke ∷ []
  pub same_keys : HasKeysOf s now
  pub handed_out : pakes_in after.sent ≡ pakes_in before.sent ++ first ∷ payload ∷ []
  pub told : member_keys_in after.sent ≡ member_keys_in before.sent ++ env ∷ []
  pub sealed : IsSealed p random s.public_key ke env
  pub asked :
      (id : Text)
      → r.joiner_member_id ≡ some id
      → handshake_of p random id s.handshakes ≡ none
      → handshake_of p random id now.handshakes ≡ some hs_id

IsRing-append :
    (b : Bytes) (keys : List Ref) (heap : List Bytes)
    → IsRing keys heap
    → IsRing keys (heap ++ b ∷ [])
IsRing-append b keys heap ring = record {
  bounded = ring.bounded;
  in_heap = All-map _ _ keys (λ k lt. omega (arith, length-append heap (b ∷ []))) ring.in_heap;
  distinct = ring.distinct;
}

-- One more buffer, and the keys of the session stay.
IsReady-append :
    (p : Primitives) (ke : Bytes) (s now : Session) (before after : Client)
    → IsReady p s before
    → HasKeysOf s now
    → after.session ≡ some now
    → now.ws ≡ opened
    → after.heap ≡ before.heap ++ ke ∷ []
    → IsReady p now after
IsReady-append p ke s now before after ready keys e up heap =
    let there = ready.pair.in_heap in
    let private =
      ap (read after.heap) keys.same_private
      ∙ ap (λ h. read h s.private_key) heap
      ∙ read-append before.heap ke s.private_key there in
    let size = ap length heap ∙ length-append before.heap (ke ∷ []) in
    record {
      in_session = e;
      up = up;
      ring =
          subst (λ h. IsRing now.keys h) (sym heap)
            (subst (λ ks. IsRing ks (before.heap ++ ke ∷ [])) (sym keys.same_keys)
              (IsRing-append ke s.keys before.heap ready.ring));
      pair = record {
        in_heap = subst (λ k. k < length after.heap) (sym keys.same_private) (omega (arith, size));
        apart =
            subst (λ k. All (Differs k) now.keys) (sym keys.same_private)
              (subst (All (Differs s.private_key)) (sym keys.same_keys) ready.pair.apart);
        length-private = ap length private ∙ ready.pair.length-private;
        public =
            keys.same_public
            ∙ ready.pair.public
            ∙ ap (λ b. (generate_key_pair p b).public_key) (sym private);
        bytes = subst IsBytes (sym keys.same_public) ready.pair.bytes;
      };
    }

module _ (p : Primitives) (random : ℕ → ℕ → Bytes) where
  -- One secret came out: one public key went out.
  one_env :
      (public_key ke : Bytes) (envs : List Text)
      → AreSealed p random public_key (ke ∷ []) envs
      → (env : Text) × (envs ≡ env ∷ []) × IsSealed p random public_key ke env
  one_env public_key ke [] h = elim h [ ]
  one_env public_key ke (env ∷ []) (h, k) = (env, refl, h)
  one_env public_key ke (env ∷ e ∷ envs) (h, k) = elim k [ ]

  module _ (json : FrameJson) (c : Curve) (h : Hashes) (msg : ServerMsg) (ch : ℕ) (cs : Text) where
    -- A started handshake whose payloads confirm a secret.
    pub on_pakes-Secured :
        (ds : List Text) (r : HsRecord) (first payload : Text) (ke : Bytes) (s : Session)
        (before cl : Client)
        → IsReady p s before
        → Begun p random (ch ∷ cs) r first s before cl
        → (run p json c h r.hs ds).1 ≡ send_pake payload ∷ confirmed ke ∷ []
        → (env : Text) × Secured p random
            (ch ∷ cs)
            first
            payload
            env
            (record r { hs = (run p json c h r.hs ds).0 })
            ke
            s
            before
            (on_pakes p random json c h msg ch cs ds cl)
    on_pakes-Secured ds r first payload ke s before cl ready begun e =
        let after = on_pakes p random json c h msg ch cs ds cl in
        let good : All Succeeds (run p json c h r.hs ds).1 =
          subst (All Succeeds) (sym e) (tt, (tt, tt)) in
        let done = on_pakes-Confirmed p random json c h msg ch cs ds r cl begun.has good in
        let s0 = begun.has.now in
        let now = done.has.now in
        let keys =
          HasKeysOf-trans begun.same_keys
            (done.onward.kept s0 now begun.has.in_session done.has.in_session) in
        let stored =
          done.stored ∙ ap (λ o. cl.heap ++ secrets o) e ∙ ap (λ m. m ++ ke ∷ []) begun.same_heap in
        let (envs, out, all_sealed) = done.onward.told s0 begun.has.in_session in
        let (env, one, sealed) =
          one_env s0.public_key ke envs
            (subst (λ o. AreSealed p random s0.public_key (secrets o) envs) e all_sealed) in
        (
          env,
          record {
            now = now;
            ready =
                IsReady-append p ke s now before after ready keys done.has.in_session done.has.up
                  stored;
            found =
                done.has.found
                ∙ ap (λ k. some (record r { hs = (run p json c h r.hs ds).0; ke = k }))
                    (ap (λ o. ke_after (length cl.heap) (secrets o) r.ke) e
                      ∙ ap (λ m. some (length m)) begun.same_heap);
            stored = stored;
            same_keys = keys;
            handed_out =
                done.handed_out
                ∙ ap (λ o. pakes_in cl.sent ++ payloads o) e
                ∙ ap (λ ms. ms ++ payload ∷ []) begun.handed_out
                ∙ append_assoc (pakes_in before.sent) (first ∷ []) (payload ∷ []);
            told =
                out
                ∙ ap (λ ms. member_keys_in cl.sent ++ ms) one
                ∙ ap (λ ms. ms ++ env ∷ []) begun.untold;
            sealed = subst (λ k. IsSealed p random k ke env) begun.same_keys.same_public sealed;
            asked = λ id named none_yet.
                done.onward.asked s0 now id begun.has.in_session done.has.in_session named
                  (begun.asked id named none_yet);
          },
        )
