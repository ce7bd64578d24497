-- ===== src/Client/Handshaking/Onward.antt =====
-- What a handshake's callbacks leave alone in a session, and the public keys that they send.
use e2eanon.Prelude.{
  ℕ, ◌≡◌, refl, ap, sym, ◌∙◌, List, [], ◌∷◌, ◌++◌, append_assoc, Bool-cases, Option, none, some,
  Text, text_eq, text_eq_refl, text_eq_iff, lookup, insert, Option-cases, inl, inr, arith, subst,
}
use mathlib.Core.Option.{some-injective}
use e2eanon.Crypto.Base64url.{Bytes}
use e2eanon.Crypto.Primitives.{Primitives}
use e2eanon.Crypto.Envelope.{nonce_len}
use e2eanon.Crypto.KeyExchange.{seal_under_ke}
use e2eanon.Protocol.{ClientMsg}
use e2eanon.Client.State.{opened, HsRecord, Session, Client}
use e2eanon.Client.Membership.{send, handshake_of}

-- The sealed public keys among the messages that a client has sent.
abbrev pub member_keys_in : List ClientMsg → List Text
member_keys_in [] = []
member_keys_in (ClientMsg.member_key id d ∷ ms) = d ∷ member_keys_in ms
member_keys_in (_ ∷ ms) = member_keys_in ms

pub member_keys_in-append :
    (ms ns : List ClientMsg) → member_keys_in (ms ++ ns) ≡ member_keys_in ms ++ member_keys_in ns
member_keys_in-append [] ns = refl
member_keys_in-append (ClientMsg.member_key id d ∷ ms) ns =
    ap (λ ds. d ∷ ds) (member_keys_in-append ms ns)
member_keys_in-append (_ ∷ ms) ns = member_keys_in-append ms ns

-- The keys of a session are those of another.
pub record HasKeysOf (s s' : Session) : Type 0 where
  pub same_keys : s'.keys ≡ s.keys
  pub same_private : s'.private_key ≡ s.private_key
  pub same_public : s'.public_key ≡ s.public_key

pub HasKeysOf-trans : {a b c : Session} → HasKeysOf a b → HasKeysOf b c → HasKeysOf a c
HasKeysOf-trans x y = record {
  same_keys = y.same_keys ∙ x.same_keys;
  same_private = y.same_private ∙ x.same_private;
  same_public = y.same_public ∙ x.same_public;
}

module _ (p : Primitives) (random : ℕ → ℕ → Bytes) where
  -- The public key, sealed under this secret with a nonce that was drawn.
  abbrev pub IsSealed : Bytes → Bytes → Text → Type 0
  IsSealed public_key ke env = (n : ℕ) × (env ≡ seal_under_ke p ke (random n nonce_len) public_key)

  abbrev pub AreSealed : Bytes → List Bytes → List Text → Type 0
  AreSealed public_key [] [] = Unit
  AreSealed public_key (ke ∷ kes) (env ∷ envs) =
      IsSealed public_key ke env × AreSealed public_key kes envs
  AreSealed public_key _ _ = ⊥

  AreSealed-append :
      (public_key : Bytes) (kes : List Bytes) (envs : List Text) (kes' : List Bytes)
      (envs' : List Text)
      → AreSealed public_key kes envs
      → AreSealed public_key kes' envs'
      → AreSealed public_key (kes ++ kes') (envs ++ envs')
  AreSealed-append k [] [] kes' envs' h h' = h'
  AreSealed-append k (ke ∷ kes) (env ∷ envs) kes' envs' (a, h) h' =
      (a, AreSealed-append k kes envs kes' envs' h h')
  AreSealed-append k [] (env ∷ envs) kes' envs' h h' = elim h [ ]
  AreSealed-append k (ke ∷ kes) [] kes' envs' h h' = elim h [ ]

  -- From one client to the next, in sessions both: the keys are the same, the record of the handshake is
  -- still the one that is found for its joiner, and the public key went out sealed under each secret.
  pub record Onward (hs_id : Text) (joiner : Option Text) (kes : List Bytes) (cl cl' : Client)
      : Type 0 where
    pub kept : (s s' : Session) → cl.session ≡ some s → cl'.session ≡ some s' → HasKeysOf s s'
    pub asked :
        (s s' : Session) (id : Text)
        → cl.session ≡ some s
        → cl'.session ≡ some s'
        → joiner ≡ some id
        → handshake_of p random id s.handshakes ≡ some hs_id
        → handshake_of p random id s'.handshakes ≡ some hs_id
    pub told :
        (s : Session)
        → cl.session ≡ some s
        → (envs : List Text) × (member_keys_in cl'.sent ≡ member_keys_in cl.sent ++ envs)
          × AreSealed s.public_key kes envs

  pub Onward-trans :
      {hs_id : Text} {joiner : Option Text} {kes kes' : List Bytes} (a b c : Client) (mid : Session)
      → b.session ≡ some mid
      → Onward hs_id joiner kes a b
      → Onward hs_id joiner kes' b c
      → Onward hs_id joiner (kes ++ kes') a c
  Onward-trans {kes} {kes'} a b c mid e x y = record {
    kept = λ s s' es es'. HasKeysOf-trans (x.kept s mid es e) (y.kept mid s' e es');
    asked = λ s s' id es es' ej h. y.asked mid s' id e es' ej (x.asked s mid id es e ej h);
    told = λ s es.
        let (envs, out, sealed) = x.told s es in
        let (envs', out', sealed') = y.told mid e in
        (
          envs ++ envs',
          out' ∙ ap (λ ms. ms ++ envs') out ∙ append_assoc (member_keys_in a.sent) envs envs',
          AreSealed-append s.public_key kes envs kes' envs' sealed
              (subst (λ k. AreSealed k kes' envs') (x.kept s mid es e).same_public sealed'),
        );
  }

  pub Onward-intro :
      {hs_id : Text} {joiner : Option Text} {kes : List Bytes} (cl cl' : Client) (s0 s1 : Session)
      (envs : List Text)
      → cl.session ≡ some s0
      → cl'.session ≡ some s1
      → HasKeysOf s0 s1
      → ((id : Text)
          → joiner ≡ some id
          → handshake_of p random id s0.handshakes ≡ some hs_id
          → handshake_of p random id s1.handshakes ≡ some hs_id)
      → member_keys_in cl'.sent ≡ member_keys_in cl.sent ++ envs
      → AreSealed s0.public_key kes envs
      → Onward hs_id joiner kes cl cl'
  Onward-intro {hs_id} {joiner} {kes} cl cl' s0 s1 envs e0 e1 keys found out sealed =
      let is0 = λ (s : Session) (es : cl.session ≡ some s). some-injective s0 s (sym e0 ∙ es) in
      let is1 = λ (s : Session) (es : cl'.session ≡ some s). some-injective s1 s (sym e1 ∙ es) in
      record {
        kept = λ s s' es es'.
            subst (λ x. HasKeysOf x s') (is0 s es) (subst (HasKeysOf s0) (is1 s' es') keys);
        asked = λ s s' id es es' ej h.
            subst (λ (x : Session). handshake_of p random id x.handshakes ≡ some hs_id) (is1 s' es')
              (found id ej (
                subst (λ (x : Session). handshake_of p random id x.handshakes ≡ some hs_id)
                  (sym (is0 s es)) h));
        told = λ s es.
            (envs, out, subst (λ (x : Session). AreSealed x.public_key kes envs) (is0 s es) sealed);
      }

  -- Putting another record in the place of the one that is found keeps it the one that is found.
  pub handshake_of-insert :
      (id hs_id : Text) (r r' : HsRecord) (m : List (Text × HsRecord))
      → r'.joiner_member_id ≡ some id
      → lookup hs_id m ≡ some r
      → r.joiner_member_id ≡ some id
      → handshake_of p random id m ≡ some hs_id
      → handshake_of p random id (insert hs_id r' m) ≡ some hs_id
  unfolding handshake_of
  handshake_of-insert id hs_id r r' [] named known old h = cc
  handshake_of-insert id hs_id r r' ((j, w) ∷ m) named known old h =
      let refl_id = text_eq_refl id in
      elim (Bool-cases (text_eq j hs_id)) [
        | inl here ↦ ground (arith, text_eq_iff j hs_id)
        | inr other ↦ elim (Option-cases w.joiner_member_id) [
          | inl unnamed ↦ ground (arith, handshake_of-insert id hs_id r r' m named)
          | inr (i, is) ↦ elim (Bool-cases (text_eq i id)) [
            | inl first ↦ ground (arith, text_eq_iff j hs_id, text_eq_refl hs_id)
            | inr next ↦ ground (arith, handshake_of-insert id hs_id r r' m named)
          ]
        ]
      ]

  -- A record that is stored for a joiner that no record names yet is the one that is found.
  pub handshake_of-insert_new :
      (id hs_id : Text) (r : HsRecord) (m : List (Text × HsRecord))
      → r.joiner_member_id ≡ some id
      → handshake_of p random id m ≡ none
      → handshake_of p random id (insert hs_id r m) ≡ some hs_id
  unfolding handshake_of
  handshake_of-insert_new id hs_id r [] named none_yet = ground (arith, text_eq_refl id)
  handshake_of-insert_new id hs_id r ((j, w) ∷ m) named none_yet =
      let refl_id = text_eq_refl id in
      elim (Option-cases w.joiner_member_id) [
        | inl unnamed ↦
            ground (arith, text_eq_iff j hs_id, handshake_of-insert_new id hs_id r m named)
        | inr (i, is) ↦
            ground (arith, text_eq_iff j hs_id, handshake_of-insert_new id hs_id r m named)
      ]

-- A message that goes out of an open socket.
pub send-member_keys_in :
    (m : ClientMsg) (s : Session) (cl : Client)
    → cl.session ≡ some s
    → s.ws ≡ opened
    → member_keys_in (send m cl).sent ≡ member_keys_in cl.sent ++ member_keys_in (m ∷ [])
unfolding send
send-member_keys_in m s cl e up =
    let same : (send m cl).sent ≡ cl.sent ++ m ∷ [] = ground arith in
    ap member_keys_in same ∙ member_keys_in-append cl.sent (m ∷ [])
