-- ===== src/Client/Membership/Sending.antt =====
-- What a run hands to the socket, step by step.
use e2eanon.Prelude.{
  ℕ, suc, ◌≡◌, refl, ap, sym, ◌∙◌, List, [], ◌∷◌, ◌++◌, append-nil, append_assoc, All, All-append,
  false, some, Text, member, lookup, Result, ok, err, Error, Option-cases, Bool-cases, Result-cases,
  inl, inr, arith, if◌then◌else◌, ◌⊎◌,
}
use e2eanon.Crypto.Base64url.{Bytes}
use e2eanon.Crypto.Primitives.{Primitives}
use e2eanon.Protocol.{ClientMsg, rekey, key_deliver}
use e2eanon.Client.State.{Ref, Session, Client, M, ◌>>◌}
use e2eanon.Client.Keyring.{allocate, push_key}
use e2eanon.Client.Membership.{
  done, update, is_open, send, sealed_to, new_key, rekey_member, rekey_all, handshake_of,
  deliver_key,
}

-- The second client has handed out what the first had, and then messages that satisfy P.
abbrev pub Sends : (ClientMsg → Type 0) → Client → Client → Type 0
Sends P cl cl' = (new : List ClientMsg) × (cl'.sent ≡ cl.sent ++ new) × All P new

pub update_at :
    (f : Session → Session) (s : Session) (cl : Client)
    → cl.session ≡ some s
    → update f cl ≡ record cl { session = some (f s) }
update_at f s cl e = ground arith

-- A run either goes on from where the first part ended, or ends there with what that threw.
pub >>-cases :
    (m k : M (Unit {0})) (cl : Client)
    → (((m cl).1 ≡ ok tt) × ((m >> k) cl ≡ k (m cl).0))
      ⊎ ((x : Error) × ((m cl).1 ≡ err x) × ((m >> k) cl ≡ ((m cl).0, err x)))
>>-cases m k cl = elim (Result-cases (m cl).1) [
  | inl (u, e) ↦ inl (ground arith)
  | inr (x, e) ↦ inr (x, e, ground arith)
]

module _ (p : Primitives) (random : ℕ → ℕ → Bytes) where
  -- Nothing is sent, whether that is an error or not, or the key goes out, sealed for its member.
  pub rekey_member-cases :
      (id : Text) (k : Ref) (cl : Client)
      → ((r : Result (Unit {0})) × (rekey_member p random id k cl ≡ (cl, r)))
        ⊎ ((s : Session) × (their_pub : Bytes) × (env : Text) × (cl.session ≡ some s)
            × (lookup id s.member_pubs ≡ some their_pub)
            × (sealed_to p random s their_pub k cl ≡ ok env)
            × (rekey_member p random id k cl
                ≡ (send (rekey id env) (record cl { drawn = suc cl.drawn }), ok tt)))
  unfolding rekey_member
  rekey_member-cases id k cl = elim (Option-cases cl.session) [
    | inl e ↦ inl (ok tt, ground arith)
    | inr (s, e) ↦ elim (Option-cases (lookup id s.member_pubs)) [
      | inl unknown ↦ inl (ok tt, ground arith)
      | inr (their_pub, known) ↦ elim (Result-cases (sealed_to p random s their_pub k cl)) [
        | inl (env, sealed) ↦ inr (s, their_pub, env, e, known, sealed, ground arith)
        | inr (x, failed) ↦ inl (err x, ground arith)
      ]
    ]
  ]

  pub deliver_key-cases :
      (joiner : Text) (joiner_pub : Bytes) (k : Ref) (cl : Client)
      → ((r : Result (Unit {0})) × (deliver_key p random joiner joiner_pub k cl ≡ (cl, r)))
        ⊎ ((s : Session) × (hs_id : Text) × (env : Text) × (cl.session ≡ some s)
            × (handshake_of p random joiner s.handshakes ≡ some hs_id)
            × (sealed_to p random s joiner_pub k cl ≡ ok env)
            × (deliver_key p random joiner joiner_pub k cl
                ≡ (send (key_deliver hs_id env) (record cl { drawn = suc cl.drawn }), ok tt)))
  unfolding deliver_key
  deliver_key-cases joiner joiner_pub k cl = elim (Option-cases cl.session) [
    | inl e ↦ inl (ok tt, ground arith)
    | inr (s, e) ↦ elim (Option-cases (handshake_of p random joiner s.handshakes)) [
      | inl unknown ↦ inl (ok tt, ground arith)
      | inr ([], found) ↦ inl (ok tt, ground arith)
      | inr (c ∷ hs_id, found) ↦ elim (Result-cases (sealed_to p random s joiner_pub k cl)) [
        | inl (env, sealed) ↦ inr (s, c ∷ hs_id, env, e, found, sealed, ground arith)
        | inr (x, failed) ↦ inl (err x, ground arith)
      ]
    ]
  ]

module _ (P : ClientMsg → Type 0) where
  pub Sends-same : (cl cl' : Client) → cl'.sent ≡ cl.sent → Sends P cl cl'
  Sends-same cl cl' e = ([], e ∙ sym (append-nil cl.sent), tt)

  pub Sends-trans : (a b c : Client) → Sends P a b → Sends P b c → Sends P a c
  Sends-trans a b c (xs, e, h) (ys, f, k) =
      (xs ++ ys, f ∙ ap (λ s. s ++ ys) e ∙ append_assoc a.sent xs ys, All-append P xs ys h k)

  pub send-Sends : (m : ClientMsg) (cl : Client) → P m → Sends P cl (send m cl)
  unfolding send
  send-Sends m cl h = elim (Option-cases cl.session) [
    | inl e ↦ ([], ground (arith, append-nil cl.sent), tt)
    | inr (s, e) ↦ elim (Bool-cases (is_open s.ws)) [
      | inl up ↦ (m ∷ [], ground arith, (h, tt))
      | inr down ↦ ([], ground (arith, append-nil cl.sent), tt)
    ]
  ]

  pub update-sent : (f : Session → Session) (cl : Client) → (update f cl).sent ≡ cl.sent
  update-sent f cl = ground arith

  -- A run that goes on after another, thrown or not.
  pub >>-Sends :
      (m k : M (Unit {0})) (cl : Client)
      → Sends P cl (m cl).0
      → ((c : Client) → Sends P c (k c).0)
      → Sends P cl ((m >> k) cl).0
  >>-Sends m k cl h f = elim (>>-cases m k cl) [
    | inl (e, same) ↦ rw same (Sends-trans cl (m cl).0 (k (m cl).0).0 h (f (m cl).0))
    | inr (x, e, same) ↦ rw same h
  ]

  module _ (p : Primitives) (random : ℕ → ℕ → Bytes) where
    pub rekey_member-Sends :
        (id : Text) (k : Ref) (cl : Client)
        → ((env : Text) → P (rekey id env))
        → Sends P cl (rekey_member p random id k cl).0
    rekey_member-Sends id k cl h = elim (rekey_member-cases p random id k cl) [
      | inl (r, e) ↦ rw e (Sends-same cl cl refl)
      | inr (s, their_pub, env, es, known, sealed, e) ↦
          let cl' = record cl { drawn = suc cl.drawn } in
          rw e (send-Sends (rekey id env) cl' (h env))
    ]

    -- What `deliver_key` may send: the key for the joiner, through its handshake.
    pub deliver_key-Sends :
        (joiner : Text) (joiner_pub : Bytes) (k : Ref) (cl : Client)
        → ((hs_id env : Text) → P (key_deliver hs_id env))
        → Sends P cl (deliver_key p random joiner joiner_pub k cl).0
    deliver_key-Sends joiner joiner_pub k cl h =
        elim (deliver_key-cases p random joiner joiner_pub k cl) [
          | inl (r, e) ↦ rw e (Sends-same cl cl refl)
          | inr (s, hs_id, env, es, found, sealed, e) ↦
              let cl' = record cl { drawn = suc cl.drawn } in
              rw e (send-Sends (key_deliver hs_id env) cl' (h hs_id env))
        ]

    -- The loop sends to the ids on its list that it does not skip.
    pub rekey_all-Sends :
        (skip ids : List Text) (k : Ref) (cl : Client)
        → All (λ id. member id skip ≡ false → (env : Text) → P (rekey id env)) ids
        → Sends P cl (rekey_all p random skip ids k cl).0
    unfolding rekey_all
    rekey_all-Sends skip [] k cl h = Sends-same cl cl refl
    rekey_all-Sends skip (id ∷ ids) k cl (here, h) =
        >>-Sends (if member id skip then done else rekey_member p random id k)
          (rekey_all p random skip ids k) cl
          (elim (Bool-cases (member id skip)) [
            | inl skipped ↦ rw skipped (Sends-same cl cl refl)
            | inr kept ↦ rw kept (rekey_member-Sends id k cl (here kept))
          ])
          (λ c. rekey_all-Sends skip ids k c h)

    pub new_key-sent : (cl : Client) → (new_key p random cl).1.sent ≡ cl.sent
    unfolding new_key push_key allocate
    new_key-sent cl = ground arith
