-- ===== src/Client/Membership/Recipients.antt =====
-- The ways through `onPresence` and `broadcastRoster` of web/src/main.ts, and the list that is walked
-- along there.
use e2eanon.Prelude.{
  ℕ, suc, ◌≡◌, ◌≢◌, refl, List, [], ◌∷◌, All, All-map, true, false, some, Text, text_eq_iff,
  text_eq_refl, member, ok, Option-cases, Bool-cases, inl, inr, arith, ◌⊎◌,
}
use e2eanon.Crypto.Base64url.{Bytes}
use e2eanon.Crypto.Primitives.{Primitives}
use e2eanon.Crypto.Envelope.{nonce_len, bytes_to_b64url, encrypt_message}
use e2eanon.Protocol.{MemberInfo, roster}
use e2eanon.Client.State.{Ref, Session, Client, read}
use e2eanon.Client.Membership.{
  RosterJson, is_owner, id_set, seen, shown, roster_of, broadcast_roster, owner_duties, on_presence,
  send,
}

member-cons : (id j : Text) (ids : List Text) → member id ids ≡ true → member id (j ∷ ids) ≡ true
member-cons id j ids h = ground arith

pub All-member : (ids : List Text) → All (λ id. member id ids ≡ true) ids
All-member [] = tt
All-member (id ∷ ids) = (
  ground (arith, text_eq_refl id),
  All-map (λ j. member j ids ≡ true) (λ j. member j (id ∷ ids) ≡ true) ids
      (λ j h. member-cons j id ids h) (All-member ids),
)

pub not_skipped : (id self : Text) → member id (self ∷ []) ≡ false → id ≢ self
not_skipped id self h e = ground (arith, text_eq_iff self id)

module _ (p : Primitives) (random : ℕ → ℕ → Bytes) (json : RosterJson) where
  pub broadcast_roster-cases :
      (cl : Client)
      → (broadcast_roster p random json cl ≡ cl)
        ⊎ ((d : Text) × (c : Client) × (c ≡ record cl { drawn = suc cl.drawn })
            × (broadcast_roster p random json cl ≡ send (roster d) c))
  unfolding broadcast_roster
  broadcast_roster-cases cl = elim (Option-cases cl.session) [
    | inl e ↦ inl (ground arith)
    | inr (s, e) ↦ elim (Bool-cases (is_owner s.role)) [
      | inr other ↦ inl (ground arith)
      | inl mine ↦ go s e mine s.keys refl
    ]
  ]
    where
      go :
          (s : Session)
          → cl.session ≡ some s
          → is_owner s.role ≡ true
          → (ks : List Ref) → s.keys ≡ ks
          → (broadcast_roster p random json cl ≡ cl)
            ⊎ ((d : Text) × (c : Client) × (c ≡ record cl { drawn = suc cl.drawn })
                × (broadcast_roster p random json cl ≡ send (roster d) c))
      go s e mine [] no_keys = inl (ground arith)
      go s e mine (k ∷ ks) keys = inr (
        encrypt_message p (read cl.heap k) (random cl.drawn nonce_len) (
            json.stringify (
              roster_of p random ((s.member_id, bytes_to_b64url p s.public_key) ∷ [])
                s.member_pubs)),
        record cl { drawn = suc cl.drawn },
        refl,
        ground arith,
      )

  -- The two ways through `onPresence`.
  pub on_presence-cases :
      (members : List MemberInfo) (s : Session) (cl : Client)
      → cl.session ≡ some s
      → let s' = seen members s in
        let cl' = record cl { session = some s'; view = shown members s' cl.view } in
        ((is_owner s'.role ≡ false) × (on_presence p random json members cl ≡ (cl', ok tt)))
        ⊎ ((is_owner s'.role ≡ true)
            × (on_presence p random json members cl
                ≡ owner_duties p random json (id_set members) s' cl'))
  unfolding on_presence
  on_presence-cases members s cl e = elim (Bool-cases (is_owner (seen members s).role)) [
    | inl mine ↦ inr (mine, ground arith)
    | inr other ↦ inl (other, ground arith)
  ]
