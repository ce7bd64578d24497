-- ===== src/Client/Membership/Frames.antt =====
-- What leaves the session and the heap alone.
use e2eanon.Prelude.{
  ℕ, suc, ◌≡◌, refl, ◌∙◌, List, [], ◌∷◌, Text, member, Bool-cases, inl, inr, arith, if◌then◌else◌,
}
use e2eanon.Crypto.Base64url.{Bytes}
use e2eanon.Crypto.Primitives.{Primitives}
use e2eanon.Protocol.{ClientMsg, rekey}
use e2eanon.Client.State.{◌>>◌, Ref, Client, M}
use e2eanon.Client.Membership.{done, send, rekey_member, rekey_all}
use e2eanon.Client.Membership.Sending.{>>-cases, rekey_member-cases}

-- Neither the session nor a buffer has changed.
abbrev pub Frames : Client → Client → Type 0
Frames cl cl' = (cl'.session ≡ cl.session) × (cl'.heap ≡ cl.heap)

pub Frames-trans : (a b c : Client) → Frames a b → Frames b c → Frames a c
Frames-trans a b c (s, h) (s', h') = (s' ∙ s, h' ∙ h)

pub send-Frames : (m : ClientMsg) (cl : Client) → Frames cl (send m cl)
unfolding send
send-Frames m cl = (ground arith, ground arith)

-- A run that goes on after another, thrown or not.
pub >>-Frames :
    (m k : M (Unit {0})) (c : Client)
    → Frames c (m c).0
    → ((d : Client) → Frames d (k d).0)
    → Frames c ((m >> k) c).0
>>-Frames m k c h f = elim (>>-cases m k c) [
  | inl (good, goes) ↦ rw goes (Frames-trans c (m c).0 (k (m c).0).0 h (f (m c).0))
  | inr (x, bad, goes) ↦ rw goes h
]

module _ (p : Primitives) (random : ℕ → ℕ → Bytes) where
  pub rekey_member-Frames :
      (id : Text) (k : Ref) (cl : Client) → Frames cl (rekey_member p random id k cl).0
  rekey_member-Frames id k cl = elim (rekey_member-cases p random id k cl) [
    | inl (r, e) ↦ rw e (refl, refl)
    | inr (s, their_pub, env, es, known, sealed, e) ↦
        rw e (send-Frames (rekey id env) (record cl { drawn = suc cl.drawn }))
  ]

  -- Sending a key to everybody changes neither the session nor the heap, thrown or not.
  pub rekey_all-Frames :
      (skip ids : List Text) (k : Ref) (cl : Client)
      → Frames cl (rekey_all p random skip ids k cl).0
  unfolding rekey_all
  rekey_all-Frames skip [] k cl = (refl, refl)
  rekey_all-Frames skip (id ∷ ids) k cl =
      let m : M (Unit {0}) = if member id skip then done else rekey_member p random id k in
      let first : Frames cl (m cl).0 = elim (Bool-cases (member id skip)) [
        | inl skipped ↦ rw skipped (refl, refl)
        | inr kept ↦ rw kept (rekey_member-Frames id k cl)
      ] in
      elim (>>-cases m (rekey_all p random skip ids k) cl) [
        | inl (e, same) ↦ rw same (
            Frames-trans cl (m cl).0 (rekey_all p random skip ids k (m cl).0).0 first
              (rekey_all-Frames skip ids k (m cl).0))
        | inr (x, e, same) ↦ rw same first
      ]
