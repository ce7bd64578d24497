-- ===== src/Client/Membership/Contents.antt =====
-- What a new key and a roster hold that `rekeyMember` and `broadcastRoster` of web/src/main.ts send.
use e2eanon.Prelude.{
  ℕ, suc, ◌≡◌, ◌≢◌, refl, ap, sym, subst, ◌∙◌, List, [], ◌∷◌, All, All-map, true, false, Option,
  none, some, Text, text_eq, text_eq_iff, lookup, insert, member, ok, Bool-cases, inl, inr, arith,
  ◌⊎◌, if◌then◌else◌,
}
use mathlib.Core.Option.{some-injective}
use e2eanon.Crypto.Base64url.{Bytes}
use e2eanon.Crypto.Primitives.{Primitives}
use e2eanon.Crypto.Envelope.{nonce_len, bytes_to_b64url, encrypt_message}
use e2eanon.Crypto.KeyExchange.{seal_room_key}
use e2eanon.Protocol.{ClientMsg, rekey, roster}
use e2eanon.Client.State.{Ref, Session, Client, M, read}
use e2eanon.Client.Membership.{
  RosterJson, done, send, is_owner, sealed_to, rekey_member, rekey_all, roster_of, broadcast_roster,
}
use e2eanon.Client.Membership.Sending.{
  Sends, Sends-same, Sends-trans, send-Sends, >>-cases, rekey_member-cases,
}
use e2eanon.Client.Membership.Frames.{Frames, send-Frames, rekey_member-Frames}

-- The list has this public key for this id.
abbrev pub IsListed : Text → Bytes → List (Text × Bytes) → Type 0
IsListed id b [] = ⊥
IsListed id b ((j, w) ∷ pubs) = ((j ≡ id) × (w ≡ b)) ⊎ IsListed id b pubs

All-IsListed : (pubs : List (Text × Bytes)) → All (λ e. IsListed e.0 e.1 pubs) pubs
All-IsListed [] = tt
All-IsListed ((j, w) ∷ pubs) = (
  inl (refl, refl),
  All-map (λ e. IsListed e.0 e.1 pubs) _ pubs (λ e h. inr h) (All-IsListed pubs),
)

All-insert :
    (P : Text × Text → Type 0) (k v : Text) (obj : List (Text × Text))
    → P (k, v)
    → All P obj
    → All P (insert k v obj)
All-insert P k v [] new old = (new, tt)
All-insert P k v ((j, w) ∷ obj) new (h, old) = elim (Bool-cases (text_eq j k)) [
  | inl same ↦ rw same (subst (λ x. P (x, v)) (sym ((text_eq_iff j k).0 same)) new, old)
  | inr other ↦ rw other (h, All-insert P k v obj new old)
]

-- The bytes of the first key.
abbrev pub newest : List Ref → List Bytes → Option Bytes
newest [] heap = none
newest (k ∷ ks) heap = some (read heap k)

module _ (p : Primitives) (random : ℕ → ℕ → Bytes) (json : RosterJson) where
  -- The entry of a roster: the sender's public key, or one that it holds for that id.
  abbrev pub IsPublic : Text → Bytes → List (Text × Bytes) → Text × Text → Type 0
  IsPublic self own pubs (id, t) =
      ((id ≡ self) × (t ≡ bytes_to_b64url p own))
      ⊎ ((b : Bytes) × IsListed id b pubs × (t ≡ bytes_to_b64url p b))

  -- Either the key b, sealed with the sender's private key for the public key of somebody else on the
  -- list, or a roster of public keys, encrypted under the newest room key; the nonces are drawn.
  abbrev pub IsNews :
      Bytes
      → List Text
      → Text
      → Bytes
      → Bytes
      → List (Text × Bytes)
      → Option Bytes
      → ClientMsg
      → Type 0
  IsNews b ids self priv own pubs key (ClientMsg.rekey id env) =
      (member id ids ≡ true)
      × (id ≢ self)
      × (their_pub : Bytes) × (n : ℕ) × (lookup id pubs ≡ some their_pub)
      × (seal_room_key p priv their_pub (random n nonce_len) b ≡ ok env)
  IsNews b ids self priv own pubs key (ClientMsg.roster d) =
      (k : Bytes) × (n : ℕ) × (obj : List (Text × Text)) × (key ≡ some k)
      × (d ≡ encrypt_message p k (random n nonce_len) (json.stringify obj))
      × All (IsPublic self own pubs) obj
  IsNews b ids self priv own pubs key _ = ⊥

  -- In this session, with these buffers.
  abbrev pub IsNewsOf : Bytes → List Text → Session → List Bytes → ClientMsg → Type 0
  IsNewsOf b ids s heap =
      IsNews b ids s.member_id (read heap s.private_key) s.public_key s.member_pubs
        (newest s.keys heap)

  roster_of-All :
      (P : Text × Text → Type 0) (obj : List (Text × Text)) (pubs : List (Text × Bytes))
      → All P obj
      → All (λ e. P (e.0, bytes_to_b64url p e.1)) pubs
      → All P (roster_of p random obj pubs)
  unfolding roster_of
  roster_of-All P obj [] h k = h
  roster_of-All P obj ((id, b) ∷ pubs) h (here, k) =
      roster_of-All P (insert id (bytes_to_b64url p b) obj) pubs
        (All-insert P id (bytes_to_b64url p b) obj here h) k

  pub broadcast_roster-Sends :
      (b : Bytes) (ids : List Text) (s : Session) (cl : Client)
      → cl.session ≡ some s
      → Sends (IsNewsOf b ids s cl.heap) cl (broadcast_roster p random json cl)
        × Frames cl (broadcast_roster p random json cl)
  unfolding broadcast_roster
  broadcast_roster-Sends b ids s cl e = elim (Bool-cases (is_owner s.role)) [
    | inr other ↦ unchanged (ground arith)
    | inl mine ↦ go mine s.keys refl
  ]
    where
      Goal : Client → Type 0
      Goal c = Sends (IsNewsOf b ids s cl.heap) cl c × Frames cl c

      unchanged : broadcast_roster p random json cl ≡ cl → Goal (broadcast_roster p random json cl)
      unchanged same = rw same (Sends-same (IsNewsOf b ids s cl.heap) cl cl refl, (refl, refl))

      go :
          is_owner s.role ≡ true
          → (ks : List Ref) → s.keys ≡ ks
          → Goal (broadcast_roster p random json cl)
      go mine [] no_keys = unchanged (ground arith)
      go mine (k ∷ ks) keys =
          let P = IsNewsOf b ids s cl.heap in
          let entry = bytes_to_b64url p s.public_key in
          let obj = roster_of p random ((s.member_id, entry) ∷ []) s.member_pubs in
          let nonce = random cl.drawn nonce_len in
          let d = encrypt_message p (read cl.heap k) nonce (json.stringify obj) in
          let c = record cl { drawn = suc cl.drawn } in
          let goes : broadcast_roster p random json cl ≡ send (roster d) c = ground arith in
          let public : All (IsPublic s.member_id s.public_key s.member_pubs) obj =
            roster_of-All (IsPublic s.member_id s.public_key s.member_pubs)
              ((s.member_id, entry) ∷ []) s.member_pubs (inl (refl, refl), tt)
              (All-map (λ e. IsListed e.0 e.1 s.member_pubs) _ s.member_pubs
                (λ e listed. inr (e.1, listed, refl)) (All-IsListed s.member_pubs)) in
          let says : P (roster d) =
            (read cl.heap k, cl.drawn, obj, ap (λ xs. newest xs cl.heap) keys, refl, public) in
          rw goes (send-Sends P (roster d) c says, send-Frames (roster d) c)

  rekey_member-Sends_sealed :
      (P : ClientMsg → Type 0) (id : Text) (k : Ref) (s : Session) (heap : List Bytes) (b : Bytes)
      (cl : Client)
      → cl.session ≡ some s
      → cl.heap ≡ heap
      → read heap k ≡ b
      → ((their_pub : Bytes) (n : ℕ) (env : Text)
          → lookup id s.member_pubs ≡ some their_pub
          → seal_room_key p (read heap s.private_key) their_pub (random n nonce_len) b ≡ ok env
          → P (rekey id env))
      → Sends P cl (rekey_member p random id k cl).0
  unfolding sealed_to
  rekey_member-Sends_sealed P id k s heap b cl e same fresh h =
      elim (rekey_member-cases p random id k cl) [
        | inl (r, goes) ↦ rw goes (Sends-same P cl cl refl)
        | inr (t, their_pub, env, es, known, sealed, goes) ↦
            let it : t ≡ s = some-injective t s (sym es ∙ e) in
            let mine : read cl.heap t.private_key ≡ read heap s.private_key =
              ap (λ x. read x t.private_key) same
              ∙ ap (λ (x : Session). read heap x.private_key) it in
            let key : read cl.heap k ≡ b = ap (λ x. read x k) same ∙ fresh in
            let sealed' : seal_room_key p (read heap s.private_key) their_pub
                  (random cl.drawn nonce_len) b
                ≡ ok env =
              ap (λ x. seal_room_key p x their_pub (random cl.drawn nonce_len) b) (sym mine)
              ∙ ap
                  (λ y.
                    seal_room_key p (read cl.heap t.private_key) their_pub
                      (random cl.drawn nonce_len) y)
                  (sym key)
              ∙ sealed in
            rw goes (
              send-Sends P (rekey id env) (record cl { drawn = suc cl.drawn })
                (h their_pub cl.drawn env
                  (ap (λ (x : Session). lookup id x.member_pubs) (sym it) ∙ known) sealed'))
      ]

  pub rekey_all-Sends_sealed :
      (P : ClientMsg → Type 0) (skip ids : List Text) (k : Ref) (s : Session) (heap : List Bytes)
      (b : Bytes) (cl : Client)
      → cl.session ≡ some s
      → cl.heap ≡ heap
      → read heap k ≡ b
      → All
          (λ id.
            member id skip ≡ false
            → (their_pub : Bytes) (n : ℕ) (env : Text) → lookup id s.member_pubs ≡ some their_pub
            → seal_room_key p (read heap s.private_key) their_pub (random n nonce_len) b ≡ ok env
            → P (rekey id env))
          ids
      → Sends P cl (rekey_all p random skip ids k cl).0
  unfolding rekey_all
  rekey_all-Sends_sealed P skip [] k s heap b cl e same fresh h = Sends-same P cl cl refl
  rekey_all-Sends_sealed P skip (id ∷ ids) k s heap b cl e same fresh (here, h) =
      let m : M (Unit {0}) = if member id skip then done else rekey_member p random id k in
      let first : Sends P cl (m cl).0 × Frames cl (m cl).0 = elim (Bool-cases (member id skip)) [
        | inl skipped ↦ rw skipped (Sends-same P cl cl refl, (refl, refl))
        | inr kept ↦ rw kept (
          rekey_member-Sends_sealed P id k s heap b cl e same fresh (here kept),
          rekey_member-Frames p random id k cl,
        )
      ] in
      let (sent, frames) = first in
      elim (>>-cases m (rekey_all p random skip ids k) cl) [
        | inl (good, goes) ↦ rw goes (
            Sends-trans P cl (m cl).0 (rekey_all p random skip ids k (m cl).0).0 sent (
              rekey_all-Sends_sealed P skip ids k s heap b (m cl).0 (frames.0 ∙ e) (frames.1 ∙ same)
                fresh h))
        | inr (x, bad, goes) ↦ rw goes sent
      ]
