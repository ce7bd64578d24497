-- ===== src/Client/Membership/News.antt =====
-- What `onPresence` of web/src/main.ts sends: to whom, under which keys, and what is in it.
use e2eanon.Prelude.{
  ℕ, suc, ◌≡◌, refl, ap, sym, subst, ◌∙◌, List, [], ◌∷◌, All, All-map, true, some, Text, member,
  length, inl, inr, arith,
}
use e2eanon.Crypto.Base64url.{Bytes}
use e2eanon.Crypto.Primitives.{Primitives}
use e2eanon.Crypto.Envelope.{key_len}
use e2eanon.Protocol.{MemberInfo}
use e2eanon.Client.State.{Session, Client, read}
use e2eanon.Client.Keyring.{allocate, add_key}
use e2eanon.Client.Keyring.Lifetime.{
  IsRing, add_key-session, add_key_lem, keys_after, heap_after_newest,
}
use e2eanon.Client.Membership.{
  RosterJson, update, id_set, removed_of, forget, seen, shown, new_key, rekey_all, broadcast_roster,
  rotate_out, settle, owner_duties, on_presence,
}
use e2eanon.Client.Membership.Sending.{
  Sends, Sends-same, Sends-trans, update-sent, update_at, new_key-sent, >>-cases,
}
use e2eanon.Client.Membership.Recipients.{on_presence-cases, All-member, not_skipped}
use e2eanon.Client.Membership.Frames.{rekey_all-Frames}
use e2eanon.Client.Membership.Departed.{ids_of, member-id_set}
use e2eanon.Client.Membership.Rotation.{forget-keys, new_key_lem}
use e2eanon.Client.Membership.Contents.{IsNewsOf, broadcast_roster-Sends, rekey_all-Sends_sealed}

module _ (p : Primitives) (random : ℕ → ℕ → Bytes) (json : RosterJson) where
  -- From the one client to the other: the session and the buffers at the end, and what was sent on
  -- the way.
  pub record Informs (b : Bytes) (ids : List Text) (s : Session) (cl cl' : Client) : Type 0 where
    pub now : Session
    pub heap : List Bytes
    pub has : cl'.session ≡ some now
    pub buffers : cl'.heap ≡ heap
    pub same_member : now.member_id ≡ s.member_id
    pub same_private : now.private_key ≡ s.private_key
    pub same_public : now.public_key ≡ s.public_key
    pub news : Sends (IsNewsOf p random json b ids now heap) cl cl'

  -- The members are those of the message, and the roster goes out.
  settle-Informs :
      (b : Bytes) (ids current : List Text) (s : Session) (cl c : Client)
      → Informs b ids s cl c
      → Informs b ids s cl (settle p random json current c).0
  unfolding settle
  settle-Informs b ids current s cl c i =
      let known = λ (x : Session). record x { known_members = current } in
      let now' = known i.now in
      let P = IsNewsOf p random json b ids now' i.heap in
      let c' = update known c in
      let updated : c' ≡ record c { session = some now' } = update_at known i.now c i.has in
      let has' : c'.session ≡ some now' = ap (λ (x : Client). x.session) updated in
      let buffers' : c'.heap ≡ i.heap = ap (λ (x : Client). x.heap) updated ∙ i.buffers in
      let (said, frames) = broadcast_roster-Sends p random json b ids now' c' has' in
      let said' : Sends P c' (broadcast_roster p random json c') =
        subst
          (λ h. Sends (IsNewsOf p random json b ids now' h) c' (broadcast_roster p random json c'))
          buffers' said in
      let before : Sends P cl c' =
        Sends-trans P cl c c' i.news (Sends-same P c c' (update-sent P known c)) in
      record {
        now = now';
        heap = i.heap;
        has = frames.0 ∙ has';
        buffers = frames.1 ∙ buffers';
        same_member = i.same_member;
        same_private = i.same_private;
        same_public = i.same_public;
        news = Sends-trans P cl c' (broadcast_roster p random json c') before said';
      }

  new_key_ref :
      (f : Session → Session) (cl : Client) → (new_key p random (update f cl)).0 ≡ length cl.heap
  unfolding new_key allocate
  new_key_ref f cl = ground arith

  forget-own :
      (gone : List Text) (s : Session)
      → ((forget gone s).member_id ≡ s.member_id)
        × ((forget gone s).private_key ≡ s.private_key)
        × ((forget gone s).public_key ≡ s.public_key)
  unfolding forget
  forget-own [] s = (refl, refl, refl)
  forget-own (id ∷ gone) s = forget-own gone _

  rotate_out-Informs :
      (gone ids listed : List Text) (s : Session) (cl : Client)
      → cl.session ≡ some s
      → IsRing s.keys cl.heap
      → All (λ id. member id listed ≡ true) ids
      → Informs
          (random cl.drawn key_len)
          listed
          s
          cl
          (rotate_out p random gone ids s.member_id cl).0
  unfolding rotate_out
  rotate_out-Informs [] ids listed s cl e ring on = record {
    now = s;
    heap = cl.heap;
    has = e;
    buffers = refl;
    same_member = refl;
    same_private = refl;
    same_public = refl;
    news =
        Sends-same (IsNewsOf p random json (random cl.drawn key_len) listed s cl.heap) cl cl refl;
  }
  rotate_out-Informs (r ∷ removed) ids listed s cl e ring on =
      let gone = r ∷ removed in
      let s' = forget gone s in
      let b = random cl.drawn key_len in
      let cl1 = record cl { session = some s'; drawn = suc cl.drawn } in
      let (k, cl2) = new_key p random (update (forget gone) cl) in
      let ring' : IsRing s'.keys cl1.heap =
        subst (λ ks. IsRing ks cl.heap) (sym (forget-keys gone s)) ring in
      let added : cl2 ≡ add_key b cl1 = new_key_lem p random (forget gone) s cl e in
      let now = record s' { keys = keys_after s'.keys cl1.heap } in
      let has : cl2.session ≡ some now =
        ap (λ (c : Client). c.session) added ∙ add_key-session b s' cl1 refl in
      let heap' = (add_key_lem b s'.keys cl1 (s', refl, refl)).1 in
      let fresh : read cl2.heap k ≡ b =
        ap (read cl2.heap) (new_key_ref (forget gone) cl)
        ∙ ap (λ (c : Client). read c.heap (length cl.heap)) added
        ∙ ap (λ h. read h (length cl.heap)) heap'
        ∙ heap_after_newest b s'.keys cl1.heap ring' in
      let (member_same, private_same, public_same) = forget-own gone s in
      let P = IsNewsOf p random json b listed now cl2.heap in
      let quiet : Sends P cl cl2 =
        Sends-same P cl cl2
          (new_key-sent P p random (update (forget gone) cl) ∙ update-sent P (forget gone) cl) in
      let (session_kept, heap_kept) = rekey_all-Frames p random (s.member_id ∷ []) ids k cl2 in
      let said : Sends P cl2 (rekey_all p random (s.member_id ∷ []) ids k cl2).0 =
        rekey_all-Sends_sealed p random json P (s.member_id ∷ []) ids k now cl2.heap b cl2 has refl
          fresh
          (All-map (λ id. member id listed ≡ true) _ ids
            (λ id there kept their_pub n env known sealed. (
              there,
              λ same. not_skipped id s.member_id kept (same ∙ member_same),
              their_pub,
              n,
              known,
              sealed,
            ))
            on) in
      record {
        now = now;
        heap = cl2.heap;
        has = session_kept ∙ has;
        buffers = heap_kept;
        same_member = member_same;
        same_private = private_same;
        same_public = public_same;
        news = Sends-trans P cl cl2 (rekey_all p random (s.member_id ∷ []) ids k cl2).0 quiet said;
      }

  owner_duties-Informs :
      (ids listed : List Text) (s : Session) (cl : Client)
      → cl.session ≡ some s
      → IsRing s.keys cl.heap
      → All (λ id. member id listed ≡ true) ids
      → Informs (random cl.drawn key_len) listed s cl (owner_duties p random json ids s cl).0
  unfolding owner_duties
  owner_duties-Informs ids listed s cl e ring on =
      let m = rotate_out p random (removed_of ids s.known_members) ids s.member_id in
      let b = random cl.drawn key_len in
      let first = rotate_out-Informs (removed_of ids s.known_members) ids listed s cl e ring on in
      elim (>>-cases m (settle p random json ids) cl) [
        | inl (good, same) ↦ rw same (settle-Informs b listed ids s cl (m cl).0 first)
        | inr (x, bad, same) ↦ rw same first
      ]

  -- A client whose room keys are at most five buffers, all different, gets a presence message. Its
  -- member id and its key pair stay, and what it sends, thrown or not, is nothing but this: a fresh
  -- random key for a member that the message lists, never for itself, sealed with its own private key
  -- for the public key that it holds for that member; and a roster, encrypted under the newest of its
  -- room keys, in which each entry is its own public key or one that it holds for that id.
  pub on_presence-Informs :
      (members : List MemberInfo) (s : Session) (cl : Client)
      → cl.session ≡ some s
      → IsRing s.keys cl.heap
      → Informs
          (random cl.drawn key_len)
          (ids_of members)
          s
          cl
          (on_presence p random json members cl).0
  unfolding seen
  on_presence-Informs members s cl e ring =
      let s' = seen members s in
      let ids = id_set members in
      let b = random cl.drawn key_len in
      let cl' = record cl { session = some s'; view = shown members s' cl.view } in
      let ring' : IsRing s'.keys cl'.heap = ring in
      let on : All (λ id. member id (ids_of members) ≡ true) ids =
        All-map (λ id. member id ids ≡ true) _ ids (λ id h. sym (member-id_set members id) ∙ h)
          (All-member ids) in
      elim (on_presence-cases p random json members s cl e) [
        | inl (other, same) ↦ rw same record {
          now = s';
          heap = cl.heap;
          has = refl;
          buffers = refl;
          same_member = refl;
          same_private = refl;
          same_public = refl;
          news = Sends-same (IsNewsOf p random json b (ids_of members) s' cl.heap) cl cl' refl;
        }
        | inr (mine, same) ↦
            let i = owner_duties-Informs ids (ids_of members) s' cl' refl ring' on in
            rw same record {
              now = i.now;
              heap = i.heap;
              has = i.has;
              buffers = i.buffers;
              same_member = i.same_member;
              same_private = i.same_private;
              same_public = i.same_public;
              news = i.news;
            }
      ]
