-- ===== src/Client/Membership/Rotation.antt =====
-- What a presence message without a known member does to the owner's keys.
use e2eanon.Prelude.{
  member, ◌⊎◌, All-map, text_eq, false, ℕ, suc, ◌≡◌, refl, ap, sym, subst, ◌∙◌, List, [], ◌∷◌, All,
  true, none, some, Text, text_eq_refl, lookup, erase, lookup-erase, inl, inr, arith, take, length,
}
use e2eanon.Crypto.Base64url.{Bytes}
use e2eanon.Crypto.Primitives.{Primitives}
use e2eanon.Crypto.Envelope.{key_len}
use e2eanon.Protocol.{MemberInfo, roster}
use e2eanon.Client.State.{Session, Client, max_kept_keys, read}
use e2eanon.Client.Keyring.{add_key}
use e2eanon.Client.Keyring.Lifetime.{
  IsRing, add_key-session, add_key_lem, keys_after, heap_after_newest,
}
use e2eanon.Client.Membership.{
  RosterJson, update, send, is_owner, id_set, owner_id_of, removed_of, discard, forget, seen, shown,
  new_key, rekey_all, rotate_out, settle, owner_duties, on_presence,
}
use e2eanon.Client.Membership.Sending.{>>-cases, update_at}
use e2eanon.Client.Membership.Recipients.{on_presence-cases, broadcast_roster-cases}
use e2eanon.Client.Membership.Departed.{ids_of, member-id_set, removed_of-All, removed_of-cons}
use e2eanon.Client.Membership.Frames.{Frames, Frames-trans, send-Frames, rekey_all-Frames}

-- The owner has forgotten these members and holds a fresh key in front of its old ones.
pub record Rotated (b : Bytes) (removed : List Text) (s : Session) (cl cl' : Client) : Type 0 where
  pub now : Session
  pub has : cl'.session ≡ some now
  pub newest : now.keys ≡ take max_kept_keys (length cl.heap ∷ s.keys)
  pub fresh : read cl'.heap (length cl.heap) ≡ b
  pub forgotten : All (λ id. lookup id now.member_pubs ≡ none) removed

-- A fresh key in front of the old ones, and no public key of a known member that is not on the list.
pub record RotatedOut (b : Bytes) (members : List MemberInfo) (s : Session) (cl cl' : Client)
    : Type 0 where
  pub now : Session
  pub has : cl'.session ≡ some now
  pub newest : now.keys ≡ take max_kept_keys (length cl.heap ∷ s.keys)
  pub fresh : read cl'.heap (length cl.heap) ≡ b
  pub gone :
      All
        (λ id. (member id (ids_of members) ≡ true) ⊎ (lookup id now.member_pubs ≡ none))
        s.known_members

pub forget-keys : (ids : List Text) (s : Session) → (forget ids s).keys ≡ s.keys
unfolding forget
forget-keys [] s = refl
forget-keys (id ∷ ids) s =
    forget-keys ids (record s {
      known_members = discard id s.known_members;
      member_pubs = erase id s.member_pubs;
    })

-- What has been forgotten is not looked up again.
forget_stays :
    (ids : List Text) (id : Text) (s : Session)
    → lookup id s.member_pubs ≡ none
    → lookup id (forget ids s).member_pubs ≡ none
unfolding forget
forget_stays [] id s h = h
forget_stays (j ∷ ids) id s h =
    forget_stays ids id
      (record s { known_members = discard j s.known_members; member_pubs = erase j s.member_pubs })
      (ground (arith, lookup-erase j id s.member_pubs))

lookup-forget :
    (ids : List Text) (s : Session) → All (λ id. lookup id (forget ids s).member_pubs ≡ none) ids
unfolding forget
lookup-forget [] s = tt
lookup-forget (id ∷ ids) s =
    let s' = record s {
      known_members = discard id s.known_members;
      member_pubs = erase id s.member_pubs;
    } in
    (
      forget_stays ids id s' (ground (arith, lookup-erase id id s.member_pubs, text_eq_refl id)),
      lookup-forget ids s',
    )

-- Only the session and the heap matter to it.
pub Rotated-Frames :
    {b : Bytes} {removed : List Text} {s : Session} {cl : Client} (c d : Client)
    → Frames c d
    → Rotated b removed s cl c
    → Rotated b removed s cl d
Rotated-Frames {cl} c d (fs, fh) r = record {
  now = r.now;
  has = fs ∙ r.has;
  newest = r.newest;
  fresh = ap (λ h. read h (length cl.heap)) fh ∙ r.fresh;
  forgotten = r.forgotten;
}

-- Seeing the members leaves the keys alone.
seen-Rotated :
    {b : Bytes} {removed : List Text} (members : List MemberInfo) (s : Session) (cl cl' c : Client)
    → cl'.heap ≡ cl.heap
    → Rotated b removed (seen members s) cl' c
    → Rotated b removed s cl c
unfolding seen
seen-Rotated members s cl cl' c same r = record {
  now = r.now;
  has = r.has;
  newest = r.newest ∙ ap (λ h. take max_kept_keys (length h ∷ s.keys)) same;
  fresh = ap (λ h. read c.heap (length h)) (sym same) ∙ r.fresh;
  forgotten = r.forgotten;
}

module _ (p : Primitives) (random : ℕ → ℕ → Bytes) where
  -- `new_key` is `add_key` at the bytes that are drawn.
  pub new_key_lem :
      (f : Session → Session) (s : Session) (cl : Client)
      → cl.session ≡ some s
      → (new_key p random (update f cl)).1
        ≡ add_key
            (random cl.drawn key_len)
            (record cl { session = some (f s); drawn = suc cl.drawn })
  unfolding new_key add_key
  new_key_lem f s cl e =
      let updated : update f cl ≡ record cl { session = some (f s) } = ground arith in
      ap (λ c. (new_key p random c).1) updated

  rotate_out-Rotated :
      (r : Text) (removed current : List Text) (self : Text) (s : Session) (cl : Client)
      → cl.session ≡ some s
      → IsRing s.keys cl.heap
      → Rotated
          (random cl.drawn key_len)
          (r ∷ removed)
          s
          cl
          (rotate_out p random (r ∷ removed) current self cl).0
  unfolding rotate_out
  rotate_out-Rotated r removed current self s cl e ring =
      let gone = r ∷ removed in
      let s' = forget gone s in
      let b = random cl.drawn key_len in
      let cl1 = record cl { session = some s'; drawn = suc cl.drawn } in
      let (k, cl2) = new_key p random (update (forget gone) cl) in
      let ring' : IsRing s'.keys cl1.heap =
        subst (λ ks. IsRing ks cl.heap) (sym (forget-keys gone s)) ring in
      let added : cl2 ≡ add_key b cl1 = new_key_lem (forget gone) s cl e in
      let heap' = (add_key_lem b s'.keys cl1 (s', refl, refl)).1 in
      let here : Rotated b gone s cl cl2 = record {
        now = record s' { keys = keys_after s'.keys cl1.heap };
        has = ap (λ (c : Client). c.session) added ∙ add_key-session b s' cl1 refl;
        newest = ap (λ ks. take max_kept_keys (length cl.heap ∷ ks)) (forget-keys gone s);
        fresh =
            ap (λ (c : Client). read c.heap (length cl.heap)) added
            ∙ ap (λ h. read h (length cl.heap)) heap'
            ∙ heap_after_newest b s'.keys cl1.heap ring';
        forgotten = lookup-forget gone s;
      } in
      Rotated-Frames cl2 (rekey_all p random (self ∷ []) current k cl2).0
        (rekey_all-Frames p random (self ∷ []) current k cl2) here

  settle-Rotated :
      {b : Bytes} {removed : List Text} {s : Session} (json : RosterJson) (ids : List Text)
      (cl c : Client)
      → Rotated b removed s cl c
      → Rotated b removed s cl (settle p random json ids c).0
  unfolding settle
  settle-Rotated {b} {removed} {s} json ids cl c r =
      let now' = record r.now { known_members = ids } in
      let c' = update (λ x. record x { known_members = ids }) c in
      let updated : c' ≡ record c { session = some now' } =
        update_at (λ x. record x { known_members = ids }) r.now c r.has in
      let here : Rotated b removed s cl c' = record {
        now = now';
        has = ap (λ (x : Client). x.session) updated;
        newest = r.newest;
        fresh = ap (λ (x : Client). read x.heap (length cl.heap)) updated ∙ r.fresh;
        forgotten = r.forgotten;
      } in
      elim (broadcast_roster-cases p random json c') [
        | inl e ↦ rw e here
        | inr (d, x, drew, e) ↦ rw e (
            Rotated-Frames c' (send (roster d) x)
              (Frames-trans c' x (send (roster d) x)
                (ap (λ (y : Client). y.session) drew, ap (λ (y : Client). y.heap) drew)
                (send-Frames (roster d) x))
              here)
      ]

  owner_duties-Rotated :
      (json : RosterJson) (ids : List Text) (s : Session) (cl : Client) (r : Text)
      (removed : List Text)
      → cl.session ≡ some s
      → IsRing s.keys cl.heap
      → removed_of ids s.known_members ≡ r ∷ removed
      → Rotated (random cl.drawn key_len) (r ∷ removed) s cl (owner_duties p random json ids s cl).0
  unfolding owner_duties
  owner_duties-Rotated json ids s cl r removed e ring missing =
      let m = rotate_out p random (removed_of ids s.known_members) ids s.member_id in
      let b = random cl.drawn key_len in
      let first : Rotated b (r ∷ removed) s cl (m cl).0 =
        subst (λ rs. Rotated b (r ∷ removed) s cl (rotate_out p random rs ids s.member_id cl).0)
          (sym missing) (rotate_out-Rotated r removed ids s.member_id s cl e ring) in
      elim (>>-cases m (settle p random json ids) cl) [
        | inl (good, same) ↦ rw same (settle-Rotated json ids cl (m cl).0 first)
        | inr (x, bad, same) ↦ rw same first
      ]

  owner_on_presence-Rotated :
      (json : RosterJson) (members : List MemberInfo) (s : Session) (cl : Client) (r : Text)
      (removed : List Text)
      → cl.session ≡ some s
      → IsRing s.keys cl.heap
      → is_owner (seen members s).role ≡ true
      → removed_of (id_set members) (seen members s).known_members ≡ r ∷ removed
      → Rotated
          (random cl.drawn key_len)
          (r ∷ removed)
          s
          cl
          (on_presence p random json members cl).0
  unfolding seen
  owner_on_presence-Rotated json members s cl r removed e ring mine missing =
      let s' = seen members s in
      let cl' = record cl { session = some s'; view = shown members s' cl.view } in
      let ring' : IsRing s'.keys cl'.heap = ring in
      elim (on_presence-cases p random json members s cl e) [
        | inl (other, same) ↦ absurd (ground arith)
        | inr (owner, same) ↦ rw same (
            seen-Rotated members s cl cl' (owner_duties p random json (id_set members) s' cl').0
              refl (owner_duties-Rotated json (id_set members) s' cl' r removed refl ring' missing))
      ]

  -- An owner gets a presence message that names it the owner still and that leaves out a member it
  -- knows; its room keys are at most five buffers, all different. Then, whether sealing a key throws or
  -- not, the newest of its keys is a fresh random one, the old ones come after it, at most five in
  -- all, and every member that it knew is on the list of the message or has no public key any more.
  pub on_presence-RotatedOut :
      (json : RosterJson) (members : List MemberInfo) (s : Session) (cl : Client) (r : Text)
      → cl.session ≡ some s
      → IsRing s.keys cl.heap
      → is_owner s.role ≡ true
      → text_eq (owner_id_of members) s.member_id ≡ true
      → member r s.known_members ≡ true
      → member r (ids_of members) ≡ false
      → RotatedOut (random cl.drawn key_len) members s cl (on_presence p random json members cl).0
  unfolding seen id_set
  on_presence-RotatedOut json members s cl r e ring mine named known gone =
      let listed = member-id_set members in
      let still : is_owner (seen members s).role ≡ true = ground arith in
      let same : (seen members s).known_members ≡ s.known_members = ground arith in
      let missing : member r (id_set members) ≡ false = listed r ∙ gone in
      let (r', rs, removed) = removed_of-cons r (id_set members) s.known_members known missing in
      let h =
        owner_on_presence-Rotated json members s cl r' rs e ring still
          (ap (removed_of (id_set members)) same ∙ removed) in
      let left = subst (All (λ id. lookup id h.now.member_pubs ≡ none)) (sym removed) h.forgotten in
      record {
        now = h.now;
        has = h.has;
        newest = h.newest;
        fresh = h.fresh;
        gone =
            All-map _
              (λ id. (member id (ids_of members) ≡ true) ⊎ (lookup id h.now.member_pubs ≡ none))
              s.known_members
              (λ id w. elim w [ inl on ↦ inl (sym (listed id) ∙ on) | inr off ↦ inr off ])
              (removed_of-All (λ id. lookup id h.now.member_pubs ≡ none) (id_set members)
                s.known_members left);
      }
