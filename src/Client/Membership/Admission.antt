-- ===== src/Client/Membership/Admission.antt =====
-- What `rotateForJoin` does to the owner's keys, and to whom it sends.
use e2eanon.Prelude.{
  ℕ, suc, ◌≡◌, ◌≢◌, refl, ap, ◌∙◌, List, [], ◌∷◌, All-map, true, false, Option, none, some, Text,
  text_eq_iff, member, adjoin, length, Result, ok, inl, inr, arith,
}
use e2eanon.Crypto.Base64url.{Bytes}
use e2eanon.Crypto.Primitives.{Primitives}
use e2eanon.Crypto.Envelope.{key_len}
use e2eanon.Protocol.{ClientMsg, key_deliver}
use e2eanon.Client.State.{Ref, Session, Client, M, ◌>>◌, read}
use e2eanon.Client.Keyring.{allocate, add_key}
use e2eanon.Client.Keyring.Lifetime.{
  IsRing, keys_after, add_key_lem, add_key-session, add_key-sent, heap_after_newest,
}
use e2eanon.Client.Membership.{
  done, update, new_key, rekey_all, handshake_of, deliver_key, rotate_for_join,
}
use e2eanon.Client.Membership.Sending.{
  Sends, Sends-same, Sends-trans, send-Sends, update-sent, >>-Sends, rekey_all-Sends,
  deliver_key-cases, >>-cases, update_at,
}
use e2eanon.Client.Membership.Recipients.{All-member}
use e2eanon.Client.Membership.Frames.{Frames, send-Frames, rekey_all-Frames, >>-Frames}
use e2eanon.Client.Membership.Rotation.{Rotated, Rotated-Frames}

-- The key for the joiner through its own handshake, or for a member that is known, other than the owner
-- itself and the joiner.
abbrev pub IsForJoin : (Text → Type 0) → List Text → Text → Text → ClientMsg → Type 0
IsForJoin P known self joiner (ClientMsg.rekey id env) =
    (member id known ≡ true) × (id ≢ self) × (id ≢ joiner)
IsForJoin P known self joiner (ClientMsg.key_deliver hs_id env) = P hs_id
IsForJoin P known self joiner _ = ⊥

neither :
    (id self joiner : Text) → member id (self ∷ joiner ∷ []) ≡ false → (id ≢ self) × (id ≢ joiner)
neither id self joiner h =
    (λ e. ground (arith, text_eq_iff self id), λ e. ground (arith, text_eq_iff joiner id))

module _ (p : Primitives) (random : ℕ → ℕ → Bytes) where
  abbrev pub AsksFor : Text → Session → Text → Type 0
  AsksFor joiner s hs_id = handshake_of p random joiner s.handshakes ≡ some hs_id

  deliver_key-Frames :
      (joiner : Text) (joiner_pub : Bytes) (k : Ref) (cl : Client)
      → Frames cl (deliver_key p random joiner joiner_pub k cl).0
  deliver_key-Frames joiner joiner_pub k cl =
      elim (deliver_key-cases p random joiner joiner_pub k cl) [
        | inl (r, e) ↦ rw e (refl, refl)
        | inr (s, hs_id, env, es, found, sealed, e) ↦
            rw e (send-Frames (key_deliver hs_id env) (record cl { drawn = suc cl.drawn }))
      ]

  deliver_key-Sends_asked :
      (known : List Text) (self joiner : Text) (joiner_pub : Bytes) (k : Ref) (s t : Session)
      (cl : Client)
      → cl.session ≡ some t
      → t.handshakes ≡ s.handshakes
      → Sends
          (IsForJoin (AsksFor joiner s) known self joiner)
          cl
          (deliver_key p random joiner joiner_pub k cl).0
  deliver_key-Sends_asked known self joiner joiner_pub k s t cl has same =
      let P = IsForJoin (AsksFor joiner s) known self joiner in
      elim (deliver_key-cases p random joiner joiner_pub k cl) [
        | inl (r, e) ↦ rw e (Sends-same P cl cl refl)
        | inr (s', hs_id, env, es, found, sealed, e) ↦
            let asked : handshake_of p random joiner s.handshakes ≡ some hs_id = ground arith in
            rw e (send-Sends P (key_deliver hs_id env) (record cl { drawn = suc cl.drawn }) asked)
      ]

  -- A joiner is delivered the key first, then the others get it, then the joiner counts as known.
  join_steps : Text → Bytes → Session → Ref → M (Unit {0})
  join_steps joiner joiner_pub s k =
      deliver_key p random joiner joiner_pub k
      >> rekey_all p random (s.member_id ∷ joiner ∷ []) s.known_members k
      >> λ c. done (update (λ s'. record s' { known_members = adjoin joiner s'.known_members }) c)

  rotate_for_join_lem :
      (joiner : Text) (joiner_pub : Bytes) (s : Session) (cl : Client)
      → cl.session ≡ some s
      → rotate_for_join p random joiner joiner_pub cl
        ≡ join_steps joiner joiner_pub s (new_key p random cl).0 (new_key p random cl).1
  unfolding rotate_for_join join_steps
  rotate_for_join_lem joiner joiner_pub s cl e =
      ap
        (λ (o : Option Session). elim o [
          | none ↦ (cl, ok tt)
          | some s' ↦
              join_steps joiner joiner_pub s' (new_key p random cl).0 (new_key p random cl).1
        ])
        e

  join_steps-Sends :
      (joiner : Text) (joiner_pub : Bytes) (k : Ref) (s t : Session) (cl : Client)
      → cl.session ≡ some t
      → t.handshakes ≡ s.handshakes
      → Sends
          (IsForJoin (AsksFor joiner s) s.known_members s.member_id joiner)
          cl
          (join_steps joiner joiner_pub s k cl).0
  unfolding join_steps
  join_steps-Sends joiner joiner_pub k s t cl has same =
      let P = IsForJoin (AsksFor joiner s) s.known_members s.member_id joiner in
      let skip = s.member_id ∷ joiner ∷ [] in
      let deliver : M (Unit {0}) = deliver_key p random joiner joiner_pub k in
      let others : M (Unit {0}) = rekey_all p random skip s.known_members k in
      let known = λ (x : Session). record x { known_members = adjoin joiner x.known_members } in
      >>-Sends P (deliver >> others) (λ c. done (update known c)) cl
        (>>-Sends P deliver others cl
          (deliver_key-Sends_asked s.known_members s.member_id joiner joiner_pub k s t cl has same)
          (λ c. rekey_all-Sends P p random skip s.known_members k c (
            All-map (λ id. member id s.known_members ≡ true) _ s.known_members
              (λ id h kept env. let (a, b) = neither id s.member_id joiner kept in (h, a, b))
              (All-member s.known_members))))
        (λ c. Sends-same P c (update known c) (update-sent P known c))

  join_steps-Rotated :
      {b : Bytes} {old : Session} {before : Client} (joiner : Text) (joiner_pub : Bytes) (k : Ref)
      (s : Session) (cl : Client)
      → Rotated b [] old before cl
      → Rotated b [] old before (join_steps joiner joiner_pub s k cl).0
  unfolding join_steps
  join_steps-Rotated {before} joiner joiner_pub k s cl fresh =
      let deliver : M (Unit {0}) = deliver_key p random joiner joiner_pub k in
      let others : M (Unit {0}) =
        rekey_all p random (s.member_id ∷ joiner ∷ []) s.known_members k in
      let known = λ (x : Session). record x { known_members = adjoin joiner x.known_members } in
      let sent = ((deliver >> others) cl).0 in
      let kept =
        Rotated-Frames cl sent
          (>>-Frames deliver others cl (deliver_key-Frames joiner joiner_pub k cl)
            (λ c. rekey_all-Frames p random (s.member_id ∷ joiner ∷ []) s.known_members k c))
          fresh in
      elim (>>-cases (deliver >> others) (λ c. done (update known c)) cl) [
        | inl (good, goes) ↦ rw goes (
            let at = update_at known kept.now sent kept.has in
            record {
              now = known kept.now;
              has = ap (λ (x : Client). x.session) at;
              newest = kept.newest;
              fresh = ap (λ (x : Client). read x.heap (length before.heap)) at ∙ kept.fresh;
              forgotten = tt;
            })
        | inr (x, bad, goes) ↦ rw goes kept
      ]

  join_steps-after :
      (joiner : Text) (joiner_pub : Bytes) (s : Session) (k : Ref) (cl after : Client)
      → deliver_key p random joiner joiner_pub k cl ≡ (after, ok tt)
      → Sends (λ _. Unit) after (join_steps joiner joiner_pub s k cl).0
  unfolding join_steps
  join_steps-after joiner joiner_pub s k cl after e =
      let skip = s.member_id ∷ joiner ∷ [] in
      let others : M (Unit {0}) = rekey_all p random skip s.known_members k in
      let known = λ (x : Session). record x { known_members = adjoin joiner x.known_members } in
      let same : join_steps joiner joiner_pub s k cl
          ≡ (others >> λ c. done (update known c)) after =
        ap
          (λ (d : Client × Result (Unit {0})).
            ((λ (_ : Client). d) >> others >> λ c. done (update known c)) cl)
          e in
      rw same (
        >>-Sends (λ _. Unit) others (λ c. done (update known c)) after
          (rekey_all-Sends (λ _. Unit) p random skip s.known_members k after
            (All-map (λ id. member id s.known_members ≡ true) _ s.known_members
              (λ id h kept env. tt) (All-member s.known_members)))
          (λ c. Sends-same (λ _. Unit) c (update known c) (update-sent (λ _. Unit) known c)))

  -- The joiner's key goes out first: what follows comes after it.
  pub rotate_for_join-after :
      (joiner : Text) (joiner_pub : Bytes) (s : Session) (cl after : Client)
      → cl.session ≡ some s
      → deliver_key p random joiner joiner_pub
          (length cl.heap)
          (add_key (random cl.drawn key_len) (record cl { drawn = suc cl.drawn }))
        ≡ (after, ok tt)
      → Sends (λ _. Unit) after (rotate_for_join p random joiner joiner_pub cl).0
  unfolding new_key add_key allocate
  rotate_for_join-after joiner joiner_pub s cl after e delivered =
      rw (rotate_for_join_lem joiner joiner_pub s cl e) (
        join_steps-after joiner joiner_pub s (length cl.heap)
          (add_key (random cl.drawn key_len) (record cl { drawn = suc cl.drawn })) after delivered)

  -- When the owner, with at most five keys in buffers of their own, rotates for a joiner, then, thrown or
  -- not, a fresh random key ends up before its old ones, and it has sent nothing but keys: to the
  -- joiner through the joiner's own handshake, and to members it knows other than itself and the
  -- joiner.
  pub rotate_for_join-recipients :
      (joiner : Text) (joiner_pub : Bytes) (s : Session) (cl : Client)
      → cl.session ≡ some s
      → IsRing s.keys cl.heap
      → Sends
          (IsForJoin (AsksFor joiner s) s.known_members s.member_id joiner)
          cl
          (rotate_for_join p random joiner joiner_pub cl).0
        × Rotated
            (random cl.drawn key_len)
            []
            s
            cl
            (rotate_for_join p random joiner joiner_pub cl).0
  unfolding new_key add_key allocate
  rotate_for_join-recipients joiner joiner_pub s cl e ring =
      let P = IsForJoin (AsksFor joiner s) s.known_members s.member_id joiner in
      let b = random cl.drawn key_len in
      let k = length cl.heap in
      let cl1 = record cl { drawn = suc cl.drawn } in
      let cl2 = add_key b cl1 in
      let s2 = record s { keys = keys_after s.keys cl.heap } in
      let has2 = add_key-session b s cl1 e in
      let fresh2 : Rotated b [] s cl cl2 = record {
        now = s2;
        has = has2;
        newest = refl;
        fresh =
            ap (λ h. read h k) (add_key_lem b s.keys cl1 (s, e, refl)).1
            ∙ heap_after_newest b s.keys cl.heap ring;
        forgotten = tt;
      } in
      rw (rotate_for_join_lem joiner joiner_pub s cl e) (
        Sends-trans P cl cl2 (join_steps joiner joiner_pub s k cl2).0
            (Sends-same P cl cl2 (add_key-sent b cl1))
            (join_steps-Sends joiner joiner_pub k s s2 cl2 has2 refl),
        join_steps-Rotated joiner joiner_pub k s cl2 fresh2,
      )
