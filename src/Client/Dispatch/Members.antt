-- ===== src/Client/Dispatch/Members.antt =====
-- Presence, rotation, the roster, entering and leaving keep the keys in order.
use e2eanon.Prelude.{
  ℕ, suc, refl, List, [], ◌∷◌, true, false, not, ◌&&◌, some, Text, lookup, erase, insert, adjoin,
  Result, ok, inl, inr, if◌then◌else◌,
}
use e2eanon.Crypto.Base64url.{Bytes}
use e2eanon.Crypto.Primitives.{Primitives}
use e2eanon.Crypto.Envelope.{b64url_to_bytes}
use e2eanon.Protocol.{MemberInfo, ServerMsg, key_deliver, roster}
use e2eanon.Client.State.{Ref, Session, Client, ◌>>◌}
use e2eanon.Client.Membership.{
  RosterJson, done, update, is_owner, id_set, removed_of, discard, forget, seen, shown, new_key,
  rekey_all, broadcast_roster, rotate_out, settle, owner_duties, on_presence, deliver_key,
  rotate_for_join, on_rekey, merge_roster, apply_roster,
}
use e2eanon.Client.Membership.Sending.{deliver_key-cases}
use e2eanon.Client.Membership.Recipients.{broadcast_roster-cases}
use e2eanon.Client.Membership.Frames.{rekey_all-Frames}
use e2eanon.Client.Lifecycle.{welcomed, on_welcome, was_in_room, drop_out, on_close, teardown}
use e2eanon.Client.Dispatch.Invariant.{
  IsSafe, IsKeyed, on_option, on_result, on_if, on_text, spare_IsSafe, IsKeyed-session,
  Frames-IsKeyed, send-IsKeyed, update-IsKeyed, add_key-IsKeyed, new_key-IsKeyed, teardown-IsKeyed,
  >>-IsKeyed,
}

-- A run that ends in a client with its keys in order, thrown or not.
abbrev pub EndsKeyed : Client × Result (Unit {0}) → Type 0
EndsKeyed r = IsKeyed r.0

pub on_welcome-IsKeyed : (msg : ServerMsg) (cl : Client) → IsKeyed cl → IsKeyed (on_welcome msg cl)
unfolding on_welcome welcomed
on_welcome-IsKeyed msg cl h =
    on_option IsKeyed cl.session cl _ h
      (λ s e. spare_IsSafe s (welcomed msg s) cl.heap refl refl refl (IsKeyed-session s cl e h))

pub on_close-IsKeyed : (cl : Client) → IsKeyed cl → IsKeyed (on_close cl)
unfolding on_close
on_close-IsKeyed cl h =
    let in_room = was_in_room cl.session in
    let outside = if not in_room then teardown false cl else cl in
    on_if IsKeyed (in_room && not cl.intentional_close) (drop_out cl) outside
      (teardown-IsKeyed true cl)
      (on_if IsKeyed (not in_room) (teardown false cl) cl (teardown-IsKeyed false cl) h)

forget-IsSafe :
    (ids : List Text) (s : Session) (heap : List Bytes) → IsSafe s heap → IsSafe (forget ids s) heap
unfolding forget
forget-IsSafe [] s heap h = h
forget-IsSafe (id ∷ ids) s heap h =
    let s' = record s {
      known_members = discard id s.known_members;
      member_pubs = erase id s.member_pubs;
    } in
    forget-IsSafe ids s' heap (spare_IsSafe s s' heap refl refl refl h)

module _ (p : Primitives) (random : ℕ → ℕ → Bytes) where
  broadcast_roster-IsKeyed :
      (json : RosterJson) (cl : Client) → IsKeyed cl → IsKeyed (broadcast_roster p random json cl)
  broadcast_roster-IsKeyed json cl h = elim (broadcast_roster-cases p random json cl) [
    | inl e ↦ rw e h
    | inr (d, x, drew, e) ↦
        rw (e, drew) (send-IsKeyed (roster d) (record cl { drawn = suc cl.drawn }) h)
  ]

  rekey_all-IsKeyed :
      (skip ids : List Text) (k : Ref) (cl : Client)
      → IsKeyed cl
      → IsKeyed (rekey_all p random skip ids k cl).0
  rekey_all-IsKeyed skip ids k cl h =
      Frames-IsKeyed cl (rekey_all p random skip ids k cl).0
        (rekey_all-Frames p random skip ids k cl) h

  rotate_out-IsKeyed :
      (removed current : List Text) (self : Text) (cl : Client)
      → IsKeyed cl
      → IsKeyed (rotate_out p random removed current self cl).0
  unfolding rotate_out
  rotate_out-IsKeyed [] current self cl h = h
  rotate_out-IsKeyed (r ∷ removed) current self cl h = rekey_all-IsKeyed (self ∷ []) current _ _ (
      new_key-IsKeyed p random _
        (update-IsKeyed (forget (r ∷ removed)) cl (λ s. forget-IsSafe (r ∷ removed) s cl.heap) h))

  settle-IsKeyed :
      (json : RosterJson) (ids : List Text) (cl : Client)
      → IsKeyed cl
      → IsKeyed (settle p random json ids cl).0
  unfolding settle
  settle-IsKeyed json ids cl h = broadcast_roster-IsKeyed json _ (
      update-IsKeyed _ cl
        (λ s. spare_IsSafe s (record s { known_members = ids }) cl.heap refl refl refl) h)

  pub on_presence-IsKeyed :
      (json : RosterJson) (members : List MemberInfo) (cl : Client)
      → IsKeyed cl
      → IsKeyed (on_presence p random json members cl).0
  unfolding on_presence owner_duties seen
  on_presence-IsKeyed json members cl h =
      on_option EndsKeyed cl.session (cl, ok tt) _ h
        (λ s e.
          let s' = seen members s in
          let cl' = record cl { session = some s'; view = shown members s' cl.view } in
          let safe = spare_IsSafe s s' cl.heap refl refl refl (IsKeyed-session s cl e h) in
          let ids = id_set members in
          let removed = removed_of ids s'.known_members in
          on_if EndsKeyed (not (is_owner s'.role)) (cl', ok tt)
            (owner_duties p random json ids s' cl') safe
            (>>-IsKeyed (rotate_out p random removed ids s'.member_id) (settle p random json ids)
              cl' (rotate_out-IsKeyed removed ids s'.member_id cl' safe) (settle-IsKeyed json ids)))

  deliver_key-IsKeyed :
      (joiner : Text) (joiner_pub : Bytes) (k : Ref) (cl : Client)
      → IsKeyed cl
      → IsKeyed (deliver_key p random joiner joiner_pub k cl).0
  deliver_key-IsKeyed joiner joiner_pub k cl h =
      elim (deliver_key-cases p random joiner joiner_pub k cl) [
        | inl (r, e) ↦ rw e h
        | inr (s, hs_id, env, es, found, sealed, e) ↦
            rw e (send-IsKeyed (key_deliver hs_id env) (record cl { drawn = suc cl.drawn }) h)
      ]

  pub rotate_for_join-IsKeyed :
      (joiner : Text) (joiner_pub : Bytes) (cl : Client)
      → IsKeyed cl
      → IsKeyed (rotate_for_join p random joiner joiner_pub cl).0
  unfolding rotate_for_join
  rotate_for_join-IsKeyed joiner joiner_pub cl h =
      on_option EndsKeyed cl.session (cl, ok tt) _ h
        (λ s e.
          let (k, cl') = new_key p random cl in
          let fresh : IsKeyed cl' = new_key-IsKeyed p random cl h in
          let deliver = deliver_key p random joiner joiner_pub k in
          let rekey_others = rekey_all p random (s.member_id ∷ joiner ∷ []) s.known_members k in
          let known = λ (x : Session). record x { known_members = adjoin joiner x.known_members } in
          >>-IsKeyed (deliver >> rekey_others) (λ c. done (update known c)) cl'
            (>>-IsKeyed deliver rekey_others cl' (deliver_key-IsKeyed joiner joiner_pub k cl' fresh)
              (rekey_all-IsKeyed (s.member_id ∷ joiner ∷ []) s.known_members k))
            (λ c hc.
              update-IsKeyed known c
                (λ x.
                  spare_IsSafe x (record x { known_members = adjoin joiner x.known_members }) c.heap
                    refl refl refl)
                hc))

  pub on_rekey-IsKeyed :
      (msg : ServerMsg) (cl : Client) → IsKeyed cl → IsKeyed (on_rekey p random msg cl)
  unfolding on_rekey
  on_rekey-IsKeyed msg cl h = on_option IsKeyed cl.session cl _ h (λ s _.
      on_option IsKeyed msg.data_text cl _ h (λ env _.
        on_option IsKeyed (lookup s.owner_id s.member_pubs) cl _ h (λ owner_pub _.
          on_result IsKeyed _ (λ x. cl) _ (λ x. h) (λ k _. add_key-IsKeyed k cl h))))

  merge_roster-IsSafe :
      (obj : List (Text × Text)) (s : Session) (heap : List Bytes)
      → IsSafe s heap
      → IsSafe (merge_roster p random obj s) heap
  unfolding merge_roster
  merge_roster-IsSafe [] s heap h = h
  merge_roster-IsSafe ((id, b64) ∷ obj) s heap h =
      on_result (λ s'. IsSafe s' heap) (b64url_to_bytes p b64) (λ x. s) _ (λ x. h)
        (λ b _.
          let s' = record s { member_pubs = insert id b s.member_pubs } in
          merge_roster-IsSafe obj s' heap (spare_IsSafe s s' heap refl refl refl h))

  pub apply_roster-IsKeyed :
      (json : RosterJson) (text : Text) (cl : Client)
      → IsKeyed cl
      → IsKeyed (apply_roster p random json text cl)
  unfolding apply_roster
  apply_roster-IsKeyed json text cl h = on_option IsKeyed cl.session cl _ h (λ s e.
      on_text IsKeyed _ cl cl _ h h (λ c cs.
        on_option IsKeyed (json.parse (c ∷ cs)) cl _ h
          (λ obj _. merge_roster-IsSafe obj s cl.heap (IsKeyed-session s cl e h))))
