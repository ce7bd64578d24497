-- ===== src/Client/Dispatch/Handshakes.antt =====
-- The handlers of the join flow keep the keys in order.
use e2eanon.Prelude.{
  All-split, ℕ, ◌<◌, ◌≡◌, refl, subst, List, [], ◌∷◌, All, All-append, true, Option, none, some,
  Text, text_eq, lookup, erase, insert, length, length-set, Result, ok, err, Bool-cases, inl, inr,
  arith,
}
use mathlib.Core.Option.{some-injective}
use e2eanon.Crypto.Base64url.{Bytes}
use e2eanon.Crypto.Primitives.{Primitives}
use e2eanon.Protocol.{ServerMsg, enter}
use e2eanon.Client.State.{Ref, HsRole, owner_side, joiner_side, HsRecord, Session, Client, wipe_key}
use e2eanon.Client.Keyring.{add_key}
use e2eanon.Client.Membership.{done, update, or_empty, rotate_for_join}
use e2eanon.Client.Lifecycle.Wiping.{ref_list, handshake_refs}
use e2eanon.Client.Joining.{
  end_handshake, joined, finish_join, on_key_deliver, finish_pending, take_peer_pub, on_sealed_pub,
  on_member_key,
}
use e2eanon.Client.Dispatch.Invariant.{
  IsSafe, IsKeyed, on_option, on_result, on_if, on_text, spare_IsSafe, IsKeyed-session,
  same-IsKeyed, send-IsKeyed, update-IsKeyed, add_key-IsKeyed, teardown-IsKeyed, >>-IsKeyed,
}
use e2eanon.Client.Dispatch.Members.{EndsKeyed, rotate_for_join-IsKeyed}

module _ {κ} (P : Ref → Type κ) where
  handshake_refs-erase :
      (id : Text) (m : List (Text × HsRecord))
      → All P (handshake_refs m)
      → All P (handshake_refs (erase id m))
  handshake_refs-erase id [] h = tt
  handshake_refs-erase id ((j, r) ∷ m) h =
      let (own, others) = All-split P (ref_list r.ke) (handshake_refs m) h in
      let rest = handshake_refs-erase id m others in
      on_if (λ x. All P (handshake_refs x)) (text_eq j id) (erase id m) ((j, r) ∷ erase id m) rest
        (All-append P (ref_list r.ke) (handshake_refs (erase id m)) own rest)

  handshake_refs-insert :
      (id : Text) (r : HsRecord) (m : List (Text × HsRecord))
      → All P (ref_list r.ke)
      → All P (handshake_refs m)
      → All P (handshake_refs (insert id r m))
  handshake_refs-insert id r [] k h = All-append P (ref_list r.ke) [] k tt
  handshake_refs-insert id r ((j, w) ∷ m) k h =
      let (own, others) = All-split P (ref_list w.ke) (handshake_refs m) h in
      on_if (λ x. All P (handshake_refs x)) (text_eq j id) ((j, r) ∷ m) ((j, w) ∷ insert id r m)
        (All-append P (ref_list r.ke) (handshake_refs m) k others)
        (All-append P (ref_list w.ke) (handshake_refs (insert id r m)) own
          (handshake_refs-insert id r m k others))

  handshake_refs-lookup :
      (id : Text) (r : HsRecord) (m : List (Text × HsRecord))
      → lookup id m ≡ some r
      → All P (handshake_refs m)
      → All P (ref_list r.ke)
  handshake_refs-lookup id r [] e h = cc
  handshake_refs-lookup id r ((j, w) ∷ m) e h =
      let (own, others) = All-split P (ref_list w.ke) (handshake_refs m) h in
      elim (Bool-cases (text_eq j id)) [
        | inl here ↦
            let there : some w ≡ some r = ground arith in
            subst (λ (x : HsRecord). All P (ref_list x.ke)) (some-injective w r there) own
        | inr other ↦
            let there : lookup id m ≡ some r = ground arith in
            handshake_refs-lookup id r m there others
      ]

abbrev pub Holds : List Bytes → HsRecord → Type 0
Holds heap r = All (λ k. k < length heap) (ref_list r.ke)

pub end_handshake-IsSafe :
    (hs_id : Text) (s : Session) (heap : List Bytes)
    → IsSafe s heap
    → IsSafe (end_handshake hs_id s) heap
end_handshake-IsSafe hs_id s heap h = record {
  ring = h.ring;
  own = h.own;
  secrets = handshake_refs-erase (λ k. k < length heap) hs_id s.handshakes h.secrets;
}

pub store_IsSafe :
    (hs_id : Text) (r : HsRecord) (s : Session) (heap : List Bytes)
    → Holds heap r
    → IsSafe s heap
    → IsSafe (record s { handshakes = insert hs_id r s.handshakes }) heap
store_IsSafe hs_id r s heap k h = record {
  ring = h.ring;
  own = h.own;
  secrets = handshake_refs-insert (λ k. k < length heap) hs_id r s.handshakes k h.secrets;
}

pub lookup-Holds :
    (hs_id : Text) (r : HsRecord) (s : Session) (heap : List Bytes)
    → lookup hs_id s.handshakes ≡ some r
    → IsSafe s heap
    → Holds heap r
lookup-Holds hs_id r s heap e h =
    handshake_refs-lookup (λ k. k < length heap) hs_id r s.handshakes e h.secrets

length-wipe_key : (k : Option Ref) (heap : List Bytes) → length (wipe_key k heap) ≡ length heap
length-wipe_key none heap = refl
length-wipe_key (some k) heap = length-set heap k _

module _ (p : Primitives) where
  joined-IsKeyed :
      (hs_id : Text) (ke : Option Ref) (r : Result Bytes) (cl : Client)
      → IsKeyed cl
      → IsKeyed (joined p hs_id ke r cl)
  unfolding joined
  joined-IsKeyed hs_id ke (err e) cl h = teardown-IsKeyed true _
  joined-IsKeyed hs_id ke (ok room_key) cl h =
      let cl1 = add_key room_key cl in
      let cl2 = record cl1 { heap = wipe_key ke cl1.heap } in
      let wiped : IsKeyed cl2 =
        same-IsKeyed cl1 cl2 refl (omega (arith, length-wipe_key ke cl1.heap))
          (add_key-IsKeyed room_key cl h) in
      send-IsKeyed (enter hs_id) (update (end_handshake hs_id) cl2) (
        update-IsKeyed (end_handshake hs_id) cl2 (λ s. end_handshake-IsSafe hs_id s cl2.heap) wiped)

  finish_join-IsKeyed :
      (hs_id : Text) (r : HsRecord) (env : Text) (cl : Client)
      → IsKeyed cl
      → IsKeyed (finish_join p hs_id r env cl)
  unfolding finish_join
  finish_join-IsKeyed hs_id r env cl h =
      on_option IsKeyed cl.session cl _ h (λ s _.
        on_option IsKeyed s.first_owner_pub cl _ h (λ b _. joined-IsKeyed hs_id r.ke _ cl h))

  pub on_key_deliver-IsKeyed :
      (msg : ServerMsg) (cl : Client) → IsKeyed cl → IsKeyed (on_key_deliver p msg cl)
  unfolding on_key_deliver
  on_key_deliver-IsKeyed msg cl h = on_option IsKeyed cl.session cl _ h (λ s e.
      on_text IsKeyed msg.handshake cl cl _ h h (λ c cs.
        on_option IsKeyed msg.data_text cl _ h (λ env _.
          on_option IsKeyed (lookup (c ∷ cs) s.handshakes) cl _ h (λ r known.
            on_option IsKeyed s.first_owner_pub _ _
              (store_IsSafe (c ∷ cs) (record r { pending_key_deliver = some env }) s cl.heap
                (lookup-Holds (c ∷ cs) r s cl.heap known (IsKeyed-session s cl e h))
                (IsKeyed-session s cl e h))
              (λ b _. finish_join-IsKeyed (c ∷ cs) r env cl h)))))

  finish_pending-IsKeyed :
      (hs_id : Text) (r : HsRecord) (pending : Option Text) (cl : Client)
      → IsKeyed cl
      → IsKeyed (finish_pending p hs_id r pending cl)
  finish_pending-IsKeyed hs_id r none cl h = h
  finish_pending-IsKeyed hs_id r (some []) cl h = h
  finish_pending-IsKeyed hs_id r (some (c ∷ cs)) cl h = finish_join-IsKeyed hs_id r (c ∷ cs) cl h

  module _ (random : ℕ → ℕ → Bytes) where
    take_peer_pub-IsKeyed :
        (hs_id : Text) (r : HsRecord) (role : HsRole) (peer_pub : Bytes) (cl : Client)
        → IsKeyed cl
        → IsKeyed (take_peer_pub p random hs_id r role peer_pub cl).0
    unfolding take_peer_pub
    take_peer_pub-IsKeyed hs_id r owner_side peer_pub cl h =
        let joiner = or_empty r.joiner_member_id in
        let known =
          λ (s : Session). record s { member_pubs = insert joiner peer_pub s.member_pubs } in
        let cl' = update known cl in
        >>-IsKeyed (rotate_for_join p random joiner peer_pub)
          (λ c. done (update (end_handshake hs_id) c)) cl'
          (rotate_for_join-IsKeyed p random joiner peer_pub cl'
            (update-IsKeyed known cl (λ s. spare_IsSafe s (known s) cl.heap refl refl refl) h))
          (λ c hc.
            update-IsKeyed (end_handshake hs_id) c (λ s. end_handshake-IsSafe hs_id s c.heap) hc)
    take_peer_pub-IsKeyed hs_id r joiner_side peer_pub cl h =
        let known = λ (s : Session). record s { first_owner_pub = some peer_pub } in
        finish_pending-IsKeyed hs_id r r.pending_key_deliver (update known cl)
          (update-IsKeyed known cl (λ s. spare_IsSafe s (known s) cl.heap refl refl refl) h)

    pub on_member_key-IsKeyed :
        (msg : ServerMsg) (cl : Client) → IsKeyed cl → IsKeyed (on_member_key p random msg cl).0
    unfolding on_member_key on_sealed_pub
    on_member_key-IsKeyed msg cl h =
        on_option EndsKeyed cl.session (cl, ok tt) _ h
          (λ s _.
            on_text EndsKeyed msg.handshake (cl, ok tt) (cl, ok tt) _ h h
              (λ c cs.
                on_option EndsKeyed msg.data_text (cl, ok tt) _ h
                  (λ env _.
                    on_option EndsKeyed (lookup (c ∷ cs) s.handshakes) (cl, ok tt) _ h
                      (λ r _.
                        on_option EndsKeyed r.ke (cl, ok tt) _ h
                          (λ ke _.
                            on_result EndsKeyed _ (λ x. (cl, ok tt)) _ (λ x. h)
                              (λ b _. take_peer_pub-IsKeyed (c ∷ cs) r r.role b cl h))))))
