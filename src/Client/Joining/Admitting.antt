-- ===== src/Client/Joining/Admitting.antt =====
-- The owner's end of a join: `onMemberKey` and `rotateForJoin` of web/src/main.ts, and the room key on
-- its way to the joiner.
use e2eanon.Prelude.{
  ℕ, ◌<◌, ◌≡◌, ap, ◌∙◌, List, [], ◌∷◌, ◌++◌, All, All-drop, some, Text, insert, lookup, length,
  take, inl, inr,
}
use e2eanon.Crypto.Base64url.{Bytes}
use e2eanon.Crypto.Primitives.{Primitives, IsBytes}
use e2eanon.Crypto.KeyExchange.{generate_key_pair}
use e2eanon.Protocol.{ClientMsg, key_deliver}
use e2eanon.Client.State.{
  Ref, opened, owner_side, HsRecord, Session, Client, max_kept_keys, read, M, ◌>>◌,
}
use e2eanon.Client.Keyring.Heap.{Differs, read-append, read-wipe_keys}
use e2eanon.Client.Keyring.Lifetime.{IsRing, heap_after}
use e2eanon.Client.Membership.{done, update, or_empty, handshake_of, rotate_for_join}
use e2eanon.Client.Membership.Rotation.{Rotated}
use e2eanon.Client.Membership.Sending.{>>-cases, update_at}
use e2eanon.Client.Joining.{end_handshake, take_peer_pub}

-- The key pair of a session: a private key of 32 bytes in a buffer of its own, and its public key.
pub record HasKeyPair (p : Primitives) (s : Session) (heap : List Bytes) : Type 0 where
  pub in_heap : s.private_key < length heap
  pub apart : All (Differs s.private_key) s.keys
  pub length-private : length (read heap s.private_key) ≡ 32
  pub public : s.public_key ≡ (generate_key_pair p (read heap s.private_key)).public_key
  pub bytes : IsBytes s.public_key

-- An owner that has confirmed a secret with this joiner.
pub record IsHost (p : Primitives) (random : ℕ → ℕ → Bytes) (id hs_id : Text) (r : HsRecord)
    (k : Ref) (s : Session) (cl : Client) : Type 0 where
  pub in_session : cl.session ≡ some s
  pub up : s.ws ≡ opened
  pub known : lookup hs_id s.handshakes ≡ some r
  pub hosts : r.role ≡ owner_side
  pub names : r.joiner_member_id ≡ some id
  pub secret : r.ke ≡ some k
  pub asked : handshake_of p random id s.handshakes ≡ some hs_id
  pub ring : IsRing s.keys cl.heap
  pub pair : HasKeyPair p s cl.heap

-- The owner has a new newest key, and sent it to the joiner before anything else.
pub record Admits (hs_id env : Text) (room_key : Bytes) (s : Session) (before after : Client)
    : Type 0 where
  pub now : Session
  pub has : after.session ≡ some now
  pub newest : now.keys ≡ take max_kept_keys (length before.heap ∷ s.keys)
  pub fresh : read after.heap (length before.heap) ≡ room_key
  pub others : List ClientMsg
  pub delivered : after.sent ≡ before.sent ++ key_deliver hs_id env ∷ others

-- A new room key leaves the private key alone.
pub read-heap_after :
    (b : Bytes) (keys : List Ref) (heap : List Bytes) (k : Ref)
    → k < length heap
    → All (Differs k) keys
    → read (heap_after b keys heap) k ≡ read heap k
read-heap_after b keys heap k there apart =
    read-wipe_keys _ (heap ++ b ∷ []) k (All-drop (Differs k) 4 keys apart)
    ∙ read-append heap b k there

module _ (p : Primitives) (random : ℕ → ℕ → Bytes) where
  -- What `onMemberKey` does at the owner after the rotation.
  pub take_peer_pub-host :
      (id hs_id : Text) (r : HsRecord) (peer_pub : Bytes) (s : Session) (cl : Client) (env : Text)
      (b : Bytes)
      → cl.session ≡ some s
      → r.joiner_member_id ≡ some id
      → let s1 = record s { member_pubs = insert id peer_pub s.member_pubs } in
        let rotated = (rotate_for_join p random id peer_pub (record cl { session = some s1 })).0 in
        Rotated b [] s1 (record cl { session = some s1 }) rotated
        → (others : List ClientMsg) × (rotated.sent ≡ cl.sent ++ key_deliver hs_id env ∷ others)
        → Admits hs_id env b s cl (take_peer_pub p random hs_id r owner_side peer_pub cl).0
  unfolding take_peer_pub
  take_peer_pub-host id hs_id r peer_pub s cl env b e named fresh (others, sent) =
      let f = λ (x : Session). record x { member_pubs = insert id peer_pub x.member_pubs } in
      let m : M (Unit {0}) = rotate_for_join p random id peer_pub in
      let k : M (Unit {0}) = λ c. done (update (end_handshake hs_id) c) in
      let cl1 = record cl { session = some (f s) } in
      let same : take_peer_pub p random hs_id r owner_side peer_pub cl ≡ (m >> k) cl1 =
        ap
          (λ (j : Text).
            (rotate_for_join p random j peer_pub >> k)
              (update (λ s. record s { member_pubs = insert j peer_pub s.member_pubs }) cl))
          (ap or_empty named)
        ∙ ap (λ (c : Client). (m >> k) c) (update_at f s cl e) in
      let at = update_at (end_handshake hs_id) fresh.now (m cl1).0 fresh.has in
      rw same (elim (>>-cases m k cl1) [
        | inl (good, goes) ↦ rw goes (record {
          now = end_handshake hs_id fresh.now;
          has = ap (λ (x : Client). x.session) at;
          newest = fresh.newest;
          fresh = ap (λ (x : Client). read x.heap (length cl.heap)) at ∙ fresh.fresh;
          others = others;
          delivered = ap (λ (x : Client). x.sent) at ∙ sent;
        })
        | inr (x, bad, goes) ↦ rw goes (record {
          now = fresh.now;
          has = fresh.has;
          newest = fresh.newest;
          fresh = fresh.fresh;
          others = others;
          delivered = sent;
        })
      ])
