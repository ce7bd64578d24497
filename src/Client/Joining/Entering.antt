-- ===== src/Client/Joining/Entering.antt =====
-- The first room key on its way from the owner to a joiner: `deliverKey` in `rotateForJoin` at the one
-- end, `onKeyDeliver` and `finishJoin` at the other.
use e2eanon.Prelude.{
  ℕ, suc, ◌+◌, ◌<◌, ◌≡◌, refl, ap, sym, subst, ◌∙◌, List, [], ◌∷◌, ◌++◌, All, Option, none, some,
  Text, text_eq_refl, lookup, lookup-erase, length, take, ok, err, Error, Result-cases, inl, inr,
  arith, ◌⊎◌,
}
use e2eanon.Crypto.Base64url.{Bytes}
use e2eanon.Crypto.Primitives.{Primitives, Laws, IsBytes}
use e2eanon.Crypto.Envelope.{key_len, nonce_len}
use e2eanon.Crypto.KeyExchange.{generate_key_pair}
use e2eanon.Crypto.KeyExchange.Laws.{open_room_key-seal_room_key}
use e2eanon.Protocol.{ServerMsg, key_deliver, enter}
use e2eanon.Client.State.{Ref, opened, HsRecord, Session, Client, max_kept_keys, read, wipe_key}
use e2eanon.Client.Keyring.{add_key}
use e2eanon.Client.Keyring.Heap.{IsWiped, read-fill_zero_ne, fill_zero-IsWiped}
use e2eanon.Client.Keyring.Lifetime.{
  IsRing, keys_after, add_key_lem, add_key-session, add_key-sent, length-heap_after,
  heap_after_newest,
}
use e2eanon.Client.Membership.{update, send, sealed_to, handshake_of, deliver_key}
use e2eanon.Client.Membership.Delivery.{sealed_to-err}
use e2eanon.Client.Membership.Sending.{update_at}
use e2eanon.Client.Membership.Frames.{send-Frames}
use e2eanon.Client.Lifecycle.Wiping.{ref_list}
use e2eanon.Client.Joining.{end_handshake, joined, finish_join, on_key_deliver}
use e2eanon.Client.Upload.Sent.{send_up}

-- The joiner has this key as its newest, has told the relay that it enters, and has wiped and
-- forgotten the handshake.
pub record HasEntered (hs_id : Text) (ke : Option Ref) (room_key : Bytes) (t : Session)
    (before after : Client) : Type 0 where
  pub now : Session
  pub has : after.session ≡ some now
  pub newest : now.keys ≡ take max_kept_keys (length before.heap ∷ t.keys)
  pub fresh : read after.heap (length before.heap) ≡ room_key
  pub wiped : All (IsWiped after.heap) (ref_list ke)
  pub forgotten : lookup hs_id now.handshakes ≡ none
  pub announced : after.sent ≡ before.sent ++ enter hs_id ∷ []

read-wipe_key :
    (ke : Option Ref) (heap : List Bytes) (n : Ref)
    → All (λ k. k < n) (ref_list ke)
    → read (wipe_key ke heap) n ≡ read heap n
read-wipe_key none heap n h = refl
read-wipe_key (some k) heap n (lt, h) = read-fill_zero_ne heap k n (λ e. omega arith)

wipe_key-IsWiped :
    (ke : Option Ref) (heap : List Bytes)
    → All (λ k. k < length heap) (ref_list ke)
    → All (IsWiped (wipe_key ke heap)) (ref_list ke)
wipe_key-IsWiped none heap h = tt
wipe_key-IsWiped (some k) heap (lt, h) = (fill_zero-IsWiped heap k lt, tt)

below_next :
    (ke : Option Ref) (n m : ℕ)
    → m ≡ suc n
    → All (λ k. k < n) (ref_list ke)
    → All (λ k. k < m) (ref_list ke)
below_next none n m e h = tt
below_next (some k) n m e (lt, h) = (omega arith, tt)

module _ (p : Primitives) where
  joined-HasEntered :
      (hs_id : Text) (ke : Option Ref) (room_key : Bytes) (t : Session) (cl : Client)
      → cl.session ≡ some t
      → t.ws ≡ opened
      → IsRing t.keys cl.heap
      → All (λ k. k < length cl.heap) (ref_list ke)
      → HasEntered hs_id ke room_key t cl (joined p hs_id ke (ok room_key) cl)
  unfolding joined
  joined-HasEntered hs_id ke room_key t cl e up ring there =
      let n = length cl.heap in
      let t1 = record t { keys = keys_after t.keys cl.heap } in
      let cl1 = add_key room_key cl in
      let cl2 = record cl1 { heap = wipe_key ke cl1.heap } in
      let f = end_handshake hs_id in
      let cl3 = update f cl2 in
      let at : cl3 ≡ record cl2 { session = some (f t1) } =
        update_at f t1 cl2 (add_key-session room_key t cl e) in
      let same_heap = (add_key_lem room_key t.keys cl (t, e, refl)).1 in
      let size : length cl1.heap ≡ suc n =
        ap length same_heap ∙ length-heap_after room_key t.keys cl.heap ∙ plus_one n in
      let (fs, fh) = send-Frames (enter hs_id) cl3 in
      let heap' = fh ∙ ap (λ (c : Client). c.heap) at in
      record {
        now = f t1;
        has = fs ∙ ap (λ (c : Client). c.session) at;
        newest = refl;
        fresh =
            ap (λ h. read h n) heap'
            ∙ read-wipe_key ke cl1.heap n there
            ∙ ap (λ h. read h n) same_heap
            ∙ heap_after_newest room_key t.keys cl.heap ring;
        wiped =
            subst (λ h. All (IsWiped h) (ref_list ke)) (sym heap')
              (wipe_key-IsWiped ke cl1.heap (below_next ke n (length cl1.heap) size there));
        forgotten = ground (arith, lookup-erase hs_id hs_id t.handshakes, text_eq_refl hs_id);
        announced =
            send_up (enter hs_id) cl3
              (record { now = f t1; has = ap (λ (c : Client). c.session) at; up = up })
            ∙ ap (λ (c : Client). c.sent ++ enter hs_id ∷ []) at
            ∙ ap (λ ms. ms ++ enter hs_id ∷ []) (add_key-sent room_key cl);
      }
    where
      plus_one : (n : ℕ) → n + 1 ≡ suc n
      plus_one n = omega arith

-- The owner knows the handshake of this joiner; the joiner has the record of it and the owner's public
-- key, in a session with an open socket and its keys in order. Private keys have 32 bytes.
pub record AreJoining (p : Primitives) (random : ℕ → ℕ → Bytes) (id : Text) (ch : ℕ) (cs : Text)
    (owner joiner : Client) (s t : Session) (r : HsRecord) : Type 0 where
  pub owner_session : owner.session ≡ some s
  pub joiner_session : joiner.session ≡ some t
  pub owner_record : handshake_of p random id s.handshakes ≡ some (ch ∷ cs)
  pub joiner_record : lookup (ch ∷ cs) t.handshakes ≡ some r
  pub owner_pub :
      t.first_owner_pub ≡ some (generate_key_pair p (read owner.heap s.private_key)).public_key
  pub up : t.ws ≡ opened
  pub ring : IsRing t.keys joiner.heap
  pub secret : All (λ k. k < length joiner.heap) (ref_list r.ke)
  pub length-owner_key : length (read owner.heap s.private_key) ≡ 32
  pub length-joiner_key : length (read joiner.heap t.private_key) ≡ 32

module _ (p : Primitives) (laws : Laws p) (random : ℕ → ℕ → Bytes) where
  -- The owner delivers a room key of 32 bytes to a joiner at the end of their handshake, or X25519
  -- refuses the joiner's public key and nothing is sent. What is sent, whatever else the message
  -- carries, brings the joiner into the room: that key is its newest, it has told the relay so, and
  -- the handshake's secret is wiped and its record gone. The nonce drawn has 24 bytes.
  pub on_key_deliver-deliver_key :
      (id : Text) (ch : ℕ) (cs : Text) (k : Ref) (owner joiner : Client) (s t : Session)
      (r : HsRecord) (msg : ServerMsg)
      → AreJoining p random id ch cs owner joiner s t r
      → length (random owner.drawn nonce_len) ≡ nonce_len
      → IsBytes (random owner.drawn nonce_len)
      → IsBytes (read owner.heap k)
      → length (read owner.heap k) ≡ key_len
      → let their_pub = (generate_key_pair p (read joiner.heap t.private_key)).public_key in
        ((x : Error) × (deliver_key p random id their_pub k owner ≡ (owner, err x))
          × (p.x25519_shared_secret (read owner.heap s.private_key) their_pub ≡ err x))
        ⊎ ((env : Text) × (deliver_key p random id their_pub k owner ≡ (
          send (key_deliver (ch ∷ cs) env) (record owner { drawn = suc owner.drawn }),
          ok tt,
        ))
            × HasEntered (ch ∷ cs) r.ke (read owner.heap k) t joiner (
                on_key_deliver p
                  (record msg { handshake = some (ch ∷ cs); data_text = some env })
                  joiner))
  unfolding deliver_key on_key_deliver finish_join sealed_to
  on_key_deliver-deliver_key id ch cs k owner joiner s t r msg pair hn bn bk hk =
      let their_pub = (generate_key_pair p (read joiner.heap t.private_key)).public_key in
      let os = pair.owner_session in
      let js = pair.joiner_session in
      let asked = pair.owner_record in
      let known = pair.joiner_record in
      let trusted = pair.owner_pub in
      elim (Result-cases (sealed_to p random s their_pub k owner)) [
        | inl (env, sealed) ↦
            let opened_key =
              open_room_key-seal_room_key p laws (read owner.heap s.private_key)
                (read joiner.heap t.private_key) (random owner.drawn nonce_len) (read owner.heap k)
                env pair.length-owner_key pair.length-joiner_key hn bn bk hk sealed in
            let same : on_key_deliver p
                  (record msg { handshake = some (ch ∷ cs); data_text = some env }) joiner
                ≡ joined p (ch ∷ cs) r.ke (ok (read owner.heap k)) joiner =
              ground arith in
            inr (
              env,
              ground arith,
              rw same (
                  joined-HasEntered p (ch ∷ cs) r.ke (read owner.heap k) t joiner js pair.up
                    pair.ring pair.secret),
            )
        | inr (x, failed) ↦
            inl (x, ground arith, sealed_to-err p laws random s their_pub k owner x failed)
      ]
