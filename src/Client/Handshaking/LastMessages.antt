-- ===== src/Client/Handshaking/LastMessages.antt =====
-- The last two messages of a join in web/src/main.ts: the sealed public keys, and the room key.
use e2eanon.Prelude.{
  ℕ, ◌<◌, ◌≡◌, refl, ap, sym, subst, ◌∙◌, List, [], ◌∷◌, ◌++◌, length-append, none, some, Text,
  take, length, Result, ok, arith,
}
use e2eanon.Crypto.Base64url.{Bytes}
use e2eanon.Crypto.Primitives.{Primitives, Laws, IsBytes}
use e2eanon.Crypto.Envelope.{key_len}
use e2eanon.Crypto.KeyExchange.{open_under_ke}
use e2eanon.Crypto.KeyExchange.Laws.{open_under_ke-seal_under_ke}
use e2eanon.Protocol.{ServerMsg, ClientMsg, key_deliver, enter}
use e2eanon.Client.State.{Ref, owner_side, joiner_side, HsRecord, Session, Client, read}
use e2eanon.Client.Keyring.Heap.{read-append, read-append_last}
use e2eanon.Client.Membership.{handshake_of}
use e2eanon.Client.Handshaking.Meeting.{IsReady, Secured}
use e2eanon.Client.Joining.{on_member_key, on_key_deliver}
use e2eanon.Client.Joining.Admitting.{IsHost}
use e2eanon.Client.Joining.Delivering.{IsGuest, on_key_deliver-on_member_key_owner}
use e2eanon.Client.Joining.Order.{on_member_key_lem, take_peer_pub-alone}
use e2eanon.Client.Upload.Sent.{IsRandom}

-- The newest key of both clients holds these bytes.
pub record ShareKey (room_key : Bytes) (owner joiner : Client) : Type 0 where
  pub s : Session
  pub t : Session
  pub k : Ref
  pub l : Ref
  pub ks : List Ref
  pub ls : List Ref
  pub owner_session : owner.session ≡ some s
  pub owner_keys : s.keys ≡ k ∷ ks
  pub owner_reads : read owner.heap k ≡ room_key
  pub joiner_session : joiner.session ≡ some t
  pub joiner_keys : t.keys ≡ l ∷ ls
  pub joiner_reads : read joiner.heap l ≡ room_key

module _ (p : Primitives) (laws : Laws p) (random : ℕ → ℕ → Bytes) (good : IsRandom random) where
  -- What the one side sealed opens at the other.
  opens_env :
      {hs_id first payload env first' payload' env' : Text} {r r' : HsRecord} {ke : Bytes}
      {s t : Session} {a b a' b' : Client}
      → Secured p random hs_id first payload env r ke s a b
      → Secured p random hs_id first' payload' env' r' ke t a' b'
      → open_under_ke p (read b'.heap (length a'.heap)) env ≡ ok s.public_key
  opens_env {env} {ke} {s} {b} {a'} {b'} x y =
      let (n, sealed) = x.sealed in
      ap (λ k. open_under_ke p k env)
        (ap (λ m. read m (length a'.heap)) y.stored ∙ read-append_last a'.heap ke)
      ∙ ap (open_under_ke p ke) sealed
      ∙ open_under_ke-seal_under_ke p laws ke _ s.public_key (good.enough n _) (good.bytes n _)
          (subst IsBytes x.same_keys.same_public x.ready.pair.bytes)

  -- The owner's public key has come in.
  on_member_key-IsGuest :
      {first payload env : Text} (ch : ℕ) (cs key_env : Text) (r : HsRecord) (ke owner_pub : Bytes)
      (t : Session) (a b : Client) (msg : ServerMsg)
      → Secured p random (ch ∷ cs) first payload env r ke t a b
      → r.role ≡ joiner_side
      → r.pending_key_deliver ≡ none
      → open_under_ke p (read b.heap (length a.heap)) key_env ≡ ok owner_pub
      → (t' : Session) × IsGuest p
          (ch ∷ cs)
          (record r { ke = some (length a.heap) })
          owner_pub
          t'
          (on_member_key p random
            (record msg { handshake = some (ch ∷ cs); data_text = some key_env })
            b).0
        × (t'.public_key ≡ t.public_key)
        × ((on_member_key p random
              (record msg { handshake = some (ch ∷ cs); data_text = some key_env })
              b).0.sent
            ≡ b.sent)
  on_member_key-IsGuest ch cs key_env r ke owner_pub t a b msg done joins none_pending opens =
      let hs_id = ch ∷ cs in
      let r' = record r { ke = some (length a.heap) } in
      let t' = record done.now { first_owner_pub = some owner_pub } in
      let cl' = record b { session = some t' } in
      let ready = done.ready in
      let there : length a.heap < length b.heap =
        omega (arith, ap length done.stored, length-append a.heap (ke ∷ [])) in
      let guest : IsGuest p hs_id r' owner_pub t' cl' = record {
        in_session = refl;
        up = ready.up;
        known = done.found;
        trusts = refl;
        secret = (there, tt);
        ring = ready.ring;
        pair = record {
          in_heap = ready.pair.in_heap;
          apart = ready.pair.apart;
          length-private = ready.pair.length-private;
          public = ready.pair.public;
          bytes = ready.pair.bytes;
        };
      } in
      let same : (on_member_key p random
            (record msg { handshake = some hs_id; data_text = some key_env }) b).0
          ≡ cl' =
        ap (λ (x : Client × Result (Unit {0})). x.0)
          (on_member_key_lem p random ch cs key_env r' (length a.heap) owner_pub done.now b msg
            ready.in_session done.found joins refl opens)
        ∙ take_peer_pub-alone p random hs_id r' owner_pub done.now b ready.in_session
            none_pending in
      rw same (t', guest, done.same_keys.same_public, refl)

  Secured-IsHost :
      {first payload env : Text} (hs_id id : Text) (r : HsRecord) (ke : Bytes) (s : Session)
      (a b : Client)
      → (x : Secured p random hs_id first payload env r ke s a b) → r.role ≡ owner_side
      → r.joiner_member_id ≡ some id
      → handshake_of p random id s.handshakes ≡ none
      → IsHost p random id hs_id (record r { ke = some (length a.heap) }) (length a.heap) x.now b
  Secured-IsHost hs_id id r ke s a b x hosts names none_yet = record {
    in_session = x.ready.in_session;
    up = x.ready.up;
    known = x.found;
    hosts = hosts;
    names = names;
    secret = refl;
    asked = x.asked id names none_yet;
    ring = x.ready.ring;
    pair = x.ready.pair;
  }

  -- The last two messages, at an owner and a joiner with one secret.
  module _ (ch : ℕ) (cs : Text) (key_msg room_msg : ServerMsg) where
    pub last_messages :
        {first payload env first' payload' env' : Text} (id : Text) (r r' : HsRecord) (ke z : Bytes)
        (s t : Session) (a a' b b' : Client)
        → IsReady p s a
        → Secured p random (ch ∷ cs) first payload env r ke s a b
        → Secured p random (ch ∷ cs) first' payload' env' r' ke t a' b'
        → r.role ≡ owner_side
        → r.joiner_member_id ≡ some id
        → handshake_of p random id s.handshakes ≡ none
        → r'.role ≡ joiner_side
        → r'.pending_key_deliver ≡ none
        → p.x25519_shared_secret (read a.heap s.private_key) t.public_key ≡ ok z
        → let key_from = λ (e : Text).
          on_member_key p random
            (record key_msg { handshake = some (ch ∷ cs); data_text = some e }) in
          let room_from = λ (e : Text).
            on_key_deliver p (record room_msg { handshake = some (ch ∷ cs); data_text = some e }) in
          let owner = (key_from env' b).0 in
          (room_env : Text) × (others : List ClientMsg) × (owner.sent
            ≡ b.sent ++ key_deliver (ch ∷ cs) room_env ∷ others)
          × let joiner = room_from room_env (key_from env b').0 in
            (joiner.sent ≡ b'.sent ++ enter (ch ∷ cs) ∷ [])
            × ShareKey (random b.drawn key_len) owner joiner
    last_messages {env} {env'} id r r' ke z s t a a' b b' ready x y hosts names none_yet joins
          none_pending accepted =
        let hs_id = ch ∷ cs in
        let s1 = x.now in
        let (t', guest, same_pub, quiet) =
          on_member_key-IsGuest ch cs env r' ke s.public_key t a' b' key_msg y joins none_pending
            (opens_env x y) in
        let b2 =
          (on_member_key p random (record key_msg { handshake = some hs_id; data_text = some env })
            b').0 in
        let host = Secured-IsHost (ch ∷ cs) id r ke s a b x hosts names none_yet in
        let private =
          ap (read b.heap) x.same_keys.same_private
          ∙ ap (λ h. read h s.private_key) x.stored
          ∙ read-append a.heap ke s.private_key ready.pair.in_heap in
        let (room_env, admits, entered) =
          on_key_deliver-on_member_key_owner p laws random good id ch cs env' _ _ (length a.heap) z
            s1 t' b b2 key_msg room_msg host
            (subst (λ k. IsGuest p hs_id (record r' { ke = some (length a'.heap) }) k t' b2)
              (sym x.same_keys.same_public) guest)
            (opens_env y x ∙ ap ok (sym same_pub))
            (ap (λ k. p.x25519_shared_secret k t'.public_key) private
              ∙ ap (p.x25519_shared_secret (read a.heap s.private_key)) same_pub
              ∙ accepted) in
        (
          room_env,
          admits.others,
          admits.delivered,
          (
            entered.announced ∙ ap (λ ms. ms ++ enter hs_id ∷ []) quiet,
            record {
              s = admits.now;
              t = entered.now;
              k = length b.heap;
              l = length b2.heap;
              ks = take 4 s1.keys;
              ls = take 4 t'.keys;
              owner_session = admits.has;
              owner_keys = admits.newest;
              owner_reads = admits.fresh;
              joiner_session = entered.has;
              joiner_keys = entered.newest;
              joiner_reads = entered.fresh;
            },
          ),
        )
