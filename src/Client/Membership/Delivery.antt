-- ===== src/Client/Membership/Delivery.antt =====
-- A rotated key on its way from the owner to a member: `rekeyMember` at the one end and `onRekey` at
-- the other.
use e2eanon.Prelude.{
  ℕ, suc, ◌≡◌, some, Text, lookup, length, ok, err, Error, Result-cases, inl, inr, arith, ◌⊎◌,
}
use e2eanon.Crypto.Base64url.{Bytes}
use e2eanon.Crypto.Primitives.{Primitives, Laws, IsBytes}
use e2eanon.Crypto.Envelope.{key_len, nonce_len}
use e2eanon.Crypto.KeyExchange.{generate_key_pair, pair_key, seal_room_key}
use e2eanon.Crypto.KeyExchange.Laws.{open_room_key-seal_room_key}
use e2eanon.Protocol.{rekey, ServerMsg}
use e2eanon.Client.State.{Ref, Session, Client, read}
use e2eanon.Client.Keyring.{add_key}
use e2eanon.Client.Membership.{send, sealed_to, rekey_member, on_rekey}

-- The member's client knows the owner's public key and the owner knows the member's. All private
-- keys have 32 bytes.
pub record ArePaired (p : Primitives) (id : Text) (owner member : Client) (s t : Session)
    : Type 0 where
  pub owner_session : owner.session ≡ some s
  pub member_session : member.session ≡ some t
  pub owner_knows :
      lookup id s.member_pubs
      ≡ some (generate_key_pair p (read member.heap t.private_key)).public_key
  pub member_knows :
      lookup t.owner_id t.member_pubs
      ≡ some (generate_key_pair p (read owner.heap s.private_key)).public_key
  pub length-owner_key : length (read owner.heap s.private_key) ≡ 32
  pub length-member_key : length (read member.heap t.private_key) ≡ 32

module _ (p : Primitives) (laws : Laws p) (random : ℕ → ℕ → Bytes) where
  -- Sealing fails only where X25519 refuses the public key.
  pub sealed_to-err :
      (s : Session) (their_pub : Bytes) (k : Ref) (cl : Client) (x : Error)
      → sealed_to p random s their_pub k cl ≡ err x
      → p.x25519_shared_secret (read cl.heap s.private_key) their_pub ≡ err x
  unfolding sealed_to seal_room_key pair_key
  sealed_to-err s their_pub k cl x h =
      elim (Result-cases (p.x25519_shared_secret (read cl.heap s.private_key) their_pub)) [
        | inl (shared, e) ↦ absurd (ground arith)
        | inr (y, e) ↦ ground arith
      ]

  -- The owner sends a room key of 32 bytes to a member with which it is paired, or X25519 refuses
  -- the member's public key and nothing is sent. What is sent makes the member, whatever else the
  -- message carries, add exactly that key to its own; the nonce drawn has 24 bytes.
  pub on_rekey-rekey_member :
      (id : Text) (k : Ref) (owner member : Client) (s t : Session) (msg : ServerMsg)
      → ArePaired p id owner member s t
      → length (random owner.drawn nonce_len) ≡ nonce_len
      → IsBytes (random owner.drawn nonce_len)
      → IsBytes (read owner.heap k)
      → length (read owner.heap k) ≡ key_len
      → ((x : Error) × (rekey_member p random id k owner ≡ (owner, err x))
          × (p.x25519_shared_secret
                (read owner.heap s.private_key)
                (generate_key_pair p (read member.heap t.private_key)).public_key
              ≡ err x))
        ⊎ ((env : Text) × (rekey_member p random id k owner
              ≡ (send (rekey id env) (record owner { drawn = suc owner.drawn }), ok tt))
            × (on_rekey p random (record msg { data_text = some env }) member
                ≡ add_key (read owner.heap k) member))
  unfolding rekey_member on_rekey sealed_to
  on_rekey-rekey_member id k owner member s t msg paired hn bn bk hk =
      let their_pub = (generate_key_pair p (read member.heap t.private_key)).public_key in
      let os = paired.owner_session in
      let ms = paired.member_session in
      let known = paired.owner_knows in
      let trusted = paired.member_knows in
      elim (Result-cases (sealed_to p random s their_pub k owner)) [
        | inl (env, sealed) ↦
            let opened =
              open_room_key-seal_room_key p laws (read owner.heap s.private_key)
                (read member.heap t.private_key) (random owner.drawn nonce_len) (read owner.heap k)
                env paired.length-owner_key paired.length-member_key hn bn bk hk sealed in
            inr (env, ground arith, ground arith)
        | inr (x, failed) ↦ inl (x, ground arith, sealed_to-err s their_pub k owner x failed)
      ]
