-- ===== src/Crypto/KeyExchange.antt =====
-- The wrapping of public keys and room keys in web/src/crypto.ts. What the source draws at random,
-- a private key or a nonce, is an argument.
pub mod Laws
use e2eanon.Prelude.{ℕ, [], Result, ok, ◌>>=◌}
use e2eanon.Crypto.Base64url.{Bytes, Text}
use e2eanon.Crypto.Primitives.{Primitives}
use e2eanon.Crypto.Envelope.{
  key_len, codes, encrypt_message, decrypt_message, bytes_to_b64url, b64url_to_bytes, key_to_string,
  key_from_string,
}

pub record KeyPair : Type 0 where
  pub public_key : Bytes
  pub private_key : Bytes

abbrev pub keyx_info : Bytes
keyx_info = codes "anonchat-keyx-v1"

abbrev pub rekey_info : Bytes
rekey_info = codes "anonchat-rekey-v1"

module _ (p : Primitives) where
  open p use {hkdf, x25519_public_key, x25519_shared_secret}

  unfoldable pub generate_key_pair : Bytes → KeyPair
  generate_key_pair priv = record { public_key = x25519_public_key priv; private_key = priv }

  unfoldable pub seal_under_ke : Bytes → Bytes → Bytes → Text
  seal_under_ke ke nonce bytes =
      encrypt_message p (hkdf ke [] keyx_info key_len) nonce (bytes_to_b64url p bytes)

  unfoldable pub open_under_ke : Bytes → Text → Result Bytes
  open_under_ke ke env = do
    s ← decrypt_message p (hkdf ke [] keyx_info key_len) env
    b64url_to_bytes p s

  unfoldable pub pair_key : Bytes → Bytes → Result Bytes
  pair_key my_priv their_pub = do
    shared ← x25519_shared_secret my_priv their_pub
    ok (hkdf shared [] rekey_info key_len)

  unfoldable pub seal_room_key : Bytes → Bytes → Bytes → Bytes → Result Text
  seal_room_key my_priv their_pub nonce room_key = do
    k ← pair_key my_priv their_pub
    ok (encrypt_message p k nonce (key_to_string p room_key))

  unfoldable pub open_room_key : Bytes → Bytes → Text → Result Bytes
  open_room_key my_priv their_pub env = do
    k ← pair_key my_priv their_pub
    s ← decrypt_message p k env
    key_from_string p s
