-- ===== src/Crypto/KeyExchange/Laws.antt =====
-- What the wrapping of keys promises to the two ends of a handshake.
use e2eanon.Prelude.{
  ◌≡◌, ap, sym, ◌∙◌, [], length, ok, err, ◌>>=◌, >>=-eq-ok, ok-injective, ◌==◌, arith,
  if◌then◌else◌, invalid_key_length,
}
use e2eanon.Crypto.Base64url.{Bytes, Text, b64_to_b64url-ascii, b64url_to_b64-b64_to_b64url}
use e2eanon.Crypto.Primitives.{Primitives, Laws, IsBytes, IsEncodable, ascii-IsEncodable}
use e2eanon.Crypto.Envelope.{
  key_len, nonce_len, b64_to_bytes, encrypt_message, decrypt_message, bytes_to_b64url,
  b64url_to_bytes, key_to_string, key_from_string,
}
use e2eanon.Crypto.Envelope.Laws.{
  b64_to_bytes-bytes_to_b64, bytes_to_b64-IsPadded, bytes_to_b64-IsAscii,
  b64url_to_bytes-bytes_to_b64url, decrypt_message-encrypt_message,
}
use e2eanon.Crypto.KeyExchange.{
  keyx_info, rekey_info, generate_key_pair, seal_under_ke, open_under_ke, pair_key, seal_room_key,
  open_room_key,
}

module _ (p : Primitives) (laws : Laws p) where
  bytes_to_b64url-IsEncodable : (b : Bytes) → IsBytes b → IsEncodable (bytes_to_b64url p b)
  unfolding bytes_to_b64url
  bytes_to_b64url-IsEncodable b h =
      ascii-IsEncodable _ (b64_to_b64url-ascii _ (bytes_to_b64-IsAscii p laws b h))

  -- What is sealed under a shared secret, with a nonce of 24 bytes, is recovered by whoever holds the
  -- same secret.
  pub open_under_ke-seal_under_ke :
      (ke nonce bytes : Bytes)
      → length nonce ≡ nonce_len
      → IsBytes nonce
      → IsBytes bytes
      → open_under_ke p ke (seal_under_ke p ke nonce bytes) ≡ ok bytes
  unfolding open_under_ke seal_under_ke
  open_under_ke-seal_under_ke ke nonce bytes hn bn bb =
      ap (λ r. r >>= b64url_to_bytes p)
        (decrypt_message-encrypt_message p laws (p.hkdf ke [] keyx_info key_len) nonce
          (bytes_to_b64url p bytes) (laws.length-hkdf ke [] keyx_info key_len) hn bn
          (bytes_to_b64url-IsEncodable bytes bb))
      ∙ b64url_to_bytes-bytes_to_b64url p laws bytes bb

  key_to_string-IsEncodable : (k : Bytes) → IsBytes k → IsEncodable (key_to_string p k)
  unfolding key_to_string
  key_to_string-IsEncodable k h =
      ascii-IsEncodable _ (b64_to_b64url-ascii _ (bytes_to_b64-IsAscii p laws k h))

  check_length :
      (k : Bytes)
      → length k ≡ key_len
      → (if length k == key_len then ok k else err invalid_key_length) ≡ ok k
  check_length k h = ground arith

  checked_length :
      (bytes k : Bytes)
      → (if length bytes == key_len then ok bytes else err invalid_key_length) ≡ ok k
      → length k ≡ key_len
  checked_length bytes k h = ground arith

  -- A room key of 32 bytes comes back from its text form.
  pub key_from_string-key_to_string :
      (k : Bytes) → IsBytes k → length k ≡ key_len → key_from_string p (key_to_string p k) ≡ ok k
  unfolding key_from_string key_to_string
  key_from_string-key_to_string k b h =
      ap
        (λ s. b64_to_bytes p s >>= λ (k : Bytes).
          (if length k == key_len then ok k else err invalid_key_length))
        (b64url_to_b64-b64_to_b64url _ (bytes_to_b64-IsPadded p laws k b))
      ∙ ap
          (λ r. r >>= λ (k : Bytes). (if length k == key_len then ok k else err invalid_key_length))
          (b64_to_bytes-bytes_to_b64 p laws k b)
      ∙ check_length k h

  -- The two ends of an exchange derive the same wrapping key.
  pub pair_key_comm :
      (a b : Bytes)
      → length a ≡ 32
      → length b ≡ 32
      → pair_key p a (generate_key_pair p b).public_key
        ≡ pair_key p b (generate_key_pair p a).public_key
  unfolding pair_key generate_key_pair
  pair_key_comm a b ha hb =
      ap (λ r. r >>= λ shared. ok (p.hkdf shared [] rekey_info key_len))
        (laws.x25519_comm a b ha hb)

  length-pair_key : (a b k : Bytes) → pair_key p a b ≡ ok k → length k ≡ 32
  unfolding pair_key
  length-pair_key a b k h =
      let (shared, _, e) = >>=-eq-ok (p.x25519_shared_secret a b) _ h in
      rw (← ok-injective e) (laws.length-hkdf shared [] rekey_info key_len)

  open_with :
      (k nonce room_key : Bytes)
      → length k ≡ 32
      → length nonce ≡ nonce_len
      → IsBytes nonce
      → IsBytes room_key
      → length room_key ≡ key_len
      → (decrypt_message p k (encrypt_message p k nonce (key_to_string p room_key))
          >>= key_from_string p)
        ≡ ok room_key
  open_with k nonce room_key hk hn bn br hr =
      ap (λ r. r >>= key_from_string p)
        (decrypt_message-encrypt_message p laws k nonce (key_to_string p room_key) hk hn bn
          (key_to_string-IsEncodable room_key br))
      ∙ key_from_string-key_to_string room_key br hr

  -- If sealing a room key of 32 bytes to a member's public key succeeds, then the member opens that
  -- key with its own private key and the owner's public key; private keys have 32 bytes, the nonce 24.
  pub open_room_key-seal_room_key :
      (owner_priv member_priv nonce room_key : Bytes) (env : Text)
      → length owner_priv ≡ 32
      → length member_priv ≡ 32
      → length nonce ≡ nonce_len
      → IsBytes nonce
      → IsBytes room_key
      → length room_key ≡ key_len
      → seal_room_key p owner_priv (generate_key_pair p member_priv).public_key nonce room_key
        ≡ ok env
      → open_room_key p member_priv (generate_key_pair p owner_priv).public_key env ≡ ok room_key
  unfolding seal_room_key open_room_key
  open_room_key-seal_room_key a b nonce room_key env ha hb hn bn br hr h =
      let (k, derived, sealed) = >>=-eq-ok (pair_key p a (generate_key_pair p b).public_key) _ h in
      ap (λ r. r >>= λ k. (decrypt_message p k env >>= key_from_string p))
        (pair_key_comm b a hb ha ∙ derived)
      ∙ ap (λ e. decrypt_message p k e >>= key_from_string p) (sym (ok-injective sealed))
      ∙ open_with k nonce room_key (length-pair_key a _ k derived) hn bn br hr

  -- A room key that has been opened has 32 bytes, whatever the envelope was.
  pub length-open_room_key :
      (priv pub_key : Bytes) (env : Text) (k : Bytes)
      → open_room_key p priv pub_key env ≡ ok k
      → length k ≡ key_len
  unfolding open_room_key key_from_string
  length-open_room_key priv pub_key env k h =
      let (w, _, opened) = >>=-eq-ok (pair_key p priv pub_key) _ h in
      let (s, _, parsed) = >>=-eq-ok (decrypt_message p w env) (key_from_string p) opened in
      let (bytes, _, checked) = >>=-eq-ok (b64_to_bytes p _) _ parsed in
      checked_length bytes k checked
