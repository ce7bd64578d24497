-- ===== src/Crypto/Envelope.antt =====
-- The message envelopes and the key texts of web/src/crypto.ts. Each function takes the primitives,
-- and `seal_bytes` the nonce that the source draws at random.
pub mod Laws
use Prim.Native.Char.{code}
use Prim.Native.String.{String}
use e2eanon.Prelude.{
  ℕ, ◌+◌, ◌%◌, ◌≡◌, List, [], ◌∷◌, ◌++◌, map, length, take, drop, Result, ok, err, ◌>>=◌, Option,
  invalid_key_length, ciphertext_too_short, unsupported_version, ltb, ◌==◌, if◌then◌else◌, not,
}
use e2eanon.Crypto.Base64url.{Bytes, Text, b64_to_b64url, b64url_to_b64}
use e2eanon.Crypto.Primitives.{Primitives}

abbrev pub version : ℕ
version = 1

abbrev pub key_len : ℕ
key_len = 32

abbrev pub nonce_len : ℕ
nonce_len = 24

abbrev pub tag_len : ℕ
tag_len = 16

-- The UTF-8 bytes of an ASCII label.
abbrev pub codes : String → Bytes
codes String.[] = []
codes (String.◌∷◌ c s) = code c ∷ codes s

abbrev keyid_info : Bytes
keyid_info = codes "anonchat-keyid-v1"

-- The loop of `bytesToB64`: `s += String.fromCharCode(b[i])`.
unfoldable pub binary_string_from : Text → Bytes → Text
binary_string_from s [] = s
binary_string_from s (b ∷ bs) = binary_string_from (s ++ b ∷ []) bs

-- The loop of `b64ToBytes`: a byte array keeps a code unit modulo 256.
unfoldable pub char_codes : Text → Bytes
char_codes = map (λ c. c % 256)

-- `buf[0]`, past the check of the length.
abbrev first_byte : Bytes → ℕ
first_byte [] = 0
first_byte (b ∷ bs) = b

module _ (p : Primitives) where
  open p use {btoa, atob, utf8_encode, utf8_decode, aead_encrypt, aead_decrypt, hkdf}
  open p use {x25519_public_key, x25519_shared_secret}

  unfoldable pub bytes_to_b64 : Bytes → Text
  unfolding binary_string_from
  bytes_to_b64 b = btoa (binary_string_from [] b)

  unfoldable pub b64_to_bytes : Text → Result Bytes
  unfolding char_codes
  b64_to_bytes s = do bin ← atob s; ok (char_codes bin)

  unfoldable pub seal_bytes : Bytes → Bytes → Bytes → Text
  seal_bytes key nonce pt = bytes_to_b64 (version ∷ nonce ++ aead_encrypt key nonce pt)

  open_buffer : Bytes → Bytes → Result Bytes
  open_buffer key buf =
      if ltb (length buf) (1 + nonce_len + tag_len)
      then err ciphertext_too_short
      else if not (first_byte buf == version)
      then err (unsupported_version (first_byte buf))
      else aead_decrypt key (take nonce_len (drop 1 buf)) (drop (1 + nonce_len) buf)

  unfoldable pub open_bytes : Bytes → Text → Result Bytes
  unfolding open_buffer
  open_bytes key envelope = do buf ← b64_to_bytes envelope; open_buffer key buf

  unfoldable pub encrypt_message : Bytes → Bytes → Text → Text
  encrypt_message key nonce plaintext = seal_bytes key nonce (utf8_encode plaintext)

  unfoldable pub decrypt_message : Bytes → Text → Result Text
  decrypt_message key envelope = do b ← open_bytes key envelope; ok (utf8_decode b)

  unfoldable pub bytes_to_b64url : Bytes → Text
  bytes_to_b64url b = b64_to_b64url (bytes_to_b64 b)

  unfoldable pub b64url_to_bytes : Text → Result Bytes
  b64url_to_bytes s = b64_to_bytes (b64url_to_b64 s)

  unfoldable pub key_to_string : Bytes → Text
  key_to_string key = b64_to_b64url (bytes_to_b64 key)

  unfoldable pub key_from_string : Text → Result Bytes
  key_from_string s = do
    k ← b64_to_bytes (b64url_to_b64 s)
    if length k == key_len then ok k else err invalid_key_length

  -- The tag of a key's epoch: eight bytes of HKDF.
  unfoldable pub key_id : Bytes → Text
  key_id key = bytes_to_b64url (hkdf key [] keyid_info 8)
