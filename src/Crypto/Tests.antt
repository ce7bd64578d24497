-- ===== src/Crypto/Tests.antt =====
-- web/src/crypto.ts at concrete inputs, over the stand-ins of `Samples`.
use e2eanon.Prelude.{
  ◌+◌, ◌*◌, ◌%◌, ◌≤◌, ◌≡◌, refl, [], ◌∷◌, ◌++◌, length, replicate, ok, err, unsupported_version,
  ciphertext_too_short, authentication_failed, Text, text_eq, arith,
}
use e2eanon.Samples.Browser.{browser, browser-Laws}
use e2eanon.Crypto.Base64url.{
  Bytes, IsPadded, b64_to_b64url, b64url_to_b64, b64url_to_b64-b64_to_b64url,
}
use e2eanon.Crypto.Primitives.{IsBytes, ascii-IsEncodable}
use e2eanon.Crypto.Envelope.{
  version, nonce_len, tag_len, codes, b64_to_bytes, seal_bytes, open_bytes, encrypt_message,
  decrypt_message, key_to_string, bytes_to_b64,
}
use e2eanon.Crypto.Envelope.Laws.{
  open_bytes-seal_bytes, open_bytes_sound, decrypt_message-encrypt_message,
}
use e2eanon.Crypto.KeyExchange.{
  generate_key_pair, seal_under_ke, open_under_ke, pair_key, seal_room_key, open_room_key,
}
use e2eanon.Crypto.KeyExchange.Laws.{open_under_ke-seal_under_ke, open_room_key-seal_room_key}

-- "+/8=" and back.
url_safe : b64_to_b64url (codes "a+/8==") ≡ codes "a-_8"
unfolding b64_to_b64url
url_safe = refl

url_back : b64url_to_b64 (codes "a-_8bc") ≡ codes "a+/8bc=="
unfolding b64url_to_b64
url_back = refl

abbrev padded : Text
padded = codes "a+/8bc=="

padded-IsPadded : IsPadded padded
padded-IsPadded = record { body = codes "a+/8bc"; plain = omega arith; filled = refl }

b64url_to_b64-b64_to_b64url_example : b64url_to_b64 (b64_to_b64url padded) ≡ padded
b64url_to_b64-b64_to_b64url_example = b64url_to_b64-b64_to_b64url padded padded-IsPadded

abbrev key : Bytes
key = replicate 32 7

abbrev other_key : Bytes
other_key = replicate 32 9

abbrev nonce : Bytes
nonce = replicate 24 5

key-IsBytes : IsBytes key
key-IsBytes = omega arith

nonce-IsBytes : IsBytes nonce
nonce-IsBytes = omega arith

abbrev envelope : Text
envelope = seal_bytes browser key nonce (1 ∷ 2 ∷ 3 ∷ [])

opens : open_bytes browser key envelope ≡ ok (1 ∷ 2 ∷ 3 ∷ [])
opens =
    open_bytes-seal_bytes browser browser-Laws key nonce (1 ∷ 2 ∷ 3 ∷ []) refl refl nonce-IsBytes
      (omega arith)

other_key_refused : open_bytes browser other_key envelope ≡ err authentication_failed
unfolding open_bytes seal_bytes bytes_to_b64 b64_to_bytes text_eq
other_key_refused = refl

short_refused : open_bytes browser key (bytes_to_b64 browser (1 ∷ nonce)) ≡ err ciphertext_too_short
unfolding open_bytes bytes_to_b64 b64_to_bytes
short_refused = refl

version_refused :
    open_bytes browser key (bytes_to_b64 browser (2 ∷ nonce ++ nonce)) ≡ err (unsupported_version 2)
unfolding open_bytes bytes_to_b64 b64_to_bytes
version_refused = refl

open_bytes_sound_example :
    (n : Bytes) × (ct : Bytes) × (b64_to_bytes browser envelope ≡ ok (version ∷ n ++ ct))
    × (length n ≡ nonce_len)
    × (tag_len ≤ length ct)
    × (browser.aead_decrypt key n ct ≡ ok (1 ∷ 2 ∷ 3 ∷ []))
open_bytes_sound_example = open_bytes_sound browser browser-Laws key envelope (1 ∷ 2 ∷ 3 ∷ []) opens

decrypt_message-encrypt_message_example :
    decrypt_message browser key (encrypt_message browser key nonce (codes "hello"))
    ≡ ok (codes "hello")
decrypt_message-encrypt_message_example =
    decrypt_message-encrypt_message browser browser-Laws key nonce (codes "hello") refl refl
      nonce-IsBytes (ascii-IsEncodable (codes "hello") (omega arith))

open_under_ke-seal_under_ke_example :
    open_under_ke browser (8 ∷ 9 ∷ []) (seal_under_ke browser (8 ∷ 9 ∷ []) nonce key) ≡ ok key
open_under_ke-seal_under_ke_example =
    open_under_ke-seal_under_ke browser browser-Laws (8 ∷ 9 ∷ []) nonce key refl nonce-IsBytes
      key-IsBytes

-- The room key `nonce`-sealed by the holder of `key` for the holder of `other_key`.
abbrev room_key : Bytes
room_key = replicate 32 200

abbrev wrapping_key : Bytes
wrapping_key = replicate 32 ((32 * 7 + 32 * 9) % 256)

abbrev wrapped : Text
wrapped = encrypt_message browser wrapping_key nonce (key_to_string browser room_key)

wraps :
    seal_room_key browser key (generate_key_pair browser other_key).public_key nonce room_key
    ≡ ok wrapped
unfolding seal_room_key generate_key_pair pair_key
wraps = refl

open_room_key-seal_room_key_example :
    open_room_key browser other_key (generate_key_pair browser key).public_key wrapped ≡ ok room_key
open_room_key-seal_room_key_example =
    open_room_key-seal_room_key browser browser-Laws key other_key nonce room_key wrapped refl refl
      refl nonce-IsBytes (omega arith) refl wraps
