-- ===== src/Crypto/Envelope/Laws.antt =====
-- What `sealBytes`, `openBytes`, `encryptMessage` and `decryptMessage` promise.
use e2eanon.Prelude.{
  ◌+◌, ◌<◌, ◌≤◌, ◌≡◌, refl, ap, ap₂, sym, ◌∙◌, [], ◌∷◌, ◌++◌, length, take, drop, All-append,
  append_assoc, append-nil, take-append, take-append-drop, length-take, length-drop, drop-append,
  length-append, ok, ◌>>=◌, arith, >>=-eq-ok,
}
use e2eanon.Crypto.Base64url.{Bytes, Text, IsPadded, b64url_to_b64-b64_to_b64url}
use e2eanon.Crypto.Primitives.{Primitives, Laws, IsAscii, IsBytes, IsEncodable}
use e2eanon.Crypto.Envelope.{
  version, first_byte, nonce_len, tag_len, binary_string_from, char_codes, bytes_to_b64,
  b64_to_bytes, seal_bytes, open_buffer, open_bytes, encrypt_message, decrypt_message,
  bytes_to_b64url, b64url_to_bytes,
}

pub binary_string_from-append : (s : Text) (b : Bytes) → binary_string_from s b ≡ s ++ b
unfolding binary_string_from
binary_string_from-append s [] = sym (append-nil s)
binary_string_from-append s (x ∷ b) =
    binary_string_from-append (s ++ x ∷ []) b ∙ append_assoc s (x ∷ []) b

pub char_codes-bytes : (b : Bytes) → IsBytes b → char_codes b ≡ b
unfolding char_codes
char_codes-bytes [] h = refl
char_codes-bytes (x ∷ b) (p, h) = ground (arith, char_codes-bytes b h)

split_buffer :
    (buf : Bytes)
    → first_byte buf ≡ version
    → 1 + nonce_len + tag_len ≤ length buf
    → buf ≡ version ∷ take nonce_len (drop 1 buf) ++ drop (1 + nonce_len) buf
split_buffer [] first long = absurd (omega arith)
split_buffer (b ∷ buf) first long =
    ap₂ (λ x xs. x ∷ xs) first (sym (take-append-drop nonce_len buf))

module _ (p : Primitives) (laws : Laws p) where
  bytes_to_b64_lem : (b : Bytes) → bytes_to_b64 p b ≡ p.btoa b
  unfolding bytes_to_b64
  bytes_to_b64_lem b = ap p.btoa (binary_string_from-append [] b)

  b64_to_bytes-btoa : (b : Bytes) → IsBytes b → b64_to_bytes p (p.btoa b) ≡ ok b
  unfolding b64_to_bytes
  b64_to_bytes-btoa b h =
      ap (λ r. r >>= λ bin. ok (char_codes bin)) (laws.atob-btoa b h) ∙ ap ok (char_codes-bytes b h)

  pub b64_to_bytes-bytes_to_b64 : (b : Bytes) → IsBytes b → b64_to_bytes p (bytes_to_b64 p b) ≡ ok b
  b64_to_bytes-bytes_to_b64 b h = rw (bytes_to_b64_lem b) (b64_to_bytes-btoa b h)

  pub bytes_to_b64-IsPadded : (b : Bytes) → IsBytes b → IsPadded (bytes_to_b64 p b)
  bytes_to_b64-IsPadded b h = rw (bytes_to_b64_lem b) (laws.btoa-padded b h)

  pub bytes_to_b64-IsAscii : (b : Bytes) → IsBytes b → IsAscii (bytes_to_b64 p b)
  bytes_to_b64-IsAscii b h = rw (bytes_to_b64_lem b) (laws.btoa-ascii b h)

  -- Bytes come back from their base64url text.
  pub b64url_to_bytes-bytes_to_b64url :
      (b : Bytes) → IsBytes b → b64url_to_bytes p (bytes_to_b64url p b) ≡ ok b
  unfolding b64url_to_bytes bytes_to_b64url
  b64url_to_bytes-bytes_to_b64url b h =
      ap (b64_to_bytes p) (b64url_to_b64-b64_to_b64url _ (bytes_to_b64-IsPadded b h))
      ∙ b64_to_bytes-bytes_to_b64 b h

  open_buffer_sealed :
      (key nonce pt : Bytes)
      → length key ≡ 32
      → length nonce ≡ nonce_len
      → open_buffer p key (version ∷ nonce ++ p.aead_encrypt key nonce pt) ≡ ok pt
  unfolding open_buffer
  open_buffer_sealed key nonce pt hk hn =
      let ct = p.aead_encrypt key nonce pt in
      ground (
        arith,
        length-append nonce ct,
        laws.length-aead_encrypt key nonce pt hk hn,
        take-append nonce ct nonce_len hn,
        drop-append nonce ct nonce_len hn,
        laws.aead_decrypt-aead_encrypt key nonce pt hk hn,
      )

  -- Opening what was sealed under the same key gives the bytes back, whatever the nonce.
  pub open_bytes-seal_bytes :
      (key nonce pt : Bytes)
      → length key ≡ 32
      → length nonce ≡ nonce_len
      → IsBytes nonce
      → IsBytes pt
      → open_bytes p key (seal_bytes p key nonce pt) ≡ ok pt
  unfolding open_bytes seal_bytes
  open_bytes-seal_bytes key nonce pt hk hn bn bp =
      let bc = laws.aead_encrypt-bytes key nonce pt hk hn bp in
      let bb : IsBytes (version ∷ nonce ++ p.aead_encrypt key nonce pt) =
        (omega arith, All-append (λ b. b < 256) nonce _ bn bc) in
      ap (λ r. r >>= open_buffer p key) (b64_to_bytes-bytes_to_b64 _ bb)
      ∙ open_buffer_sealed key nonce pt hk hn

  open_buffer_sound :
      (key buf pt : Bytes)
      → open_buffer p key buf ≡ ok pt
      → (1 + nonce_len + tag_len ≤ length buf)
        × (first_byte buf ≡ version)
        × (p.aead_decrypt key (take nonce_len (drop 1 buf)) (drop (1 + nonce_len) buf) ≡ ok pt)
  unfolding open_buffer
  open_buffer_sound key buf pt h = ground arith

  -- An envelope is opened only if it decodes to at least 41 bytes, begins with the version, and
  -- its ciphertext is authentic under the key and the nonce that it carries.
  pub open_bytes_sound :
      (key : Bytes) (envelope : Text) (pt : Bytes)
      → open_bytes p key envelope ≡ ok pt
      → (nonce : Bytes) × (ct : Bytes) × (b64_to_bytes p envelope ≡ ok (version ∷ nonce ++ ct))
        × (length nonce ≡ nonce_len)
        × (tag_len ≤ length ct)
        × (p.aead_decrypt key nonce ct ≡ ok pt)
  unfolding open_bytes
  open_bytes_sound key envelope pt h =
      let (buf, decoded, opened) = >>=-eq-ok (b64_to_bytes p envelope) (open_buffer p key) h in
      let (long, first, authentic) = open_buffer_sound key buf pt opened in
      (
        take nonce_len (drop 1 buf),
        drop (1 + nonce_len) buf,
        decoded ∙ ap ok (split_buffer buf first long),
        omega (arith, length-take nonce_len (drop 1 buf), length-drop 1 buf),
        omega (arith, length-drop (1 + nonce_len) buf),
        authentic,
      )

  -- A message comes out of its envelope as it went in, under a key of 32 bytes and a nonce of 24, if
  -- its surrogates are paired and it does not start with a byte order mark.
  pub decrypt_message-encrypt_message :
      (key nonce : Bytes) (t : Text)
      → length key ≡ 32
      → length nonce ≡ nonce_len
      → IsBytes nonce
      → IsEncodable t
      → decrypt_message p key (encrypt_message p key nonce t) ≡ ok t
  unfolding decrypt_message encrypt_message
  decrypt_message-encrypt_message key nonce t hk hn bn h =
      ap (λ r. r >>= λ b. ok (p.utf8_decode b))
        (open_bytes-seal_bytes key nonce (p.utf8_encode t) hk hn bn (laws.utf8_encode-bytes t))
      ∙ ap ok (laws.utf8_decode-utf8_encode t h)
