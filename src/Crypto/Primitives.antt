-- ===== src/Crypto/Primitives.antt =====
-- What web/src/crypto.ts takes from the browser (btoa, atob, TextEncoder, TextDecoder) and from the
-- noble packages (XChaCha20-Poly1305, HKDF over SHA-256, X25519), and what it relies on of them.
use e2eanon.Prelude.{
  ℕ, ◌+◌, ◌<◌, ◌≡◌, refl, Bool, true, false, not, ◌&&◌, [], ◌∷◌, length, All, All-map, Result, ok,
  ltb, leb, ◌==◌, arith,
}
use e2eanon.Crypto.Base64url.{Bytes, Text, IsPadded}

abbrev pub IsBytes : Bytes → Type 0
IsBytes = All (λ b. b < 256)

abbrev pub IsAscii : Text → Type 0
IsAscii = All (λ c. c < 128)

pub record Primitives : Type 0 where
  pub btoa : Text → Text
  pub atob : Text → Result Text
  pub utf8_encode : Text → Bytes
  pub utf8_decode : Bytes → Text
  -- Key, nonce, then the text; the ciphertext ends in its tag.
  pub aead_encrypt : Bytes → Bytes → Bytes → Bytes
  pub aead_decrypt : Bytes → Bytes → Bytes → Result Bytes
  -- Input key, salt, info, and the number of bytes wanted.
  pub hkdf : Bytes → Bytes → Bytes → ℕ → Bytes
  pub x25519_public_key : Bytes → Bytes
  pub x25519_shared_secret : Bytes → Bytes → Result Bytes

abbrev is_high_surrogate : ℕ → Bool
is_high_surrogate c = leb 0xd800 c && ltb c 0xdc00

abbrev is_low_surrogate : ℕ → Bool
is_low_surrogate c = leb 0xdc00 c && ltb c 0xe000

-- Every surrogate stands in a pair; the flag says that a low one has to follow.
pub is_well_formed_from : Bool → Text → Bool
is_well_formed_from pending [] = not pending
is_well_formed_from true (c ∷ s) = is_low_surrogate c && is_well_formed_from false s
is_well_formed_from false (c ∷ s) =
    not (is_low_surrogate c) && is_well_formed_from (is_high_surrogate c) s

-- `TextDecoder` drops a byte order mark at the start of its input.
pub has_bom : Text → Bool
has_bom [] = false
has_bom (c ∷ s) = c == 0xfeff

-- The texts that UTF-8 carries over unchanged.
pub record IsEncodable (t : Text) : Type 0 where
  pub units : All (λ c. c < 0x10000) t
  pub well_formed : is_well_formed_from false t ≡ true
  pub unmarked : has_bom t ≡ false

-- The documented behaviour of these functions.
pub record Laws (p : Primitives) : Type 0 where
  pub btoa-padded : (b : Bytes) → IsBytes b → IsPadded (p.btoa b)
  pub btoa-ascii : (b : Bytes) → IsBytes b → IsAscii (p.btoa b)
  pub atob-btoa : (b : Bytes) → IsBytes b → p.atob (p.btoa b) ≡ ok b
  pub utf8_encode-bytes : (t : Text) → IsBytes (p.utf8_encode t)
  pub utf8_decode-utf8_encode : (t : Text) → IsEncodable t → p.utf8_decode (p.utf8_encode t) ≡ t
  pub length-hkdf : (k s i : Bytes) (n : ℕ) → length (p.hkdf k s i n) ≡ n
  -- The cipher takes keys of 32 bytes and nonces of 24.
  pub aead_encrypt-bytes :
      (k n m : Bytes) → length k ≡ 32 → length n ≡ 24 → IsBytes m → IsBytes (p.aead_encrypt k n m)
  pub length-aead_encrypt :
      (k n m : Bytes)
      → length k ≡ 32
      → length n ≡ 24
      → length (p.aead_encrypt k n m) ≡ length m + 16
  pub aead_decrypt-aead_encrypt :
      (k n m : Bytes)
      → length k ≡ 32
      → length n ≡ 24
      → p.aead_decrypt k n (p.aead_encrypt k n m) ≡ ok m
  -- Diffie and Hellman: both ends compute the same secret.
  pub x25519_comm :
      (a b : Bytes)
      → length a ≡ 32
      → length b ≡ 32
      → p.x25519_shared_secret a (p.x25519_public_key b)
        ≡ p.x25519_shared_secret b (p.x25519_public_key a)

is_well_formed_ascii : (t : Text) → IsAscii t → is_well_formed_from false t ≡ true
unfolding is_well_formed_from
is_well_formed_ascii [] h = refl
is_well_formed_ascii (c ∷ t) (p, h) = ground (arith, is_well_formed_ascii t h)

has_bom_ascii : (t : Text) → IsAscii t → has_bom t ≡ false
unfolding has_bom
has_bom_ascii [] h = refl
has_bom_ascii (c ∷ t) (p, h) = ground arith

pub ascii-IsEncodable : (t : Text) → IsAscii t → IsEncodable t
ascii-IsEncodable t h = record {
  units = All-map _ _ t (λ c p. omega arith) h;
  well_formed = is_well_formed_ascii t h;
  unmarked = has_bom_ascii t h;
}
