-- ===== src/Samples/Browser.antt =====
-- Stand-ins for btoa, atob, UTF-8, the cipher, HKDF and X25519, with their laws.
use e2eanon.Prelude.{
  ℕ, zero, suc, ◌+◌, ◌-◌, ◌*◌, ◌/◌, ◌%◌, ◌<◌, ◌≡◌, refl, ap, ap₂, sym, ◌∙◌, [], ◌∷◌, ◌++◌,
  append-nil, length, length-append, length-replicate, take, drop, take-append, drop-append,
  replicate, All, All-append, Result, ok, err, invalid_base64, authentication_failed, Text, text_eq,
  text_eq_refl, if◌then◌else◌, arith, ◌>>=◌,
}
use native.Mathlib.Nat.{add_comm}
use e2eanon.Crypto.Base64url.{Bytes, IsPadded, IsBody, pad_length}
use e2eanon.Crypto.Primitives.{Primitives, Laws, IsBytes, IsAscii}

-- Four characters for each byte.
abbrev pub nibbles : Text → Text
nibbles [] = []
nibbles (c ∷ s) = (65 + c / 16) ∷ (65 + c % 16) ∷ 65 ∷ 65 ∷ nibbles s

abbrev pub from_nibbles : Text → Result Text
from_nibbles [] = ok []
from_nibbles (a ∷ b ∷ c ∷ d ∷ s) = do r ← from_nibbles s; ok (((a - 65) * 16 + (b - 65)) ∷ r)
from_nibbles _ = err invalid_base64

nibbles-IsBody : (s : Text) → IsBytes s → All IsBody (nibbles s)
nibbles-IsBody [] h = tt
nibbles-IsBody (c ∷ s) (p, h) =
    (omega arith, (omega arith, (omega arith, (omega arith, nibbles-IsBody s h))))

length-nibbles : (s : Text) → length (nibbles s) % 4 ≡ 0
length-nibbles [] = refl
length-nibbles (c ∷ s) = omega (arith, length-nibbles s)

nibbles-IsPadded : (s : Text) → IsBytes s → IsPadded (nibbles s)
nibbles-IsPadded s h = record {
  body = nibbles s;
  plain = nibbles-IsBody s h;
  filled = sym (
      ap (λ k. nibbles s ++ replicate k b'=') (no_pad (length (nibbles s)) (length-nibbles s))
      ∙ append-nil (nibbles s));
}
  where
    no_pad : (n : ℕ) → n % 4 ≡ 0 → pad_length n ≡ 0
    no_pad n e = ground arith

nibbles-IsAscii : (s : Text) → IsBytes s → IsAscii (nibbles s)
nibbles-IsAscii [] h = tt
nibbles-IsAscii (c ∷ s) (p, h) =
    (omega arith, (omega arith, (omega arith, (omega arith, nibbles-IsAscii s h))))

from_nibbles-nibbles : (s : Text) → IsBytes s → from_nibbles (nibbles s) ≡ ok s
from_nibbles-nibbles [] h = refl
from_nibbles-nibbles (c ∷ s) (p, h) =
    rw (from_nibbles-nibbles s h) (ap (λ x. ok (x ∷ s)) (omega arith))

-- Two bytes for each code unit.
abbrev pub halves : Text → Bytes
halves [] = []
halves (c ∷ s) = (c / 256 % 256) ∷ (c % 256) ∷ halves s

abbrev pub from_halves : Bytes → Text
from_halves (a ∷ b ∷ s) = (a * 256 + b) ∷ from_halves s
from_halves _ = []

halves-IsBytes : (s : Text) → IsBytes (halves s)
halves-IsBytes [] = tt
halves-IsBytes (c ∷ s) = (omega arith, (omega arith, halves-IsBytes s))

from_halves-halves : (s : Text) → All (λ c. c < 0x10000) s → from_halves (halves s) ≡ s
from_halves-halves [] h = refl
from_halves-halves (c ∷ s) (p, h) = ap₂ (λ x xs. x ∷ xs) (omega arith) (from_halves-halves s h)

abbrev pub total : Bytes → ℕ
total [] = 0
total (b ∷ bs) = b + total bs

-- The tag depends on the key and on the nonce.
abbrev pub tag : Bytes → Bytes → Bytes
tag k n = replicate 16 ((total k + 3 * total n) % 256)

length-tag : (k n : Bytes) → length (tag k n) ≡ 16
length-tag k n = length-replicate 16 ((total k + 3 * total n) % 256)

pub replicate-IsBytes : (k v : ℕ) → v < 256 → IsBytes (replicate k v)
replicate-IsBytes zero v h = tt
replicate-IsBytes (suc k) v h = (h, replicate-IsBytes k v h)

tag-bytes : (k n : Bytes) → IsBytes (tag k n)
tag-bytes k n = replicate-IsBytes 16 _ (omega arith)

abbrev pub unseal : Bytes → Bytes → Bytes → Result Bytes
unseal k n ct =
    if text_eq (drop (length ct - 16) ct) (tag k n)
    then ok (take (length ct - 16) ct)
    else err authentication_failed

unseal_lem : (k n m : Bytes) → unseal k n (m ++ tag k n) ≡ ok m
unseal_lem k n m =
    let size : length m ≡ length (m ++ tag k n) - 16 =
      omega (arith, length-append m (tag k n), length-tag k n) in
    rw (take-append m (tag k n) _ size, drop-append m (tag k n) _ size, text_eq_refl (tag k n))

abbrev pub browser : Primitives
browser = record {
  btoa = nibbles;
  atob = from_nibbles;
  utf8_encode = halves;
  utf8_decode = from_halves;
  aead_encrypt = λ k n m. m ++ tag k n;
  aead_decrypt = unseal;
  hkdf = λ k s i n. replicate n (total k % 256);
  x25519_public_key = λ priv. priv;
  x25519_shared_secret = λ a b. ok (((total a + total b) % 256) ∷ []);
}

pub browser-Laws : Laws browser
browser-Laws = record {
  btoa-padded = nibbles-IsPadded;
  btoa-ascii = nibbles-IsAscii;
  atob-btoa = from_nibbles-nibbles;
  utf8_encode-bytes = halves-IsBytes;
  utf8_decode-utf8_encode = λ t h. from_halves-halves t h.units;
  aead_encrypt-bytes = λ k n m hk hn h. All-append (λ b. b < 256) m (tag k n) h (tag-bytes k n);
  length-aead_encrypt =
      λ k n m hk hn. length-append m (tag k n) ∙ ap (λ j. length m + j) (length-tag k n);
  aead_decrypt-aead_encrypt = λ k n m hk hn. unseal_lem k n m;
  length-hkdf = λ k s i n. length-replicate n _;
  x25519_comm = λ a b ha hb. ap (λ x. ok ((x % 256) ∷ [])) (add_comm (total a) (total b));
}
