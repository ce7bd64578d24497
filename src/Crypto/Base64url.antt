-- ===== src/Crypto/Base64url.antt =====
-- The conversions between base64 and unpadded base64url of web/src/crypto.ts. A text is the list of
-- its UTF-16 code units.
pub use e2eanon.Prelude.{Text}
use e2eanon.Prelude.{
  ℕ, zero, suc, ◌-◌, ◌%◌, ◌<◌, ◌≡◌, refl, ap, ap₂, ◌≢◌, sym, ◌∙◌, Bool, true, false, ◌&&◌, List, [],
  ◌∷◌, ◌++◌, map, map-append, arith, length, replicate, All, ◌==◌, ==_iff, if◌then◌else◌,
  Bool-cases, inl, inr,
}

abbrev pub Bytes : Type 0
Bytes = List ℕ

-- `s.replace(/c/g, d)` for single characters.
unfoldable pub replace_all : ℕ → ℕ → Text → Text
replace_all c d = map (λ x. if x == c then d else x)

abbrev is_empty : Text → Bool
is_empty [] = true
is_empty (x ∷ xs) = false

-- `s.replace(/c+$/, "")`: the longest run of c at the end goes.
unfoldable pub strip_end : ℕ → Text → Text
strip_end c [] = []
strip_end c (x ∷ xs) = let rest = strip_end c xs in if is_empty rest && x == c then [] else x ∷ rest

unfoldable pub b64_to_b64url : Text → Text
unfolding replace_all strip_end
b64_to_b64url s = strip_end b'=' (replace_all b'/' b'_' (replace_all b'+' b'-' s))

-- The number of `=` that fill the last group of four.
abbrev pub pad_length : ℕ → ℕ
pad_length n = if n % 4 == 0 then 0 else 4 - n % 4

unfoldable pub b64url_to_b64 : Text → Text
unfolding replace_all
b64url_to_b64 s =
    let t = replace_all b'_' b'/' (replace_all b'-' b'+' s) in
    t ++ replicate (pad_length (length t)) b'='

-- A character of the body of a base64 text, as far as these conversions see it.
abbrev pub IsBody : ℕ → Type 0
IsBody c = (c ≢ b'-') × (c ≢ b'_') × (c ≢ b'=')

-- What `btoa` returns: a body, and the `=` that fill its last group.
pub record IsPadded (s : Text) : Type 0 where
  pub body : Text
  pub plain : All IsBody body
  pub filled : s ≡ body ++ replicate (pad_length (length body)) b'='

strip_end_all : (c k : ℕ) → strip_end c (replicate k c) ≡ []
unfolding strip_end
strip_end_all c zero = refl
strip_end_all c (suc k) = ground (arith, strip_end_all c k, (==_iff c c).1)

-- A body loses its padding and nothing else.
strip_end-append :
    (c : ℕ) (body tail : Text)
    → All (λ x. x ≢ c) body
    → strip_end c tail ≡ []
    → strip_end c (body ++ tail) ≡ body
unfolding strip_end
strip_end-append c [] tail h e = e
strip_end-append c (x ∷ body) tail (p, h) e =
    ground (arith, strip_end-append c body tail h e, (==_iff x c).0)

to_url : Text → Text
unfolding replace_all
to_url s = replace_all b'/' b'_' (replace_all b'+' b'-' s)

from_url : Text → Text
unfolding replace_all
from_url s = replace_all b'_' b'/' (replace_all b'-' b'+' s)

from_url-to_url : (s : Text) → All IsBody s → from_url (to_url s) ≡ s
unfolding from_url to_url
from_url-to_url [] h = refl
from_url-to_url (x ∷ s) (p, h) = ap₂ (λ y ys. y ∷ ys) (ground arith) (from_url-to_url s h)

to_url-append : (s t : Text) → to_url (s ++ t) ≡ to_url s ++ to_url t
unfolding to_url replace_all
to_url-append s t = simp map-append

to_url-replicate : (k : ℕ) → to_url (replicate k b'=') ≡ replicate k b'='
unfolding to_url
to_url-replicate zero = refl
to_url-replicate (suc k) = ap (λ r. b'=' ∷ r) (to_url-replicate k)

to_url-All : (s : Text) → All IsBody s → All (λ x. x ≢ b'=') (to_url s)
unfolding to_url
to_url-All [] h = tt
to_url-All (x ∷ s) (p, h) = (ground arith, to_url-All s h)

b64_to_b64url_padded :
    (body : Text) (k : ℕ) → All IsBody body → b64_to_b64url (body ++ replicate k b'=') ≡ to_url body
unfolding b64_to_b64url to_url
b64_to_b64url_padded body k h =
    ap (strip_end b'=')
      (to_url-append body (replicate k b'=') ∙ ap (λ r. to_url body ++ r) (to_url-replicate k))
    ∙ strip_end-append b'=' (to_url body) (replicate k b'=') (to_url-All body h)
        (strip_end_all b'=' k)

b64url_to_b64_body :
    (body : Text)
    → All IsBody body
    → b64url_to_b64 (to_url body) ≡ body ++ replicate (pad_length (length body)) b'='
unfolding b64url_to_b64 from_url
b64url_to_b64_body body h =
    ap (λ (t : Text). t ++ replicate (pad_length (length t)) b'=') (from_url-to_url body h)

-- Going to base64url and back restores every text that base64 encoding can produce.
pub b64url_to_b64-b64_to_b64url : (s : Text) → IsPadded s → b64url_to_b64 (b64_to_b64url s) ≡ s
b64url_to_b64-b64_to_b64url s h =
    ap (λ t. b64url_to_b64 (b64_to_b64url t)) h.filled
    ∙ ap b64url_to_b64 (b64_to_b64url_padded h.body _ h.plain)
    ∙ b64url_to_b64_body h.body h.plain
    ∙ sym h.filled

to_url_safe : (t : Text) → All IsBody t → All (λ c. (c ≢ b'+') × (c ≢ b'/') × (c ≢ b'=')) (to_url t)
unfolding to_url
to_url_safe [] k = tt
to_url_safe (x ∷ t) (p, k) = (ground arith, to_url_safe t k)

-- The base64url form of an encoded text has no `+`, `/` or `=`, so it can stand in a URL fragment.
pub b64_to_b64url-All :
    (s : Text) → IsPadded s → All (λ c. (c ≢ b'+') × (c ≢ b'/') × (c ≢ b'=')) (b64_to_b64url s)
b64_to_b64url-All s h =
    rw (h.filled, b64_to_b64url_padded h.body (pad_length (length h.body)) h.plain)
      (to_url_safe h.body h.plain)

-- Both directions keep a text within ASCII.
replace_all-ascii :
    (c d : ℕ) (s : Text) → d < 128 → All (λ x. x < 128) s → All (λ x. x < 128) (replace_all c d s)
unfolding replace_all
replace_all-ascii c d [] h k = tt
replace_all-ascii c d (x ∷ s) h (p, k) = (ground arith, replace_all-ascii c d s h k)

strip_end-All {κ} : (P : ℕ → Type κ) (c : ℕ) (s : Text) → All P s → All P (strip_end c s)
unfolding strip_end
strip_end-All P c [] h = tt
strip_end-All P c (x ∷ s) (p, h) = elim (Bool-cases (is_empty (strip_end c s) && x == c)) [
  | inl gone ↦ rw gone tt
  | inr kept ↦ rw kept (p, strip_end-All P c s h)
]

pub b64_to_b64url-ascii : (s : Text) → All (λ x. x < 128) s → All (λ x. x < 128) (b64_to_b64url s)
unfolding b64_to_b64url
b64_to_b64url-ascii s h =
    strip_end-All (λ x. x < 128) b'=' _
      (replace_all-ascii b'/' b'_' _ (omega arith) (replace_all-ascii b'+' b'-' s (omega arith) h))
