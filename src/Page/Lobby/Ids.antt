-- ===== src/Page/Lobby/Ids.antt =====
-- The ids that web/src/main.ts draws, `SESSION_ID` and `randomId`.
use e2eanon.Prelude.{
  ℕ, ◌*◌, ◌+◌, ◌/◌, ◌%◌, ◌<◌, ◌≤◌, ltb, ◌≡◌, ◌⊎◌, refl, ap, ap₂, [], ◌∷◌, All, Text, length, drop,
  true, arith, Bool-cases, inl, inr,
}
use e2eanon.Crypto.Base64url.{Bytes}
use e2eanon.Crypto.Primitives.{IsBytes}
use e2eanon.Client.Upload.{hex_digit, random_id}
use e2eanon.Page.Lobby.{session_id}

-- A digit of hexadecimal.
abbrev pub IsHex : ℕ → Type 0
IsHex c = ((b'0' ≤ c) × (c ≤ b'9')) ⊎ ((b'a' ≤ c) × (c ≤ b'f'))

hex_digit-IsHex : (n : ℕ) → n < 16 → IsHex (hex_digit n)
hex_digit-IsHex n h = elim (Bool-cases (ltb n 10)) [
  | inl digit ↦ rw digit (inl (omega arith, below n digit))
  | inr letter ↦ rw letter (inr (omega arith, omega arith))
]
  where
    below : (n : ℕ) → ltb n 10 ≡ true → b'0' + n ≤ b'9'
    below n e = ground arith

hex_digit-injective : (m n : ℕ) → m < 16 → n < 16 → hex_digit m ≡ hex_digit n → m ≡ n
hex_digit-injective m n h k e = ground arith

random_id-IsHex : (bytes : Bytes) → IsBytes bytes → All IsHex (random_id bytes)
unfolding random_id
random_id-IsHex [] h = tt
random_id-IsHex (b ∷ bytes) (small, h) = (
  hex_digit-IsHex (b / 16) (omega arith),
  (hex_digit-IsHex (b % 16) (omega arith), random_id-IsHex bytes h),
)

length-random_id : (bytes : Bytes) → length (random_id bytes) ≡ 2 * length bytes
unfolding random_id
length-random_id [] = omega arith
length-random_id (b ∷ bytes) = omega (arith, length-random_id bytes)

same_byte : (a b : ℕ) → a / 16 ≡ b / 16 → a % 16 ≡ b % 16 → a ≡ b
same_byte a b h k = omega arith

random_id-injective : (a b : Bytes) → IsBytes a → IsBytes b → random_id a ≡ random_id b → a ≡ b
unfolding random_id
random_id-injective [] [] h k e = refl
random_id-injective [] (y ∷ b) h k e = cc
random_id-injective (x ∷ a) [] h k e = cc
random_id-injective (x ∷ a) (y ∷ b) (hx, h) (hy, k) e =
    let e1 = ap (λ t. drop 2 t) e in
    let high : hex_digit (x / 16) ≡ hex_digit (y / 16) = ap (head_or 0) e in
    let low : hex_digit (x % 16) ≡ hex_digit (y % 16) = ap (λ t. head_or 0 (drop 1 t)) e in
    ap₂ (λ c cs. c ∷ cs)
      (same_byte x y (hex_digit-injective (x / 16) (y / 16) (omega arith) (omega arith) high)
        (hex_digit-injective (x % 16) (y % 16) (omega arith) (omega arith) low))
      (random_id-injective a b h k e1)
  where
    head_or : ℕ → Text → ℕ
    head_or d [] = d
    head_or d (c ∷ cs) = c

-- An id is two digits of hexadecimal for each byte.
pub session_id_lem :
    (bytes : Bytes)
    → IsBytes bytes
    → All IsHex (session_id bytes) × (length (session_id bytes) ≡ 2 * length bytes)
session_id_lem bytes h = (random_id-IsHex bytes h, length-random_id bytes)

-- Different bytes give different ids.
pub session_id-injective :
    (a b : Bytes) → IsBytes a → IsBytes b → session_id a ≡ session_id b → a ≡ b
session_id-injective a b h k e = random_id-injective a b h k e
