-- ===== src/Spake2/Bytes/Numbers.antt =====
-- Numbers and their bytes.
use native.Mathlib.Nat.{pow-suc}
use e2eanon.Prelude.{
  ℕ, zero, suc, ◌+◌, ◌*◌, ◌/◌, ◌%◌, ◌^◌, ◌<◌, ◌≡◌, refl, ap, sym, ◌∙◌, [], ◌∷◌, ◌++◌, length, set,
  replicate, arith, append-nil,
}
use e2eanon.Crypto.Base64url.{Bytes}
use e2eanon.Crypto.Primitives.{IsBytes}
use e2eanon.Spake2.Bytes.{le_bytes, big_be_from, bytes_to_big_be, be_loop, big_to_bytes_be}

pub length-le_bytes : (k n : ℕ) → length (le_bytes k n) ≡ k
unfolding le_bytes
length-le_bytes zero n = refl
length-le_bytes (suc k) n = ap suc (length-le_bytes k (n / 256))

-- The bytes of a number, the highest first, with those that follow.
be_digits : ℕ → ℕ → Bytes → Bytes
be_digits zero n tail = tail
be_digits (suc k) n tail = be_digits k (n / 256) (n % 256 ∷ tail)

set-append :
    (zs : Bytes) (v w : ℕ) (tail : Bytes) → set (zs ++ v ∷ tail) (length zs) w ≡ zs ++ w ∷ tail
set-append [] v w tail = refl
set-append (z ∷ zs) v w tail = ap (λ r. z ∷ r) (set-append zs v w tail)

replicate-suc : (k : ℕ) (tail : Bytes) → replicate (suc k) 0 ++ tail ≡ replicate k 0 ++ 0 ∷ tail
replicate-suc zero tail = refl
replicate-suc (suc k) tail = ap (λ r. 0 ∷ r) (replicate-suc k tail)

set_last :
    (k w : ℕ) (tail : Bytes) → set (replicate (suc k) 0 ++ tail) k w ≡ replicate k 0 ++ w ∷ tail
set_last zero w tail = refl
set_last (suc k) w tail = ap (λ r. 0 ∷ r) (set_last k w tail)

be_loop_lem : (k n : ℕ) (tail : Bytes) → be_loop k n (replicate k 0 ++ tail) ≡ be_digits k n tail
unfolding be_loop be_digits
be_loop_lem zero n tail = refl
be_loop_lem (suc k) n tail =
    ap (be_loop k (n / 256)) (set_last k (n % 256) tail) ∙ be_loop_lem k (n / 256) (n % 256 ∷ tail)

length-be_digits : (k n : ℕ) (tail : Bytes) → length (be_digits k n tail) ≡ k + length tail
unfolding be_digits
length-be_digits zero n tail = omega arith
length-be_digits (suc k) n tail = omega (arith, length-be_digits k (n / 256) (n % 256 ∷ tail))

be_digits-bytes : (k n : ℕ) (tail : Bytes) → IsBytes tail → IsBytes (be_digits k n tail)
unfolding be_digits
be_digits-bytes zero n tail h = h
be_digits-bytes (suc k) n tail h = be_digits-bytes k (n / 256) (n % 256 ∷ tail) (omega arith, h)

big_be_from-be_digits :
    (k n : ℕ) (tail : Bytes) → n < 256 ^ k → big_be_from 0 (be_digits k n tail) ≡ big_be_from n tail
unfolding big_be_from be_digits
big_be_from-be_digits zero n tail h = ap (λ m. big_be_from m tail) (omega arith)
big_be_from-be_digits (suc k) n tail h =
    big_be_from-be_digits k (n / 256) (n % 256 ∷ tail) (omega (arith, pow-suc 256 k))
    ∙ ap (λ m. big_be_from m tail) (omega arith)

big_to_bytes_be_lem : (n len : ℕ) → big_to_bytes_be n len ≡ be_digits len n []
unfolding big_to_bytes_be
big_to_bytes_be_lem n len =
    ap (be_loop len n) (sym (append-nil (replicate len 0))) ∙ be_loop_lem len n []

-- The bytes of a number that fits are as many as asked for, each below 256, and read back as it.
pub bytes_to_big_be-big_to_bytes_be :
    (n len : ℕ)
    → n < 256 ^ len
    → (bytes_to_big_be (big_to_bytes_be n len) ≡ n)
      × (length (big_to_bytes_be n len) ≡ len)
      × IsBytes (big_to_bytes_be n len)
unfolding bytes_to_big_be
bytes_to_big_be-big_to_bytes_be n len h = rw (big_to_bytes_be_lem n len) (
  big_be_from-be_digits len n [] h,
  omega (arith, length-be_digits len n []),
  be_digits-bytes len n [] tt,
)

le_value : Bytes → ℕ
le_value [] = 0
le_value (b ∷ bs) = b + 256 * le_value bs

le_value-le_bytes : (k n : ℕ) → n < 256 ^ k → le_value (le_bytes k n) ≡ n
unfolding le_value le_bytes
le_value-le_bytes zero n h = omega arith
le_value-le_bytes (suc k) n h =
    omega (arith, le_value-le_bytes k (n / 256) (omega (arith, pow-suc 256 k)))

pub le_bytes-injective :
    (k n m : ℕ) → n < 256 ^ k → m < 256 ^ k → le_bytes k n ≡ le_bytes k m → n ≡ m
le_bytes-injective k n m hn hm e =
    sym (le_value-le_bytes k n hn) ∙ ap le_value e ∙ le_value-le_bytes k m hm
