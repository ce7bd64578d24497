-- ===== src/Samples/Group.antt =====
-- A group of three elements in place of P-256, and arithmetic in place of the hash functions.
use e2eanon.Prelude.{
  ℕ, zero, suc, ◌+◌, ◌*◌, ◌%◌, ◌≤◌, ◌<◌, ◌≡◌, ◌≢◌, refl, [], ◌∷◌, map, replicate, Result, ok, err,
  invalid_point, invalid_scalar, arith, ok-injective, ◌++◌,
}
use e2eanon.Crypto.Base64url.{Bytes}
use e2eanon.Crypto.Primitives.{IsBytes}
use e2eanon.Spake2.Suite.{Curve, Hashes, CurveLaws, HashesLaws}

pub data Third : Type 0 where
  origin once twice : Third

abbrev pub plus : Third → Third → Third
plus origin b = b
plus once origin = once
plus once once = twice
plus once twice = origin
plus twice origin = twice
plus twice once = origin
plus twice twice = once

abbrev pub minus : Third → Third → Third
minus a origin = a
minus a once = plus a twice
minus a twice = plus a once

abbrev pub times : Third → ℕ → Result Third
times a zero = err invalid_scalar
times a (suc zero) = ok a
times a (suc (suc zero)) = ok (plus a a)
times a _ = err invalid_scalar

abbrev pub encode : Third → Result Bytes
encode origin = err invalid_point
encode once = ok (4 ∷ 1 ∷ [])
encode twice = ok (4 ∷ 2 ∷ [])

abbrev pub decode : Bytes → Result Third
decode (a ∷ suc zero ∷ []) = ok once
decode (a ∷ suc (suc zero) ∷ []) = ok twice
decode _ = err invalid_point

abbrev pub validity : Third → Result (Unit {0})
validity origin = err invalid_point
validity _ = ok tt

abbrev pub thirds : Curve
thirds = record {
  Point = Third;
  identity = origin;
  base = once;
  order = 3;
  from_hex = λ s. twice;
  add = plus;
  subtract = minus;
  multiply = times;
  to_bytes = encode;
  from_bytes = decode;
  assert_validity = validity;
}

minus-plus : (a b : Third) → minus (plus a b) a ≡ b
minus-plus a b = ground arith

times_defined : (a : Third) (k : ℕ) → 1 ≤ k → k < 3 → (b : Third) × (times a k ≡ ok b)
times_defined a zero lo hi = absurd (omega arith)
times_defined a (suc zero) lo hi = (a, refl)
times_defined a (suc (suc zero)) lo hi = (plus a a, refl)
times_defined a (suc (suc (suc k))) lo hi = absurd (omega arith)

times_range : (a : Third) (k : ℕ) (b : Third) → times a k ≡ ok b → (1 ≤ k) × (k < 3)
times_range a zero b h = cc
times_range a (suc zero) b h = omega arith
times_range a (suc (suc zero)) b h = omega arith
times_range a (suc (suc (suc k))) b h = cc

times_comm :
    (a : Third) (k l : ℕ) (b d : Third)
    → times a k ≡ ok b
    → times a l ≡ ok d
    → times d k ≡ times b l
times_comm a (suc zero) (suc zero) b d h k = ground arith
times_comm a (suc zero) (suc (suc zero)) b d h k = ground arith
times_comm a (suc (suc zero)) (suc zero) b d h k = ground arith
times_comm a (suc (suc zero)) (suc (suc zero)) b d h k = ground arith
times_comm a zero l b d h k = cc
times_comm a (suc (suc (suc n))) l b d h k = cc
times_comm a (suc zero) zero b d h k = cc
times_comm a (suc zero) (suc (suc (suc n))) b d h k = cc
times_comm a (suc (suc zero)) zero b d h k = cc
times_comm a (suc (suc zero)) (suc (suc (suc n))) b d h k = cc

times-ne-origin : (a : Third) (k : ℕ) (b : Third) → a ≢ origin → times a k ≡ ok b → b ≢ origin
times-ne-origin a zero b n h = cc
times-ne-origin a (suc zero) b n h = ground arith
times-ne-origin a (suc (suc zero)) b n h = ground arith
times-ne-origin a (suc (suc (suc k))) b n h = cc

encode_defined : (a : Third) → a ≢ origin → (m : Bytes) × (encode a ≡ ok m)
encode_defined origin n = absurd (n refl)
encode_defined once n = (_, refl)
encode_defined twice n = (_, refl)

decode-encode : (a : Third) (m : Bytes) → encode a ≡ ok m → decode m ≡ ok a
decode-encode origin m h = cc
decode-encode once m h = rw (← ok-injective h)
decode-encode twice m h = rw (← ok-injective h)

validity-encode : (a : Third) (m : Bytes) → encode a ≡ ok m → validity a ≡ ok tt
validity-encode origin m h = cc
validity-encode once m h = refl
validity-encode twice m h = refl

encode-bytes : (a : Third) (m : Bytes) → encode a ≡ ok m → IsBytes m
encode-bytes origin m h = cc
encode-bytes once m h = rw (← ok-injective h) (omega arith)
encode-bytes twice m h = rw (← ok-injective h) (omega arith)

pub thirds-CurveLaws : CurveLaws thirds
thirds-CurveLaws = record {
  one-lt-order = omega arith;
  base-ne-identity = λ e. cc;
  subtract-add = minus-plus;
  multiply_defined = times_defined;
  multiply_range = times_range;
  multiply_comm = times_comm;
  multiply-ne-identity = times-ne-origin;
  to_bytes_defined = encode_defined;
  from_bytes-to_bytes = decode-encode;
  assert_validity-to_bytes = validity-encode;
  to_bytes-bytes = encode-bytes;
}

-- Weighs each byte by its place, so that the order matters.
abbrev pub weigh : ℕ → Bytes → ℕ
weigh k [] = 0
weigh k (b ∷ bs) = k * b + weigh (k + 1) bs

abbrev pub weights : Hashes
weights = record {
  sha256 = λ m. (weigh 1 m % 256) ∷ replicate 15 7 ++ (weigh 3 m % 256) ∷ replicate 15 9;
  hkdf = λ k salt info n. replicate n (weigh 5 k % 256);
  hmac = λ k m. ((weigh 1 k + weigh 2 m) % 256) ∷ [];
  scrypt = λ pw salt n r p len. replicate len ((weigh 1 pw + weigh 7 salt) % 256);
  normalize_nfkc = λ t. t;
  utf8_encode = map (λ c. c % 256);
}

pub weights-HashesLaws : HashesLaws weights
weights-HashesLaws = record { hmac-bytes = λ k m. (omega arith, tt) }
