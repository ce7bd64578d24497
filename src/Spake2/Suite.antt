-- ===== src/Spake2/Suite.antt =====
-- What web/src/spake2.ts takes from the noble packages (the group P-256, SHA-256, HKDF, HMAC and
-- scrypt) and from the browser (NFKC, UTF-8), and what it relies on of the group.
use Prim.Native.String.{String}
use e2eanon.Prelude.{ℕ, ◌≤◌, ◌<◌, ◌≡◌, ◌≢◌, Result, ok}
use e2eanon.Crypto.Base64url.{Bytes, Text}
use e2eanon.Crypto.Primitives.{IsBytes}

pub record Curve : Type 1 where
  pub Point : Type 0
  pub identity : Point
  pub base : Point
  pub order : ℕ
  pub from_hex : String → Point
  pub add : Point → Point → Point
  pub subtract : Point → Point → Point
  pub multiply : Point → ℕ → Result Point
  -- The uncompressed encoding.
  pub to_bytes : Point → Result Bytes
  pub from_bytes : Bytes → Result Point
  pub assert_validity : Point → Result (Unit {0})

pub record Hashes : Type 0 where
  pub sha256 : Bytes → Bytes
  pub hkdf : Bytes → Bytes → Bytes → ℕ → Bytes
  pub hmac : Bytes → Bytes → Bytes
  -- Password, salt, the parameters N, r and p, and the number of bytes wanted.
  pub scrypt : Bytes → Bytes → ℕ → ℕ → ℕ → ℕ → Bytes
  pub normalize_nfkc : Text → Text
  pub utf8_encode : Text → Bytes

-- A group of prime order, with the checks that the package documents: a scalar is taken between 1
-- and the order, and every point but the identity has an encoding, which decodes to it.
pub record CurveLaws (c : Curve) : Type 0 where
  pub one-lt-order : 1 < c.order
  pub base-ne-identity : c.base ≢ c.identity
  pub subtract-add : (a b : c.Point) → c.subtract (c.add a b) a ≡ b
  pub multiply_defined :
      (a : c.Point) (k : ℕ) → 1 ≤ k → k < c.order → (b : c.Point) × (c.multiply a k ≡ ok b)
  pub multiply_range :
      (a : c.Point) (k : ℕ) (b : c.Point) → c.multiply a k ≡ ok b → (1 ≤ k) × (k < c.order)
  pub multiply_comm :
      (a : c.Point) (k l : ℕ) (b d : c.Point)
      → c.multiply a k ≡ ok b
      → c.multiply a l ≡ ok d
      → c.multiply d k ≡ c.multiply b l
  pub multiply-ne-identity :
      (a : c.Point) (k : ℕ) (b : c.Point) → a ≢ c.identity → c.multiply a k ≡ ok b → b ≢ c.identity
  pub to_bytes_defined : (a : c.Point) → a ≢ c.identity → (m : Bytes) × (c.to_bytes a ≡ ok m)
  pub from_bytes-to_bytes : (a : c.Point) (m : Bytes) → c.to_bytes a ≡ ok m → c.from_bytes m ≡ ok a
  pub assert_validity-to_bytes :
      (a : c.Point) (m : Bytes) → c.to_bytes a ≡ ok m → c.assert_validity a ≡ ok tt
  pub to_bytes-bytes : (a : c.Point) (m : Bytes) → c.to_bytes a ≡ ok m → IsBytes m

-- A MAC is an array of bytes.
pub record HashesLaws (h : Hashes) : Type 0 where
  pub hmac-bytes : (key message : Bytes) → IsBytes (h.hmac key message)
