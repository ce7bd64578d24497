-- ===== src/Spake2/Exchange/Scalars.antt =====
-- The scalars of an exchange, and when its first flow succeeds.
use e2eanon.Prelude.{ℕ, ◌≤◌, ◌<◌, ◌≡◌, ◌≢◌, none, ok, ◌==◌, arith, Bool-cases, inl, inr}
use e2eanon.Crypto.Base64url.{Bytes, Text}
use e2eanon.Spake2.Suite.{Curve, Hashes, CurveLaws}
use e2eanon.Spake2.Exchange.{
  Role, Spake2Start, by_role, seed_m, seed_n, mul, random_scalar, first_flow, start, derive_w,
}
use e2eanon.Spake2.Exchange.Flow.{start_with_lem}

module _ (c : Curve) (laws : CurveLaws c) where
  -- A scalar drawn at random lies between 1 and the order, whatever the random bytes are.
  pub random_scalar_bounds : (b : Bytes) → (1 ≤ random_scalar c b) × (random_scalar c b < c.order)
  unfolding random_scalar
  random_scalar_bounds b = ground (arith, laws.one-lt-order)

  -- The password scalar lies below the order, for every code and salt.
  pub derive_w-lt-order :
      (h : Hashes) (password : Text) (salt : Bytes) → derive_w h c password salt < c.order
  unfolding derive_w
  derive_w-lt-order h password salt = omega (arith, laws.one-lt-order)

  pub mul_defined : (a : c.Point) (k : ℕ) → k < c.order → (b : c.Point) × (mul c a k ≡ ok b)
  unfolding mul
  mul_defined a k h = elim (Bool-cases (k == 0)) [
    | inl z ↦ (c.identity, ground arith)
    | inr nz ↦ let (b, e) = laws.multiply_defined a k (ground arith) h in (b, ground arith)
  ]

  -- With scalars in range the first flow fails only where its masked point is the identity, which
  -- has no encoding.
  pub start_total :
      (role : Role) (w : ℕ) (id_a id_b aad random : Bytes)
      → w < c.order
      → (x : c.Point) × (s : c.Point) × (c.multiply c.base (random_scalar c random) ≡ ok x)
        × (mul c (by_role role (seed_m c) (seed_n c)) w ≡ ok s)
        × (c.add s x ≢ c.identity
            → (r : Spake2Start) × (start c role w id_a id_b aad none random ≡ ok r)
              × (c.to_bytes (c.add s x) ≡ ok r.message))
  unfolding start
  start_total role w id_a id_b aad random hw =
      let bounds = random_scalar_bounds random in
      let (x, ex) = laws.multiply_defined c.base (random_scalar c random) bounds.0 bounds.1 in
      let (s, es) = mul_defined (by_role role (seed_m c) (seed_n c)) w hw in
      (
        x,
        s,
        ex,
        es,
        λ proper.
            let (m, em) = laws.to_bytes_defined (c.add s x) proper in
            (
              first_flow role w id_a id_b aad _ m,
              start_with_lem c role w id_a id_b aad _ x s m ex es em,
              em,
            ),
      )
