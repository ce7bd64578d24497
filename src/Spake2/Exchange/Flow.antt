-- ===== src/Spake2/Exchange/Flow.antt =====
-- The first flow of the exchange, composed and taken apart.
use e2eanon.Prelude.{ℕ, ◌≡◌, sym, ok, ◌>>=◌, >>=-eq-ok, ok-injective}
use e2eanon.Crypto.Base64url.{Bytes}
use e2eanon.Spake2.Suite.{Curve}
use e2eanon.Spake2.Exchange.{
  Role, Spake2Start, by_role, seed_m, seed_n, mul, first_flow, start_with,
}

module _ (c : Curve) (role : Role) (w : ℕ) (id_a id_b aad : Bytes) (scalar : ℕ) where
  pub start_with_lem :
      (x s : c.Point) (m : Bytes)
      → c.multiply c.base scalar ≡ ok x
      → mul c (by_role role (seed_m c) (seed_n c)) w ≡ ok s
      → c.to_bytes (c.add s x) ≡ ok m
      → start_with c role w id_a id_b aad scalar ≡ ok (first_flow role w id_a id_b aad scalar m)
  unfolding start_with
  start_with_lem x s m ex es em = rw (ex, ◌>>=◌, es, ◌>>=◌, em)

  pub start_with_inv :
      (r : Spake2Start)
      → start_with c role w id_a id_b aad scalar ≡ ok r
      → (x : c.Point) × (s : c.Point) × (m : Bytes) × (c.multiply c.base scalar ≡ ok x)
        × (mul c (by_role role (seed_m c) (seed_n c)) w ≡ ok s)
        × (c.to_bytes (c.add s x) ≡ ok m)
        × (r ≡ first_flow role w id_a id_b aad scalar m)
  unfolding start_with
  start_with_inv r h =
      let (x, ex, h1) = >>=-eq-ok (c.multiply c.base scalar) _ h in
      let (s, es, h2) = >>=-eq-ok (mul c (by_role role (seed_m c) (seed_n c)) w) _ h1 in
      let (m, em, h3) = >>=-eq-ok (c.to_bytes (c.add s x)) _ h2 in
      (x, s, m, ex, es, em, sym (ok-injective h3))
