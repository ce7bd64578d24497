-- ===== src/Spake2/Exchange.antt =====
-- The exchange of web/src/spake2.ts. A scalar that the source draws is made from the 48 random
-- bytes that are an argument here.
pub mod Agreement
mod Flow
pub mod Bounds
pub mod Scalars
pub mod Transcript
use Prim.Native.Char.{code}
use Prim.Native.String.{String}
use e2eanon.Prelude.{
  ℕ, ◌+◌, ◌-◌, ◌%◌, ◌^◌, ◌<◌, List, [], ◌∷◌, ◌++◌, Bool, true, false, Option, none, some, take,
  drop, Result, ok, ◌>>=◌, ◌==◌, if◌then◌else◌,
}
use e2eanon.Crypto.Base64url.{Bytes, Text}
use e2eanon.Crypto.Envelope.{codes}
use e2eanon.Spake2.Suite.{Curve, Hashes}
use e2eanon.Spake2.Bytes.{concat, lv, bytes_to_big_be, big_to_bytes_be, timing_safe_equal}

abbrev pub scalar_bytes : ℕ
scalar_bytes = 32

pub data Role : Type 0 where
  party_a party_b : Role

pub record Spake2State : Type 0 where
  pub role : Role
  pub scalar : ℕ
  pub w : ℕ
  pub own : Bytes
  pub id_a : Bytes
  pub id_b : Bytes
  pub aad : Bytes

pub record Spake2Start : Type 0 where
  pub state : Spake2State
  pub message : Bytes

-- `expected_peer` is what the closure `verifyPeer` holds.
pub record Spake2Result : Type 0 where
  pub ke : Bytes
  pub confirm : Bytes
  pub expected_peer : Bytes
  pub transcript : Bytes
  pub ka : Bytes
  pub kc_a : Bytes
  pub kc_b : Bytes
  pub c_a : Bytes
  pub c_b : Bytes

unfoldable pub verify_peer : Spake2Result → Bytes → Bool
verify_peer r peer_confirm = timing_safe_equal peer_confirm r.expected_peer

-- `role === "A" ? x : y`.
abbrev pub by_role {ℓ} : {A : Type ℓ} → Role → A → A → A
by_role party_a x y = x
by_role party_b x y = y

abbrev pub slice : Bytes → ℕ → ℕ → Bytes
slice b from to = take (to - from) (drop from b)

unfoldable pub transcript_of : Spake2State → Bytes → Bytes → Bytes
transcript_of state peer_message k = concat (
    lv state.id_a
    ∷ lv state.id_b
    ∷ lv (by_role state.role state.own peer_message)
    ∷ lv (by_role state.role peer_message state.own)
    ∷ lv k
    ∷ lv (big_to_bytes_be state.w scalar_bytes)
    ∷ [])

abbrev pub first_flow : Role → ℕ → Bytes → Bytes → Bytes → ℕ → Bytes → Spake2Start
first_flow role w id_a id_b aad scalar message = record {
  state = record {
    role = role;
    scalar = scalar;
    w = w;
    own = message;
    id_a = id_a;
    id_b = id_b;
    aad = aad;
  };
  message = message;
}

module _ (c : Curve) where
  open c use {Point, identity, base, order, from_hex, add, subtract, multiply, to_bytes, from_bytes}
  open c use {assert_validity}

  unfoldable pub seed_m : Point
  seed_m = from_hex "02886e2f97ace46e55ba9dd7242579f2993b64e16ef3dcab95afd497333d8fa12f"

  unfoldable pub seed_n : Point
  seed_n = from_hex "03d8bbd6c639c62937b04d997f38c3770719c629d7014d49a24b4f98baa1292b49"

  unfoldable pub mul : Point → ℕ → Result Point
  mul point k = if k == 0 then ok identity else multiply point k

  unfoldable pub random_scalar : Bytes → ℕ
  random_scalar b = let s = bytes_to_big_be b % order in if s == 0 then 1 else s

  abbrev pub chosen_scalar : Option ℕ → Bytes → ℕ
  chosen_scalar none random = random_scalar random
  chosen_scalar (some s) random = s

  pub start_with : Role → ℕ → Bytes → Bytes → Bytes → ℕ → Result Spake2Start
  start_with role w id_a id_b aad scalar = do
    x ← multiply base scalar
    s ← mul (by_role role seed_m seed_n) w
    message ← to_bytes (add s x)
    ok (first_flow role w id_a id_b aad scalar message)

  unfoldable pub start : Role → ℕ → Bytes → Bytes → Bytes → Option ℕ → Bytes → Result Spake2Start
  unfolding start_with
  start role w id_a id_b aad scalar_override random =
      start_with role w id_a id_b aad (chosen_scalar scalar_override random)

  -- The bytes of K, or what was thrown on the way to them.
  pub shared_element : Spake2State → Bytes → Result Bytes
  shared_element state peer_message = do
    peer ← from_bytes peer_message
    valid ← assert_validity peer
    s ← mul (by_role state.role seed_n seed_m) state.w
    k ← multiply (subtract peer s) state.scalar
    to_bytes k

module _ (h : Hashes) where
  open h use {sha256, hkdf, hmac, scrypt, normalize_nfkc, utf8_encode}

  pub key_schedule : Role → Bytes → Bytes → Spake2Result
  key_schedule role aad tt' =
      let digest = sha256 tt' in
      let ka = slice digest 16 32 in
      let kc = hkdf ka [] (concat (codes "ConfirmationKeys" ∷ aad ∷ [])) 32 in
      let kc_a = slice kc 0 16 in
      let kc_b = slice kc 16 32 in
      let c_a = hmac kc_a tt' in
      let c_b = hmac kc_b tt' in
      record {
        ke = slice digest 0 16;
        confirm = by_role role c_a c_b;
        expected_peer = by_role role c_b c_a;
        transcript = tt';
        ka = ka;
        kc_a = kc_a;
        kc_b = kc_b;
        c_a = c_a;
        c_b = c_b;
      }

  unfoldable pub derive_w : Curve → Text → Bytes → ℕ
  derive_w c password salt =
      bytes_to_big_be
        (scrypt (utf8_encode (normalize_nfkc password)) salt (2 ^ 14) 8 1 (scalar_bytes + 16))
      % c.order

  unfoldable pub finish : Curve → Spake2State → Bytes → Result Spake2Result
  unfolding shared_element key_schedule transcript_of
  finish c state peer_message = do
    k ← shared_element c state peer_message
    ok (key_schedule state.role state.aad (transcript_of state peer_message k))
