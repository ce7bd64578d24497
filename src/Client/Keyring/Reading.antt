-- ===== src/Client/Keyring/Reading.antt =====
-- Reading with the keys that are held: `decryptAny` of web/src/main.ts after rotations.
use e2eanon.Prelude.{
  ℕ, zero, suc, ◌+◌, ◌≤◌, ◌<◌, ◌≡◌, refl, ap, ◌∙◌, List, [], ◌∷◌, some, length, get_elem?, Text, ok,
  Result-cases, inl, inr, arith,
}
use mathlib.Core.Option.{some-injective}
use e2eanon.Crypto.Base64url.{Bytes}
use e2eanon.Crypto.Primitives.{Primitives}
use e2eanon.Crypto.Envelope.{decrypt_message}
use e2eanon.Client.State.{Ref, Client, max_kept_keys, read}
use e2eanon.Client.Keyring.{decrypt_with, decrypt_any}
use e2eanon.Client.Keyring.Rotations.{IsRing, HoldsKeys, add_keys, add_keys_kept}

-- The key at one of the first positions up to i opens the envelope, and the text is what it holds.
pub record OpensAt (p : Primitives) (heap : List Bytes) (keys : List Ref) (i : ℕ) (body t : Text)
    : Type 0 where
  pub at : ℕ
  pub early : at ≤ i
  pub key : Ref
  pub there : get_elem? keys at ≡ some key
  pub opens : decrypt_message p (read heap key) body ≡ ok t

module _ (p : Primitives) where
  decrypt_with_finds :
      (heap : List Bytes) (ks : List Ref) (i : ℕ) (k : Ref) (body t : Text)
      → get_elem? ks i ≡ some k
      → decrypt_message p (read heap k) body ≡ ok t
      → (t' : Text) × OpensAt p heap ks i body t' × (decrypt_with p heap ks body ≡ some t')
  unfolding decrypt_with
  decrypt_with_finds heap [] i k body t e o = cc
  decrypt_with_finds heap (j ∷ ks) zero k body t e o =
      let opened : decrypt_message p (read heap j) body ≡ ok t =
        ap (λ x. decrypt_message p (read heap x) body) (some-injective j k e) ∙ o in
      (
        t,
        record { at = 0; early = omega arith; key = j; there = refl; opens = opened },
        ground arith,
      )
  decrypt_with_finds heap (j ∷ ks) (suc i) k body t e o =
      let (t', at, found) = decrypt_with_finds heap ks i k body t e o in
      elim (Result-cases (decrypt_message p (read heap j) body)) [
        | inl (t0, opened) ↦ (
          t0,
          record { at = 0; early = omega arith; key = j; there = refl; opens = opened },
          ground arith,
        )
        | inr (x, failed) ↦ (
          t',
          record {
            at = suc at.at;
            early = omega (arith, at.early);
            key = at.key;
            there = at.there;
            opens = at.opens;
          },
          ground arith,
        )
      ]

  -- In a session with at most five keys in buffers of their own, an envelope that the key at position
  -- i opens is still read after n more keys, if i + n is below five: the text is that of some key
  -- held that opens it, at position i + n or before.
  pub decrypt_any-add_keys :
      (bs : List Bytes) (keys : List Ref) (cl : Client) (i : ℕ) (k : Ref) (body t : Text)
      → HoldsKeys cl keys
      → IsRing keys cl.heap
      → get_elem? keys i ≡ some k
      → i + length bs < max_kept_keys
      → decrypt_message p (read cl.heap k) body ≡ ok t
      → (held : List Ref) × HoldsKeys (add_keys bs cl) held
        × ((t' : Text) × OpensAt p (add_keys bs cl).heap held (i + length bs) body t'
            × (decrypt_any p (add_keys bs cl) body ≡ some t'))
  unfolding decrypt_any
  decrypt_any-add_keys bs keys cl i k body t h r e l o =
      let (held, holds, place, kept) = add_keys_kept bs keys cl i k h r e l in
      let cl' = add_keys bs cl in
      let (s, has, same) = holds in
      let (t', at, found) =
        decrypt_with_finds cl'.heap held (i + length bs) k body t place
          (ap (λ b. decrypt_message p b body) kept ∙ o) in
      (held, holds, (t', at, rw (has, same) found))
