-- ===== src/Spake2/Exchange/Bounds.antt =====
-- What an exchange sends is an array of bytes.
use e2eanon.Prelude.{ℕ, ◌≡◌, sym, Option, ok, >>=-eq-ok, ok-injective, subst}
use e2eanon.Crypto.Base64url.{Bytes}
use e2eanon.Crypto.Primitives.{IsBytes}
use e2eanon.Spake2.Suite.{Curve, Hashes, CurveLaws, HashesLaws}
use e2eanon.Spake2.Exchange.{
  Role, party_a, party_b, Spake2State, Spake2Start, Spake2Result, chosen_scalar, start,
  shared_element, key_schedule, transcript_of, finish,
}
use e2eanon.Spake2.Exchange.Flow.{start_with_inv}

pub start-bytes :
    (c : Curve) (laws : CurveLaws c) (role : Role) (w : ℕ) (id_a id_b aad : Bytes)
    (override : Option ℕ) (random : Bytes) (r : Spake2Start)
    → start c role w id_a id_b aad override random ≡ ok r
    → IsBytes r.message
unfolding start
start-bytes c laws role w id_a id_b aad override random r h =
    let (x, s, m, ex, es, em, er) =
      start_with_inv c role w id_a id_b aad (chosen_scalar c override random) r h in
    subst (λ (t : Spake2Start). IsBytes t.message) (sym er) (laws.to_bytes-bytes (c.add s x) m em)

module _ (h : Hashes) (laws : HashesLaws h) where
  key_schedule-bytes : (role : Role) (aad t : Bytes) → IsBytes (key_schedule h role aad t).confirm
  unfolding key_schedule
  key_schedule-bytes party_a aad t = laws.hmac-bytes _ t
  key_schedule-bytes party_b aad t = laws.hmac-bytes _ t

  pub finish-bytes :
      (c : Curve) (state : Spake2State) (peer : Bytes) (r : Spake2Result)
      → finish h c state peer ≡ ok r
      → IsBytes r.confirm
  unfolding finish
  finish-bytes c state peer r e =
      let (k, _, made) = >>=-eq-ok (shared_element c state peer) _ e in
      subst (λ (t : Spake2Result). IsBytes t.confirm) (ok-injective made)
        (key_schedule-bytes state.role state.aad (transcript_of state peer k))
