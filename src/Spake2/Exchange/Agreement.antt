-- ===== src/Spake2/Exchange/Agreement.antt =====
-- Both parties of an exchange that share the code end with the same secret, and each accepts the
-- confirmation of the other.
use e2eanon.Prelude.{ℕ, ◌≡◌, refl, ap, ◌∙◌, true, Option, ok, ◌>>=◌}
use e2eanon.Crypto.Base64url.{Bytes}
use e2eanon.Spake2.Suite.{Curve, Hashes, CurveLaws}
use e2eanon.Spake2.Bytes.Compare.{timing_safe_equal_iff}
use e2eanon.Spake2.Exchange.{
  party_a, party_b, Spake2State, Spake2Start, Spake2Result, verify_peer, by_role, transcript_of,
  seed_m, seed_n, mul, chosen_scalar, first_flow, start, shared_element, key_schedule, finish,
}
use e2eanon.Spake2.Exchange.Flow.{start_with_inv}

-- What the two results of one exchange have in common.
pub record Agree (a b : Spake2Result) : Type 0 where
  pub same_ke : a.ke ≡ b.ke
  pub same_transcript : a.transcript ≡ b.transcript
  pub a_accepts : verify_peer a b.confirm ≡ true
  pub b_accepts : verify_peer b a.confirm ≡ true

module _ (c : Curve) (laws : CurveLaws c) where
  -- One side: it takes its own mask off the point of the other side.
  shared_element_lem :
      (state : Spake2State) (msg : Bytes) (s y k : c.Point) (kb : Bytes)
      → c.to_bytes (c.add s y) ≡ ok msg
      → mul c (by_role state.role (seed_n c) (seed_m c)) state.w ≡ ok s
      → c.multiply y state.scalar ≡ ok k
      → c.to_bytes k ≡ ok kb
      → shared_element c state msg ≡ ok kb
  unfolding shared_element
  shared_element_lem state msg s y k kb em es ek ekb =
      rw
        (
          laws.from_bytes-to_bytes (c.add s y) msg em,
          ◌>>=◌,
          laws.assert_validity-to_bytes (c.add s y) msg em,
          ◌>>=◌,
          es,
          ◌>>=◌,
          laws.subtract-add s y,
          ek,
          ◌>>=◌,
        )
        ekb

  module _ (w : ℕ) (id_a id_b aad : Bytes) (x y : ℕ) where
    agreed :
        (h : Hashes) (ma mb kb : Bytes)
        → let sa = (first_flow party_a w id_a id_b aad x ma).state in
          let sb = (first_flow party_b w id_a id_b aad y mb).state in
          Agree
            (key_schedule h party_a aad (transcript_of sa mb kb))
            (key_schedule h party_b aad (transcript_of sb ma kb))
    unfolding key_schedule transcript_of verify_peer
    agreed h ma mb kb = record {
      same_ke = refl;
      same_transcript = refl;
      a_accepts = (timing_safe_equal_iff _ _).1 refl;
      b_accepts = (timing_safe_equal_iff _ _).1 refl;
    }

    -- The element that both sides reach: the base times both scalars.
    common_element :
        (px py : c.Point)
        → c.multiply c.base x ≡ ok px
        → c.multiply c.base y ≡ ok py
        → (k : c.Point) × (kb : Bytes) × (c.multiply py x ≡ ok k)
          × (c.multiply px y ≡ ok k)
          × (c.to_bytes k ≡ ok kb)
    common_element px py ex ey =
        let (lo, hi) = laws.multiply_range c.base y py ey in
        let (k, ek) = laws.multiply_defined px y lo hi in
        let proper =
          laws.multiply-ne-identity px y k
            (laws.multiply-ne-identity c.base x px laws.base-ne-identity ex) ek in
        let (kb, ekb) = laws.to_bytes_defined k proper in
        (k, kb, laws.multiply_comm c.base x y px py ex ey ∙ ek, ek, ekb)

  -- If A and B start with one password scalar, one pair of identities and any scalars of their own,
  -- then each finishes on the message of the other, both hold the same secret and transcript, and
  -- each accepts the other's confirmation.
  pub finish-Agree :
      (h : Hashes) (w : ℕ) (id_a id_b aad : Bytes) (override_a override_b : Option ℕ)
      (random_a random_b : Bytes) (a b : Spake2Start)
      → start c party_a w id_a id_b aad override_a random_a ≡ ok a
      → start c party_b w id_a id_b aad override_b random_b ≡ ok b
      → (ra : Spake2Result) × (rb : Spake2Result) × (finish h c a.state b.message ≡ ok ra)
        × (finish h c b.state a.message ≡ ok rb)
        × Agree ra rb
  unfolding start finish
  finish-Agree h w id_a id_b aad oa ob random_a random_b a b ha hb =
      let x = chosen_scalar c oa random_a in
      let y = chosen_scalar c ob random_b in
      let (px, sm, ma, ex, em, ema, ea) = start_with_inv c party_a w id_a id_b aad x a ha in
      let (py, sn, mb, ey, en, emb, eb) = start_with_inv c party_b w id_a id_b aad y b hb in
      let (k, kb, ka', kb', ekb) = common_element w id_a id_b aad x y px py ex ey in
      let sa = (first_flow party_a w id_a id_b aad x ma).state in
      let sb = (first_flow party_b w id_a id_b aad y mb).state in
      let fa = shared_element_lem sa mb sn py k kb emb en ka' ekb in
      let fb = shared_element_lem sb ma sm px k kb ema em kb' ekb in
      rw (ea, eb)
        (
          key_schedule h party_a aad (transcript_of sa mb kb),
          key_schedule h party_b aad (transcript_of sb ma kb),
          ap (λ r. r >>= λ k. ok (key_schedule h party_a aad (transcript_of sa mb k))) fa,
          ap (λ r. r >>= λ k. ok (key_schedule h party_b aad (transcript_of sb ma k))) fb,
          agreed w id_a id_b aad x y h ma mb kb,
        )
