-- ===== src/Handshake/Verdicts.antt =====
-- A handshake reports at most one verdict, and is deaf after it.
use e2eanon.Prelude.{
  ℕ, suc, ◌+◌, ◌≡◌, List, [], ◌∷◌, ◌++◌, Bool, true, false, arith, Option-cases, Bool-cases, inl,
  inr,
}
use e2eanon.Crypto.Base64url.{Bytes, Text}
use e2eanon.Crypto.Primitives.{Primitives}
use e2eanon.Spake2.Suite.{Curve, Hashes}
use e2eanon.Spake2.Exchange.{Spake2Result}
use e2eanon.Handshake.{
  Tag, point, confirmation, other, FrameJson, HandshakeSession, Output, send_pake, confirmed,
  failed, Call, fail, verify, handle_confirm, finished, handle_point, dispatch, on_data, run,
}

-- How many verdicts are among the outputs.
abbrev pub verdicts : List Output → ℕ
verdicts [] = 0
verdicts (send_pake d ∷ os) = verdicts os
verdicts (confirmed ke ∷ os) = suc (verdicts os)
verdicts (failed ∷ os) = suc (verdicts os)

abbrev pub flag : Bool → ℕ
flag true = 1
flag false = 0

verdicts-append : (os ps : List Output) → verdicts (os ++ ps) ≡ verdicts os + verdicts ps
verdicts-append [] ps = omega arith
verdicts-append (send_pake d ∷ os) ps = verdicts-append os ps
verdicts-append (confirmed ke ∷ os) ps = omega (arith, verdicts-append os ps)
verdicts-append (failed ∷ os) ps = omega (arith, verdicts-append os ps)

-- A call reports a verdict exactly when it turns `done` on.
abbrev Counts : HandshakeSession → Call → Type 0
Counts s call = verdicts call.outputs + flag s.done ≡ flag call.session.done

module _ (p : Primitives) (json : FrameJson) where
  verify-Counts :
      (s : HandshakeSession) (pc : Bytes) → s.done ≡ false → Counts s (verify p json s pc)
  unfolding verify fail
  verify-Counts s pc e = ground arith

  module _ (c : Curve) (h : Hashes) where
    finished-Counts :
        (s : HandshakeSession) (r : Spake2Result)
        → s.done ≡ false
        → Counts s (finished p json c h s r)
    unfolding finished verify fail
    finished-Counts s r e = ground arith

    dispatch-Counts :
        (s : HandshakeSession) (t : Tag) (d : Text)
        → s.done ≡ false
        → Counts s (dispatch p json c h s t d)
    unfolding dispatch handle_point handle_confirm finished verify fail
    dispatch-Counts s point d e = ground arith
    dispatch-Counts s confirmation d e = ground arith
    dispatch-Counts s other d e = ground arith

    on_data-Counts : (s : HandshakeSession) (d : Text) → Counts s (on_data p json c h s d)
    unfolding on_data
    on_data-Counts s d = elim (Bool-cases s.done) [
      | inl over ↦ ground arith
      | inr live ↦ elim (Option-cases (json.parse d)) [
        | inl garbage ↦ ground arith
        | inr (f, parsed) ↦ ground (arith, dispatch-Counts s f.t f.d live)
      ]
    ]

    -- Over any sequence of payloads, hostile ones included, the number of verdicts is 1 if the
    -- handshake has become done on the way, and 0 otherwise.
    pub verdicts-run :
        (s : HandshakeSession) (ds : List Text)
        → verdicts (run p json c h s ds).1 + flag s.done ≡ flag (run p json c h s ds).0.done
    unfolding run
    verdicts-run s [] = omega arith
    verdicts-run s (d ∷ ds) =
        let call = on_data p json c h s d in
        omega (
          arith,
          verdicts-append call.outputs (run p json c h call.session ds).1,
          on_data-Counts s d,
          verdicts-run call.session ds,
        )
