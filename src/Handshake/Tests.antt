-- ===== src/Handshake/Tests.antt =====
-- web/src/handshake.ts at concrete inputs, over the stand-ins of `Samples`.
use mathlib.Core.List.{Memᴰ}
use e2eanon.Prelude.{◌+◌, ◌≡◌, refl, List, [], ◌∷◌, true, false, All, none, Result, ok, err, Text}
use e2eanon.Samples.Browser.{browser, browser-Laws}
use e2eanon.Samples.Group.{thirds, thirds-CurveLaws, weights, weights-HashesLaws}
use e2eanon.Samples.Codec.{frames}
use e2eanon.Crypto.Envelope.{codes, binary_string_from, char_codes}
use e2eanon.Spake2.Bytes.{concat, lv, bytes_to_big_be, big_to_bytes_be, timing_safe_equal}
use e2eanon.Spake2.Exchange.{
  Role, party_a, party_b, Spake2Result, verify_peer, seed_m, seed_n, mul, random_scalar, derive_w,
  start, finish,
}
use e2eanon.Handshake.{
  confirmation, HandshakeSession, fail, b64, unb64, frame, verify, handle_confirm, finished,
  handle_point, dispatch, on_data, run, create,
}
use e2eanon.Handshake.Verdicts.{verdicts, flag, verdicts-run}
use e2eanon.Handshake.Soundness.{IsBacked, run-IsBacked}
use e2eanon.Handshake.Completeness.{succeeds, create-agree}

abbrev hs_id : Text
hs_id = codes "h1"

abbrev get {ℓ} : {A : Type ℓ} → Result A → A → A
get (ok a) d = a
get (err e) d = d

abbrev blank : HandshakeSession
blank = record {
  state = record { role = party_a; scalar = 0; w = 0; own = []; id_a = []; id_b = []; aad = [] };
  result = none;
  pending_peer_confirm = none;
  done = false;
}

abbrev made : Role → Text → HandshakeSession × Text
made role password =
    get (create browser frames thirds weights role password hs_id (1 ∷ [])) (blank, [])

abbrev owner : HandshakeSession
owner = (made party_a (codes "CODE")).0

abbrev joiner : HandshakeSession
joiner = (made party_b (codes "CODE")).0

abbrev owner_payload : Text
owner_payload = (made party_a (codes "CODE")).1

abbrev joiner_payload : Text
joiner_payload = (made party_b (codes "CODE")).1

owner_made :
    create browser frames thirds weights party_a (codes "CODE") hs_id (1 ∷ [])
    ≡ ok (owner, owner_payload)
unfolding create derive_w start mul seed_m seed_n random_scalar bytes_to_big_be frame b64
owner_made = refl

joiner_made :
    create browser frames thirds weights party_b (codes "CODE") hs_id (1 ∷ [])
    ≡ ok (joiner, joiner_payload)
unfolding create derive_w start mul seed_m seed_n random_scalar bytes_to_big_be frame b64
joiner_made = refl

create-agree_example :
    (ra : Spake2Result) × (rb : Spake2Result) × (ra.ke ≡ rb.ke)
    × ((run browser frames thirds weights owner
          (joiner_payload ∷ frame browser frames confirmation rb.confirm ∷ [])).1
        ≡ succeeds browser browser-Laws frames thirds thirds-CurveLaws weights weights-HashesLaws
            ra)
    × ((run browser frames thirds weights owner
          (frame browser frames confirmation rb.confirm ∷ joiner_payload ∷ [])).1
        ≡ succeeds browser browser-Laws frames thirds thirds-CurveLaws weights weights-HashesLaws
            ra)
    × ((run browser frames thirds weights joiner
          (owner_payload ∷ frame browser frames confirmation ra.confirm ∷ [])).1
        ≡ succeeds browser browser-Laws frames thirds thirds-CurveLaws weights weights-HashesLaws
            rb)
    × ((run browser frames thirds weights joiner
          (frame browser frames confirmation ra.confirm ∷ owner_payload ∷ [])).1
        ≡ succeeds browser browser-Laws frames thirds thirds-CurveLaws weights weights-HashesLaws
            rb)
create-agree_example =
    create-agree browser browser-Laws frames thirds thirds-CurveLaws weights weights-HashesLaws
      (codes "CODE") hs_id (1 ∷ []) (1 ∷ []) owner joiner owner_payload joiner_payload owner_made
      joiner_made

-- A point, a confirmation that does not fit, and a payload after the verdict.
abbrev hostile : List Text
hostile =
    joiner_payload ∷ frame browser frames confirmation (1 ∷ []) ∷ joiner_payload ∷ (7 ∷ []) ∷ []

hostile_fails : (run browser frames thirds weights owner hostile).0.done ≡ true
unfolding run on_data dispatch handle_point handle_confirm finished verify fail finish verify_peer
    timing_safe_equal unb64 create derive_w start mul seed_m seed_n random_scalar bytes_to_big_be
    frame b64 binary_string_from char_codes concat lv big_to_bytes_be
hostile_fails = refl

verdicts-run_example :
    verdicts (run browser frames thirds weights owner hostile).1 + flag owner.done
    ≡ flag (run browser frames thirds weights owner hostile).0.done
verdicts-run_example = verdicts-run browser frames thirds weights owner hostile

run-IsBacked_example :
    All
      (IsBacked browser frames thirds weights (λ d. Memᴰ d hostile) owner.state)
      (run browser frames thirds weights owner hostile).1
unfolding create start random_scalar bytes_to_big_be mul seed_m seed_n derive_w
run-IsBacked_example = run-IsBacked browser frames thirds weights owner hostile refl refl
