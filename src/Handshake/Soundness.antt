-- ===== src/Handshake/Soundness.antt =====
-- A secret is confirmed only on what the peer has sent.
use mathlib.Core.List.{Memᴰ}
use mathlib.Core.Option.{some-injective}
use e2eanon.Prelude.{
  ◌≡◌, refl, ap, sym, subst, ◌∙◌, List, [], ◌∷◌, All, All-append, All-map, true, none, some, ok,
  inl, inr,
}
use e2eanon.Crypto.Base64url.{Bytes, Text}
use e2eanon.Crypto.Primitives.{Primitives}
use e2eanon.Spake2.Suite.{Curve, Hashes}
use e2eanon.Spake2.Exchange.{Spake2State, Spake2Result, finish, verify_peer}
use e2eanon.Handshake.{
  Tag, point, confirmation, Frame, FrameJson, HandshakeSession, Output, send_pake, confirmed,
  failed, Call, fail, unb64, verify, handle_confirm, finished, handle_point, on_data, run,
}
use e2eanon.Handshake.Cases.{
  fail-cases, verify-cases, handle_confirm-cases, handle_point-cases, finished-cases, on_data-cases,
}

All-mem : (ds : List Text) → All (λ d. Memᴰ d ds) ds
All-mem [] = tt
All-mem (d ∷ ds) = (
  Memᴰ.head refl,
  All-map (λ x. Memᴰ x ds) (λ x. Memᴰ x (d ∷ ds)) ds (λ x m. Memᴰ.tail m) (All-mem ds),
)

module _ (p : Primitives) (json : FrameJson) (c : Curve) (h : Hashes) where
  -- The payload is a frame with this tag, whose body decodes to these bytes.
  abbrev pub IsFrame : Tag → Bytes → Text → Type 0
  IsFrame t b d = (f : Frame) × (json.parse d ≡ some f) × (f.t ≡ t) × (unb64 p json f.d ≡ ok b)

  module _ (P : Text → Type 0) (state : Spake2State) where
    -- Some payload that satisfies P is such a frame.
    abbrev pub Delivered : Tag → Bytes → Type 0
    Delivered t b = (d : Text) × P d × IsFrame t b d

    -- The object holds only what such payloads explain.
    record Traced (s : HandshakeSession) : Type 0 where
      same_state : s.state ≡ state
      of_result :
          (r : Spake2Result)
          → s.result ≡ some r
          → (b : Bytes) × Delivered point b × (finish h c state b ≡ ok r)
      of_pending : (b : Bytes) → s.pending_peer_confirm ≡ some b → Delivered confirmation b

    -- Why a secret was confirmed.
    abbrev pub Evidence : Bytes → Type 0
    Evidence ke =
        (peer_point : Bytes) × (peer_confirm : Bytes) × (r : Spake2Result) × Delivered point
          peer_point
        × Delivered confirmation peer_confirm
        × (finish h c state peer_point ≡ ok r)
        × (verify_peer r peer_confirm ≡ true)
        × (r.ke ≡ ke)

    abbrev pub IsBacked : Output → Type 0
    IsBacked (send_pake d) = Unit
    IsBacked (confirmed ke) = Evidence ke
    IsBacked failed = Unit

    abbrev Good : Call → Type 0
    Good call = Traced call.session × All IsBacked call.outputs

    -- Turning `done` on leaves the rest as it is.
    Traced-done : (s : HandshakeSession) → Traced s → Traced (record s { done = true })
    Traced-done s k = record {
      same_state = k.same_state;
      of_result = k.of_result;
      of_pending = k.of_pending;
    }

    fail-Good : (s : HandshakeSession) → Traced s → Good (fail s)
    unfolding fail
    fail-Good s k = elim (fail-cases s) [
      | inl e ↦ rw e (k, tt)
      | inr e ↦ rw e (Traced-done s k, (tt, tt))
    ]

    verify-Good :
        (s : HandshakeSession) (pc : Bytes)
        → Traced s
        → Delivered confirmation pc
        → Good (verify p json s pc)
    verify-Good s pc k d = elim (verify-cases p json s pc) [
      | inl e ↦ rw e (k, tt)
      | inr (inl e) ↦ rw e (fail-Good s k)
      | inr (inr (r, er, valid, e)) ↦
          let (b, delivered, computed) = k.of_result r er in
          rw e (Traced-done s k, ((b, pc, r, delivered, d, computed, valid, refl), tt))
    ]

    -- A result that a delivered point explains may be taken over, and the confirmation that was
    -- waiting may be given up.
    Traced-result :
        (s : HandshakeSession) (r : Spake2Result) (b : Bytes)
        → Traced s
        → Delivered point b
        → finish h c state b ≡ ok r
        → Traced (record s { result = some r })
    Traced-result s r b k d e = record {
      same_state = k.same_state;
      of_result = λ r' er. (b, d, e ∙ ap ok (some-injective r r' er));
      of_pending = k.of_pending;
    }

    Traced-taken :
        (s : HandshakeSession) → Traced s → Traced (record s { pending_peer_confirm = none })
    Traced-taken s k = record {
      same_state = k.same_state;
      of_result = k.of_result;
      of_pending = λ b e. cc;
    }

    finished-Good :
        (s : HandshakeSession) (r : Spake2Result) (b : Bytes)
        → Traced s
        → Delivered point b
        → finish h c state b ≡ ok r
        → Good (finished p json c h s r)
    finished-Good s r b k d e =
        let k' = Traced-result s r b k d e in
        elim (finished-cases p json c h s r) [
          | inl done ↦ rw done (k', (tt, tt))
          | inr (pc, waiting, done) ↦
              let s' = record s { result = some r; pending_peer_confirm = none } in
              let (k'', backed) =
                verify-Good s' pc (Traced-taken (record s { result = some r }) k')
                  (k.of_pending pc waiting) in
              rw done (k'', (tt, backed))
        ]

    handle_point-Good :
        (s : HandshakeSession) (b : Bytes)
        → Traced s
        → Delivered point b
        → Good (handle_point p json c h s b)
    handle_point-Good s b k d = elim (handle_point-cases p json c h s b) [
      | inl e ↦ rw e (k, tt)
      | inr (inl e) ↦ rw e (fail-Good s k)
      | inr (inr (r, done, e)) ↦
          rw e (finished-Good s r b k d (ap (λ st. finish h c st b) (sym k.same_state) ∙ done))
    ]

    handle_confirm-Good :
        (s : HandshakeSession) (pc : Bytes)
        → Traced s
        → Delivered confirmation pc
        → Good (handle_confirm p json s pc)
    handle_confirm-Good s pc k d = elim (handle_confirm-cases p json s pc) [
      | inl e ↦ rw e (Traced-waiting, tt)
      | inr e ↦ rw e (verify-Good s pc k d)
    ]
      where
        Traced-waiting : Traced (record s { pending_peer_confirm = some pc })
        Traced-waiting = record {
          same_state = k.same_state;
          of_result = k.of_result;
          of_pending = λ b e. subst (Delivered confirmation) (some-injective pc b e) d;
        }

    on_data-Good :
        (s : HandshakeSession) (d : Text) → Traced s → P d → Good (on_data p json c h s d)
    on_data-Good s d k pd = elim (on_data-cases p json c h s d) [
      | inl (x, e) ↦ rw e (k, tt)
      | inr (inl (f, b, parsed, tag, decoded, e)) ↦
          rw e (handle_point-Good s b k (d, pd, (f, parsed, tag, decoded)))
      | inr (inr (f, b, parsed, tag, decoded, e)) ↦
          rw e (handle_confirm-Good s b k (d, pd, (f, parsed, tag, decoded)))
    ]

    run-Good :
        (s : HandshakeSession) (ds : List Text)
        → Traced s
        → All P ds
        → All IsBacked (run p json c h s ds).1
    unfolding run
    run-Good s [] k ps = tt
    run-Good s (d ∷ ds) k (pd, ps) =
        let (k', backed) = on_data-Good s d k pd in
        All-append IsBacked (on_data p json c h s d).outputs _ backed
          (run-Good (on_data p json c h s d).session ds k' ps)

  -- A handshake that starts fresh confirms a secret only if the payloads that it received hold the
  -- peer's point, on which the exchange finishes with that secret, and a confirmation that the
  -- result of the exchange verifies.
  pub run-IsBacked :
      (s : HandshakeSession) (ds : List Text)
      → s.result ≡ none
      → s.pending_peer_confirm ≡ none
      → All (IsBacked (λ d. Memᴰ d ds) s.state) (run p json c h s ds).1
  run-IsBacked s ds er ep =
      run-Good (λ d. Memᴰ d ds) s.state s ds
        (record { same_state = refl; of_result = λ r e. cc; of_pending = λ b e. cc }) (All-mem ds)
