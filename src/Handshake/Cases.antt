-- ===== src/Handshake/Cases.antt =====
-- The branches of each call of a handshake, with what it returns.
use e2eanon.Prelude.{
  ◌≡◌, refl, [], ◌∷◌, true, Option, none, some, ok, Error, arith, Option-cases, Bool-cases,
  Result-cases, inl, inr, ◌⊎◌,
}
use e2eanon.Crypto.Base64url.{Bytes, Text}
use e2eanon.Crypto.Primitives.{Primitives}
use e2eanon.Spake2.Suite.{Curve, Hashes}
use e2eanon.Spake2.Exchange.{Spake2Result, finish, verify_peer}
use e2eanon.Handshake.{
  Tag, point, confirmation, other, Frame, FrameJson, HandshakeSession, send_pake, confirmed, failed,
  after, returns, fail, frame, unb64, verify, handle_confirm, finished, handle_point, dispatch,
  on_data,
}

-- The branches of the calls, each with what it returns.
pub fail-cases :
    (s : HandshakeSession)
    → (fail s ≡ returns s []) ⊎ (fail s ≡ returns (record s { done = true }) (failed ∷ []))
unfolding fail
fail-cases s = elim (Bool-cases s.done) [
  | inl over ↦ inl (ground arith)
  | inr live ↦ inr (ground arith)
]

module _ (p : Primitives) (json : FrameJson) where
  pub verify-cases :
      (s : HandshakeSession) (pc : Bytes)
      → (verify p json s pc ≡ returns s [])
        ⊎ (verify p json s pc ≡ fail s)
        ⊎ ((r : Spake2Result) × (s.result ≡ some r)
            × (verify_peer r pc ≡ true)
            × (verify p json s pc ≡ returns (record s { done = true }) (confirmed r.ke ∷ [])))
  unfolding verify
  verify-cases s pc = elim (Option-cases s.result) [
    | inl none_yet ↦ inl (ground arith)
    | inr (r, e) ↦ elim (Bool-cases (verify_peer r pc)) [
      | inl valid ↦ inr (inr (r, e, valid, ground arith))
      | inr invalid ↦ inr (inl (ground arith))
    ]
  ]

  pub handle_confirm-cases :
      (s : HandshakeSession) (pc : Bytes)
      → (handle_confirm p json s pc ≡ returns (record s { pending_peer_confirm = some pc }) [])
        ⊎ (handle_confirm p json s pc ≡ verify p json s pc)
  unfolding handle_confirm
  handle_confirm-cases s pc = elim (Option-cases s.result) [
    | inl none_yet ↦ inl (ground arith)
    | inr (r, e) ↦ inr (ground arith)
  ]

  module _ (c : Curve) (h : Hashes) where
    pub handle_point-cases :
        (s : HandshakeSession) (pt : Bytes)
        → (handle_point p json c h s pt ≡ returns s [])
          ⊎ (handle_point p json c h s pt ≡ fail s)
          ⊎ ((r : Spake2Result) × (finish h c s.state pt ≡ ok r)
              × (handle_point p json c h s pt ≡ finished p json c h s r))
    unfolding handle_point
    handle_point-cases s pt = elim (Option-cases s.result) [
      | inr (r, e) ↦ inl (ground arith)
      | inl fresh ↦ elim (Result-cases (finish h c s.state pt)) [
        | inl (r, e) ↦ inr (inr (r, e, ground arith))
        | inr (x, e) ↦ inr (inl (ground arith))
      ]
    ]

    pub finished-cases :
        (s : HandshakeSession) (r : Spake2Result)
        → (finished p json c h s r
            ≡ returns
                (record s { result = some r })
                (send_pake (frame p json confirmation r.confirm) ∷ []))
          ⊎ ((pc : Bytes) × (s.pending_peer_confirm ≡ some pc)
              × (finished p json c h s r
                  ≡ after (send_pake (frame p json confirmation r.confirm)) (
                      verify p json
                        (record s { result = some r; pending_peer_confirm = none })
                        pc)))
    unfolding finished
    finished-cases s r = elim (Option-cases s.pending_peer_confirm) [
      | inl e ↦ inl (ground arith)
      | inr (pc, e) ↦ inr (pc, e, ground arith)
    ]

    pub dispatch-cases :
        (s : HandshakeSession) (t : Tag) (d : Text)
        → ((x : Option Error) × (dispatch p json c h s t d
              ≡ record { session = s; outputs = []; thrown = x }))
          ⊎ ((b : Bytes) × (t ≡ point)
              × (unb64 p json d ≡ ok b)
              × (dispatch p json c h s t d ≡ handle_point p json c h s b))
          ⊎ ((b : Bytes) × (t ≡ confirmation)
              × (unb64 p json d ≡ ok b)
              × (dispatch p json c h s t d ≡ handle_confirm p json s b))
    unfolding dispatch
    dispatch-cases s point d = elim (Result-cases (unb64 p json d)) [
      | inl (b, e) ↦ inr (inl (b, refl, e, ground arith))
      | inr (x, e) ↦ inl (some x, ground arith)
    ]
    dispatch-cases s confirmation d = elim (Result-cases (unb64 p json d)) [
      | inl (b, e) ↦ inr (inr (b, refl, e, ground arith))
      | inr (x, e) ↦ inl (some x, ground arith)
    ]
    dispatch-cases s other d = inl (none, refl)

    pub on_data-cases :
        (s : HandshakeSession) (d : Text)
        → ((x : Option Error) × (on_data p json c h s d
              ≡ record { session = s; outputs = []; thrown = x }))
          ⊎ ((f : Frame) × (b : Bytes) × (json.parse d ≡ some f)
              × (f.t ≡ point)
              × (unb64 p json f.d ≡ ok b)
              × (on_data p json c h s d ≡ handle_point p json c h s b))
          ⊎ ((f : Frame) × (b : Bytes) × (json.parse d ≡ some f)
              × (f.t ≡ confirmation)
              × (unb64 p json f.d ≡ ok b)
              × (on_data p json c h s d ≡ handle_confirm p json s b))
    unfolding on_data
    on_data-cases s d = elim (Bool-cases s.done) [
      | inl over ↦ inl (none, ground arith)
      | inr live ↦ elim (Option-cases (json.parse d)) [
        | inl garbage ↦ inl (none, ground arith)
        | inr (f, parsed) ↦ elim (dispatch-cases s f.t f.d) [
          | inl (x, e) ↦ inl (x, ground arith)
          | inr (inl (b, t, u, e)) ↦ inr (inl (f, b, parsed, t, u, ground arith))
          | inr (inr (b, t, u, e)) ↦ inr (inr (f, b, parsed, t, u, ground arith))
        ]
      ]
    ]
