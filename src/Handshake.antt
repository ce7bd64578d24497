-- ===== src/Handshake.antt =====
-- web/src/handshake.ts: one SPAKE2 exchange over the relay, with key confirmation. What the object
-- does through its callbacks is the list of outputs that a call returns beside the new object.
mod Cases
pub mod Verdicts
pub mod Soundness
pub mod Completeness
mod Tests
use e2eanon.Prelude.{
  ℕ, ◌≡◌, List, [], ◌∷◌, ◌++◌, Bool, true, false, not, Option, none, some, Result, ok, err, Error,
  ◌>>=◌, if◌then◌else◌,
}
use e2eanon.Crypto.Base64url.{Bytes, Text}
use e2eanon.Crypto.Primitives.{Primitives}
use e2eanon.Crypto.Envelope.{codes, binary_string_from, char_codes}
use e2eanon.Spake2.Suite.{Curve, Hashes}
use e2eanon.Spake2.Exchange.{Role, Spake2State, Spake2Result, derive_w, start, finish, verify_peer}

-- The field `t` of a frame; `other` stands for any text but "m" and "c".
pub data Tag : Type 0 where
  point confirmation other : Tag

pub record Frame : Type 0 where
  pub t : Tag
  pub d : Text

-- `JSON.stringify` and `JSON.parse` at frames. Parsing throws on a text that is no JSON, which is
-- `none`, and a text that is JSON reads as a frame.
pub record FrameJson : Type 0 where
  pub stringify : Frame → Text
  pub parse : Text → Option Frame
  pub parse-stringify : (f : Frame) → parse (stringify f) ≡ some f

pub record HandshakeSession : Type 0 where
  pub state : Spake2State
  pub result : Option Spake2Result
  pub pending_peer_confirm : Option Bytes
  pub done : Bool

pub data Output : Type 0 where
  send_pake : Text → Output
  confirmed : Bytes → Output
  failed : Output

-- The object after a call, its callbacks in order, and what the call threw.
pub record Call : Type 0 where
  pub session : HandshakeSession
  pub outputs : List Output
  pub thrown : Option Error

abbrev pub returns : HandshakeSession → List Output → Call
returns s outputs = record { session = s; outputs = outputs; thrown = none }

abbrev pub throws : HandshakeSession → Error → Call
throws s e = record { session = s; outputs = []; thrown = some e }

abbrev pub after : Output → Call → Call
after o call = record call { outputs = o ∷ call.outputs }

unfoldable pub fail : HandshakeSession → Call
fail s = if s.done then returns s [] else returns (record s { done = true }) (failed ∷ [])

module _ (p : Primitives) (json : FrameJson) where
  unfoldable pub b64 : Bytes → Text
  b64 b = p.btoa (binary_string_from [] b)

  unfoldable pub unb64 : Text → Result Bytes
  unb64 s = do bin ← p.atob s; ok (char_codes bin)

  unfoldable pub frame : Tag → Bytes → Text
  frame t b = json.stringify (record { t = t; d = b64 b })

  unfoldable pub verify : HandshakeSession → Bytes → Call
  verify s peer_confirm = elim s.result [
    | none ↦ returns s []
    | some r ↦
        if not (verify_peer r peer_confirm)
        then fail s
        else returns (record s { done = true }) (confirmed r.ke ∷ [])
  ]

  unfoldable pub handle_confirm : HandshakeSession → Bytes → Call
  handle_confirm s peer_confirm = elim s.result [
    | none ↦ returns (record s { pending_peer_confirm = some peer_confirm }) []
    | some r ↦ verify s peer_confirm
  ]

  module _ (c : Curve) (h : Hashes) where
    -- `handlePoint` once `finish` has returned: the confirmation goes out, and one that came early
    -- is verified.
    pub finished : HandshakeSession → Spake2Result → Call
    finished s r =
        let s' = record s { result = some r } in
        after (send_pake (frame confirmation r.confirm)) (elim s.pending_peer_confirm [
          | none ↦ returns s' []
          | some pc ↦ verify (record s' { pending_peer_confirm = none }) pc
        ])

    unfoldable pub handle_point : HandshakeSession → Bytes → Call
    handle_point s peer_point = elim s.result [
      | some r ↦ returns s []
      | none ↦ elim (finish h c s.state peer_point) [ err e ↦ fail s | ok r ↦ finished s r ]
    ]

    abbrev decoded : HandshakeSession → Result Bytes → (Bytes → Call) → Call
    decoded s (ok b) k = k b
    decoded s (err e) k = throws s e

    pub dispatch : HandshakeSession → Tag → Text → Call
    dispatch s point d = decoded s (unb64 d) (handle_point s)
    dispatch s confirmation d = decoded s (unb64 d) (handle_confirm s)
    dispatch s other d = returns s []

    unfoldable pub on_data : HandshakeSession → Text → Call
    on_data s data_str =
        if s.done
        then returns s []
        else elim (json.parse data_str) [ none ↦ returns s [] | some f ↦ dispatch s f.t f.d ]

    -- One payload after another.
    unfoldable pub run : HandshakeSession → List Text → HandshakeSession × List Output
    run s [] = (s, [])
    run s (d ∷ ds) =
        let call = on_data s d in
        let (s', outputs) = run call.session ds in (s', call.outputs ++ outputs)

    -- The constructor: the object, and the payload that it sends.
    unfoldable pub create : Role → Text → Text → Bytes → Result (HandshakeSession × Text)
    create role password handshake_id random = do
      s ←
          start c role (derive_w h c password (h.utf8_encode handshake_id))
            (h.utf8_encode (codes "anonchat-owner:" ++ handshake_id))
            (h.utf8_encode (codes "anonchat-joiner:" ++ handshake_id)) [] none random
      ok (
        record { state = s.state; result = none; pending_peer_confirm = none; done = false },
        frame point s.message,
      )
