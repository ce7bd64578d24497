-- ===== src/Handshake/Completeness.antt =====
-- Two clients that share the code and the handshake id confirm the same secret, in whatever order
-- the relay hands them the two payloads of the other.
use e2eanon.Prelude.{
  ◌≡◌, ap, sym, ◌∙◌, List, [], ◌∷◌, ◌++◌, Bool, true, false, Option, none, some, ok, ◌>>=◌,
  >>=-eq-ok, ok-injective,
}
use e2eanon.Crypto.Base64url.{Bytes, Text}
use e2eanon.Crypto.Primitives.{Primitives, Laws, IsBytes}
use e2eanon.Crypto.Envelope.{codes, char_codes}
use e2eanon.Crypto.Envelope.Laws.{binary_string_from-append, char_codes-bytes}
use e2eanon.Spake2.Suite.{Curve, Hashes, CurveLaws, HashesLaws}
use e2eanon.Spake2.Exchange.{
  Role, party_a, party_b, Spake2State, Spake2Start, Spake2Result, derive_w, start, finish,
  verify_peer,
}
use e2eanon.Spake2.Exchange.Agreement.{finish-Agree}
use e2eanon.Spake2.Exchange.Bounds.{start-bytes, finish-bytes}
use e2eanon.Handshake.{
  point, confirmation, FrameJson, HandshakeSession, Output, send_pake, confirmed, b64, frame, unb64,
  verify, handle_confirm, finished, handle_point, dispatch, on_data, run, create,
}

-- The object as the constructor leaves it, and on its way.
abbrev at : Spake2State → Option Spake2Result → Option Bytes → Bool → HandshakeSession
at state result pending done = record {
  state = state;
  result = result;
  pending_peer_confirm = pending;
  done = done;
}

module _ (p : Primitives) (laws : Laws p) (json : FrameJson) where
  unb64-b64 : (b : Bytes) → IsBytes b → unb64 p json (b64 p json b) ≡ ok b
  unfolding b64 unb64
  unb64-b64 b h =
      ap (λ s. p.atob (p.btoa s) >>= λ bin. ok (char_codes bin)) (binary_string_from-append [] b)
      ∙ ap (λ r. r >>= λ bin. ok (char_codes bin)) (laws.atob-btoa b h)
      ∙ ap ok (char_codes-bytes b h)

  module _ (c : Curve) (h : Hashes) (state : Spake2State) (m pc : Bytes) (r : Spake2Result)
      (bm : IsBytes m) (bc : IsBytes pc) (done : finish h c state m ≡ ok r)
      (valid : verify_peer r pc ≡ true) where
    handle_point_lem :
        (pending : Option Bytes)
        → handle_point p json c h (at state none pending false) m
          ≡ finished p json c h (at state none pending false) r
    unfolding handle_point
    handle_point_lem pending = rw (handle_point, done)

    on_data-frame_point :
        (pending : Option Bytes)
        → on_data p json c h (at state none pending false) (frame p json point m)
          ≡ finished p json c h (at state none pending false) r
    unfolding on_data frame dispatch
    on_data-frame_point pending =
        rw (json.parse-stringify (record { t = point; d = b64 p json m }), unb64-b64 m bm)
          (handle_point_lem pending)

    on_data-frame_confirmation :
        (result : Option Spake2Result)
        → on_data p json c h (at state result none false) (frame p json confirmation pc)
          ≡ handle_confirm p json (at state result none false) pc
    unfolding on_data frame dispatch
    on_data-frame_confirmation result =
        rw (json.parse-stringify (record { t = confirmation; d = b64 p json pc }), unb64-b64 pc bc)

    pub run_point_first :
        run p json c h
          (at state none none false)
          (frame p json point m ∷ frame p json confirmation pc ∷ [])
        ≡ (
          at state (some r) none true,
          send_pake (frame p json confirmation r.confirm) ∷ confirmed r.ke ∷ [],
        )
    unfolding run finished handle_confirm verify
    run_point_first =
        rw (on_data-frame_point none) (rw (on_data-frame_confirmation (some r)) (rw valid))

    pub run_confirm_first :
        run p json c h
          (at state none none false)
          (frame p json confirmation pc ∷ frame p json point m ∷ [])
        ≡ (
          at state (some r) none true,
          send_pake (frame p json confirmation r.confirm) ∷ confirmed r.ke ∷ [],
        )
    unfolding run finished handle_confirm verify
    run_confirm_first =
        rw (on_data-frame_confirmation none) (rw (on_data-frame_point (some pc)) (rw valid))

  module _ (c : Curve) (curve_laws : CurveLaws c) (h : Hashes) (hash_laws : HashesLaws h) where
    -- What a side sends and confirms in a run that succeeds.
    abbrev pub succeeds : Spake2Result → List Output
    succeeds r = send_pake (frame p json confirmation r.confirm) ∷ confirmed r.ke ∷ []

    create_inv :
        (role : Role) (password hs_id : Text) (random : Bytes) (s : HandshakeSession) (m : Text)
        → create p json c h role password hs_id random ≡ ok (s, m)
        → (r : Spake2Start) × (start c role
              (derive_w h c password (h.utf8_encode hs_id))
              (h.utf8_encode (codes "anonchat-owner:" ++ hs_id))
              (h.utf8_encode (codes "anonchat-joiner:" ++ hs_id))
              []
              none
              random
            ≡ ok r)
          × (s ≡ at r.state none none false)
          × (m ≡ frame p json point r.message)
    unfolding create
    create_inv role password hs_id random s m e =
        let (r, started, made) = >>=-eq-ok (start c role _ _ _ [] none random) _ e in
        (
          r,
          started,
          ap (λ (t : HandshakeSession × Text). t.0) (sym (ok-injective made)),
          ap (λ (t : HandshakeSession × Text). t.1) (sym (ok-injective made)),
        )

    -- The owner and the joiner, made from one code and one handshake id, both send their confirmation
    -- and confirm one and the same secret, whichever of the other's two payloads comes first.
    pub create-agree :
        (password hs_id : Text) (random_a random_b : Bytes) (a b : HandshakeSession) (ma mb : Text)
        → create p json c h party_a password hs_id random_a ≡ ok (a, ma)
        → create p json c h party_b password hs_id random_b ≡ ok (b, mb)
        → (ra : Spake2Result) × (rb : Spake2Result) × (ra.ke ≡ rb.ke)
          × ((run p json c h a (mb ∷ frame p json confirmation rb.confirm ∷ [])).1 ≡ succeeds ra)
          × ((run p json c h a (frame p json confirmation rb.confirm ∷ mb ∷ [])).1 ≡ succeeds ra)
          × ((run p json c h b (ma ∷ frame p json confirmation ra.confirm ∷ [])).1 ≡ succeeds rb)
          × ((run p json c h b (frame p json confirmation ra.confirm ∷ ma ∷ [])).1 ≡ succeeds rb)
    create-agree password hs_id random_a random_b a b ma mb ea eb =
        let (sa, started_a, is_a, sends_a) = create_inv party_a password hs_id random_a a ma ea in
        let (sb, started_b, is_b, sends_b) = create_inv party_b password hs_id random_b b mb eb in
        let (ra, rb, fa, fb, agree) =
          finish-Agree c curve_laws h _ _ _ [] none none random_a random_b sa sb started_a
            started_b in
        let bsa = start-bytes c curve_laws party_a _ _ _ [] none random_a sa started_a in
        let bsb = start-bytes c curve_laws party_b _ _ _ [] none random_b sb started_b in
        let ba = finish-bytes h hash_laws c sa.state sb.message ra fa in
        let bb = finish-bytes h hash_laws c sb.state sa.message rb fb in
        rw (is_a, is_b, sends_a, sends_b)
          (
            ra,
            rb,
            agree.same_ke,
            ap (λ (t : HandshakeSession × List Output). t.1)
                (run_point_first c h sa.state sb.message rb.confirm ra bsb bb fa agree.a_accepts),
            ap (λ (t : HandshakeSession × List Output). t.1)
                (run_confirm_first c h sa.state sb.message rb.confirm ra bsb bb fa agree.a_accepts),
            ap (λ (t : HandshakeSession × List Output). t.1)
                (run_point_first c h sb.state sa.message ra.confirm rb bsa ba fb agree.b_accepts),
            ap (λ (t : HandshakeSession × List Output). t.1)
                (run_confirm_first c h sb.state sa.message ra.confirm rb bsa ba fb agree.b_accepts),
          )
