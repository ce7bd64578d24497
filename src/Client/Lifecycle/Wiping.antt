-- ===== src/Client/Lifecycle/Wiping.antt =====
-- No key material outlives a session: `teardown` of web/src/main.ts.
use e2eanon.Prelude.{
  ◌<◌, ◌≡◌, refl, ap, sym, subst, ◌∙◌, List, [], ◌∷◌, ◌++◌, All, Bool, Option, none, some, Text,
  length,
}
use e2eanon.Crypto.Base64url.{Bytes}
use e2eanon.Client.State.{Ref, HsRecord, Session, Client, fill_zero, wipe_keys, wipe_key}
use e2eanon.Client.Keyring.Heap.{IsWiped, wipe_keys-IsWiped}
use e2eanon.Client.Lifecycle.{wipe_handshakes, wipe_session, teardown}

abbrev pub ref_list : Option Ref → List Ref
ref_list none = []
ref_list (some k) = k ∷ []

-- The secrets of the handshakes that are still running.
abbrev pub handshake_refs : List (Text × HsRecord) → List Ref
handshake_refs [] = []
handshake_refs ((id, r) ∷ rs) = ref_list r.ke ++ handshake_refs rs

-- Every buffer of key material that a session refers to.
abbrev pub key_refs : Session → List Ref
key_refs s = s.keys ++ s.private_key ∷ handshake_refs s.handshakes

wipe_keys-append :
    (ks js : List Ref) (heap : List Bytes)
    → wipe_keys (ks ++ js) heap ≡ wipe_keys js (wipe_keys ks heap)
unfolding wipe_keys
wipe_keys-append [] js heap = refl
wipe_keys-append (k ∷ ks) js heap = wipe_keys-append ks js (fill_zero heap k)

wipe_key_lem : (k : Option Ref) (heap : List Bytes) → wipe_key k heap ≡ wipe_keys (ref_list k) heap
unfolding wipe_keys
wipe_key_lem none heap = refl
wipe_key_lem (some k) heap = refl

wipe_handshakes_lem :
    (rs : List (Text × HsRecord)) (heap : List Bytes)
    → wipe_handshakes rs heap ≡ wipe_keys (handshake_refs rs) heap
unfolding wipe_handshakes wipe_keys
wipe_handshakes_lem [] heap = refl
wipe_handshakes_lem ((id, r) ∷ rs) heap =
    wipe_handshakes_lem rs (wipe_key r.ke heap)
    ∙ ap (wipe_keys (handshake_refs rs)) (wipe_key_lem r.ke heap)
    ∙ sym (wipe_keys-append (ref_list r.ke) (handshake_refs rs) heap)

wipe_session_lem :
    (s : Session) (heap : List Bytes) → wipe_session s heap ≡ wipe_keys (key_refs s) heap
unfolding wipe_session wipe_keys
wipe_session_lem s heap =
    wipe_handshakes_lem s.handshakes (fill_zero (wipe_keys s.keys heap) s.private_key)
    ∙ sym (wipe_keys-append s.keys (s.private_key ∷ handshake_refs s.handshakes) heap)

pub teardown-IsWiped :
    (back : Bool) (cl : Client) (s : Session)
    → cl.session ≡ some s
    → All (λ k. k < length cl.heap) (key_refs s)
    → ((teardown back cl).session ≡ none) × All (IsWiped (teardown back cl).heap) (key_refs s)
unfolding teardown
teardown-IsWiped back cl s e h =
    let wiped : (teardown back cl).heap ≡ wipe_keys (key_refs s) cl.heap =
      rw e (wipe_session_lem s cl.heap) in
    (
      refl,
      subst (λ m. All (IsWiped m) (key_refs s)) (sym wiped)
          (wipe_keys-IsWiped (key_refs s) cl.heap h),
    )
