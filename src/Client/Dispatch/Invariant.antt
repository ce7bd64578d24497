-- ===== src/Client/Dispatch/Invariant.antt =====
-- The keys of a client, and what leaves them in order.
use e2eanon.Prelude.{
  ℕ, suc, ◌≤◌, ◌<◌, ◌≡◌, refl, ap, sym, subst, List, [], ◌∷◌, All, All-map, Bool, true, false,
  Option, none, some, Text, length, length-append, Result, ok, err, Error, Option-cases, inl, inr,
  arith, if◌then◌else◌,
}
use e2eanon.Crypto.Base64url.{Bytes}
use e2eanon.Crypto.Primitives.{Primitives}
use e2eanon.Protocol.{ClientMsg}
use e2eanon.Client.State.{Session, Client, M, ◌>>◌}
use e2eanon.Client.Keyring.{allocate, push_key, add_key}
use e2eanon.Crypto.Envelope.{key_len}
use e2eanon.Client.Keyring.Lifetime.{
  IsRing, keys_after, heap_after, add_key_lem, add_key-session, length-heap_after,
  keys_after-IsRing,
}
use e2eanon.Client.Membership.{update, send, new_key}
use e2eanon.Client.Membership.Sending.{>>-cases}
use e2eanon.Client.Membership.Frames.{Frames, send-Frames}
use e2eanon.Client.Lifecycle.{teardown}
use e2eanon.Client.Lifecycle.Wiping.{handshake_refs}

-- Every key of a session is a buffer of the heap, and its room keys are at most five different ones.
pub record IsSafe (s : Session) (heap : List Bytes) : Type 0 where
  pub ring : IsRing s.keys heap
  pub own : s.private_key < length heap
  pub secrets : All (λ k. k < length heap) (handshake_refs s.handshakes)

abbrev pub KeyedIn : Option Session → List Bytes → Type 0
KeyedIn none heap = Unit
KeyedIn (some s) heap = IsSafe s heap

abbrev pub IsKeyed : Client → Type 0
IsKeyed cl = KeyedIn cl.session cl.heap

-- What a test returns satisfies P if both branches do.
pub on_option {ℓ κ μ} :
    {A : Type ℓ} {B : Type κ} (P : B → Type μ) (o : Option A) (d : B) (g : A → B)
    → P d
    → ((a : A) → o ≡ some a → P (g a))
    → P (elim o [ none ↦ d | some a ↦ g a ])
on_option P none d g h k = h
on_option P (some a) d g h k = k a refl

pub on_result {ℓ κ μ} :
    {A : Type ℓ} {B : Type κ} (P : B → Type μ) (r : Result A) (d : Error → B) (g : A → B)
    → ((x : Error) → P (d x))
    → ((a : A) → r ≡ ok a → P (g a))
    → P (elim r [ err x ↦ d x | ok a ↦ g a ])
on_result P (err x) d g h k = h x
on_result P (ok a) d g h k = k a refl

pub on_if {κ μ} :
    {B : Type κ} (P : B → Type μ) (b : Bool) (x y : B) → P x → P y → P (if b then x else y)
on_if P true x y h k = h
on_if P false x y h k = k

pub IsSafe-grow :
    (s : Session) (heap heap' : List Bytes)
    → length heap ≤ length heap'
    → IsSafe s heap
    → IsSafe s heap'
IsSafe-grow s heap heap' le h = record {
  ring = record {
    bounded = h.ring.bounded;
    in_heap = All-map _ _ s.keys (λ k p. omega arith) h.ring.in_heap;
    distinct = h.ring.distinct;
  };
  own = omega (arith, h.own);
  secrets = All-map _ _ (handshake_refs s.handshakes) (λ k p. omega arith) h.secrets;
}

pub session-IsKeyed :
    (s : Session) (cl : Client) → cl.session ≡ some s → IsSafe s cl.heap → IsKeyed cl
session-IsKeyed s cl e h = subst (λ o. KeyedIn o cl.heap) (sym e) h

pub IsKeyed-session :
    (s : Session) (cl : Client) → cl.session ≡ some s → IsKeyed cl → IsSafe s cl.heap
IsKeyed-session s cl e h = subst (λ o. KeyedIn o cl.heap) e h

pub none-IsKeyed : (cl : Client) → cl.session ≡ none → IsKeyed cl
none-IsKeyed cl e = subst (λ o. KeyedIn o cl.heap) (sym e) tt

KeyedIn-grow :
    (o : Option Session) (heap heap' : List Bytes)
    → length heap ≤ length heap'
    → KeyedIn o heap
    → KeyedIn o heap'
KeyedIn-grow none heap heap' le h = tt
KeyedIn-grow (some s) heap heap' le h = IsSafe-grow s heap heap' le h

-- The session is the same and no buffer has gone.
pub same-IsKeyed :
    (cl cl' : Client)
    → cl'.session ≡ cl.session
    → length cl.heap ≤ length cl'.heap
    → IsKeyed cl
    → IsKeyed cl'
same-IsKeyed cl cl' e le h =
    subst (λ o. KeyedIn o cl'.heap) (sym e) (KeyedIn-grow cl.session cl.heap cl'.heap le h)

pub Frames-IsKeyed : (cl cl' : Client) → Frames cl cl' → IsKeyed cl → IsKeyed cl'
Frames-IsKeyed cl cl' (s, e) h = same-IsKeyed cl cl' s (omega (arith, ap length e)) h

pub send-IsKeyed : (m : ClientMsg) (cl : Client) → IsKeyed cl → IsKeyed (send m cl)
send-IsKeyed m cl h = Frames-IsKeyed cl (send m cl) (send-Frames m cl) h

pub update-IsKeyed :
    (f : Session → Session) (cl : Client)
    → ((s : Session) → IsSafe s cl.heap → IsSafe (f s) cl.heap)
    → IsKeyed cl
    → IsKeyed (update f cl)
update-IsKeyed f cl k h =
    on_option IsKeyed cl.session cl _ h (λ s e. k s (IsKeyed-session s cl e h))

pub allocate-IsKeyed : (b : Bytes) (cl : Client) → IsKeyed cl → IsKeyed (allocate b cl).1
unfolding allocate
allocate-IsKeyed b cl h =
    same-IsKeyed cl (allocate b cl).1 refl (omega (arith, length-append cl.heap (b ∷ []))) h

add_key-session_none : (b : Bytes) (cl : Client) → cl.session ≡ none → (add_key b cl).session ≡ none
unfolding add_key push_key allocate
add_key-session_none b cl e = ground arith

pub add_key-IsKeyed : (b : Bytes) (cl : Client) → IsKeyed cl → IsKeyed (add_key b cl)
add_key-IsKeyed b cl h = elim (Option-cases cl.session) [
  | inl e ↦ none-IsKeyed (add_key b cl) (add_key-session_none b cl e)
  | inr (s, e) ↦
      let safe = IsKeyed-session s cl e h in
      let heap = (add_key_lem b s.keys cl (s, e, refl)).1 in
      let size = length-heap_after b s.keys cl.heap in
      let kept = IsSafe-grow s cl.heap (heap_after b s.keys cl.heap) (omega arith) safe in
      session-IsKeyed (record s { keys = keys_after s.keys cl.heap }) (add_key b cl)
        (add_key-session b s cl e)
        (subst (IsSafe (record s { keys = keys_after s.keys cl.heap })) (sym heap) record {
          ring = keys_after-IsRing b s.keys cl.heap safe.ring;
          own = kept.own;
          secrets = kept.secrets;
        })
]

pub teardown-IsKeyed : (back : Bool) (cl : Client) → IsKeyed (teardown back cl)
unfolding teardown
teardown-IsKeyed back cl = tt

pub >>-IsKeyed :
    (m k : M (Unit {0})) (cl : Client)
    → IsKeyed (m cl).0
    → ((c : Client) → IsKeyed c → IsKeyed (k c).0)
    → IsKeyed ((m >> k) cl).0
>>-IsKeyed m k cl h f = elim (>>-cases m k cl) [
  | inl (e, same) ↦ rw same (f (m cl).0 h)
  | inr (x, e, same) ↦ rw same h
]

pub new_key-IsKeyed :
    (p : Primitives) (random : ℕ → ℕ → Bytes) (cl : Client)
    → IsKeyed cl
    → IsKeyed (new_key p random cl).1
unfolding new_key add_key
new_key-IsKeyed p random cl h =
    add_key-IsKeyed (random cl.drawn key_len) (record cl { drawn = suc cl.drawn }) h

pub on_text {κ μ} :
    {B : Type κ} (P : B → Type μ) (o : Option Text) (d d' : B) (g : ℕ → Text → B)
    → P d
    → P d'
    → ((c : ℕ) (t : Text) → P (g c t))
    → P (elim o [ none ↦ d | some [] ↦ d' | some (c ∷ t) ↦ g c t ])
on_text P none d d' g h h' k = h
on_text P (some []) d d' g h h' k = h'
on_text P (some (c ∷ t)) d d' g h h' k = k c t

-- A change of a session that touches none of its keys.
pub spare_IsSafe :
    (s s' : Session) (heap : List Bytes)
    → s'.keys ≡ s.keys
    → s'.private_key ≡ s.private_key
    → s'.handshakes ≡ s.handshakes
    → IsSafe s heap
    → IsSafe s' heap
spare_IsSafe s s' heap ks k hs h = record {
  ring = subst (λ x. IsRing x heap) (sym ks) h.ring;
  own = subst (λ x. x < length heap) (sym k) h.own;
  secrets = subst (λ x. All (λ j. j < length heap) (handshake_refs x)) (sym hs) h.secrets;
}
