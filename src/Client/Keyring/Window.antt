-- ===== src/Client/Keyring/Window.antt =====
-- What a session's keys promise: the newest five keys that were added, newest first, as plain values;
-- a text is read with the first of them that opens it.
use e2eanon.Prelude.{
  ℕ, zero, suc, ◌≡◌, refl, ap, ap₂, ◌∙◌, List, [], ◌∷◌, ◌++◌, map, All, All-drop, Option, none,
  some, Text, length, take, drop, ok, err, ◌<◌,
}
use e2eanon.Crypto.Base64url.{Bytes}
use e2eanon.Crypto.Primitives.{Primitives}
use e2eanon.Crypto.Envelope.{decrypt_message}
use e2eanon.Client.State.{Ref, Client, max_kept_keys, read, wipe_keys}
use e2eanon.Client.Keyring.{add_key, decrypt_with, decrypt_any}
use e2eanon.Client.Keyring.Heap.{Differs, read-append, read-append_last, read-wipe_keys}
use e2eanon.Client.Keyring.Lifetime.{
  Distinct, IsRing, HoldsKeys, keys_after, add_key_lem, below-Differs,
}
use e2eanon.Client.Keyring.Rotations.{add_keys, add_key-Next}

-- The abstract state: keys, newest first.
abbrev pub window : List Ref → List Bytes → List Bytes
window keys heap = map (read heap) keys

abbrev pub slide : Bytes → List Bytes → List Bytes
slide b w = take max_kept_keys (b ∷ w)

pub slides : List Bytes → List Bytes → List Bytes
slides [] w = w
slides (b ∷ bs) w = slides bs (slide b w)

module _ (p : Primitives) where
  pub first_opening : List Bytes → Text → Option Text
  first_opening [] body = none
  first_opening (k ∷ ks) body =
      let rest = first_opening ks body in
      elim (decrypt_message p k body) [ ok t ↦ some t | err e ↦ rest ]

  decrypt_with_lem :
      (heap : List Bytes) (keys : List Ref) (body : Text)
      → decrypt_with p heap keys body ≡ first_opening (window keys heap) body
  unfolding decrypt_with first_opening
  decrypt_with_lem heap [] body = refl
  decrypt_with_lem heap (k ∷ ks) body =
      ap (λ rest. elim (decrypt_message p (read heap k) body) [ ok t ↦ some t | err e ↦ rest ])
        (decrypt_with_lem heap ks body)

map-take {ℓ κ} :
    {A : Type ℓ} {B : Type κ} (f : A → B) (n : ℕ) (xs : List A)
    → map f (take n xs) ≡ take n (map f xs)
map-take f zero xs = refl
map-take f (suc n) [] = refl
map-take f (suc n) (x ∷ xs) = ap (λ ys. f x ∷ ys) (map-take f n xs)

-- Wiping what is cut off does not touch what is kept.
window-wipe_keys :
    (n : ℕ) (keys : List Ref) (heap : List Bytes)
    → Distinct keys
    → window (take n keys) (wipe_keys (drop n keys) heap) ≡ window (take n keys) heap
window-wipe_keys zero keys heap d = refl
window-wipe_keys (suc n) [] heap d = refl
window-wipe_keys (suc n) (k ∷ ks) heap (apart, d) =
    ap₂ (λ b bs. b ∷ bs) (read-wipe_keys (drop n ks) heap k (All-drop (Differs k) n ks apart))
      (window-wipe_keys n ks heap d)

window-append :
    (keys : List Ref) (heap : List Bytes) (b : Bytes)
    → All (λ k. k < length heap) keys
    → window keys (heap ++ b ∷ []) ≡ window keys heap
window-append [] heap b h = refl
window-append (k ∷ ks) heap b (here, h) =
    ap₂ (λ x xs. x ∷ xs) (read-append heap b k here) (window-append ks heap b h)

window-add_key :
    (b : Bytes) (keys : List Ref) (cl : Client)
    → HoldsKeys cl keys
    → IsRing keys cl.heap
    → window (keys_after keys cl.heap) (add_key b cl).heap ≡ slide b (window keys cl.heap)
window-add_key b keys cl h r =
    let ks = length cl.heap ∷ keys in
    let heap = cl.heap ++ b ∷ [] in
    ap (window (keys_after keys cl.heap)) (add_key_lem b keys cl h).1
    ∙ window-wipe_keys max_kept_keys ks heap
        (below-Differs (length cl.heap) keys r.in_heap, r.distinct)
    ∙ map-take (read heap) max_kept_keys ks
    ∙ ap₂ (λ x xs. take max_kept_keys (x ∷ xs)) (read-append_last cl.heap b)
        (window-append keys cl.heap b r.in_heap)

module _ (p : Primitives) where
  -- Whatever keys are added to a session with at most five keys in buffers of their own: what its
  -- keys then read in the heap is the abstract window after the same keys, and every text is read
  -- with the first key of that window that opens it.
  pub add_keys-refines :
      (bs : List Bytes) (keys : List Ref) (cl : Client)
      → HoldsKeys cl keys
      → IsRing keys cl.heap
      → (held : List Ref) × HoldsKeys (add_keys bs cl) held
        × (window held (add_keys bs cl).heap ≡ slides bs (window keys cl.heap))
        × ((body : Text)
            → decrypt_any p (add_keys bs cl) body
              ≡ first_opening p (slides bs (window keys cl.heap)) body)
  unfolding add_keys slides decrypt_any
  add_keys-refines [] keys cl (s, has, same) r =
      (keys, (s, has, same), refl, λ body. rw (has, same) (decrypt_with_lem p cl.heap keys body))
  add_keys-refines (b ∷ bs) keys cl h r =
      let (held, ring, size) = add_key-Next b keys cl h r in
      let here = window-add_key b keys cl h r in
      let (final, holds, same, reads) =
        add_keys-refines bs (keys_after keys cl.heap) (add_key b cl) held ring in
      (
        final,
        holds,
        same ∙ ap (slides bs) here,
        λ body. reads body ∙ ap (λ w. first_opening p (slides bs w) body) here,
      )
