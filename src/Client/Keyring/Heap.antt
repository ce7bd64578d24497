-- ===== src/Client/Keyring/Heap.antt =====
-- What wiping and allocating do to each buffer.
use e2eanon.Prelude.{
  zero, suc, ◌<◌, ◌≡◌, ◌≢◌, refl, ap, sym, ◌∙◌, List, [], ◌∷◌, ◌++◌, length, length-set,
  length-replicate, get_elem?-set_self, get_elem?-set_ne, replicate, All, arith, subst, ℕ_discrete,
}
use e2eanon.Crypto.Base64url.{Bytes}
use e2eanon.Client.State.{Ref, read_from, read, fill_zero, wipe_keys}

-- The buffer holds zeros only.
abbrev pub IsWiped : List Bytes → Ref → Type 0
IsWiped heap k = read heap k ≡ replicate (length (read heap k)) 0

abbrev pub Differs : Ref → Ref → Type 0
Differs k j = j ≢ k

pub read-append :
    (heap : List Bytes) (b : Bytes) (k : Ref)
    → k < length heap
    → read (heap ++ b ∷ []) k ≡ read heap k
read-append [] b k h = elim h [ ]
read-append (c ∷ heap) b zero h = refl
read-append (c ∷ heap) b (suc k) h = read-append heap b k (omega arith)

pub read-append_last : (heap : List Bytes) (b : Bytes) → read (heap ++ b ∷ []) (length heap) ≡ b
read-append_last [] b = refl
read-append_last (c ∷ heap) b = read-append_last heap b

pub read-fill_zero_ne :
    (heap : List Bytes) (j k : Ref) → j ≢ k → read (fill_zero heap j) k ≡ read heap k
read-fill_zero_ne heap j k h = ap read_from (get_elem?-set_ne heap j k _ h)

pub read-fill_zero_self :
    (heap : List Bytes) (k : Ref)
    → k < length heap
    → read (fill_zero heap k) k ≡ replicate (length (read heap k)) 0
read-fill_zero_self heap k h = ap read_from (get_elem?-set_self heap k _ h)

pub fill_zero-IsWiped :
    (heap : List Bytes) (k : Ref) → k < length heap → IsWiped (fill_zero heap k) k
fill_zero-IsWiped heap k h =
    let e = read-fill_zero_self heap k h in
    e
    ∙ ap (λ n. replicate n 0) (sym (length-replicate (length (read heap k)) 0) ∙ ap length (sym e))

pub length-wipe_keys :
    (ks : List Ref) (heap : List Bytes) → length (wipe_keys ks heap) ≡ length heap
unfolding wipe_keys
length-wipe_keys [] heap = refl
length-wipe_keys (k ∷ ks) heap = length-wipe_keys ks (fill_zero heap k) ∙ length-set heap k _

-- Wiping other buffers leaves a buffer as it is.
pub read-wipe_keys :
    (ks : List Ref) (heap : List Bytes) (k : Ref)
    → All (Differs k) ks
    → read (wipe_keys ks heap) k ≡ read heap k
unfolding wipe_keys
read-wipe_keys [] heap k h = refl
read-wipe_keys (j ∷ ks) heap k (n, h) =
    read-wipe_keys ks (fill_zero heap j) k h ∙ read-fill_zero_ne heap j k n

IsWiped-fill_zero :
    (heap : List Bytes) (j k : Ref)
    → k < length heap
    → IsWiped heap k
    → IsWiped (fill_zero heap j) k
IsWiped-fill_zero heap j k h w = elim (ℕ_discrete j k) [
  | yes e ↦ subst (λ i. IsWiped (fill_zero heap i) k) (sym e) (fill_zero-IsWiped heap k h)
  | no n ↦ rw (read-fill_zero_ne heap j k n) w
]

-- What is wiped stays wiped.
pub IsWiped-wipe_keys :
    (ks : List Ref) (heap : List Bytes) (k : Ref)
    → k < length heap
    → IsWiped heap k
    → IsWiped (wipe_keys ks heap) k
unfolding wipe_keys
IsWiped-wipe_keys [] heap k h w = w
IsWiped-wipe_keys (j ∷ ks) heap k h w =
    IsWiped-wipe_keys ks (fill_zero heap j) k (omega (arith, length-set heap j _))
      (IsWiped-fill_zero heap j k h w)

-- Every buffer on the list is wiped.
pub wipe_keys-IsWiped :
    (ks : List Ref) (heap : List Bytes)
    → All (λ k. k < length heap) ks
    → All (IsWiped (wipe_keys ks heap)) ks
unfolding wipe_keys
wipe_keys-IsWiped [] heap h = tt
wipe_keys-IsWiped (k ∷ ks) heap (p, h) =
    let size = length-set heap k (replicate (length (read heap k)) 0) in
    (
      IsWiped-wipe_keys ks (fill_zero heap k) k (omega (arith, size)) (fill_zero-IsWiped heap k p),
      wipe_keys-IsWiped ks (fill_zero heap k) (subst (λ n. All (λ j. j < n) ks) (sym size) h),
    )
