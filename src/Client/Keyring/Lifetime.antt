-- ===== src/Client/Keyring/Lifetime.antt =====
-- How long a room key lives: the newest five are kept intact, and a key is wiped when it is pushed out.
use e2eanon.Prelude.{
  ℕ, zero, suc, ◌+◌, ◌≤◌, ◌<◌, ◌≡◌, refl, ap, sym, subst, ◌∙◌, List, [], ◌∷◌, ◌++◌, some, length,
  length-append, length-take, take, drop, get_elem?, All, All-map, All-take, All-drop, arith,
}
use mathlib.Core.Option.{some-injective}
use e2eanon.Crypto.Base64url.{Bytes}
use e2eanon.Client.State.{Ref, Session, Client, max_kept_keys, read, wipe_keys}
use e2eanon.Client.Keyring.{allocate, push_key, add_key}
use e2eanon.Client.Keyring.Heap.{
  IsWiped, Differs, read-append, read-append_last, length-wipe_keys, read-wipe_keys,
  IsWiped-wipe_keys, wipe_keys-IsWiped,
}

abbrev pub Distinct : List Ref → Type 0
Distinct [] = Unit
Distinct (k ∷ ks) = All (Differs k) ks × Distinct ks

-- A ring of keys over a heap: at most five, each a buffer, no two the same buffer.
pub record IsRing (keys : List Ref) (heap : List Bytes) : Type 0 where
  pub bounded : length keys ≤ max_kept_keys
  pub in_heap : All (λ k. k < length heap) keys
  pub distinct : Distinct keys

abbrev pub HoldsKeys : Client → List Ref → Type 0
HoldsKeys cl keys = (s : Session) × (cl.session ≡ some s) × (s.keys ≡ keys)

Distinct-take : (n : ℕ) (ks : List Ref) → Distinct ks → Distinct (take n ks)
Distinct-take zero ks h = tt
Distinct-take (suc n) [] h = tt
Distinct-take (suc n) (k ∷ ks) (p, h) = (All-take (Differs k) n ks p, Distinct-take n ks h)

Distinct-drop :
    (n i : ℕ) (ks : List Ref) (k : Ref)
    → get_elem? ks i ≡ some k
    → i < n
    → Distinct ks
    → All (Differs k) (drop n ks)
Distinct-drop zero i ks k e h d = elim h [ ]
Distinct-drop (suc n) i [] k e h d = tt
Distinct-drop (suc n) zero (j ∷ ks) k e h (p, d) =
    subst (λ x. All (Differs x) (drop n ks)) (some-injective j k e) (All-drop (Differs j) n ks p)
Distinct-drop (suc n) (suc i) (j ∷ ks) k e h (p, d) = Distinct-drop n i ks k e (omega arith) d

get_elem?-take : (n i : ℕ) (ks : List Ref) → i < n → get_elem? (take n ks) i ≡ get_elem? ks i
get_elem?-take zero i ks h = elim h [ ]
get_elem?-take (suc n) i [] h = refl
get_elem?-take (suc n) zero (k ∷ ks) h = refl
get_elem?-take (suc n) (suc i) (k ∷ ks) h = get_elem?-take n i ks (omega arith)

pub All-get_elem? {κ} :
    (P : Ref → Type κ) (i : ℕ) (ks : List Ref) (k : Ref) → All P ks → get_elem? ks i ≡ some k → P k
All-get_elem? P i [] k h e = cc
All-get_elem? P zero (j ∷ ks) k (p, h) e = subst P (some-injective j k e) p
All-get_elem? P (suc i) (j ∷ ks) k (p, h) e = All-get_elem? P i ks k h e

-- What stands at position n or later is dropped by `take n`.
All-dropped {κ} :
    (P : Ref → Type κ) (n i : ℕ) (ks : List Ref) (k : Ref)
    → All P (drop n ks)
    → get_elem? ks i ≡ some k
    → n ≤ i
    → P k
All-dropped P zero i ks k h e l = All-get_elem? P i ks k h e
All-dropped P (suc n) i [] k h e l = cc
All-dropped P (suc n) zero (j ∷ ks) k h e l = elim l [ ]
All-dropped P (suc n) (suc i) (j ∷ ks) k h e l = All-dropped P n i ks k h e (omega arith)

pub below-Differs : (n : ℕ) (ks : List Ref) → All (λ k. k < n) ks → All (Differs n) ks
below-Differs n ks h = All-map _ _ ks (λ k p e. omega arith) h

-- The keys and the heap after one more key.
abbrev pub keys_after : List Ref → List Bytes → List Ref
keys_after keys heap = take max_kept_keys (length heap ∷ keys)

abbrev pub heap_after : Bytes → List Ref → List Bytes → List Bytes
heap_after b keys heap = wipe_keys (drop max_kept_keys (length heap ∷ keys)) (heap ++ b ∷ [])

pub add_key_lem :
    (b : Bytes) (keys : List Ref) (cl : Client)
    → HoldsKeys cl keys
    → HoldsKeys (add_key b cl) (keys_after keys cl.heap)
      × ((add_key b cl).heap ≡ heap_after b keys cl.heap)
unfolding add_key push_key allocate
add_key_lem b keys cl (s, e, same) = (
  (
    record s { keys = take max_kept_keys (length cl.heap ∷ s.keys) },
    ground arith,
    ap (λ ks. take max_kept_keys (length cl.heap ∷ ks)) same,
  ),
  ground arith,
)

pub length-heap_after :
    (b : Bytes) (keys : List Ref) (heap : List Bytes)
    → length (heap_after b keys heap) ≡ length heap + 1
length-heap_after b keys heap = omega (
  arith,
  length-wipe_keys (drop max_kept_keys (length heap ∷ keys)) (heap ++ b ∷ []),
  length-append heap (b ∷ []),
)

pub keys_after-IsRing :
    (b : Bytes) (keys : List Ref) (heap : List Bytes)
    → IsRing keys heap
    → IsRing (keys_after keys heap) (heap_after b keys heap)
keys_after-IsRing b keys heap r =
    let size = length-heap_after b keys heap in
    let old =
      All-map (λ k. k < length heap) (λ k. k < length heap + 1) keys (λ k p. omega arith)
        r.in_heap in
    let all : All (λ k. k < length heap + 1) (length heap ∷ keys) = (omega arith, old) in
    record {
      bounded = omega (arith, length-take max_kept_keys (length heap ∷ keys));
      in_heap =
          subst (λ n. All (λ k. k < n) (keys_after keys heap)) (sym size)
            (All-take (λ k. k < length heap + 1) max_kept_keys (length heap ∷ keys) all);
      distinct =
          Distinct-take max_kept_keys (length heap ∷ keys)
            (below-Differs (length heap) keys r.in_heap, r.distinct);
    }

-- A key that is held at position i stands one further back after the next key, with its bytes as
-- they were, as long as that is among the first five.
pub heap_after_kept :
    (b : Bytes) (keys : List Ref) (heap : List Bytes) (i : ℕ) (k : Ref)
    → IsRing keys heap
    → get_elem? keys i ≡ some k
    → i + 1 < max_kept_keys
    → (get_elem? (keys_after keys heap) (suc i) ≡ some k)
      × (read (heap_after b keys heap) k ≡ read heap k)
heap_after_kept b keys heap i k r e h =
    let there = All-get_elem? (λ k. k < length heap) i keys k r.in_heap e in
    let ks = length heap ∷ keys in
    let apart : All (Differs k) (drop max_kept_keys ks) =
      Distinct-drop max_kept_keys (suc i) ks k e (omega arith)
        (below-Differs (length heap) keys r.in_heap, r.distinct) in
    (
      get_elem?-take max_kept_keys (suc i) ks (omega arith) ∙ e,
      read-wipe_keys (drop max_kept_keys ks) (heap ++ b ∷ []) k apart ∙ read-append heap b k there,
    )

-- The key at the last position is wiped by the next key.
pub heap_after-IsWiped :
    (b : Bytes) (keys : List Ref) (heap : List Bytes) (i : ℕ) (k : Ref)
    → IsRing keys heap
    → get_elem? keys i ≡ some k
    → max_kept_keys ≤ i + 1
    → IsWiped (heap_after b keys heap) k
heap_after-IsWiped b keys heap i k r e h =
    let ks = length heap ∷ keys in
    let old =
      All-map (λ k. k < length heap) (λ k. k < length (heap ++ b ∷ [])) keys
        (λ k p. omega (arith, length-append heap (b ∷ []))) r.in_heap in
    let all : All (λ k. k < length (heap ++ b ∷ [])) ks =
      (omega (arith, length-append heap (b ∷ [])), old) in
    All-dropped (IsWiped (heap_after b keys heap)) max_kept_keys (suc i) ks k
      (wipe_keys-IsWiped (drop max_kept_keys ks) (heap ++ b ∷ [])
        (All-drop (λ k. k < length (heap ++ b ∷ [])) max_kept_keys ks all))
      e (omega arith)

pub heap_after_stays :
    (b : Bytes) (keys : List Ref) (heap : List Bytes) (k : Ref)
    → k < length heap
    → IsWiped heap k
    → IsWiped (heap_after b keys heap) k
heap_after_stays b keys heap k h w =
    IsWiped-wipe_keys (drop max_kept_keys (length heap ∷ keys)) (heap ++ b ∷ []) k
      (omega (arith, length-append heap (b ∷ []))) (rw (read-append heap b k h) w)

pub add_key-session :
    (b : Bytes) (s : Session) (cl : Client)
    → cl.session ≡ some s
    → (add_key b cl).session ≡ some (record s { keys = keys_after s.keys cl.heap })
unfolding add_key push_key allocate
add_key-session b s cl e = ground arith

-- The newest key is the one that was added.
pub heap_after_newest :
    (b : Bytes) (keys : List Ref) (heap : List Bytes)
    → IsRing keys heap
    → read (heap_after b keys heap) (length heap) ≡ b
heap_after_newest b keys heap r =
    read-wipe_keys (drop max_kept_keys (length heap ∷ keys)) (heap ++ b ∷ []) (length heap)
      (All-drop (Differs (length heap)) 4 keys (below-Differs (length heap) keys r.in_heap))
    ∙ read-append_last heap b

pub add_key-sent : (b : Bytes) (cl : Client) → (add_key b cl).sent ≡ cl.sent
unfolding add_key push_key allocate
add_key-sent b cl = ground arith
