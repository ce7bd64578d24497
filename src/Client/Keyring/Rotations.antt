-- ===== src/Client/Keyring/Rotations.antt =====
-- A key over any number of rotations.
pub use e2eanon.Client.Keyring.Lifetime.{IsRing, HoldsKeys}
use e2eanon.Prelude.{
  ℕ, suc, ◌+◌, ◌≤◌, ◌<◌, ◌≡◌, refl, ap, sym, subst, ◌∙◌, List, [], ◌∷◌, some, length, get_elem?,
  lt-length_of_get_elem?, arith,
}
use native.Mathlib.Decide.{dec_le}
use e2eanon.Crypto.Base64url.{Bytes}
use e2eanon.Client.State.{Ref, Client, max_kept_keys, read}
use e2eanon.Client.Keyring.{add_key}
use e2eanon.Client.Keyring.Heap.{IsWiped}
use e2eanon.Client.Keyring.Lifetime.{
  keys_after, add_key_lem, length-heap_after, keys_after-IsRing, heap_after_kept,
  heap_after-IsWiped, heap_after_stays, All-get_elem?,
}

-- One new key after another.
unfoldable pub add_keys : List Bytes → Client → Client
add_keys [] cl = cl
add_keys (b ∷ bs) cl = add_keys bs (add_key b cl)

-- The client after a new key, in the terms of the ring.
abbrev pub Next : Bytes → List Ref → Client → Type 0
Next b keys cl =
    HoldsKeys (add_key b cl) (keys_after keys cl.heap)
    × IsRing (keys_after keys cl.heap) (add_key b cl).heap
    × (length (add_key b cl).heap ≡ length cl.heap + 1)

pub add_key-Next :
    (b : Bytes) (keys : List Ref) (cl : Client)
    → HoldsKeys cl keys
    → IsRing keys cl.heap
    → Next b keys cl
add_key-Next b keys cl h r =
    let (held, heap) = add_key_lem b keys cl h in
    (
      held,
      subst (IsRing (keys_after keys cl.heap)) (sym heap) (keys_after-IsRing b keys cl.heap r),
      ap length heap ∙ length-heap_after b keys cl.heap,
    )

-- However many keys are added to a session that holds at most five, each in a buffer of its own, it
-- again holds at most five, each in a buffer of its own.
pub add_keys-IsRing :
    (bs : List Bytes) (keys : List Ref) (cl : Client)
    → HoldsKeys cl keys
    → IsRing keys cl.heap
    → (held : List Ref) × HoldsKeys (add_keys bs cl) held × IsRing held (add_keys bs cl).heap
unfolding add_keys
add_keys-IsRing [] keys cl h r = (keys, h, r)
add_keys-IsRing (b ∷ bs) keys cl h r =
    let (held, ring, size) = add_key-Next b keys cl h r in
    add_keys-IsRing bs (keys_after keys cl.heap) (add_key b cl) held ring

-- In a session with at most five keys in buffers of their own, a key at position i is still held,
-- with its bytes untouched, after n more keys if i + n is below five; its position is then i + n.
pub add_keys_kept :
    (bs : List Bytes) (keys : List Ref) (cl : Client) (i : ℕ) (k : Ref)
    → HoldsKeys cl keys
    → IsRing keys cl.heap
    → get_elem? keys i ≡ some k
    → i + length bs < max_kept_keys
    → (held : List Ref) × HoldsKeys (add_keys bs cl) held
      × (get_elem? held (i + length bs) ≡ some k)
      × (read (add_keys bs cl).heap k ≡ read cl.heap k)
unfolding add_keys
add_keys_kept [] keys cl i k h r e l = (keys, h, ap (get_elem? keys) (omega arith) ∙ e, refl)
add_keys_kept (b ∷ bs) keys cl i k h r e l =
    let (held, ring, size) = add_key-Next b keys cl h r in
    let (moved, same) = heap_after_kept b keys cl.heap i k r e (omega arith) in
    let (final, holds, place, kept) =
      add_keys_kept bs (keys_after keys cl.heap) (add_key b cl) (suc i) k held ring moved
        (omega arith) in
    (
      final,
      holds,
      ap (get_elem? final) (omega arith) ∙ place,
      kept ∙ ap (λ m. read m k) (add_key_lem b keys cl h).1 ∙ same,
    )

add_keys_stays :
    (bs : List Bytes) (keys : List Ref) (cl : Client) (k : Ref)
    → HoldsKeys cl keys
    → IsRing keys cl.heap
    → k < length cl.heap
    → IsWiped cl.heap k
    → IsWiped (add_keys bs cl).heap k
unfolding add_keys
add_keys_stays [] keys cl k h r l w = w
add_keys_stays (b ∷ bs) keys cl k h r l w =
    let (held, ring, size) = add_key-Next b keys cl h r in
    add_keys_stays bs (keys_after keys cl.heap) (add_key b cl) k held ring (omega arith) (
      subst (λ m. IsWiped m k) (sym (add_key_lem b keys cl h).1)
        (heap_after_stays b keys cl.heap k l w))

-- In a session with at most five keys in buffers of their own, the buffer of a key at position i
-- holds only zeros once i + n is five or more, n the number of keys since: for the newest key, from
-- the fifth rotation on.
pub add_keys-IsWiped :
    (bs : List Bytes) (keys : List Ref) (cl : Client) (i : ℕ) (k : Ref)
    → HoldsKeys cl keys
    → IsRing keys cl.heap
    → get_elem? keys i ≡ some k
    → max_kept_keys ≤ i + length bs
    → IsWiped (add_keys bs cl).heap k
unfolding add_keys
add_keys-IsWiped [] keys cl i k h r e l =
    absurd (omega (arith, lt-length_of_get_elem? keys i k e, r.bounded))
add_keys-IsWiped (b ∷ bs) keys cl i k h r e l =
    let (held, ring, size) = add_key-Next b keys cl h r in
    let there = All-get_elem? (λ k. k < length cl.heap) i keys k r.in_heap e in
    elim (dec_le max_kept_keys (i + 1)) [
      | yes last ↦
          add_keys_stays bs (keys_after keys cl.heap) (add_key b cl) k held ring (omega arith) (
            subst (λ m. IsWiped m k) (sym (add_key_lem b keys cl h).1)
              (heap_after-IsWiped b keys cl.heap i k r e last))
      | no early ↦
          add_keys-IsWiped bs (keys_after keys cl.heap) (add_key b cl) (suc i) k held ring
            (heap_after_kept b keys cl.heap i k r e (omega arith)).0 (omega arith)
    ]
