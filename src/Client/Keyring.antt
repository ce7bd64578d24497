-- ===== src/Client/Keyring.antt =====
-- The room keys that a session holds: `pushKey`, `decryptAny`, `findKeyById` and `wipeKey` of
-- web/src/main.ts and web/src/crypto.ts.
pub mod Heap
pub mod Lifetime
pub mod Rotations
pub mod Reading
pub mod Window
use e2eanon.Prelude.{
  ℕ, suc, ◌+◌, List, [], ◌∷◌, ◌++◌, Bool, Option, none, some, Text, length, take, drop, Result, ok,
  err, text_eq, if◌then◌else◌, to_option,
}
use e2eanon.Crypto.Base64url.{Bytes}
use e2eanon.Crypto.Primitives.{Primitives}
use e2eanon.Crypto.Envelope.{decrypt_message, key_id}
use e2eanon.Client.State.{Ref, Session, Client, max_kept_keys, read, wipe_keys}

-- A new buffer: its index is the number of buffers before it.
unfoldable pub allocate : Bytes → Client → Ref × Client
allocate bytes cl = (length cl.heap, record cl { heap = cl.heap ++ bytes ∷ [] })

-- `keys.unshift(k)`, then what `keys.splice(MAX_KEPT_KEYS)` cuts off is wiped.
unfoldable pub push_key : Ref → Client → Client
push_key k cl = elim cl.session [
  | none ↦ cl
  | some s ↦ record cl {
    session = some (record s { keys = take max_kept_keys (k ∷ s.keys) });
    heap = wipe_keys (drop max_kept_keys (k ∷ s.keys)) cl.heap;
  }
]

-- `pushKey` at a key that is new: one that was generated or has just been unsealed.
unfoldable pub add_key : Bytes → Client → Client
add_key bytes cl = let (k, cl') = allocate bytes cl in push_key k cl'

module _ (p : Primitives) where
  -- The loop of `decryptAny`, over the keys that are left.
  unfoldable pub decrypt_with : List Bytes → List Ref → Text → Option Text
  decrypt_with heap [] body = none
  decrypt_with heap (k ∷ ks) body =
      let rest = decrypt_with heap ks body in
      elim (decrypt_message p (read heap k) body) [ ok t ↦ some t | err e ↦ rest ]

  unfoldable pub decrypt_any : Client → Text → Option Text
  unfolding decrypt_with
  decrypt_any cl body = elim cl.session [ none ↦ none | some s ↦ decrypt_with cl.heap s.keys body ]

  unfoldable pub find_key_in : List Bytes → List Ref → Text → Option Ref
  find_key_in heap [] id = none
  find_key_in heap (k ∷ ks) id =
      if text_eq (key_id p (read heap k)) id then some k else find_key_in heap ks id

  unfoldable pub find_key_by_id : Client → Text → Option Ref
  unfolding find_key_in
  find_key_by_id cl id = elim cl.session [ none ↦ none | some s ↦ find_key_in cl.heap s.keys id ]
