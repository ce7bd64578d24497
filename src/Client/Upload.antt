-- ===== src/Client/Upload.antt =====
-- Sending a file: `randomId` and `sendFile` of web/src/main.ts. At each await other events may run: what
-- they do to the client is an argument, by the number of the await.
pub mod Slices
pub mod Sent
pub mod Received
pub mod Delivered
pub mod RoundTrip
use e2eanon.Prelude.{
  ℕ, zero, suc, ◌+◌, ◌-◌, ◌*◌, ◌/◌, ◌%◌, max, ltb, List, [], ◌∷◌, ◌++◌, Bool, true, false, Option,
  none, some, Text, take, drop, length, erase, if◌then◌else◌,
}
use e2eanon.Prelude.Int.{ℤ, pos}
use e2eanon.Crypto.Base64url.{Bytes}
use e2eanon.Crypto.Primitives.{Primitives}
use e2eanon.Crypto.Envelope.{codes, nonce_len, seal_bytes, encrypt_message, key_id}
use e2eanon.Protocol.{ClientMsg, file_start, file_chunk, file_end}
use e2eanon.Client.State.{Ref, FileMeta, Session, View, Client, read}
use e2eanon.Client.Membership.{update, send, draw}
use e2eanon.Client.Transfer.{MetaJson, start_file_message}

abbrev pub chunk_size : ℕ
chunk_size = 65536

-- A digit of `toString(16)`.
abbrev pub hex_digit : ℕ → ℕ
hex_digit n = if ltb n 10 then b'0' + n else b'a' + (n - 10)

-- `randomId` over the bytes that were drawn.
unfoldable pub random_id : Bytes → Text
random_id [] = []
random_id (b ∷ bytes) = hex_digit (b / 16) ∷ hex_digit (b % 16) ∷ random_id bytes

-- What `sendFile` reads of a `File`.
pub record File : Type 0 where
  pub name : Text
  pub type : Text
  pub content : Bytes

-- `buf.subarray(i * size, (i + 1) * size)`.
abbrev pub slice : ℕ → ℕ → Bytes → Bytes
slice size i buf = take size (drop (i * size) buf)

-- `Math.max(1, Math.ceil(length / size))`.
abbrev pub chunk_count : ℕ → ℕ → ℕ
chunk_count size n = max 1 ((n + (size - 1)) / size)

abbrev pub meta_of : File → FileMeta
meta_of file = record {
  name = file.name;
  type = file.type;
  size = length file.content;
  chunks = chunk_count chunk_size (length file.content);
}

module _ (p : Primitives) (random : ℕ → ℕ → Bytes) where
  -- One round of the loop, up to its await.
  unfoldable pub send_chunk : Ref → Text → Bytes → ℕ → Client → Client
  send_chunk key transfer buf i cl =
      let (nonce, cl') = draw p random nonce_len cl in
      send (file_chunk transfer i (seal_bytes p (read cl.heap key) nonce (slice chunk_size i buf)))
        cl'

  abbrev in_session : Option Session → Bool
  in_session none = false
  in_session (some s) = true

  -- Our own copy of the message.
  unfoldable pub finish_own : Text → File → Client → Client
  finish_own transfer file cl =
      let cl' = update (λ s. record s { file_msgs = erase transfer s.file_msgs }) cl in
      record cl' {
        view = record cl'.view {
          blobs = cl'.view.blobs ++ (file.type, some file.content ∷ []) ∷ [];
        };
      }

  unfoldable pub finish_upload : Text → File → Client → Client
  finish_upload transfer file cl = finish_own transfer file (send (file_end transfer) cl)

  -- From the first await to the loop.
  unfoldable pub announced : MetaJson → Ref → Text → Text → File → Client → Client
  announced json key id transfer file cl =
      let meta = meta_of file in
      let cl' = update (start_file_message transfer (codes "you") meta true) cl in
      let (nonce, cl'') = draw p random nonce_len cl' in
      let env = encrypt_message p (read cl''.heap key) nonce (json.stringify meta) in
      send (file_start transfer id env) cl''

  -- Up to the first await: whether there is a key, and the random bytes of the transfer's id.
  unfoldable pub begin_upload : Client → Client
  begin_upload cl = elim cl.session [
    | none ↦ cl
    | some s ↦ elim s.keys [ [] ↦ cl | key ∷ keys ↦ (draw p random 16 cl).1 ]
  ]

  module _ (between : ℕ → Client → Client) where
    -- The rounds from i on, n of them left.
    unfoldable pub send_chunks : Ref → Text → File → ℕ → ℕ → Client → Client
    send_chunks key transfer file i zero cl = finish_upload transfer file cl
    send_chunks key transfer file i (suc n) cl =
        let cl' = between (suc i) (send_chunk key transfer file.content i cl) in
        let rest = send_chunks key transfer file (suc i) n cl' in
        if in_session cl'.session then rest else cl'

    -- Past the first await.
    unfoldable pub announce : MetaJson → Ref → Text → Text → File → Client → Client
    announce json key id transfer file cl =
        send_chunks key transfer file 0 (meta_of file).chunks
          (announced json key id transfer file cl)

    unfoldable pub send_file : MetaJson → File → Client → Client
    send_file json file cl = elim cl.session [
      | none ↦ cl
      | some s ↦ elim s.keys [
        | [] ↦ cl
        | key ∷ keys ↦
            let (bytes, cl') = draw p random 16 cl in
            announce json key (key_id p (read cl.heap key)) (random_id bytes) file (between 0 cl')
      ]
    ]
