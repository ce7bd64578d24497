-- ===== src/Client/Transfer.antt =====
-- Receiving a file: `onFileStart`, `onFileChunk`, `onFileEnd` and `finishIncoming` of web/src/main.ts. The bar and
-- the elements of the message are the page's; a transfer's message is its entry in `file_msgs`.
pub mod Counting
use e2eanon.Prelude.{
  ℕ, suc, ◌+◌, ltb, ◌==◌, List, [], ◌∷◌, ◌++◌, Bool, true, false, not, ◌||◌, Option, none, some,
  Text, get_elem?, set, replicate, lookup, insert, erase, Result, ok, err, if◌then◌else◌,
}
use e2eanon.Prelude.Int.{ℤ, pos, negsuc}
use e2eanon.Crypto.Base64url.{Bytes}
use e2eanon.Crypto.Primitives.{Primitives}
use e2eanon.Crypto.Envelope.{open_bytes, decrypt_message}
use e2eanon.Protocol.{Number, integer, fractional, ServerMsg}
use e2eanon.Client.State.{Ref, FileMeta, FileMsgHandle, Incoming, Session, View, Client, read}
use e2eanon.Client.Keyring.{find_key_by_id}
use e2eanon.Client.Membership.{or_empty, given}

-- `inc.parts[i]` as a condition: a hole and an index beyond the end count as false.
abbrev pub is_there : Option (Option Bytes) → Bool
is_there none = false
is_there (some none) = false
is_there (some (some b)) = true

-- A number that is not negative, as an index: a place among the parts; or its floor and the key of a
-- property beside them.
pub data Place : Type 0 where
  slot : ℕ → Place
  aside : ℕ → Text → Place

-- `msg.index ?? -1`, where it is not negative.
abbrev pub index_of : Option Number → Option Place
index_of none = none
index_of (some (integer (pos i))) = some (slot i)
index_of (some (integer (negsuc i))) = none
index_of (some (fractional (pos i) key)) = some (aside i key)
index_of (some (fractional (negsuc i) key)) = none

-- `i < chunks`: the number of chunks is whole, so it is the floor that counts.
abbrev pub is_below : ℕ → Place → Bool
is_below chunks (slot i) = ltb i chunks
is_below chunks (aside i key) = ltb i chunks

-- `inc.parts[i]` as a condition.
abbrev pub is_taken : Incoming → Place → Bool
is_taken inc (slot i) = is_there (get_elem? inc.parts i)
is_taken inc (aside i key) = is_there (some (lookup key inc.others))

unfoldable pub put_part : Incoming → ℕ → Bytes → Incoming
put_part inc i chunk = record inc {
  parts = set inc.parts i (some chunk);
  received = inc.received + 1;
}

-- `inc.parts[i] = chunk; inc.received++`, at any number.
abbrev pub store_part : Incoming → Place → Bytes → Incoming
store_part inc (slot i) chunk = put_part inc i chunk
store_part inc (aside i key) chunk = record inc {
  others = insert key chunk inc.others;
  received = inc.received + 1;
}

abbrev pub end_transfer : Text → Session → Session
end_transfer transfer s = record s {
  incoming = erase transfer s.incoming;
  file_msgs = erase transfer s.file_msgs;
}

unfoldable pub finish_incoming : Text → Client → Client
finish_incoming transfer cl = elim cl.session [
  | none ↦ cl
  | some s ↦ elim (lookup transfer s.incoming) [
    | none ↦ cl
    | some inc ↦ record cl {
      session = some (end_transfer transfer s);
      view = record cl.view { blobs = cl.view.blobs ++ (inc.meta.type, inc.parts) ∷ [] };
    }
  ]
]

abbrev pub store_incoming : Text → Incoming → Session → Session
store_incoming transfer inc s = record s { incoming = insert transfer inc s.incoming }

-- `onFileChunk` once the chunk has been opened.
unfoldable pub got_chunk : Text → Incoming → Place → Bytes → Session → Client → Client
got_chunk transfer inc i chunk s cl =
    let inc' = store_part inc i chunk in
    let cl' = record cl { session = some (store_incoming transfer inc' s) } in
    if inc'.received == inc'.meta.chunks then finish_incoming transfer cl' else cl'

module _ (p : Primitives) where
  -- `onFileChunk` once its transfer and its index are known.
  unfoldable pub on_chunk_at : Text → Incoming → Place → Text → Session → Client → Client
  on_chunk_at transfer inc i env s cl =
      if not (is_below inc.meta.chunks i) || is_taken inc i
      then cl
      else elim (open_bytes p (read cl.heap inc.key) env) [
        | err e ↦ cl
        | ok chunk ↦ got_chunk transfer inc i chunk s cl
      ]

  unfoldable pub on_file_chunk : ServerMsg → Client → Client
  on_file_chunk msg cl = elim cl.session [
    | none ↦ cl
    | some s ↦ elim (lookup (or_empty msg.transfer) s.incoming) [
      | none ↦ cl
      | some inc ↦ elim msg.data_text [
        | none ↦ cl
        | some env ↦ elim (index_of msg.index) [
          | none ↦ cl
          | some i ↦ on_chunk_at (or_empty msg.transfer) inc i env s cl
        ]
      ]
    ]
  ]

unfoldable pub on_file_end : ServerMsg → Client → Client
on_file_end msg cl = elim cl.session [
  | none ↦ cl
  | some s ↦ elim msg.transfer [
    | none ↦ cl
    | some [] ↦ cl
    | some (c ∷ cs) ↦ elim (lookup (c ∷ cs) s.incoming) [
      | none ↦ cl
      | some inc ↦ record cl { session = some (end_transfer (c ∷ cs) s) }
    ]
  ]
]

-- The metadata of a file, as JSON. Reading is `none` where it throws or where what it reads has no
-- whole number of chunks.
pub record MetaJson : Type 0 where
  pub stringify : FileMeta → Text
  pub parse : Text → Option FileMeta

abbrev pub max_chunks : ℕ
max_chunks = 100000

abbrev pub nick_or : Option Text → Text
nick_or none = b'?' ∷ []
nick_or (some nick) = nick

unfoldable pub blank_incoming : Ref → FileMeta → Text → Incoming
blank_incoming key meta nick = record {
  key = key;
  meta = meta;
  nick = nick;
  parts = replicate meta.chunks none;
  others = [];
  received = 0;
}

-- `startFileMessage`, without the element.
abbrev pub start_file_message : Text → Text → FileMeta → Bool → Session → Session
start_file_message transfer nick meta mine s = record s {
  file_msgs = insert transfer (record { nick = nick; meta = meta; mine = mine }) s.file_msgs;
}

-- `onFileStart` once the metadata is read.
unfoldable pub got_meta : Text → Ref → FileMeta → Text → Session → Client → Client
got_meta transfer key meta nick s cl =
    if ltb meta.chunks 1 || ltb max_chunks meta.chunks then cl else record cl {
      session = some (
          start_file_message transfer nick meta false
            (store_incoming transfer (blank_incoming key meta nick) s));
    }

module _ (p : Primitives) (json : MetaJson) where
  -- `onFileStart` past its guards.
  unfoldable pub on_announced : Text → Text → Text → Text → Session → Client → Client
  on_announced transfer id env nick s cl = elim (find_key_by_id p cl id) [
    | none ↦ cl
    | some key ↦ elim (decrypt_message p (read cl.heap key) env) [
      | err e ↦ cl
      | ok text ↦ elim (json.parse text) [
        | none ↦ cl
        | some meta ↦ got_meta transfer key meta nick s cl
      ]
    ]
  ]

  unfoldable pub on_file_start : ServerMsg → Client → Client
  on_file_start msg cl = elim cl.session [
    | none ↦ cl
    | some s ↦ elim (given msg.transfer) [
      | none ↦ cl
      | some transfer ↦ elim (given msg.key_id) [
        | none ↦ cl
        | some id ↦ elim msg.data_text [
          | none ↦ cl
          | some env ↦ on_announced transfer id env (nick_or msg.nick) s cl
        ]
      ]
    ]
  ]
