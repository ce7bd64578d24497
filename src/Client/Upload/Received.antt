-- ===== src/Client/Upload/Received.antt =====
-- A file that arrives chunk by chunk: `onFileChunk` over the messages of one transfer.
use e2eanon.Prelude.{
  ℕ, zero, suc, ◌+◌, ltb, lt→ltb, ◌==◌, ◌≡◌, refl, ap, sym, subst, ◌∙◌, List, [], ◌∷◌, ◌++◌,
  append_assoc, append-nil, map, true, false, Option, none, some, Text, text_eq_refl, get_elem?,
  set, replicate, length, length-append, lookup, lookup-insert, lookup-erase, ok, arith,
}
use e2eanon.Prelude.Int.{pos}
use e2eanon.Crypto.Base64url.{Bytes}
use e2eanon.Crypto.Primitives.{Primitives}
use e2eanon.Crypto.Envelope.{open_bytes}
use e2eanon.Protocol.{integer, ServerMsg}
use e2eanon.Client.State.{Incoming, Session, Client, read}
use e2eanon.Client.Transfer.{
  slot, is_there, put_part, end_transfer, finish_incoming, store_incoming, got_chunk, on_chunk_at,
  on_file_chunk,
}
use e2eanon.Client.Upload.Sent.{OpensAll}

-- The first parts are there, n more are missing.
abbrev pub parts_at : List Bytes → ℕ → List (Option Bytes)
parts_at have n = map some have ++ replicate n none

gap_at :
    (have : List Bytes) (n : ℕ) → is_there (get_elem? (parts_at have (suc n)) (length have)) ≡ false
gap_at [] n = refl
gap_at (b ∷ have) n = gap_at have n

fill_gap :
    (have : List Bytes) (n : ℕ) (b : Bytes)
    → set (parts_at have (suc n)) (length have) (some b) ≡ parts_at (have ++ b ∷ []) n
fill_gap [] n b = refl
fill_gap (x ∷ have) n b = ap (λ ps. some x ∷ ps) (fill_gap have n b)

-- A transfer that runs, with these parts there and n missing, under this key.
pub record IsReceiving (transfer : Text) (k : Bytes) (type : Text) (have : List Bytes) (n : ℕ)
    (cl : Client) : Type 0 where
  pub now : Session
  pub has : cl.session ≡ some now
  pub inc : Incoming
  pub known : lookup transfer now.incoming ≡ some inc
  pub same_key : read cl.heap inc.key ≡ k
  pub same_type : inc.meta.type ≡ type
  pub parts : inc.parts ≡ parts_at have n
  pub received : inc.received ≡ length have
  pub chunks : inc.meta.chunks ≡ length have + n

-- The file was handed over, and the transfer is over.
pub record IsDone (transfer : Text) (type : Text) (have : List Bytes) (cl cl' : Client)
    : Type 0 where
  pub now : Session
  pub has : cl'.session ≡ some now
  pub gone : lookup transfer now.incoming ≡ none
  pub handed_over : cl'.view.blobs ≡ cl.view.blobs ++ (type, map some have) ∷ []

module _ (p : Primitives) (msg : ServerMsg) (c : ℕ) (cs : Text) where
  abbrev pub transfer : Text
  transfer = c ∷ cs

  abbrev pub chunk_msg : ℕ → Text → ServerMsg
  chunk_msg i env = record msg {
    transfer = some transfer;
    index = some (integer (pos i));
    data_text = some env;
  }

  -- The chunk at the first gap is stored.
  chunk_lem :
      (k : Bytes) (type : Text) (have : List Bytes) (n : ℕ) (env : Text) (b : Bytes) (cl : Client)
      (r : IsReceiving transfer k type have (suc n) cl)
      → open_bytes p k env ≡ ok b
      → on_file_chunk p (chunk_msg (length have) env) cl
        ≡ got_chunk transfer r.inc (slot (length have)) b r.now cl
  unfolding on_file_chunk on_chunk_at
  chunk_lem k type have n env b cl r opened =
      let e = r.has in
      let known = r.known in
      let inside : ltb (length have) r.inc.meta.chunks ≡ true =
        lt→ltb (length have) r.inc.meta.chunks (omega (arith, r.chunks)) in
      let gap : is_there (get_elem? r.inc.parts (length have)) ≡ false =
        ap (λ ps. is_there (get_elem? ps (length have))) r.parts ∙ gap_at have n in
      let opens : open_bytes p (read cl.heap r.inc.key) env ≡ ok b =
        ap (λ x. open_bytes p x env) r.same_key ∙ opened in
      ground arith

  abbrev stored : Incoming → ℕ → Bytes → Session → Client → Client
  stored inc i b s cl = record cl { session = some (store_incoming transfer (put_part inc i b) s) }

  stored-known :
      (inc : Incoming) (s : Session)
      → lookup transfer (store_incoming transfer inc s).incoming ≡ some inc
  stored-known inc s =
      ground (arith, lookup-insert transfer transfer inc s.incoming, text_eq_refl transfer)

  module _ (k : Bytes) (type : Text) (have : List Bytes) (b : Bytes) (cl : Client) where
    one_more : length (have ++ b ∷ []) ≡ length have + 1
    one_more = length-append have (b ∷ [])

    part_stored :
        (n : ℕ) (r : IsReceiving transfer k type have (suc n) cl)
        → ((put_part r.inc (length have) b).parts ≡ parts_at (have ++ b ∷ []) n)
          × ((put_part r.inc (length have) b).received ≡ length (have ++ b ∷ []))
          × ((put_part r.inc (length have) b).meta.chunks ≡ length (have ++ b ∷ []) + n)
    unfolding put_part
    part_stored n r = (
      ap (λ ps. set ps (length have) (some b)) r.parts ∙ fill_gap have n b,
      ap (λ m. m + 1) r.received ∙ sym one_more,
      omega (arith, r.chunks, one_more),
    )

    next_chunk :
        (n : ℕ) (r : IsReceiving transfer k type have (suc (suc n)) cl)
        → IsReceiving transfer k type
            (have ++ b ∷ [])
            (suc n)
            (got_chunk transfer r.inc (slot (length have)) b r.now cl)
    unfolding got_chunk put_part
    next_chunk n r =
        let inc' = put_part r.inc (length have) b in
        let (parts, received, chunks) = part_stored (suc n) r in
        let more : (inc'.received == inc'.meta.chunks) ≡ false = ground (arith, received, chunks) in
        let same : got_chunk transfer r.inc (slot (length have)) b r.now cl
            ≡ stored r.inc (length have) b r.now cl =
          ground arith in
        rw same record {
          now = store_incoming transfer inc' r.now;
          has = refl;
          inc = inc';
          known = stored-known inc' r.now;
          same_key = r.same_key;
          same_type = r.same_type;
          parts = parts;
          received = received;
          chunks = chunks;
        }

    last_chunk :
        (r : IsReceiving transfer k type have 1 cl)
        → IsDone transfer type
            (have ++ b ∷ [])
            cl
            (got_chunk transfer r.inc (slot (length have)) b r.now cl)
    unfolding got_chunk finish_incoming put_part
    last_chunk r =
        let inc' = put_part r.inc (length have) b in
        let s' = store_incoming transfer inc' r.now in
        let (parts, received, chunks) = part_stored 0 r in
        let full : (inc'.received == inc'.meta.chunks) ≡ true = ground (arith, received, chunks) in
        let known = stored-known inc' r.now in
        let blobs' = cl.view.blobs ++ (r.inc.meta.type, inc'.parts) ∷ [] in
        let same : got_chunk transfer r.inc (slot (length have)) b r.now cl ≡ record cl {
          session = some (end_transfer transfer s');
          view = record cl.view { blobs = blobs' };
        } =
          ground arith in
        rw same record {
          now = end_transfer transfer s';
          has = refl;
          gone = ground (arith, lookup-erase transfer transfer s'.incoming, text_eq_refl transfer);
          handed_over =
              ap (λ t. cl.view.blobs ++ (t, inc'.parts) ∷ []) r.same_type
              ∙ ap (λ ps. cl.view.blobs ++ (type, ps) ∷ [])
                  (parts ∙ append-nil (map some (have ++ b ∷ [])));
        }

  got_chunk-blobs :
      (k : Bytes) (type : Text) (have : List Bytes) (b : Bytes) (n : ℕ) (cl : Client)
      (r : IsReceiving transfer k type have (suc (suc n)) cl)
      → (got_chunk transfer r.inc (slot (length have)) b r.now cl).view.blobs ≡ cl.view.blobs
  unfolding got_chunk put_part
  got_chunk-blobs k type have b n cl r =
      let (parts, received, chunks) = part_stored k type have b cl (suc n) r in
      let inc' = put_part r.inc (length have) b in
      let more : (inc'.received == inc'.meta.chunks) ≡ false = ground (arith, received, chunks) in
      ground arith

  -- The messages with these envelopes, numbered from i on.
  unfoldable pub on_chunks : ℕ → List Text → Client → Client
  on_chunks i [] cl = cl
  on_chunks i (env ∷ envs) cl = on_chunks (suc i) envs (on_file_chunk p (chunk_msg i env) cl)

  -- When the last gaps are filled in order, the file is handed over with all its parts.
  pub on_chunks-IsDone :
      (k : Bytes) (type : Text) (have : List Bytes) (n : ℕ) (envs : List Text) (bs : List Bytes)
      (cl : Client)
      → length bs ≡ suc n
      → OpensAll p k envs bs
      → IsReceiving transfer k type have (suc n) cl
      → IsDone transfer type (have ++ bs) cl (on_chunks (length have) envs cl)
  unfolding on_chunks
  on_chunks-IsDone k type have n [] [] cl size all r = absurd (omega arith)
  on_chunks-IsDone k type have n [] (b ∷ bs) cl size all r = elim all [ ]
  on_chunks-IsDone k type have n (env ∷ envs) [] cl size all r = elim all [ ]
  on_chunks-IsDone k type have zero (env ∷ []) (b ∷ []) cl size (opened, all) r =
      rw (chunk_lem k type have 0 env b cl r opened) (last_chunk k type have b cl r)
  on_chunks-IsDone k type have zero (env ∷ envs) (b ∷ b' ∷ bs) cl size all r = absurd (omega arith)
  on_chunks-IsDone k type have zero (env ∷ env' ∷ envs) (b ∷ []) cl size (opened, all) r =
      elim all [ ]
  on_chunks-IsDone k type have (suc n) (env ∷ envs) (b ∷ bs) cl size (opened, all) r =
      let cl1 = got_chunk transfer r.inc (slot (length have)) b r.now cl in
      let step = chunk_lem k type have (suc n) env b cl r opened in
      let rest =
        on_chunks-IsDone k type (have ++ b ∷ []) n envs bs cl1 (omega arith) all
          (next_chunk k type have b cl n r) in
      let at : length (have ++ b ∷ []) ≡ suc (length have) =
        omega (arith, length-append have (b ∷ [])) in
      let end = on_chunks (suc (length have)) envs cl1 in
      let here : IsDone transfer type ((have ++ b ∷ []) ++ bs) cl1 end =
        subst (λ i. IsDone transfer type ((have ++ b ∷ []) ++ bs) cl1 (on_chunks i envs cl1)) at
          rest in
      let bs' = append_assoc have (b ∷ []) bs in
      rw step record {
        now = here.now;
        has = here.has;
        gone = here.gone;
        handed_over =
            here.handed_over
            ∙ ap (λ bl. bl ++ (type, map some ((have ++ b ∷ []) ++ bs)) ∷ [])
                (got_chunk-blobs k type have b n cl r)
            ∙ ap (λ l. cl.view.blobs ++ (type, map some l) ∷ []) bs';
      }
