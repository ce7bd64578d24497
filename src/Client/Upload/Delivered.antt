-- ===== src/Client/Upload/Delivered.antt =====
-- What a receiver makes of the messages of a transfer, one after another.
use e2eanon.Prelude.{
  ℕ, suc, ◌≤◌, le→ltb, ◌≡◌, refl, ap, ◌∙◌, List, [], ◌∷◌, ◌++◌, false, none, some, Text,
  text_eq_refl, lookup, lookup-insert, ok, arith,
}
use e2eanon.Prelude.Int.{pos}
use e2eanon.Crypto.Base64url.{Bytes}
use e2eanon.Crypto.Primitives.{Primitives}
use e2eanon.Crypto.Envelope.{decrypt_message}
use e2eanon.Protocol.{integer, ServerMsg, ClientMsg, file_start, file_chunk, file_end}
use e2eanon.Client.State.{Ref, FileMeta, Session, Client, read}
use e2eanon.Client.Keyring.{find_key_by_id}
use e2eanon.Client.Transfer.{
  MetaJson, blank_incoming, start_file_message, store_incoming, got_meta, on_announced,
  on_file_start, on_file_chunk, on_file_end, nick_or,
}
use e2eanon.Client.Upload.Sent.{chunk_messages}
use e2eanon.Client.Upload.Received.{IsReceiving, on_chunks}

-- The message of a transfer as the relay passes it on, whatever else it puts there, and what the
-- receiving client makes of it.
module _ (p : Primitives) (json : MetaJson) (msg : ServerMsg) where
  unfoldable pub deliver : ClientMsg → Client → Client
  deliver (ClientMsg.file_start transfer id env) cl =
      on_file_start p json
        (record msg { transfer = some transfer; key_id = some id; data_text = some env }) cl
  deliver (ClientMsg.file_chunk transfer i env) cl =
      on_file_chunk p
        (record msg {
          transfer = some transfer;
          index = some (integer (pos i));
          data_text = some env;
        })
        cl
  deliver (ClientMsg.file_end transfer) cl =
      on_file_end (record msg { transfer = some transfer }) cl
  deliver _ cl = cl

  unfoldable pub deliver_all : List ClientMsg → Client → Client
  deliver_all [] cl = cl
  deliver_all (m ∷ ms) cl = deliver_all ms (deliver m cl)

  pub deliver_all-append :
      (ms ns : List ClientMsg) (cl : Client)
      → deliver_all (ms ++ ns) cl ≡ deliver_all ns (deliver_all ms cl)
  unfolding deliver_all
  deliver_all-append [] ns cl = refl
  deliver_all-append (m ∷ ms) ns cl = deliver_all-append ms ns (deliver m cl)

  pub deliver_all-chunk_messages :
      (c : ℕ) (cs : Text) (i : ℕ) (envs : List Text) (cl : Client)
      → deliver_all (chunk_messages (c ∷ cs) i envs) cl ≡ on_chunks p msg c cs i envs cl
  unfolding deliver_all deliver on_chunks
  deliver_all-chunk_messages c cs i [] cl = refl
  deliver_all-chunk_messages c cs i (env ∷ envs) cl =
      deliver_all-chunk_messages c cs (suc i) envs (deliver (file_chunk (c ∷ cs) i env) cl)

  -- A client that is not receiving a transfer does nothing at its end.
  pub deliver_end :
      (c : ℕ) (cs : Text) (s : Session) (cl : Client)
      → cl.session ≡ some s
      → lookup (c ∷ cs) s.incoming ≡ none
      → deliver (file_end (c ∷ cs)) cl ≡ cl
  unfolding deliver on_file_end
  deliver_end c cs s cl e gone = ground arith

  pub start_received :
      (c : ℕ) (cs : Text) (d : ℕ) (id env text : Text) (meta : FileMeta) (key : Ref) (k : Bytes)
      (s : Session) (cl : Client)
      → cl.session ≡ some s
      → find_key_by_id p cl (d ∷ id) ≡ some key
      → read cl.heap key ≡ k
      → decrypt_message p k env ≡ ok text
      → json.parse text ≡ some meta
      → 1 ≤ meta.chunks
      → meta.chunks ≤ 100000
      → IsReceiving
          (c ∷ cs)
          k
          meta.type
          []
          meta.chunks
          (deliver (file_start (c ∷ cs) (d ∷ id) env) cl)
        × ((deliver (file_start (c ∷ cs) (d ∷ id) env) cl).view.blobs ≡ cl.view.blobs)
  unfolding deliver on_file_start on_announced got_meta blank_incoming
  start_received c cs d id env text meta key k s cl e found same opens parsed low high =
      let transfer = c ∷ cs in
      let inc = blank_incoming key meta (nick_or msg.nick) in
      let s' =
        start_file_message transfer (nick_or msg.nick) meta false (store_incoming transfer inc s) in
      let opens' : decrypt_message p (read cl.heap key) env ≡ ok text =
        ap (λ b. decrypt_message p b env) same ∙ opens in
      let some_chunk = le→ltb meta.chunks 1 low in
      let few = le→ltb 100000 meta.chunks high in
      let started : deliver (file_start transfer (d ∷ id) env) cl
          ≡ record cl { session = some s' } =
        ground arith in
      rw started (
        record {
          now = s';
          has = refl;
          inc = inc;
          known =
              ground (arith, lookup-insert transfer transfer inc s.incoming, text_eq_refl transfer);
          same_key = same;
          same_type = refl;
          parts = refl;
          received = refl;
          chunks = omega arith;
        },
        refl,
      )
