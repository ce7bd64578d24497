-- ===== src/Client/Upload/RoundTrip.antt =====
-- A file from one client to another: `sendFile` at the one end, `onFileStart`, `onFileChunk` and
-- `onFileEnd` at the other.
use e2eanon.Prelude.{
  ℕ, zero, suc, ◌-◌, ◌*◌, ◌≤◌, ◌≡◌, refl, ap, subst, ◌∙◌, List, [], ◌∷◌, ◌++◌, append_assoc, map,
  true, some, Text, length, ok, arith,
}
use e2eanon.Crypto.Base64url.{Bytes}
use e2eanon.Crypto.Primitives.{Primitives, Laws, IsBytes, IsEncodable}
use e2eanon.Crypto.Envelope.{codes, nonce_len, encrypt_message, decrypt_message, key_id}
use e2eanon.Crypto.Envelope.Laws.{decrypt_message-encrypt_message}
use e2eanon.Protocol.{ServerMsg, ClientMsg, file_start, file_end}
use e2eanon.Client.State.{Ref, opened, Session, Client, read}
use e2eanon.Client.Keyring.{find_key_by_id}
use e2eanon.Client.Membership.{update, send}
use e2eanon.Client.Membership.Sending.{update_at}
use e2eanon.Client.Membership.Frames.{send-Frames}
use e2eanon.Client.Transfer.{MetaJson, start_file_message}
use e2eanon.Client.Upload.{
  chunk_size, random_id, File, chunk_count, meta_of, announced, announce, send_file,
}
use e2eanon.Client.Upload.Slices.{slices, join, join-slices-chunk_count}
use e2eanon.Client.Upload.Sent.{
  IsUp, IsRandom, IsQuiet, OpensAll, chunk_messages, send_up, IsUp-Frames, send_chunks-sent,
}
use e2eanon.Client.Upload.Received.{IsReceiving, on_chunks, on_chunks-IsDone}
use e2eanon.Client.Upload.Delivered.{
  deliver, deliver_all, deliver_all-append, deliver_all-chunk_messages, deliver_end, start_received,
}

random_id-cons :
    (bytes : Bytes) → length bytes ≡ 16 → (c : ℕ) × (cs : Text) × (random_id bytes ≡ c ∷ cs)
unfolding random_id
random_id-cons [] h = absurd (omega arith)
random_id-cons (b ∷ bytes) h = (_, _, refl)

length-slices : (size i n : ℕ) (buf : Bytes) → length (slices size i n buf) ≡ n
unfolding slices
length-slices size i zero buf = refl
length-slices size i (suc n) buf = ap suc (length-slices size (suc i) n buf)

-- The announcement, then a chunk for each slice, then the end.
record IsAnnounced (p : Primitives) (k : Bytes) (transfer id text : Text) (bs : List Bytes)
    (before : List ClientMsg) (cl : Client) : Type 0 where
  env : Text
  opens : decrypt_message p k env ≡ ok text
  envs : List Text
  all : OpensAll p k envs bs
  out :
      cl.sent
      ≡ before
        ++ file_start transfer id env ∷ (chunk_messages transfer 0 envs ++ file_end transfer ∷ [])

module _ (p : Primitives) (laws : Laws p) (json : MetaJson) (random : ℕ → ℕ → Bytes)
    (good : IsRandom random) where
  announce-IsAnnounced :
      (key : Ref) (k : Bytes) (between : ℕ → Client → Client) (transfer id : Text) (file : File)
      (cl : Client)
      → length k ≡ 32
      → IsQuiet key between
      → IsBytes file.content
      → IsEncodable (json.stringify (meta_of file))
      → IsUp cl
      → read cl.heap key ≡ k
      → IsAnnounced p k transfer id
          (json.stringify (meta_of file))
          (slices chunk_size 0 (chunk_count chunk_size (length file.content)) file.content)
          cl.sent
          (announce p random between json key id transfer file cl)
  unfolding announce announced
  announce-IsAnnounced key k between transfer id file cl k_len quiet content encodable up same =
      let meta = meta_of file in
      let text = json.stringify meta in
      let f = start_file_message transfer (codes "you") meta true in
      let cl0 = update f cl in
      let at = update_at f up.now cl up.has in
      let cl1 = record cl0 { drawn = suc cl0.drawn } in
      let up1 : IsUp cl1 = record {
        now = f up.now;
        has = ap (λ (x : Client). x.session) at;
        up = up.up;
      } in
      let same1 : read cl1.heap key ≡ k = ap (λ (x : Client). read x.heap key) at ∙ same in
      let nonce = random cl0.drawn nonce_len in
      let env = encrypt_message p (read cl1.heap key) nonce text in
      let m : ClientMsg = file_start transfer id env in
      let cl2 = send m cl1 in
      let frames = send-Frames m cl1 in
      let (envs, all, out) =
        send_chunks-sent p laws random good key k k_len between quiet transfer file content 0
          meta.chunks cl2 (IsUp-Frames cl1 cl2 frames up1)
          (ap (λ h. read h key) frames.1 ∙ same1) in
      let tail = chunk_messages transfer 0 envs ++ file_end transfer ∷ [] in
      record {
        env = env;
        opens =
            ap (λ b. decrypt_message p k (encrypt_message p b nonce text)) same1
            ∙ decrypt_message-encrypt_message p laws k nonce text k_len
                (good.enough cl0.drawn nonce_len) (good.bytes cl0.drawn nonce_len) encodable;
        envs = envs;
        all = all;
        out =
            out
            ∙ ap (λ ms. ms ++ tail) (send_up m cl1 up1)
            ∙ append_assoc cl1.sent (m ∷ []) tail
            ∙ ap (λ (x : Client). x.sent ++ m ∷ tail) at;
      }

  -- A receiver that holds the key gets the file from the announced messages.
  received :
      (msg : ServerMsg) (c : ℕ) (cs : Text) (d : ℕ) (id : Text) (file : File) (k : Bytes)
      (before : List ClientMsg) (sender cl : Client) (s : Session) (key : Ref)
      → cl.session ≡ some s
      → find_key_by_id p cl (d ∷ id) ≡ some key
      → read cl.heap key ≡ k
      → json.parse (json.stringify (meta_of file)) ≡ some (meta_of file)
      → length file.content ≤ 100000 * chunk_size
      → (a : IsAnnounced p k
          (c ∷ cs)
          (d ∷ id)
          (json.stringify (meta_of file))
          (slices chunk_size 0 (chunk_count chunk_size (length file.content)) file.content)
          before
          sender)
      → (deliver_all p json msg
          (file_start (c ∷ cs) (d ∷ id) a.env
            ∷ (chunk_messages (c ∷ cs) 0 a.envs ++ file_end (c ∷ cs) ∷ []))
          cl).view.blobs
        ≡ cl.view.blobs
          ++ (
            file.type,
            map some
                (slices chunk_size 0 (chunk_count chunk_size (length file.content)) file.content),
          )
            ∷ []
  unfolding deliver_all
  received msg c cs d id file k before sender cl s key e found same parsed small a =
      let n = chunk_count chunk_size (length file.content) in
      let bs = slices chunk_size 0 n file.content in
      let at_least : n ≡ suc (n - 1) = omega arith in
      let cl1 = deliver p json msg (file_start (c ∷ cs) (d ∷ id) a.env) cl in
      let (r, blobs) =
        start_received p json msg c cs d id a.env (json.stringify (meta_of file)) (meta_of file) key
          k s cl e found same a.opens parsed (omega arith) (omega arith) in
      let r' = subst (λ m. IsReceiving (c ∷ cs) k file.type [] m cl1) at_least r in
      let size : length bs ≡ suc (n - 1) = length-slices chunk_size 0 n file.content ∙ at_least in
      let done = on_chunks-IsDone p msg c cs k file.type [] (n - 1) a.envs bs cl1 size a.all r' in
      let cl2 = on_chunks p msg c cs 0 a.envs cl1 in
      ap (λ (x : Client). x.view.blobs)
        (deliver_all-append p json msg (chunk_messages (c ∷ cs) 0 a.envs) (file_end (c ∷ cs) ∷ [])
            cl1
          ∙ ap (deliver p json msg (file_end (c ∷ cs)))
              (deliver_all-chunk_messages p json msg c cs 0 a.envs cl1)
          ∙ deliver_end p json msg c cs done.now cl2 done.has done.gone)
      ∙ done.handed_over
      ∙ ap (λ bl. bl ++ (file.type, map some bs) ∷ []) blobs

  -- A file that is sent while the sender stays in the room, its socket open, its key's buffer
  -- untouched and nothing else sent, comes out at a receiver that holds the same key, by the same
  -- id, and to which the relay passes the messages in order: what is handed over has the file's type,
  -- every part is there, and the parts make up the file. The file is at most 100000 chunks long.
  pub deliver_all-send_file :
      (msg : ServerMsg) (between : ℕ → Client → Client) (file : File) (key their_key : Ref)
      (keys : List Ref) (d : ℕ) (id : Text) (s t : Session) (sender receiver : Client)
      → sender.session ≡ some s
      → s.ws ≡ opened
      → s.keys ≡ key ∷ keys
      → receiver.session ≡ some t
      → key_id p (read sender.heap key) ≡ d ∷ id
      → find_key_by_id p receiver (d ∷ id) ≡ some their_key
      → read receiver.heap their_key ≡ read sender.heap key
      → length (read sender.heap key) ≡ 32
      → IsQuiet key between
      → IsBytes file.content
      → IsEncodable (json.stringify (meta_of file))
      → json.parse (json.stringify (meta_of file)) ≡ some (meta_of file)
      → length file.content ≤ 100000 * chunk_size
      → (new : List ClientMsg) × (parts : List Bytes) × ((send_file p random between json file
            sender).sent
          ≡ sender.sent ++ new)
        × ((deliver_all p json msg new receiver).view.blobs
            ≡ receiver.view.blobs ++ (file.type, map some parts) ∷ [])
        × (join parts ≡ file.content)
  unfolding send_file
  deliver_all-send_file msg between file key their_key keys d id s t sender receiver es us ks et
        named found same k_len quiet content encodable parsed small =
      let k = read sender.heap key in
      let bytes = random sender.drawn 16 in
      let (c, cs, tid) = random_id-cons bytes (good.enough sender.drawn 16) in
      let cl1 = record sender { drawn = suc sender.drawn } in
      let up1 = quiet.stays_up 0 cl1 (record { now = s; has = es; up = us }) in
      let sends : send_file p random between json file sender
          ≡ announce p random between json key (key_id p k) (random_id bytes) file (between 0 cl1) =
        ground arith in
      let named_so =
        sends
        ∙ ap (λ x. announce p random between json key x (random_id bytes) file (between 0 cl1))
            named
        ∙ ap (λ x. announce p random between json key (d ∷ id) x file (between 0 cl1)) tid in
      let a =
        announce-IsAnnounced key k between (c ∷ cs) (d ∷ id) file (between 0 cl1) k_len quiet
          content encodable up1 (quiet.same_key 0 cl1) in
      let tail = chunk_messages (c ∷ cs) 0 a.envs ++ file_end (c ∷ cs) ∷ [] in
      (
        file_start (c ∷ cs) (d ∷ id) a.env ∷ tail,
        slices chunk_size 0 (chunk_count chunk_size (length file.content)) file.content,
        ap (λ (x : Client). x.sent) named_so
            ∙ a.out
            ∙ ap (λ ms. ms ++ file_start (c ∷ cs) (d ∷ id) a.env ∷ tail) (quiet.same_sent 0 cl1),
        received msg c cs d id file k (between 0 cl1).sent
            (announce p random between json key (d ∷ id) (c ∷ cs) file (between 0 cl1)) receiver t
            their_key et found same parsed small a,
        join-slices-chunk_count file.content,
      )
