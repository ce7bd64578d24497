-- ===== src/Client/Upload/Sent.antt =====
-- What `sendFile` hands to the relay.
use e2eanon.Prelude.{
  ℕ, zero, suc, ◌*◌, ◌<◌, ◌≡◌, ap, ◌∙◌, List, [], ◌∷◌, ◌++◌, append_assoc, All-take, All-drop, some,
  Text, drop, length, ok, arith,
}
use e2eanon.Crypto.Base64url.{Bytes}
use e2eanon.Crypto.Primitives.{Primitives, Laws, IsBytes}
use e2eanon.Crypto.Envelope.{nonce_len, seal_bytes, open_bytes}
use e2eanon.Crypto.Envelope.Laws.{open_bytes-seal_bytes}
use e2eanon.Protocol.{ClientMsg, file_chunk, file_end}
use e2eanon.Client.State.{Ref, opened, Session, Client, read}
use e2eanon.Client.Membership.{send}
use e2eanon.Client.Membership.Frames.{Frames, send-Frames}
use e2eanon.Client.Upload.{
  chunk_size, File, slice, send_chunk, finish_own, finish_upload, send_chunks,
}
use e2eanon.Client.Upload.Slices.{slices}

-- The client is in a session whose socket is open.
pub record IsUp (cl : Client) : Type 0 where
  pub now : Session
  pub has : cl.session ≡ some now
  pub up : now.ws ≡ opened

-- Random bytes are bytes, as many as asked for.
pub record IsRandom (random : ℕ → ℕ → Bytes) : Type 0 where
  pub enough : (i n : ℕ) → length (random i n) ≡ n
  pub bytes : (i n : ℕ) → IsBytes (random i n)

-- What runs at the awaits sends nothing, leaves the socket open, and leaves the key's buffer alone.
pub record IsQuiet (key : Ref) (between : ℕ → Client → Client) : Type 0 where
  pub same_sent : (i : ℕ) (cl : Client) → (between i cl).sent ≡ cl.sent
  pub stays_up : (i : ℕ) (cl : Client) → IsUp cl → IsUp (between i cl)
  pub same_key : (i : ℕ) (cl : Client) → read (between i cl).heap key ≡ read cl.heap key

abbrev pub chunk_messages : Text → ℕ → List Text → List ClientMsg
chunk_messages transfer i [] = []
chunk_messages transfer i (env ∷ envs) =
    file_chunk transfer i env ∷ chunk_messages transfer (suc i) envs

pub send_up : (m : ClientMsg) (cl : Client) → IsUp cl → (send m cl).sent ≡ cl.sent ++ m ∷ []
unfolding send
send_up m cl h = let e = h.has in let up = h.up in ground arith

pub IsUp-Frames : (cl cl' : Client) → Frames cl cl' → IsUp cl → IsUp cl'
IsUp-Frames cl cl' (fs, fh) h = record { now = h.now; has = fs ∙ h.has; up = h.up }

module _ (p : Primitives) where
  -- Each envelope opens to the bytes at its place.
  abbrev pub OpensAll : Bytes → List Text → List Bytes → Type 0
  OpensAll key [] [] = Unit
  OpensAll key (env ∷ envs) (b ∷ bs) = (open_bytes p key env ≡ ok b) × OpensAll key envs bs
  OpensAll key _ _ = ⊥

module _ (p : Primitives) (laws : Laws p) (random : ℕ → ℕ → Bytes) (good : IsRandom random)
    (key : Ref) (k : Bytes) (k_len : length k ≡ 32) (between : ℕ → Client → Client)
    (quiet : IsQuiet key between) (transfer : Text) (file : File)
    (content : IsBytes file.content) where
  abbrev OpensTo : Text → Bytes → Type 0
  OpensTo env b = open_bytes p k env ≡ ok b

  slice-IsBytes : (i : ℕ) → IsBytes (slice chunk_size i file.content)
  slice-IsBytes i =
      All-take (λ b. b < 256) chunk_size (drop (i * chunk_size) file.content)
        (All-drop (λ b. b < 256) (i * chunk_size) file.content content)

  send_chunk_lem :
      (i : ℕ) (cl : Client)
      → IsUp cl
      → read cl.heap key ≡ k
      → (env : Text) × OpensTo env (slice chunk_size i file.content)
        × ((send_chunk p random key transfer file.content i cl).sent
            ≡ cl.sent ++ file_chunk transfer i env ∷ [])
        × IsUp (send_chunk p random key transfer file.content i cl)
        × (read (send_chunk p random key transfer file.content i cl).heap key ≡ k)
  unfolding send_chunk
  send_chunk_lem i cl up same =
      let nonce = random cl.drawn nonce_len in
      let part = slice chunk_size i file.content in
      let env = seal_bytes p (read cl.heap key) nonce part in
      let m : ClientMsg = file_chunk transfer i env in
      let cl1 = record cl { drawn = suc cl.drawn } in
      let up1 : IsUp cl1 = record { now = up.now; has = up.has; up = up.up } in
      let frames = send-Frames m cl1 in
      (
        env,
        ap (λ b. open_bytes p k (seal_bytes p b nonce part)) same
            ∙ open_bytes-seal_bytes p laws k nonce part k_len (good.enough cl.drawn nonce_len)
                (good.bytes cl.drawn nonce_len) (slice-IsBytes i),
        send_up m cl1 up1,
        IsUp-Frames cl1 (send m cl1) frames up1,
        ap (λ h. read h key) frames.1 ∙ same,
      )

  finish_own-sent : (cl : Client) → (finish_own p random transfer file cl).sent ≡ cl.sent
  unfolding finish_own
  finish_own-sent cl = ground arith

  pub send_chunks-sent :
      (i n : ℕ) (cl : Client)
      → IsUp cl
      → read cl.heap key ≡ k
      → (envs : List Text) × OpensAll p k envs (slices chunk_size i n file.content)
        × ((send_chunks p random between key transfer file i n cl).sent
            ≡ cl.sent ++ (chunk_messages transfer i envs ++ file_end transfer ∷ []))
  unfolding send_chunks slices finish_upload
  send_chunks-sent i zero cl up same =
      let m : ClientMsg = file_end transfer in
      ([], tt, finish_own-sent (send m cl) ∙ send_up m cl up)
  send_chunks-sent i (suc n) cl up same =
      let cl1 = send_chunk p random key transfer file.content i cl in
      let cl2 = between (suc i) cl1 in
      let (env, opens, out, up1, same1) = send_chunk_lem i cl up same in
      let up2 = quiet.stays_up (suc i) cl1 up1 in
      let (envs, all, rest) =
        send_chunks-sent (suc i) n cl2 up2 (quiet.same_key (suc i) cl1 ∙ same1) in
      let e = up2.has in
      let goes_on : send_chunks p random between key transfer file i (suc n) cl
          ≡ send_chunks p random between key transfer file (suc i) n cl2 =
        ground arith in
      (
        env ∷ envs,
        (opens, all),
        ap (λ (x : Client). x.sent) goes_on
            ∙ rest
            ∙ ap (λ ms. ms ++ (chunk_messages transfer (suc i) envs ++ file_end transfer ∷ []))
                (quiet.same_sent (suc i) cl1 ∙ out)
            ∙ append_assoc cl.sent (file_chunk transfer i env ∷ [])
                (chunk_messages transfer (suc i) envs ++ file_end transfer ∷ []),
      )
