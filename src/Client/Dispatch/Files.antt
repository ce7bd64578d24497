-- ===== src/Client/Dispatch/Files.antt =====
-- The handlers of a file transfer keep the keys in order.
use e2eanon.Client.Upload.{
  File, meta_of, announced, begin_upload, send_chunk, finish_own, finish_upload,
}
use e2eanon.Client.Membership.{update, send}
use e2eanon.Client.Dispatch.Invariant.{send-IsKeyed}
use e2eanon.Crypto.Base64url.{Bytes}
use e2eanon.Protocol.{file_end}
use e2eanon.Crypto.Envelope.{codes}
use e2eanon.Prelude.{
  ℕ, suc, List, [], ◌∷◌, erase, true, refl, ◌∷◌, false, not, ◌||◌, ltb, ◌==◌, Option, some, Text,
  lookup, ok, err,
}
use e2eanon.Crypto.Primitives.{Primitives}
use e2eanon.Crypto.Envelope.{decrypt_message, open_bytes}
use e2eanon.Client.State.{Ref, FileMeta, Session, Client, read}
use e2eanon.Client.Keyring.{find_key_by_id}
use e2eanon.Client.Membership.{or_empty, given}
use e2eanon.Client.Transfer.{
  MetaJson, max_chunks, nick_or, is_below, is_taken, index_of, store_part, end_transfer,
  finish_incoming, store_incoming, got_chunk, on_chunk_at, on_file_chunk, on_file_end,
  blank_incoming, start_file_message, got_meta, on_announced, on_file_start,
}
use e2eanon.Client.Connecting.{drop_transfer}
use e2eanon.Client.Dispatch.Invariant.{
  IsSafe, IsKeyed, on_option, on_result, on_if, on_text, spare_IsSafe, IsKeyed-session,
  update-IsKeyed,
}
use e2eanon.Protocol.{ServerMsg}

finish_incoming-IsKeyed :
    (transfer : Text) (cl : Client) → IsKeyed cl → IsKeyed (finish_incoming transfer cl)
unfolding finish_incoming
finish_incoming-IsKeyed transfer cl h = on_option IsKeyed cl.session cl _ h (λ s e.
    on_option IsKeyed (lookup transfer s.incoming) cl _ h (λ inc _.
      spare_IsSafe s (end_transfer transfer s) cl.heap refl refl refl (IsKeyed-session s cl e h)))

pub on_file_chunk-IsKeyed :
    (p : Primitives) (msg : ServerMsg) (cl : Client) → IsKeyed cl → IsKeyed (on_file_chunk p msg cl)
unfolding on_file_chunk on_chunk_at got_chunk
on_file_chunk-IsKeyed p msg cl h =
    let transfer = or_empty msg.transfer in
    on_option IsKeyed cl.session cl _ h (λ s e.
      on_option IsKeyed (lookup transfer s.incoming) cl _ h (λ inc _.
        on_option IsKeyed msg.data_text cl _ h (λ env _.
          on_option IsKeyed (index_of msg.index) cl _ h (λ i _.
            on_if IsKeyed (not (is_below inc.meta.chunks i) || is_taken inc i) cl
              (elim (open_bytes p (read cl.heap inc.key) env) [
                | err x ↦ cl
                | ok chunk ↦ got_chunk transfer inc i chunk s cl
              ])
              h
              (on_result IsKeyed (open_bytes p (read cl.heap inc.key) env) (λ x. cl) _ (λ x. h)
                (λ chunk _.
                  let inc' = store_part inc i chunk in
                  let s' = store_incoming transfer inc' s in
                  let cl' = record cl { session = some s' } in
                  let kept : IsKeyed cl' =
                    spare_IsSafe s s' cl.heap refl refl refl (IsKeyed-session s cl e h) in
                  on_if IsKeyed (inc'.received == inc'.meta.chunks) (finish_incoming transfer cl')
                    cl' (finish_incoming-IsKeyed transfer cl' kept) kept))))))

pub on_file_end-IsKeyed :
    (msg : ServerMsg) (cl : Client) → IsKeyed cl → IsKeyed (on_file_end msg cl)
unfolding on_file_end
on_file_end-IsKeyed msg cl h = on_option IsKeyed cl.session cl _ h (λ s e.
    on_text IsKeyed msg.transfer cl cl _ h h (λ c cs.
      on_option IsKeyed (lookup (c ∷ cs) s.incoming) cl _ h (λ inc _.
        spare_IsSafe s (end_transfer (c ∷ cs) s) cl.heap refl refl refl
          (IsKeyed-session s cl e h))))

got_meta-IsKeyed :
    (transfer : Text) (key : Ref) (meta : FileMeta) (nick : Text) (s : Session) (cl : Client)
    → IsSafe s cl.heap
    → IsKeyed cl
    → IsKeyed (got_meta transfer key meta nick s cl)
unfolding got_meta
got_meta-IsKeyed transfer key meta nick s cl safe h =
    let s' =
      start_file_message transfer nick meta false
        (store_incoming transfer (blank_incoming key meta nick) s) in
    let cl' = record cl { session = some s' } in
    on_if IsKeyed (ltb meta.chunks 1 || ltb max_chunks meta.chunks) cl cl' h
      (spare_IsSafe s s' cl.heap refl refl refl safe)

pub on_file_start-IsKeyed :
    (p : Primitives) (json : MetaJson) (msg : ServerMsg) (cl : Client)
    → IsKeyed cl
    → IsKeyed (on_file_start p json msg cl)
unfolding on_file_start on_announced
on_file_start-IsKeyed p json msg cl h = on_option IsKeyed cl.session cl _ h (λ s e.
    on_option IsKeyed (given msg.transfer) cl _ h (λ transfer _.
      on_option IsKeyed (given msg.key_id) cl _ h (λ id _.
        on_option IsKeyed msg.data_text cl _ h (λ env _.
          on_option IsKeyed (find_key_by_id p cl id) cl _ h (λ key _.
            on_result IsKeyed (decrypt_message p (read cl.heap key) env) (λ x. cl) _ (λ x. h)
              (λ text _. on_option IsKeyed (json.parse text) cl _ h (λ meta _.
                got_meta-IsKeyed transfer key meta (nick_or msg.nick) s cl
                  (IsKeyed-session s cl e h) h)))))))

pub drop_transfer-IsKeyed :
    (transfer : Option Text) (cl : Client) → IsKeyed cl → IsKeyed (drop_transfer transfer cl)
unfolding drop_transfer
drop_transfer-IsKeyed transfer cl h = on_option IsKeyed (given transfer) cl _ h (λ t _.
    update-IsKeyed (end_transfer t) cl
      (λ s. spare_IsSafe s (end_transfer t s) cl.heap refl refl refl) h)

module _ (p : Primitives) (random : ℕ → ℕ → Bytes) where
  pub begin_upload-IsKeyed : (cl : Client) → IsKeyed cl → IsKeyed (begin_upload p random cl)
  unfolding begin_upload
  begin_upload-IsKeyed cl h = on_option IsKeyed cl.session cl _ h (λ s _. drawn_or_not s.keys)
    where
      drawn_or_not :
          (ks : List Ref)
          → IsKeyed (elim ks [ [] ↦ cl | k ∷ others ↦ record cl { drawn = suc cl.drawn } ])
      drawn_or_not [] = h
      drawn_or_not (k ∷ others) = h

  pub announced-IsKeyed :
      (json : MetaJson) (key : Ref) (id transfer : Text) (file : File) (cl : Client)
      → IsKeyed cl
      → IsKeyed (announced p random json key id transfer file cl)
  unfolding announced
  announced-IsKeyed json key id transfer file cl h =
      let f = start_file_message transfer (codes "you") (meta_of file) true in
      let cl1 = update f cl in
      let kept : IsKeyed cl1 =
        update-IsKeyed f cl (λ s. spare_IsSafe s (f s) cl.heap refl refl refl) h in
      send-IsKeyed _ (record cl1 { drawn = suc cl1.drawn }) kept

  pub send_chunk-IsKeyed :
      (key : Ref) (transfer : Text) (buf : Bytes) (i : ℕ) (cl : Client)
      → IsKeyed cl
      → IsKeyed (send_chunk p random key transfer buf i cl)
  unfolding send_chunk
  send_chunk-IsKeyed key transfer buf i cl h = send-IsKeyed _ (record cl { drawn = suc cl.drawn }) h

  pub finish_upload-IsKeyed :
      (transfer : Text) (file : File) (cl : Client)
      → IsKeyed cl
      → IsKeyed (finish_upload p random transfer file cl)
  unfolding finish_upload finish_own
  finish_upload-IsKeyed transfer file cl h =
      let f = λ (s : Session). record s { file_msgs = erase transfer s.file_msgs } in
      let cl1 = send (file_end transfer) cl in
      update-IsKeyed f cl1 (λ s. spare_IsSafe s (f s) cl1.heap refl refl refl)
        (send-IsKeyed (file_end transfer) cl h)
