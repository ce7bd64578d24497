-- ===== src/Client/Dispatch/Chat.antt =====
-- A chat message from the form of one client to the page of another.
use e2eanon.Prelude.{
  suc, ◌≡◌, ap, ◌∙◌, List, [], ◌∷◌, ◌++◌, false, true, some, Text, length, ok, arith,
}
use e2eanon.Crypto.Primitives.{Laws, IsEncodable}
use e2eanon.Crypto.Envelope.{codes, nonce_len, encrypt_message, decrypt_message}
use e2eanon.Crypto.Envelope.Laws.{decrypt_message-encrypt_message}
use e2eanon.Protocol.{ServerMsg, ClientMsg}
use e2eanon.Client.State.{Ref, opened, Session, Client, read}
use e2eanon.Client.Keyring.{decrypt_with, decrypt_any}
use e2eanon.Client.Membership.{send}
use e2eanon.Client.Transfer.{nick_or}
use e2eanon.Client.Upload.Sent.{IsRandom}
use e2eanon.Client.Dispatch.{Outside, add_message, or_unreadable, on_chat, submit_message}

module _ (o : Outside) (laws : Laws o.primitives) (good : IsRandom o.random) where
  -- A text that is not blank, that UTF-8 can encode and that does not begin with a byte order mark
  -- (U+FEFF), as `IsEncodable` says, is submitted in a session with an open socket. The sender hands out one message, shows the text as its own, and keeps its session and its keys;
  -- a receiver whose newest key has the same 32 bytes as the sender's newest key and that gets this
  -- message shows exactly this text.
  pub on_chat-submit_message :
      (body : Text) (m : ServerMsg) (key their_key : Ref) (keys their_keys : List Ref)
      (s t : Session) (sender receiver : Client)
      → sender.session ≡ some s
      → s.ws ≡ opened
      → s.keys ≡ key ∷ keys
      → receiver.session ≡ some t
      → t.keys ≡ their_key ∷ their_keys
      → read receiver.heap their_key ≡ read sender.heap key
      → length (read sender.heap key) ≡ 32
      → o.is_blank body ≡ false
      → IsEncodable body
      → (env : Text) × (submit_message o body sender
          ≡ add_message (codes "you") body true (record sender {
            drawn = suc sender.drawn;
            sent = sender.sent ++ ClientMsg.msg env ∷ [];
          }))
        × (on_chat o (record m { body = some env }) receiver
            ≡ add_message (nick_or m.nick) body false receiver)
  unfolding submit_message on_chat decrypt_any decrypt_with send
  on_chat-submit_message body m key their_key keys their_keys s t sender receiver es up ks et kt
        same k_len full encodable =
      let p = o.primitives in
      let nonce = o.random sender.drawn nonce_len in
      let env = encrypt_message p (read sender.heap key) nonce body in
      let opens : decrypt_message p (read receiver.heap their_key) env ≡ ok body =
        ap (λ b. decrypt_message p b env) same
        ∙ decrypt_message-encrypt_message p laws (read sender.heap key) nonce body k_len
            (good.enough sender.drawn nonce_len) (good.bytes sender.drawn nonce_len) encodable in
      let reads : decrypt_any p receiver env ≡ some body = ground arith in
      (
        env,
        ground arith,
        ap (λ x. add_message (nick_or m.nick) (or_unreadable x) false receiver) reads,
      )
