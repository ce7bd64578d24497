-- ===== src/Client/Tests.antt =====
-- web/src/main.ts at concrete inputs, over the stand-ins of `Samples`.
use e2eanon.Prelude.{
  ℕ, ◌+◌, ◌%◌, ◌≡◌, refl, List, [], ◌∷◌, true, false, none, some, replicate, ok, Text, text_eq,
  arith,
}
use e2eanon.Samples.Browser.{browser}
use e2eanon.Crypto.Base64url.{Bytes}
use e2eanon.Crypto.Envelope.{
  codes, key_len, b64_to_bytes, bytes_to_b64, seal_bytes, open_bytes, encrypt_message,
  decrypt_message,
}
use e2eanon.Protocol.{Role, owner, member, MemberInfo}
use e2eanon.Client.State.{Ref, Session, View, Client, opened}
use e2eanon.Client.Keyring.{decrypt_any}
use e2eanon.Client.Keyring.Heap.{IsWiped}
use e2eanon.Client.Keyring.Rotations.{IsRing, HoldsKeys, add_keys, add_keys-IsWiped}
use e2eanon.Client.Keyring.Window.{window, slides, first_opening, add_keys-refines}
use e2eanon.Client.Keyring.Reading.{OpensAt, decrypt_any-add_keys}
use e2eanon.Client.Membership.{RosterJson, owner_id_of, on_presence}
use e2eanon.Client.Membership.Departed.{ids_of}
use e2eanon.Client.Membership.News.{Informs, on_presence-Informs}
use e2eanon.Client.Membership.Rotation.{RotatedOut, on_presence-RotatedOut}

abbrev pub random : ℕ → ℕ → Bytes
random i n = replicate n ((i + 1) % 256)

abbrev pub json : RosterJson
json = record { stringify = λ obj. codes "{}"; parse = λ t. none }

abbrev view : View
view = record {
  in_room = true;
  lobby_error = [];
  lobby_status = [];
  room_notice = [];
  room_id = [];
  members = [];
  messages = [];
  invite_link = [];
  invite_button = true;
  blobs = [];
}

-- The owner `a` knows `b` and `c`. Its private key is buffer 0 and its room key buffer 1.
abbrev pub session : Session
session = record {
  ws = opened;
  room = codes "r";
  member_id = codes "a";
  role = owner;
  owner_id = codes "a";
  keys = 1 ∷ [];
  public_key = 40 ∷ [];
  private_key = 0;
  pending_invites = [];
  handshakes = [];
  member_pubs = (codes "b", 41 ∷ []) ∷ (codes "c", 42 ∷ []) ∷ [];
  known_members = codes "a" ∷ codes "b" ∷ codes "c" ∷ [];
  first_owner_pub = none;
  last_members = [];
  incoming = [];
  file_msgs = [];
  object_urls = [];
}

abbrev pub client : Client
client = record {
  session = some session;
  pending_join = none;
  intentional_close = false;
  heap = (40 ∷ []) ∷ replicate 32 7 ∷ [];
  drawn = 0;
  sent = [];
  view = view;
}

client-IsRing : IsRing (1 ∷ []) client.heap
client-IsRing = record { bounded = omega arith; in_heap = omega arith; distinct = (tt, tt) }

client_holds : HoldsKeys client (1 ∷ [])
client_holds = (session, refl, refl)

abbrev two_keys : List Bytes
two_keys = replicate 32 1 ∷ replicate 32 2 ∷ []

abbrev five_keys : List Bytes
five_keys = replicate 32 1 ∷ replicate 32 2 ∷ replicate 32 3 ∷ replicate 32 4 ∷ replicate 32 5 ∷ []

add_keys-IsWiped_example : IsWiped (add_keys five_keys client).heap 1
add_keys-IsWiped_example =
    add_keys-IsWiped five_keys (1 ∷ []) client 0 1 client_holds client-IsRing refl (omega arith)

add_keys-refines_example :
    (held : List Ref) × HoldsKeys (add_keys five_keys client) held
    × (window held (add_keys five_keys client).heap
        ≡ slides five_keys (window (1 ∷ []) client.heap))
    × ((body : Text)
        → decrypt_any browser (add_keys five_keys client) body
          ≡ first_opening browser (slides five_keys (window (1 ∷ []) client.heap)) body)
add_keys-refines_example =
    add_keys-refines browser five_keys (1 ∷ []) client client_holds client-IsRing

abbrev envelope : Text
envelope = encrypt_message browser (replicate 32 7) (replicate 24 5) (codes "hello")

envelope_opens : decrypt_message browser (replicate 32 7) envelope ≡ ok (codes "hello")
unfolding encrypt_message decrypt_message open_bytes b64_to_bytes seal_bytes bytes_to_b64 text_eq
envelope_opens = refl

decrypt_any-add_keys_example :
    (held : List Ref) × HoldsKeys (add_keys two_keys client) held
    × ((t' : Text) × OpensAt browser (add_keys two_keys client).heap held 2 envelope t'
        × (decrypt_any browser (add_keys two_keys client) envelope ≡ some t'))
decrypt_any-add_keys_example =
    decrypt_any-add_keys browser two_keys (1 ∷ []) client 0 1 envelope (codes "hello") client_holds
      client-IsRing refl (omega arith) envelope_opens

abbrev info : Text → Role → MemberInfo
info id role = record { id = id; nick = codes "n"; role = role }

-- The member `c` has left.
abbrev present : List MemberInfo
present = info (codes "a") owner ∷ info (codes "b") member ∷ []

on_presence-Informs_example :
    Informs browser random json
      (random 0 key_len)
      (ids_of present)
      session
      client
      (on_presence browser random json present client).0
on_presence-Informs_example =
    on_presence-Informs browser random json present session client refl client-IsRing

still_owner : text_eq (owner_id_of present) session.member_id ≡ true
unfolding owner_id_of text_eq
still_owner = refl

c_known : e2eanon.Prelude.member (codes "c") session.known_members ≡ true
unfolding text_eq
c_known = refl

c_gone : e2eanon.Prelude.member (codes "c") (ids_of present) ≡ false
unfolding text_eq
c_gone = refl

on_presence-RotatedOut_example :
    RotatedOut
      (random 0 key_len)
      present
      session
      client
      (on_presence browser random json present client).0
on_presence-RotatedOut_example =
    on_presence-RotatedOut browser random json present session client (codes "c") refl client-IsRing
      refl still_owner c_known c_gone
