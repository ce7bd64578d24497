-- ===== src/Client/Scenarios.antt =====
-- Two clients, a joiner and the end of a session at concrete inputs.
use e2eanon.Prelude.{
  ◌≡◌, refl, [], ◌∷◌, true, none, some, replicate, ok, err, Error, Text, text_eq, arith, ◌⊎◌,
}
use e2eanon.Samples.Browser.{browser, browser-Laws}
use e2eanon.Crypto.Base64url.{Bytes}
use e2eanon.Crypto.Envelope.{open_bytes, seal_bytes, codes}
use e2eanon.Crypto.KeyExchange.{generate_key_pair, seal_under_ke, open_under_ke}
use e2eanon.Crypto.KeyExchange.Laws.{open_under_ke-seal_under_ke}
use e2eanon.Spake2.Exchange.{party_b}
use e2eanon.Protocol.{integer, fractional, member, rekey, ServerMsg, ServerType}
use e2eanon.Client.State.{joiner_side, HsRecord, Incoming, Session, Client}
use e2eanon.Client.Keyring.{add_key}
use e2eanon.Client.Membership.{send, rekey_member, on_rekey}
use e2eanon.Client.Membership.Delivery.{ArePaired, on_rekey-rekey_member}
use e2eanon.Client.Joining.{on_key_deliver, on_member_key}
use e2eanon.Client.Joining.Order.{IsWaiting, on_key_deliver-on_member_key}
use e2eanon.Prelude.Int.{pos}
use e2eanon.Client.Transfer.{finish_incoming, got_chunk, on_chunk_at, on_file_chunk}
use e2eanon.Client.Transfer.Counting.{count, IsSound, on_file_chunk-IsSound}
use e2eanon.Client.Tests.{random, session, client}

-- The owner `a` with its peer `b`, both with private keys of 32 bytes.
abbrev pub priv_a : Bytes
priv_a = replicate 32 40

abbrev pub priv_b : Bytes
priv_b = replicate 32 41

abbrev pub session_a : Session
session_a = record session { public_key = priv_a; member_pubs = (codes "b", priv_b) ∷ [] }

abbrev pub client_a : Client
client_a = record client { session = some session_a; heap = priv_a ∷ replicate 32 7 ∷ [] }

abbrev pub session_b : Session
session_b = record session {
  member_id = codes "b";
  role = member;
  public_key = priv_b;
  member_pubs = (codes "a", priv_a) ∷ [];
}

abbrev pub client_b : Client
client_b = record client { session = some session_b; heap = priv_b ∷ replicate 32 7 ∷ [] }

paired : ArePaired browser (codes "b") client_a client_b session_a session_b
unfolding generate_key_pair text_eq
paired = record {
  owner_session = refl;
  member_session = refl;
  owner_knows = refl;
  member_knows = refl;
  length-owner_key = refl;
  length-member_key = refl;
}

abbrev pub blank_msg : ServerType → ServerMsg
blank_msg t = record {
  type = t;
  room = none;
  member_id = none;
  role = none;
  members = none;
  from = none;
  nick = none;
  body = none;
  ts = none;
  reason = none;
  error = none;
  token = none;
  handshake = none;
  data_text = none;
  transfer = none;
  key_id = none;
  index = none;
}

on_rekey-rekey_member_example :
    ((x : Error) × (rekey_member browser random (codes "b") 1 client_a ≡ (client_a, err x))
      × (browser.x25519_shared_secret priv_a (generate_key_pair browser priv_b).public_key ≡ err x))
    ⊎ ((env : Text) × (rekey_member browser random (codes "b") 1 client_a
          ≡ (send (rekey (codes "b") env) (record client_a { drawn = 1 }), ok tt))
        × (on_rekey browser random
              (record (blank_msg ServerType.rekey) { data_text = some env })
              client_b
            ≡ add_key (replicate 32 7) client_b))
on_rekey-rekey_member_example =
    on_rekey-rekey_member browser browser-Laws random (codes "b") 1 client_a client_b session_a
      session_b (blank_msg ServerType.rekey) paired refl (omega arith) (omega arith) refl

-- A joiner whose handshake has confirmed the secret in buffer 1.
abbrev pub waiting : HsRecord
waiting = record {
  hs = record {
    state = record { role = party_b; scalar = 1; w = 1; own = []; id_a = []; id_b = []; aad = [] };
    result = none;
    pending_peer_confirm = none;
    done = true;
  };
  role = joiner_side;
  joiner_member_id = none;
  ke = some 1;
  pending_key_deliver = none;
}

abbrev pub session_j : Session
session_j = record session_b { keys = []; handshakes = (codes "h", waiting) ∷ [] }

abbrev client_j : Client
client_j = record client_b { session = some session_j }

waiting-IsWaiting : IsWaiting (codes "h") waiting 1 session_j client_j
unfolding text_eq
waiting-IsWaiting = record {
  in_session = refl;
  known = refl;
  joins = refl;
  confirmed_secret = refl;
  none_pending = refl;
  no_owner_pub = refl;
}

abbrev sealed_pub : Text
sealed_pub = seal_under_ke browser (replicate 32 7) (replicate 24 5) priv_a

pub_opens : open_under_ke browser (replicate 32 7) sealed_pub ≡ ok priv_a
pub_opens =
    open_under_ke-seal_under_ke browser browser-Laws (replicate 32 7) (replicate 24 5) priv_a refl
      (omega arith) (omega arith)

on_key_deliver-on_member_key_example :
    let on_key = on_member_key browser random (record (blank_msg ServerType.member_key) {
      handshake = some (codes "h");
      data_text = some sealed_pub;
    }) in
    let on_room = on_key_deliver browser (record (blank_msg ServerType.key_deliver) {
      handshake = some (codes "h");
      data_text = some (codes "x");
    }) in
    on_room (on_key client_j).0 ≡ (on_key (on_room client_j)).0
on_key_deliver-on_member_key_example =
    on_key_deliver-on_member_key browser random b'h' [] b'x' sealed_pub [] waiting 1 priv_a
      session_j client_j (blank_msg ServerType.member_key) (blank_msg ServerType.key_deliver)
      waiting-IsWaiting pub_opens

-- A file of two parts, of which the first is there, when the second arrives.
abbrev half_there : Incoming
half_there = record {
  key = 1;
  meta = record { name = codes "f"; type = codes "t"; size = 2; chunks = 2 };
  nick = codes "n";
  parts = some (1 ∷ []) ∷ none ∷ [];
  others = [];
  received = 1;
}

abbrev client_f : Client
client_f = record client {
  session = some (record session { incoming = (codes "f1", half_there) ∷ [] });
}

client_f-IsSound : IsSound client_f
unfolding count
client_f-IsSound = record {
  running = (record { places = refl; counted = refl }, tt);
  handed_over = tt;
}

abbrev second_chunk : ServerMsg
second_chunk = record (blank_msg ServerType.file_chunk) {
  transfer = some (codes "f1");
  index = some (integer (pos 1));
  data_text = some (seal_bytes browser (replicate 32 7) (replicate 24 5) (2 ∷ []));
}

on_file_chunk-IsSound_example : IsSound (on_file_chunk browser second_chunk client_f)
on_file_chunk-IsSound_example =
    on_file_chunk-IsSound browser second_chunk client_f tt client_f-IsSound

-- A chunk whose index is one half in place of the second part: the file is handed over with a gap.
abbrev half_chunk : ServerMsg
half_chunk = record second_chunk { index = some (fractional (pos 0) (codes "0.5")) }

gap_handed_over :
    (on_file_chunk browser half_chunk client_f).view.blobs
    ≡ (codes "t", some (1 ∷ []) ∷ none ∷ []) ∷ []
unfolding on_file_chunk on_chunk_at got_chunk finish_incoming seal_bytes open_bytes text_eq
    e2eanon.Crypto.Envelope.b64_to_bytes e2eanon.Crypto.Envelope.bytes_to_b64
gap_handed_over = refl
