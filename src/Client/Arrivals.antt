-- ===== src/Client/Arrivals.antt =====
-- A joiner that is let in, at both ends, at concrete inputs.
use e2eanon.Prelude.{◌≡◌, refl, [], ◌∷◌, some, replicate, ok, err, Error, Text, text_eq, arith, ◌⊎◌}
use e2eanon.Samples.Browser.{browser, browser-Laws}
use e2eanon.Crypto.Envelope.{key_len, codes}
use e2eanon.Crypto.KeyExchange.{generate_key_pair}
use e2eanon.Protocol.{key_deliver, ServerType}
use e2eanon.Client.State.{Session, Client}
use e2eanon.Client.Membership.{send, handshake_of, deliver_key, rotate_for_join}
use e2eanon.Client.Keyring.Lifetime.{IsRing}
use e2eanon.Client.Membership.Sending.{Sends}
use e2eanon.Client.Membership.Rotation.{Rotated}
use e2eanon.Client.Membership.Admission.{IsForJoin, AsksFor, rotate_for_join-recipients}
use e2eanon.Client.Joining.{on_key_deliver}
use e2eanon.Client.Joining.Entering.{HasEntered, AreJoining, on_key_deliver-deliver_key}
use e2eanon.Client.Tests.{random}
use e2eanon.Client.Scenarios.{
  priv_a, priv_b, session_a, client_a, client_b, blank_msg, waiting, session_j,
}

-- The joiner `b` has confirmed its secret, buffer 1, and knows the owner's public key.
abbrev session_w : Session
session_w = record session_j {
  keys = [];
  first_owner_pub = some (generate_key_pair browser priv_a).public_key;
}

abbrev client_w : Client
client_w = record client_b { session = some session_w }

abbrev session_o : Session
session_o = record session_a {
  handshakes = (codes "h", record waiting { joiner_member_id = some (codes "b") }) ∷ [];
}

abbrev client_o : Client
client_o = record client_a { session = some session_o }

joining_pair :
    AreJoining browser random (codes "b") b'h' [] client_o client_w session_o session_w waiting
unfolding text_eq handshake_of
joining_pair = record {
  owner_session = refl;
  joiner_session = refl;
  owner_record = refl;
  joiner_record = refl;
  owner_pub = refl;
  up = refl;
  ring = record { bounded = omega arith; in_heap = tt; distinct = tt };
  secret = omega arith;
  length-owner_key = refl;
  length-joiner_key = refl;
}

on_key_deliver-deliver_key_example :
    let their_pub = (generate_key_pair browser priv_b).public_key in
    ((x : Error) × (deliver_key browser random (codes "b") their_pub 1 client_o ≡ (client_o, err x))
      × (browser.x25519_shared_secret priv_a their_pub ≡ err x))
    ⊎ ((env : Text) × (deliver_key browser random (codes "b") their_pub 1 client_o
          ≡ (send (key_deliver (codes "h") env) (record client_o { drawn = 1 }), ok tt))
        × HasEntered (codes "h") (some 1) (replicate 32 7) session_w client_w (
            on_key_deliver browser
              (record (blank_msg ServerType.key_deliver) {
                handshake = some (codes "h");
                data_text = some env;
              })
              client_w))
on_key_deliver-deliver_key_example =
    on_key_deliver-deliver_key browser browser-Laws random (codes "b") b'h' [] 1 client_o client_w
      session_o session_w waiting (blank_msg ServerType.key_deliver) joining_pair refl (omega arith)
      (omega arith) refl

-- The owner's keys are in order, and it knows `b` and `c`.
client_o-IsRing : IsRing (1 ∷ []) client_o.heap
client_o-IsRing = record { bounded = omega arith; in_heap = omega arith; distinct = (tt, tt) }

rotate_for_join-recipients_example :
    Sends
      (IsForJoin
        (AsksFor browser random (codes "b") session_o)
        session_o.known_members
        (codes "a")
        (codes "b"))
      client_o
      (rotate_for_join browser random (codes "b") priv_b client_o).0
    × Rotated
        (random 0 key_len)
        []
        session_o
        client_o
        (rotate_for_join browser random (codes "b") priv_b client_o).0
rotate_for_join-recipients_example =
    rotate_for_join-recipients browser random (codes "b") priv_b session_o client_o refl
      client_o-IsRing
