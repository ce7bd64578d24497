-- ===== src/Client/Meetings.antt =====
-- A whole join of two clients, at concrete inputs.
use e2eanon.Prelude.{◌≡◌, refl, List, [], ◌∷◌, ◌++◌, true, false, none, some, Text, arith}
use e2eanon.Samples.Browser.{browser, browser-Laws, replicate-IsBytes}
use e2eanon.Samples.Group.{thirds, thirds-CurveLaws, weights, weights-HashesLaws}
use e2eanon.Samples.Codec.{frames}
use e2eanon.Crypto.Envelope.{key_len, codes}
use e2eanon.Crypto.KeyExchange.{generate_key_pair}
use e2eanon.Protocol.{ServerType, ServerMsg, ClientMsg, key_deliver, enter}
use e2eanon.Client.State.{Client}
use e2eanon.Client.Membership.{handshake_of}
use e2eanon.Client.Joining.{on_member_key, on_key_deliver}
use e2eanon.Client.Handshaking.Onward.{member_keys_in}
use e2eanon.Client.Handshaking.Records.{pakes_in}
use e2eanon.Client.Handshaking.Callbacks.{on_pakes}
use e2eanon.Client.Handshaking.Meeting.{IsReady}
use e2eanon.Client.Handshaking.LastMessages.{ShareKey}
use e2eanon.Client.Handshaking.Entry.{in_order, on_key_deliver-on_pakes}
use e2eanon.Client.Tests.{random}
use e2eanon.Client.Scenarios.{session_a, session_b, client_a, client_b, blank_msg}
use e2eanon.Client.Exchanges.{
  hs_id, owner_start, joiner_start, owner_fine, joiner_fine, random-IsRandom,
}

owner-IsReady : IsReady browser session_a client_a
unfolding generate_key_pair
owner-IsReady = record {
  in_session = refl;
  up = refl;
  ring = record { bounded = omega arith; in_heap = (omega arith, tt); distinct = (tt, tt) };
  pair = record {
    in_heap = omega arith;
    apart = (λ e. omega arith, tt);
    length-private = refl;
    public = refl;
    bytes = replicate-IsBytes 32 40 (omega arith);
  };
}

joiner-IsReady : IsReady browser session_b client_b
unfolding generate_key_pair
joiner-IsReady = record {
  in_session = refl;
  up = refl;
  ring = record { bounded = omega arith; in_heap = (omega arith, tt); distinct = (tt, tt) };
  pair = record {
    in_heap = omega arith;
    apart = (λ e. omega arith, tt);
    length-private = refl;
    public = refl;
    bytes = replicate-IsBytes 32 41 (omega arith);
  };
}

none_yet : handshake_of browser random (codes "b") session_a.handshakes ≡ none
unfolding handshake_of
none_yet = refl

abbrev pake_msg : ServerMsg
pake_msg = blank_msg ServerType.pake

abbrev gets : List Text → Client → Client
gets = on_pakes browser random frames thirds weights pake_msg b'h' (b'1' ∷ [])

abbrev key_from : Text → Client → Client
key_from e cl =
    (on_member_key browser random
      (record (blank_msg ServerType.member_key) { handshake = some hs_id; data_text = some e })
      cl).0

abbrev room_from : Text → Client → Client
room_from e =
    on_key_deliver browser
      (record (blank_msg ServerType.key_deliver) { handshake = some hs_id; data_text = some e })

on_key_deliver-on_pakes_example :
    (a1 : Text) × (a2 : Text) × (b1 : Text) × (b2 : Text) × (env : Text) × (env' : Text)
    × (room_env : Text) × (others : List ClientMsg) × let o =
          gets (in_order true b1 b2) owner_start.0 in
        let j = gets (in_order false a1 a2) joiner_start.0 in
        (pakes_in o.sent ≡ pakes_in client_a.sent ++ a1 ∷ a2 ∷ [])
        × (pakes_in j.sent ≡ pakes_in client_b.sent ++ b1 ∷ b2 ∷ [])
        × (member_keys_in o.sent ≡ member_keys_in client_a.sent ++ env ∷ [])
        × (member_keys_in j.sent ≡ member_keys_in client_b.sent ++ env' ∷ [])
        × ((key_from env' o).sent ≡ o.sent ++ key_deliver hs_id room_env ∷ others)
        × ((room_from room_env (key_from env j)).sent ≡ j.sent ++ enter hs_id ∷ [])
        × ShareKey (random o.drawn key_len) (key_from env' o) (room_from room_env (key_from env j))
on_key_deliver-on_pakes_example =
    on_key_deliver-on_pakes browser browser-Laws random random-IsRandom frames thirds weights
      thirds-CurveLaws weights-HashesLaws pake_msg (blank_msg ServerType.member_key)
      (blank_msg ServerType.key_deliver) true false b'h' (b'1' ∷ []) (codes "CODE") (codes "t")
      (codes "b") (codes "b") _ session_a session_b client_a client_b owner-IsReady joiner-IsReady
      none_yet owner_fine joiner_fine refl
