-- ===== src/Client/Runs.antt =====
-- A chat message from one client to another, and runs of events, at concrete inputs.
use e2eanon.Prelude.{
  true, false, ◌≡◌, refl, List, [], ◌∷◌, ◌++◌, All, none, some, Text, text_eq, arith,
}
use e2eanon.Samples.Browser.{browser, browser-Laws}
use e2eanon.Samples.Group.{thirds, weights}
use e2eanon.Samples.Codec.{frames}
use e2eanon.Samples.Links.{links, metas}
use e2eanon.Crypto.Primitives.{ascii-IsEncodable}
use e2eanon.Crypto.Envelope.{codes}
use e2eanon.Protocol.{ServerType, ClientMsg}
use e2eanon.Client.State.{Session}
use e2eanon.Client.State.{opened, Session}
use e2eanon.Client.Keyring.{allocate}
use e2eanon.Client.Keyring.Heap.{IsWiped}
use e2eanon.Crypto.KeyExchange.{generate_key_pair}
use e2eanon.Client.Membership.{send}
use e2eanon.Client.Lifecycle.{teardown}
use e2eanon.Client.Lifecycle.Wiping.{key_refs}
use e2eanon.Client.Connecting.{
  create_hello, begin_connect, close_current_session, fresh_session, on_open, finish_connect,
  finish_create,
}
use e2eanon.Client.Dispatch.{
  Outside, add_message, on_chat, submit_message, Event, message, socket_opened, create_clicked,
  create_goes_on, message_submitted, invite_clicked, step, run_events,
}
use e2eanon.Client.Dispatch.Chat.{on_chat-submit_message}
use e2eanon.Client.Dispatch.Invariant.{IsKeyed}
use e2eanon.Client.Dispatch.Events.{run_events-IsKeyed, teardown-run_events-IsWiped}
use e2eanon.Client.Tests.{random, json}
use e2eanon.Client.Scenarios.{session_a, session_b, client_a, client_b, blank_msg}
use e2eanon.Client.Exchanges.{random-IsRandom, hello, newcomer}

abbrev outside : Outside
outside = record {
  primitives = browser;
  frames = frames;
  curve = thirds;
  hashes = weights;
  random = random;
  rosters = json;
  metas = metas;
  web = links;
  is_blank = λ t. text_eq t [];
}

on_chat-submit_message_example :
    (env : Text) × (submit_message outside (codes "hi") client_a
      ≡ add_message
          (codes "you")
          (codes "hi")
          true
          (record client_a { drawn = 1; sent = client_a.sent ++ ClientMsg.msg env ∷ [] }))
    × (on_chat outside (record (blank_msg ServerType.chat) { body = some env }) client_b
        ≡ add_message (codes "?") (codes "hi") false client_b)
unfolding text_eq
on_chat-submit_message_example =
    on_chat-submit_message outside browser-Laws random-IsRandom (codes "hi")
      (blank_msg ServerType.chat) 1 1 [] [] session_a session_b client_a client_b refl refl refl
      refl refl refl refl refl (ascii-IsEncodable (codes "hi") (omega arith))

-- A room is created, an invite is asked for, and the members are announced.
abbrev some_events : List Event
some_events =
    create_clicked
    ∷ create_goes_on
    ∷ socket_opened hello
    ∷ invite_clicked
    ∷ message (record (blank_msg ServerType.presence) { members = some [] })
    ∷ []

run_events-IsKeyed_example : IsKeyed (run_events outside some_events newcomer)
run_events-IsKeyed_example = run_events-IsKeyed outside some_events newcomer tt

abbrev first_events : List Event
first_events =
    create_clicked
    ∷ create_goes_on
    ∷ socket_opened (create_hello (codes "n") (codes "s"))
    ∷ message_submitted (codes "hi")
    ∷ []

abbrev after_first : Session
after_first = record (fresh_session (generate_key_pair browser (random 0 32)).public_key 2) {
  ws = opened;
  keys = 3 ∷ [];
}

in_session : (run_events outside first_events newcomer).session ≡ some after_first
unfolding run_events step begin_connect close_current_session finish_create finish_connect allocate
    on_open submit_message send generate_key_pair text_eq
in_session = refl

teardown-run_events-IsWiped_example :
    ((teardown true (run_events outside first_events newcomer)).session ≡ none)
    × All
        (IsWiped (teardown true (run_events outside first_events newcomer)).heap)
        (key_refs after_first)
teardown-run_events-IsWiped_example =
    teardown-run_events-IsWiped outside true first_events newcomer after_first refl in_session
