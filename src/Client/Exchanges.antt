-- ===== src/Client/Exchanges.antt =====
-- An owner and a joiner, a file from one client to another, and invites, at concrete inputs.
use e2eanon.Prelude.{
  ℕ, ◌≡◌, refl, List, [], ◌∷◌, ◌++◌, map, none, some, replicate, length-replicate, ok, Result, Text,
  text_eq, arith,
}
use e2eanon.Samples.Browser.{nibbles, browser, browser-Laws, replicate-IsBytes}
use e2eanon.Samples.Group.{thirds, thirds-CurveLaws, weights, weights-HashesLaws}
use e2eanon.Samples.Codec.{frames}
use e2eanon.Samples.Links.{escape, links, links-WebLaws, metas}
use e2eanon.Crypto.Base64url.{Bytes, replace_all, strip_end, b64_to_b64url}
use e2eanon.Crypto.Primitives.{ascii-IsEncodable}
use e2eanon.Crypto.Envelope.{codes, key_id, binary_string_from, bytes_to_b64, bytes_to_b64url}
use e2eanon.Spake2.Bytes.{bytes_to_big_be}
use e2eanon.Spake2.Exchange.{seed_m, seed_n, mul, random_scalar, derive_w, start}
use e2eanon.Handshake.{b64, frame, create}
use e2eanon.Protocol.{ServerType, ServerMsg, ClientMsg}
use e2eanon.Client.State.{Invite, Client, read}
use e2eanon.Client.Keyring.{find_key_in, find_key_by_id}
use e2eanon.Client.Membership.{or_empty}
use e2eanon.Client.Handshaking.{start_as_owner, start_as_joiner, on_redeem_ok}
use e2eanon.Client.Handshaking.Records.{pakes_in}
use e2eanon.Client.Handshaking.Callbacks.{on_pakes}
use e2eanon.Client.Handshaking.Agreement.{Ends, on_pakes-agree}
use e2eanon.Client.Upload.{File, meta_of, send_file}
use e2eanon.Client.Upload.Slices.{join}
use e2eanon.Client.Upload.Sent.{IsRandom, IsQuiet}
use e2eanon.Client.Upload.Delivered.{deliver_all}
use e2eanon.Client.Upload.RoundTrip.{deliver_all-send_file}
use e2eanon.Client.Invites.{build_invite_link, parse_invite}
use e2eanon.Client.Invites.Links.{parse_invite-build_invite_link}
use e2eanon.Client.Connecting.{redeem_hello}
use e2eanon.Client.Connecting.Joins.{joining, on_redeem_ok-joining, on_redeem_ok-joining_over}
use e2eanon.Client.Tests.{random, client}
use e2eanon.Client.Scenarios.{session_a, session_b, client_a, client_b, blank_msg}

abbrev pub hs_id : Text
hs_id = codes "h1"

abbrev pub owner_start : Client × Result (Unit {0})
owner_start =
    start_as_owner browser random frames thirds weights (codes "t") (codes "CODE") hs_id (codes "b")
      client_a

abbrev pub joiner_start : Client × Result (Unit {0})
joiner_start =
    start_as_joiner browser random frames thirds weights (codes "b") (codes "CODE") hs_id client_b

pub owner_fine : owner_start.1 ≡ ok tt
unfolding start_as_owner create derive_w start mul seed_m seed_n random_scalar bytes_to_big_be frame
    b64
owner_fine = refl

pub joiner_fine : joiner_start.1 ≡ ok tt
unfolding start_as_joiner create derive_w start mul seed_m seed_n random_scalar bytes_to_big_be
    frame b64
joiner_fine = refl

on_pakes-agree_example :
    let gets =
      on_pakes browser random frames thirds weights (blank_msg ServerType.pake) b'h' (b'1' ∷ []) in
    (a1 : Text) × (a2 : Text) × (b1 : Text) × (b2 : Text) × (ke : Bytes) × (pakes_in
        owner_start.0.sent
      ≡ pakes_in client_a.sent ++ a1 ∷ [])
    × (pakes_in joiner_start.0.sent ≡ pakes_in client_b.sent ++ b1 ∷ [])
    × Ends hs_id owner_start.0 (gets (b1 ∷ b2 ∷ []) owner_start.0) a2 ke
    × Ends hs_id owner_start.0 (gets (b2 ∷ b1 ∷ []) owner_start.0) a2 ke
    × Ends hs_id joiner_start.0 (gets (a1 ∷ a2 ∷ []) joiner_start.0) b2 ke
    × Ends hs_id joiner_start.0 (gets (a2 ∷ a1 ∷ []) joiner_start.0) b2 ke
on_pakes-agree_example =
    on_pakes-agree browser random frames thirds weights browser-Laws thirds-CurveLaws
      weights-HashesLaws (blank_msg ServerType.pake) b'h' (b'1' ∷ []) (codes "CODE") (codes "t")
      (codes "b") (codes "b") session_a session_b client_a client_b refl refl refl refl owner_fine
      joiner_fine

pub random-IsRandom : IsRandom random
random-IsRandom = record {
  enough = λ i n. length-replicate n _;
  bytes = λ i n. replicate-IsBytes n _ (omega arith);
}

-- A file of three bytes; at each await some other event draws randomness.
abbrev file : File
file = record { name = codes "f"; type = codes "t"; content = 1 ∷ 2 ∷ 3 ∷ [] }

abbrev other_draws : ℕ → Client → Client
other_draws i cl = record cl { drawn = 7 }

other_draws-IsQuiet : IsQuiet 1 other_draws
other_draws-IsQuiet = record {
  same_sent = λ i cl. refl;
  stays_up = λ i cl h. record { now = h.now; has = h.has; up = h.up };
  same_key = λ i cl. refl;
}

abbrev id_tail : Text
id_tail = b'A' ∷ b'A' ∷ b'A' ∷ nibbles (replicate 7 224)

named : key_id browser (read client_a.heap 1) ≡ b'O' ∷ id_tail
unfolding key_id bytes_to_b64url bytes_to_b64 b64_to_b64url replace_all strip_end binary_string_from
named = refl

found : find_key_by_id browser client_b (b'O' ∷ id_tail) ≡ some 1
unfolding find_key_by_id find_key_in text_eq key_id bytes_to_b64url bytes_to_b64 b64_to_b64url
    replace_all strip_end binary_string_from
found = refl

deliver_all-send_file_example :
    (new : List ClientMsg) × (parts : List Bytes) × ((send_file browser random other_draws metas
        file client_a).sent
      ≡ client_a.sent ++ new)
    × ((deliver_all browser metas (blank_msg ServerType.file_start) new client_b).view.blobs
        ≡ client_b.view.blobs ++ (file.type, map some parts) ∷ [])
    × (join parts ≡ file.content)
deliver_all-send_file_example =
    deliver_all-send_file browser browser-Laws metas random random-IsRandom
      (blank_msg ServerType.file_start) other_draws file 1 1 [] b'O' id_tail session_a session_b
      client_a client_b refl refl refl refl named found refl refl other_draws-IsQuiet (omega arith)
      (ascii-IsEncodable (metas.stringify (meta_of file)) (omega arith)) refl (omega arith)

abbrev invite : Invite
invite = record { token = b't' ∷ []; code = b'C' ∷ [] }

abbrev link : Text
link = links.address ++ (codes "#t=" ++ (escape (b't' ∷ []) ++ (codes "&c=" ++ escape (b'C' ∷ []))))

link_built : build_invite_link links invite.token invite.code ≡ ok link
unfolding build_invite_link
link_built = refl

parse_invite-build_invite_link_example : parse_invite links link ≡ some invite
parse_invite-build_invite_link_example =
    parse_invite-build_invite_link links links-WebLaws invite link (λ n. cc) (λ n. cc) link_built

abbrev pub hello : ClientMsg
hello = redeem_hello invite (codes "n") (codes "s")

abbrev pub newcomer : Client
newcomer = record client { session = none }

abbrev accepted : ServerMsg
accepted = record (blank_msg ServerType.redeem_ok) {
  handshake = some hs_id;
  member_id = some (codes "b");
}

on_redeem_ok-joining_example :
    on_redeem_ok browser random frames thirds weights accepted
      (joining browser random links link hello newcomer)
    ≡ start_as_joiner browser random frames thirds weights
        (or_empty accepted.member_id)
        invite.code
        hs_id
        (joining browser random links link hello newcomer)
on_redeem_ok-joining_example =
    on_redeem_ok-joining browser random links frames thirds weights link hello invite newcomer
      accepted b'h' (b'1' ∷ []) parse_invite-build_invite_link_example refl

on_redeem_ok-joining_over_example :
    on_redeem_ok browser random frames thirds weights accepted
      (joining browser random links link hello client_a)
    ≡ (joining browser random links link hello client_a, ok tt)
on_redeem_ok-joining_over_example =
    on_redeem_ok-joining_over browser random links frames thirds weights link hello invite session_a
      client_a accepted parse_invite-build_invite_link_example refl
