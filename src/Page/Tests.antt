-- ===== src/Page/Tests.antt =====
-- The page at concrete inputs.
use e2eanon.Prelude.{
  ℕ, ◌≡◌, refl, List, All, [], ◌∷◌, ◌++◌, map, true, false, none, some, Text, text_eq, replicate,
  ok, if◌then◌else◌,
}
use e2eanon.Samples.Browser.{browser}
use e2eanon.Samples.Codec.{frames}
use e2eanon.Samples.Group.{thirds, weights}
use e2eanon.Samples.Links.{escape, links, links-WebLaws}
use e2eanon.Crypto.Base64url.{Bytes}
use e2eanon.Crypto.Envelope.{codes}
use e2eanon.Protocol.{owner, member, MemberInfo, ClientMsg, leave, ServerType, ServerMsg}
use e2eanon.Client.State.{opened, Session, Invite, View, Client}
use e2eanon.Client.Membership.{is_owner, or_empty}
use e2eanon.Client.Handshaking.{start_as_joiner, on_redeem_ok}
use e2eanon.Client.Invites.{index_of, build_invite_link, parse_invite}
use e2eanon.Client.Connecting.{finish_connect}
use e2eanon.Client.Connecting.Joins.{joining}
use e2eanon.Client.Upload.{File, finish_upload}
use e2eanon.Page.Element.{elements}
use e2eanon.Page.Sizes.{digits_from, decimal, to_fixed_1, format_bytes}
use e2eanon.Page.Sizes.Reading.{read_from, IsNearest, format_bytes-IsNearest}
use e2eanon.Page.Members.{render_members, request_of}
use e2eanon.Page.Members.Buttons.{buttons_in, offers, request_of-render_members}
use e2eanon.Page.Attachments.{
  Tab, urls_of, show_blob, track_url, take_staged, teardown_tab, on_file_selected,
  finish_upload_tab,
}
use e2eanon.Page.Attachments.Steps.{
  loaded, Reach, start, next, connected, selected, submitted, uploaded,
}
use e2eanon.Page.Attachments.Held.{IsSmall, is_none}
use e2eanon.Page.Attachments.Safety.{teardown_tab-Reach}
use e2eanon.Page.Leaving.{ModalView, others_of, on_leave_clicked}
use e2eanon.Page.Leaving.Choices.{outcomes, on_modal_click-on_leave_clicked}
use e2eanon.Page.Lobby.{Lobby, bootstrap_from_hash}
use e2eanon.Page.Lobby.Address.{on_redeem_ok-bootstrap_from_hash}

size_b : format_bytes 1023 ≡ codes "1023 B"
unfolding format_bytes decimal digits_from to_fixed_1
size_b = refl

size_kb : format_bytes 1536 ≡ codes "1.5 KB"
unfolding format_bytes decimal digits_from to_fixed_1
size_kb = refl

-- Just below one megabyte.
size_edge : format_bytes 1048575 ≡ codes "1024.0 KB"
unfolding format_bytes decimal digits_from to_fixed_1
size_edge = refl

size_mb : format_bytes 10485760 ≡ codes "10.0 MB"
unfolding format_bytes decimal digits_from to_fixed_1
size_mb = refl

format_bytes-IsNearest_example :
    (t : ℕ) × (u : ℕ) × (read_from 0 (format_bytes 1100) ≡ some (t, u)) × IsNearest 1100 t u
format_bytes-IsNearest_example = format_bytes-IsNearest 1100

-- An owner, `a`, with one other member, `b`.
abbrev owner_a : MemberInfo
owner_a = record { id = codes "a"; nick = codes "ann"; role = owner }

abbrev member_b : MemberInfo
member_b = record { id = codes "b"; nick = codes "bob"; role = member }

abbrev session : Session
session = record {
  ws = opened;
  room = codes "r";
  member_id = codes "a";
  role = owner;
  owner_id = codes "a";
  keys = 1 ∷ [];
  public_key = [];
  private_key = 0;
  pending_invites = [];
  handshakes = [];
  member_pubs = [];
  known_members = [];
  first_owner_pub = none;
  last_members = owner_a ∷ member_b ∷ [];
  incoming = [];
  file_msgs = [];
  object_urls = [];
}

abbrev blank_view : View
blank_view = record {
  in_room = false;
  lobby_error = [];
  lobby_status = [];
  room_notice = [];
  room_id = [];
  members = [];
  messages = [];
  invite_link = [];
  invite_button = false;
  blobs = [];
}

abbrev client : Client
client = record {
  session = some session;
  pending_join = none;
  intentional_close = false;
  heap = (1 ∷ []) ∷ (2 ∷ []) ∷ [];
  drawn = 0;
  sent = [];
  view = blank_view;
}

abbrev newcomer : Client
newcomer = record client { session = none }

request_of-render_members_example :
    map
      (request_of true)
      (buttons_in (render_members (owner_a ∷ member_b ∷ []) client).0.member_list)
    ≡ (if is_owner session.role
        then offers true session.member_id (owner_a ∷ member_b ∷ [])
        else [])
request_of-render_members_example =
    request_of-render_members true (owner_a ∷ member_b ∷ []) session client refl

-- They ask for two things, both of the other member.
offered :
    offers true session.member_id (owner_a ∷ member_b ∷ [])
    ≡ some (ClientMsg.transfer (codes "b")) ∷ some (ClientMsg.kick (codes "b")) ∷ []
unfolding text_eq
offered = refl

abbrev closed_modal : ModalView
closed_modal = record { hidden = true; title = []; body = elements []; actions = [] }

-- The other member is the first to choose from.
choice : others_of session.member_id session.last_members ≡ member_b ∷ []
unfolding others_of text_eq
choice = refl

on_modal_click-on_leave_clicked_example :
    ((on_leave_clicked (client, closed_modal)).0 ≡ client)
    × ((on_leave_clicked (client, closed_modal)).1.hidden ≡ false)
    × (text_eq member_b.id session.member_id ≡ false)
    × (outcomes 0 (on_leave_clicked (client, closed_modal))
        ≡ (client.sent ++ ClientMsg.transfer member_b.id ∷ leave ∷ [], none)
          ∷ (client.sent ++ leave ∷ [], none)
          ∷ (client.sent, some session)
          ∷ [])
on_modal_click-on_leave_clicked_example =
    on_modal_click-on_leave_clicked 0 b'b' [] member_b session closed_modal client refl refl refl
      (rw choice refl) refl

abbrev random : ℕ → ℕ → Bytes
random i n = replicate n 3

abbrev object_url : ℕ → Text
object_url n = codes "blob:" ++ n ∷ []

abbrev small_file : File
small_file = record { name = codes "f"; type = codes "image/png"; content = 1 ∷ 2 ∷ [] }

-- A session, a file that is chosen and sent, and a second that stays staged.
abbrev joined_tab : Tab
joined_tab = record (loaded newcomer) { client = finish_connect browser random newcomer }

abbrev staged_tab : Tab
staged_tab = on_file_selected object_url (some small_file) joined_tab

abbrev sent_tab : Tab
sent_tab =
    finish_upload_tab object_url browser random (codes "x") small_file (take_staged staged_tab).1

-- A second `connect` overwrites the session, which has shown a file.
abbrev taken_tab : Tab
taken_tab = record sent_tab { client = finish_connect browser random sent_tab.client }

abbrev busy_tab : Tab
busy_tab = on_file_selected object_url (some small_file) taken_tab

abbrev lost_urls : List Text
lost_urls = urls_of sent_tab.client.session

busy-Reach : Reach browser random object_url lost_urls busy_tab
unfolding finish_connect on_file_selected take_staged finish_upload_tab finish_upload track_url
    show_blob e2eanon.Client.Upload.finish_own e2eanon.Client.Membership.send
busy-Reach =
    next
      (next
        (next
          (next (next (next (start newcomer refl) connected) (selected (some small_file)))
            submitted)
          (uploaded (codes "x") small_file _ refl))
        connected)
      (selected (some small_file))

teardown_tab-Reach_example :
    IsSmall busy_tab.staged
    × (busy_tab.preview_hidden ≡ is_none busy_tab.staged)
    × ((teardown_tab true busy_tab).staged ≡ none)
    × All (λ url. e2eanon.Prelude.member url lost_urls ≡ true) (teardown_tab true busy_tab).live
teardown_tab-Reach_example =
    teardown_tab-Reach object_url browser random true lost_urls busy_tab busy-Reach

abbrev invite : Invite
invite = record { token = b't' ∷ []; code = b'C' ∷ [] }

abbrev fields : Text
fields = codes "t=" ++ (escape (b't' ∷ []) ++ (codes "&c=" ++ escape (b'C' ∷ [])))

abbrev address : Lobby
address = record {
  room_input = [];
  lobby_status = [];
  stats = [];
  stats_hidden = true;
  lobby_hidden = false;
  hash = b'#' ∷ fields;
}

parsed : parse_invite links (b'#' ∷ fields) ≡ some invite
unfolding parse_invite index_of text_eq
parsed = refl

built : build_invite_link links invite.token invite.code ≡ ok (links.address ++ (b'#' ∷ fields))
unfolding build_invite_link
built = refl

abbrev hello : ClientMsg
hello = ClientMsg.redeem (b't' ∷ []) (codes "n") (some (codes "s"))

abbrev accepted : ServerMsg
accepted = record {
  type = ServerType.redeem_ok;
  room = none;
  member_id = some (codes "b");
  role = none;
  members = none;
  from = none;
  nick = none;
  body = none;
  ts = none;
  reason = none;
  error = none;
  token = none;
  handshake = none;
  data_text = none;
  transfer = none;
  key_id = none;
  index = none;
}

on_redeem_ok-bootstrap_from_hash_example :
    let l' = bootstrap_from_hash links address in
    let joined = joining browser random links l'.room_input hello newcomer in
    (l'.hash ≡ [])
    × (parse_invite links l'.room_input ≡ some invite)
    × (on_redeem_ok browser random frames thirds weights
          (record accepted { handshake = some (codes "h1") })
          joined
        ≡ start_as_joiner browser random frames thirds weights
            (or_empty accepted.member_id)
            invite.code
            (codes "h1")
            joined)
on_redeem_ok-bootstrap_from_hash_example =
    on_redeem_ok-bootstrap_from_hash links links-WebLaws browser random frames thirds weights b'#'
      fields (links.address ++ (b'#' ∷ fields)) invite address hello newcomer accepted b'h'
      (b'1' ∷ []) refl parsed built refl
