-- ===== src/Page/Lobby.antt =====
-- The lobby of web/src/main.ts: the statistics, the session id, the link in the page's address, and the
-- address of the relay, `wsURL` of web/src/protocol.ts.
pub mod Address
pub mod Ids
use e2eanon.Prelude.{
  ℕ, ◌==◌, List, [], ◌∷◌, ◌++◌, Bool, true, false, Option, none, some, Text, text_eq, Result, ok,
  err, if◌then◌else◌,
}
use e2eanon.Crypto.Base64url.{Bytes}
use e2eanon.Crypto.Envelope.{codes}
use e2eanon.Client.State.{Invite, View, Client}
use e2eanon.Client.Invites.{Web, build_invite_link, parse_invite}
use e2eanon.Client.Upload.{random_id}
use e2eanon.Page.Sizes.{decimal}

-- What the lobby shows and the fragment of the page's address.
pub record Lobby : Type 0 where
  pub room_input : Text
  pub lobby_status : Text
  pub stats : Text
  pub stats_hidden : Bool
  pub lobby_hidden : Bool
  pub hash : Text

-- `SESSION_ID` over the 16 bytes that were drawn.
abbrev pub session_id : Bytes → Text
session_id bytes = random_id bytes

abbrev pub counted : ℕ → Text → Text → Text
counted n one many = if n == 1 then one else many

-- How many people are online, and how many rooms there are.
unfoldable pub stats_text : ℕ → ℕ → Text
unfolding decimal
stats_text online rooms = decimal online (
    codes " "
    ++ (counted online (codes "person") (codes "people")
        ++ (codes " online "
            ++ 0xb7 ∷ codes " "
            ++ decimal rooms (codes " active " ++ counted rooms (codes "room") (codes "rooms")))))

-- `pollStats`: what the server has answered, or `none` where that failed.
unfoldable pub poll_stats : Option (ℕ × ℕ) → Lobby → Lobby
unfolding stats_text
poll_stats answer l = if l.lobby_hidden then l else elim answer [
  | none ↦ record l { stats_hidden = true }
  | some (online, rooms) ↦ record l { stats = stats_text online rooms; stats_hidden = false }
]

unfoldable pub show_room : Lobby → Lobby
show_room l = record l { lobby_hidden = true }

-- The statistics are polled again.
unfoldable pub show_lobby : Option (ℕ × ℕ) → Lobby → Lobby
unfolding poll_stats
show_lobby answer l = poll_stats answer (record l { lobby_hidden = false; room_input = [] })

abbrev pub invite_detected : Text
invite_detected = codes "Invite detected " ++ 0x2014 ∷ codes " enter a nickname and Join."

abbrev fill_in : Result Text → Lobby → Lobby
fill_in (err e) l = l
fill_in (ok link) l = record l { room_input = link; hash = []; lobby_status = invite_detected }

abbrev with_invite : Web → Option Invite → Lobby → Lobby
with_invite web none l = l
with_invite web (some invite) l = fill_in (build_invite_link web invite.token invite.code) l

abbrev with_hash : Web → Text → Lobby → Lobby
with_hash web [] l = l
with_hash web (c ∷ cs) l = with_invite web (parse_invite web (c ∷ cs)) l

unfoldable pub bootstrap_from_hash : Web → Lobby → Lobby
bootstrap_from_hash web l = with_hash web l.hash l

abbrev pub copied : Text
copied = codes "Invite link copied " ++ 0x2014 ∷ codes " share it privately; it works once."

-- The button that copies the link: whether the clipboard has taken it.
unfoldable pub on_copy_clicked : Bool → Client → Client
on_copy_clicked false cl = cl
on_copy_clicked true cl = record cl { view = record cl.view { room_notice = copied } }

-- The page's `location`.
pub record Location : Type 0 where
  pub protocol : Text
  pub host : Text

unfoldable pub ws_url : Location → Text
ws_url location =
    (if text_eq location.protocol (codes "https:") then codes "wss:" else codes "ws:")
    ++ (codes "//" ++ (location.host ++ codes "/ws"))
