-- ===== src/Page/Members.antt =====
-- The members' list and its buttons: `renderMembers`, `badge`, `actionBtn` and the list's listener in
-- web/src/main.ts.
pub mod Buttons
use e2eanon.Prelude.{
  ℕ, List, [], ◌∷◌, ◌++◌, Bool, true, false, not, ◌&&◌, Option, none, some, Text, text_eq, lookup,
  length, if◌then◌else◌,
}
use e2eanon.Crypto.Envelope.{codes}
use e2eanon.Protocol.{MemberInfo, ClientMsg}
use e2eanon.Client.State.{Session, Client}
use e2eanon.Client.Membership.{is_owner, update}
use e2eanon.Client.Dispatch.{Outside, on_member_action}
use e2eanon.Page.Element.{Element, element, Elements, nil, cons, leaf, elements}
use e2eanon.Page.Sizes.{decimal}

abbrev pub badge : Text → Text → Element
badge cls text = leaf (codes "span") cls text

abbrev pub action_btn : Text → Text → Text → Text → Element
action_btn action id title label =
    element (codes "button") (codes "member-action")
      ((codes "data-action", action) ∷ (codes "data-id", id) ∷ (codes "title", title) ∷ []) label
      nil

abbrev pub make_owner : Text
make_owner = codes "make-owner"

abbrev pub kick : Text
kick = codes "kick"

abbrev pub owner_badge : MemberInfo → List Element
owner_badge m = if is_owner m.role then badge (codes "owner-badge") (codes "owner") ∷ [] else []

abbrev pub you_badge : Session → MemberInfo → List Element
you_badge s m =
    if text_eq m.id s.member_id then badge (codes "you-badge") (codes "you") ∷ [] else []

-- The owner's controls for the other members.
abbrev pub controls : Session → MemberInfo → List Element
controls s m =
    if is_owner s.role && not (text_eq m.id s.member_id)
    then action_btn make_owner m.id (codes "Make owner") (0x2191 ∷ [])
      ∷ action_btn kick m.id (codes "Kick") (0x2715 ∷ [])
      ∷ []
    else []

-- What a row has after the name and the badge of the owner, in a session or without one.
abbrev pub session_part : Option Session → MemberInfo → List Element
session_part none m = []
session_part (some s) m = you_badge s m ++ controls s m

unfoldable pub member_row : Option Session → MemberInfo → Element
member_row session m = element (codes "li") [] [] [] (
    elements (
      leaf (codes "span") (codes "member-name") m.nick ∷ (owner_badge m ++ session_part session m)))

unfoldable pub member_rows : Option Session → List MemberInfo → Elements
member_rows session [] = nil
member_rows session (m ∷ ms) = cons (member_row session m) (member_rows session ms)

pub record MemberPanel : Type 0 where
  pub member_count : Text
  pub member_list : Elements

-- The members are kept in the session as well, for the dialog of an owner that leaves.
unfoldable pub render_members : List MemberInfo → Client → MemberPanel × Client
unfolding member_rows
render_members members cl = (
  record {
    member_count = decimal (length members) [];
    member_list = member_rows cl.session members;
  },
  update (λ s. record s { last_members = members }) cl,
)

-- What a button of the list asks for; the answer is the user's to `confirm`.
abbrev pub request : Bool → Option Text → Option Text → Option ClientMsg
request confirmed (some action) (some id) =
    if text_eq action make_owner
    then if confirmed then some (ClientMsg.transfer id) else none
    else if text_eq action kick
    then some (ClientMsg.kick id)
    else none
request confirmed _ _ = none

unfoldable pub request_of : Bool → Element → Option ClientMsg
request_of confirmed (element tag cls attributes text children) =
    request confirmed (lookup (codes "data-action") attributes)
      (lookup (codes "data-id") attributes)

module _ (o : Outside) where
  abbrev pub asks : Option ClientMsg → Client → Client
  asks none cl = cl
  asks (some m) cl = on_member_action o m cl

  -- The list's listener, at a click on a button.
  unfoldable pub on_member_click : Bool → Element → Client → Client
  unfolding request_of
  on_member_click confirmed btn cl = asks (request_of confirmed btn) cl
