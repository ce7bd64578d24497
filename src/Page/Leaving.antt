-- ===== src/Page/Leaving.antt =====
-- The dialog of web/src/main.ts and what it asks an owner that leaves: `openModal`, `closeModal` and
-- `onLeaveClicked`.
pub mod Choices
use e2eanon.Prelude.{
  ℕ, List, [], ◌∷◌, map, Bool, true, false, not, Option, none, some, Text, text_eq, get_elem?,
  if◌then◌else◌,
}
use e2eanon.Crypto.Envelope.{codes}
use e2eanon.Protocol.{MemberInfo}
use e2eanon.Client.State.{Session, Client}
use e2eanon.Client.Membership.{is_owner, or_empty}
use e2eanon.Client.Connecting.{do_leave, transfer_and_leave}
use e2eanon.Page.Element.{Element, element, Elements, nil, leaf, elements}

-- What a button's `onClick` does: it leaves, or hands the room to the one of these members that the
-- list has selected, and leaves.
pub data Choice : Type 0 where
  leaves : Choice
  transfers : List Text → Choice

pub record ModalButton : Type 0 where
  pub label : Text
  pub cls : Text
  pub on_click : Option Choice

pub record ModalView : Type 0 where
  pub hidden : Bool
  pub title : Text
  pub body : Elements
  pub actions : List ModalButton

unfoldable pub open_modal : Text → Elements → List ModalButton → ModalView
open_modal title body buttons = record {
  hidden = false;
  title = title;
  body = body;
  actions = buttons;
}

unfoldable pub close_modal : ModalView → ModalView
close_modal v = record v { hidden = true; body = nil }

-- `sel.value`, where the i-th option is selected.
abbrev pub selected_value : List Text → ℕ → Text
selected_value ids i = or_empty (get_elem? ids i)

abbrev pub chosen : ℕ → Option Choice → Client → Client
chosen i none cl = cl
chosen i (some leaves) cl = do_leave cl
chosen i (some (transfers ids)) cl = transfer_and_leave (selected_value ids i) cl

-- The listener of a button of the dialog.
unfoldable pub on_modal_click : ℕ → ModalButton → Client × ModalView → Client × ModalView
unfolding close_modal
on_modal_click i b (cl, v) = (chosen i b.on_click cl, close_modal v)

unfoldable pub others_of : Text → List MemberInfo → List MemberInfo
others_of self [] = []
others_of self (m ∷ ms) =
    let rest = others_of self ms in if text_eq m.id self then rest else m ∷ rest

abbrev pub cancel : ModalButton
cancel = record { label = codes "Cancel"; cls = codes "ghost"; on_click = none }

abbrev pub leave_title : Text
leave_title = codes "Leave room?"

abbrev pub lone_body : Elements
lone_body =
    elements
      (leaf [] [] (codes "You're the owner and the only member. Leaving closes this room.") ∷ [])

abbrev pub lone_buttons : List ModalButton
lone_buttons =
    cancel
    ∷ record { label = codes "Close room & leave"; cls = codes "danger"; on_click = some leaves }
    ∷ []

abbrev pub transfer_advice : Text
transfer_advice =
    codes
      "You're the owner. Recommended: transfer ownership before leaving so the room stays open. Destroying it removes everyone."

abbrev pub member_option : MemberInfo → Element
member_option m = element (codes "option") [] ((codes "value", m.id) ∷ []) m.nick nil

unfoldable pub transfer_body : List MemberInfo → Elements
transfer_body others = elements (
    element (codes "div") [] [] [] (
      elements (
        leaf (codes "p") [] transfer_advice
        ∷ element (codes "label") [] [] (codes "Transfer ownership to:") (
            elements (element (codes "select") [] [] [] (elements (map member_option others)) ∷ []))
        ∷ []))
    ∷ [])

abbrev pub transfer_buttons : List MemberInfo → List ModalButton
transfer_buttons others =
    record {
      label = codes "Transfer & leave";
      cls = codes "primary";
      on_click = some (transfers (map (λ (m : MemberInfo). m.id) others));
    }
    ∷ record { label = codes "Destroy room & leave"; cls = codes "danger"; on_click = some leaves }
    ∷ cancel
    ∷ []

-- The dialog for an owner with these other members.
abbrev pub leave_modal : List MemberInfo → ModalView
leave_modal [] = open_modal leave_title lone_body lone_buttons
leave_modal (m ∷ ms) = open_modal leave_title (transfer_body (m ∷ ms)) (transfer_buttons (m ∷ ms))

unfoldable pub on_leave_clicked : Client × ModalView → Client × ModalView
unfolding others_of open_modal transfer_body
on_leave_clicked (cl, v) = elim cl.session [
  | none ↦ (cl, v)
  | some s ↦
      if not (is_owner s.role)
      then (do_leave cl, v)
      else (cl, leave_modal (others_of s.member_id s.last_members))
]
