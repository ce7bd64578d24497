-- ===== src/Page/Members/Buttons.antt =====
-- Which buttons `renderMembers` of web/src/main.ts puts into the list, and what they ask for.
use e2eanon.Prelude.{
  ◌≡◌, refl, ap, ap₂, sym, ◌∙◌, List, [], ◌∷◌, ◌++◌, append_assoc, map, map-append, Bool, ◌&&◌,
  Option, none, some, Text, text_eq, if◌then◌else◌, Bool-cases, inl, inr,
}
use e2eanon.Crypto.Envelope.{codes}
use e2eanon.Protocol.{MemberInfo, ClientMsg}
use e2eanon.Client.State.{Session, Client}
use e2eanon.Client.Membership.{is_owner}
use e2eanon.Page.Element.{Element, element, Elements, nil, cons, elements}
use e2eanon.Page.Members.{
  owner_badge, you_badge, controls, member_row, member_rows, render_members, request_of,
}

abbrev is_button : Text → Text → Bool
is_button tag cls = text_eq tag (codes "button") && text_eq cls (codes "member-action")

-- The buttons among these elements and inside them, in order.
unfoldable mutual
  pub buttons_in : Elements → List Element
  buttons_in nil = []
  buttons_in (cons e es) = buttons_of e ++ buttons_in es

  pub buttons_of : Element → List Element
  buttons_of (element tag cls attributes text children) =
      if is_button tag cls
      then element tag cls attributes text children ∷ []
      else buttons_in children

-- What the buttons beside the other members ask for.
abbrev pub offers : Bool → Text → List MemberInfo → List (Option ClientMsg)
offers confirmed self [] = []
offers confirmed self (m ∷ ms) =
    let rest = offers confirmed self ms in
    if text_eq m.id self
    then rest
    else (if confirmed then some (ClientMsg.transfer m.id) else none)
      ∷ some (ClientMsg.kick m.id)
      ∷ rest

abbrev asked : Bool → List Element → List (Option ClientMsg)
asked confirmed es = map (request_of confirmed) es

buttons_in-elements :
    (xs ys : List Element)
    → buttons_in (elements (xs ++ ys)) ≡ buttons_in (elements xs) ++ buttons_in (elements ys)
unfolding buttons_in
buttons_in-elements [] ys = refl
buttons_in-elements (x ∷ xs) ys =
    ap (λ bs. buttons_of x ++ bs) (buttons_in-elements xs ys)
    ∙ sym (append_assoc (buttons_of x) (buttons_in (elements xs)) (buttons_in (elements ys)))

module _ (confirmed : Bool) (s : Session) where
  no_buttons : (m : MemberInfo) → buttons_in (elements (owner_badge m)) ≡ []
  unfolding buttons_in text_eq
  no_buttons m = elim (Bool-cases (is_owner m.role)) [
    | inl owns ↦ rw owns refl
    | inr other ↦ rw other refl
  ]

  no_buttons_you : (m : MemberInfo) → buttons_in (elements (you_badge s m)) ≡ []
  unfolding buttons_in text_eq
  no_buttons_you m = elim (Bool-cases (text_eq m.id s.member_id)) [
    | inl self ↦ rw self refl
    | inr other ↦ rw other refl
  ]

  -- What the controls of one member ask for.
  asked-controls :
      (m : MemberInfo)
      → asked confirmed (buttons_in (elements (controls s m)))
        ≡ (if is_owner s.role then offers confirmed s.member_id (m ∷ []) else [])
  unfolding buttons_in request_of text_eq
  asked-controls m = elim (Bool-cases (is_owner s.role)) [
    | inl owns ↦ rw owns (elim (Bool-cases (text_eq m.id s.member_id)) [
      | inl self ↦ rw self refl
      | inr other ↦ rw other refl
    ])
    | inr plain ↦ rw plain refl
  ]

  asked-member_row :
      (m : MemberInfo)
      → asked confirmed (buttons_of (member_row (some s) m))
        ≡ (if is_owner s.role then offers confirmed s.member_id (m ∷ []) else [])
  unfolding buttons_in member_row text_eq
  asked-member_row m =
      ap (asked confirmed) (
        buttons_in-elements (owner_badge m) (you_badge s m ++ controls s m)
        ∙ ap₂ (λ x y. x ++ y) (no_buttons m)
            (buttons_in-elements (you_badge s m) (controls s m)
              ∙ ap (λ x. x ++ buttons_in (elements (controls s m))) (no_buttons_you m)))
      ∙ asked-controls m

  offers-cons :
      (m : MemberInfo) (ms : List MemberInfo)
      → offers confirmed s.member_id (m ∷ []) ++ offers confirmed s.member_id ms
        ≡ offers confirmed s.member_id (m ∷ ms)
  offers-cons m ms = elim (Bool-cases (text_eq m.id s.member_id)) [
    | inl self ↦ rw self refl
    | inr other ↦ rw other refl
  ]

  asked-member_rows :
      (members : List MemberInfo)
      → asked confirmed (buttons_in (member_rows (some s) members))
        ≡ (if is_owner s.role then offers confirmed s.member_id members else [])
  unfolding buttons_in member_rows
  asked-member_rows [] = elim (Bool-cases (is_owner s.role)) [
    | inl owns ↦ rw owns refl
    | inr plain ↦ rw plain refl
  ]
  asked-member_rows (m ∷ ms) =
      let rows = buttons_in (member_rows (some s) ms) in
      map-append (request_of confirmed) (buttons_of (member_row (some s) m)) rows
      ∙ ap₂ (λ x y. x ++ y) (asked-member_row m) (asked-member_rows ms)
      ∙ joined m ms
    where
      joined :
          (m : MemberInfo) (ms : List MemberInfo)
          → (if is_owner s.role then offers confirmed s.member_id (m ∷ []) else [])
              ++ (if is_owner s.role then offers confirmed s.member_id ms else [])
            ≡ (if is_owner s.role then offers confirmed s.member_id (m ∷ ms) else [])
      joined m ms = elim (Bool-cases (is_owner s.role)) [
        | inl owns ↦ rw owns (offers-cons m ms)
        | inr plain ↦ rw plain refl
      ]

-- In a session the list has buttons at the owner's client only: for each member but itself, in order,
-- one that asks the relay to make that member the owner, or for nothing where the user does not
-- confirm, and one that asks it to remove that member.
pub request_of-render_members :
    (confirmed : Bool) (members : List MemberInfo) (s : Session) (cl : Client)
    → cl.session ≡ some s
    → map (request_of confirmed) (buttons_in (render_members members cl).0.member_list)
      ≡ (if is_owner s.role then offers confirmed s.member_id members else [])
unfolding render_members
request_of-render_members confirmed members s cl e =
    ap (λ o. map (request_of confirmed) (buttons_in (member_rows o members))) e
    ∙ asked-member_rows confirmed s members
