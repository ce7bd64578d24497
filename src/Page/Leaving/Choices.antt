-- ===== src/Page/Leaving/Choices.antt =====
-- What each button of the dialog of `onLeaveClicked` in web/src/main.ts does.
use e2eanon.Prelude.{
  ℕ, zero, suc, ◌≡◌, refl, sym, subst, ap, ◌∙◌, List, [], ◌∷◌, ◌++◌, append_assoc, map, true, false,
  Option, none, some, Text, text_eq, get_elem?, arith, Bool-cases, inl, inr,
}
use mathlib.Core.Option.{some-injective}
use e2eanon.Protocol.{MemberInfo, ClientMsg, leave}
use e2eanon.Client.State.{opened, Session, Client}
use e2eanon.Client.Membership.{is_owner, or_empty, send}
use e2eanon.Client.Membership.Frames.{send-Frames}
use e2eanon.Client.Lifecycle.{teardown}
use e2eanon.Client.Connecting.{do_leave, transfer_and_leave}
use e2eanon.Client.Upload.Sent.{send_up}
use e2eanon.Page.Leaving.{
  ModalView, open_modal, on_modal_click, others_of, leave_modal, on_leave_clicked, selected_value,
}

-- What is left when the session is over: nothing but `leave` went out.
do_leave_lem :
    (s : Session) (cl : Client)
    → cl.session ≡ some s
    → s.ws ≡ opened
    → ((do_leave cl).sent ≡ cl.sent ++ leave ∷ []) × ((do_leave cl).session ≡ none)
unfolding do_leave teardown
do_leave_lem s cl e up = (
  send_up leave (record cl { intentional_close = true }) (record { now = s; has = e; up = up }),
  refl,
)

transfer_and_leave_lem :
    (c : ℕ) (cs : Text) (s : Session) (cl : Client)
    → cl.session ≡ some s
    → s.ws ≡ opened
    → ((transfer_and_leave (c ∷ cs) cl).sent ≡ cl.sent ++ ClientMsg.transfer (c ∷ cs) ∷ leave ∷ [])
      × ((transfer_and_leave (c ∷ cs) cl).session ≡ none)
unfolding transfer_and_leave
transfer_and_leave_lem c cs s cl e up =
    let m : ClientMsg = ClientMsg.transfer (c ∷ cs) in
    let (out, over) = do_leave_lem s (send m cl) ((send-Frames m cl).0 ∙ e) up in
    (
      out
          ∙ ap (λ ms. ms ++ leave ∷ []) (send_up m cl (record { now = s; has = e; up = up }))
          ∙ append_assoc cl.sent (m ∷ []) (leave ∷ []),
      over,
    )

others_of-other :
    (self : Text) (members : List MemberInfo) (i : ℕ) (m : MemberInfo)
    → get_elem? (others_of self members) i ≡ some m
    → text_eq m.id self ≡ false
unfolding others_of
others_of-other self [] i m h = cc
others_of-other self (n ∷ ms) zero m h = elim (Bool-cases (text_eq n.id self)) [
  | inl same ↦
      let later : get_elem? (others_of self ms) 0 ≡ some m = ground arith in
      others_of-other self ms 0 m later
  | inr differs ↦
      let here : some n ≡ some m = ground arith in
      subst (λ (x : MemberInfo). text_eq x.id self ≡ false) (some-injective n m here) differs
]
others_of-other self (n ∷ ms) (suc i) m h = elim (Bool-cases (text_eq n.id self)) [
  | inl same ↦
      let later : get_elem? (others_of self ms) (suc i) ≡ some m = ground arith in
      others_of-other self ms (suc i) m later
  | inr differs ↦
      let later : get_elem? (others_of self ms) i ≡ some m = ground arith in
      others_of-other self ms i m later
]

get_elem?-map :
    (f : MemberInfo → Text) (xs : List MemberInfo) (i : ℕ) (a : MemberInfo)
    → get_elem? xs i ≡ some a
    → get_elem? (map f xs) i ≡ some (f a)
get_elem?-map f [] i a h = cc
get_elem?-map f (x ∷ xs) zero a h = cc
get_elem?-map f (x ∷ xs) (suc i) a h = get_elem?-map f xs i a h

opens_dialog :
    (s : Session) (v : ModalView) (cl : Client)
    → cl.session ≡ some s
    → is_owner s.role ≡ true
    → on_leave_clicked (cl, v) ≡ (cl, leave_modal (others_of s.member_id s.last_members))
unfolding on_leave_clicked
opens_dialog s v cl e owns = ground arith

leave_modal-hidden : (others : List MemberInfo) → (leave_modal others).hidden ≡ false
unfolding open_modal
leave_modal-hidden [] = refl
leave_modal-hidden (m ∷ ms) = refl

-- What went out, and the session, after each button of a dialog.
abbrev pub outcomes : ℕ → Client × ModalView → List (List ClientMsg × Option Session)
outcomes i (cl, v) =
    map (λ b. ((on_modal_click i b (cl, v)).0.sent, (on_modal_click i b (cl, v)).0.session))
      v.actions

outcomes-leave_modal :
    (i c : ℕ) (cs : Text) (m : MemberInfo) (s : Session) (others : List MemberInfo) (cl : Client)
    → cl.session ≡ some s
    → s.ws ≡ opened
    → get_elem? others i ≡ some m
    → m.id ≡ c ∷ cs
    → outcomes i (cl, leave_modal others)
      ≡ (cl.sent ++ ClientMsg.transfer m.id ∷ leave ∷ [], none)
        ∷ (cl.sent ++ leave ∷ [], none)
        ∷ (cl.sent, some s)
        ∷ []
unfolding on_modal_click open_modal
outcomes-leave_modal i c cs m s [] cl e up at named = cc
outcomes-leave_modal i c cs m s (n ∷ ns) cl e up at named =
    let ids = map (λ (x : MemberInfo). x.id) (n ∷ ns) in
    let chosen : selected_value ids i ≡ c ∷ cs =
      ap or_empty (get_elem?-map (λ (x : MemberInfo). x.id) (n ∷ ns) i m at) ∙ named in
    let (sent, over) = transfer_and_leave_lem c cs s cl e up in
    let (sent', over') = do_leave_lem s cl e up in
    let first : (transfer_and_leave (selected_value ids i) cl).sent
        ≡ cl.sent ++ ClientMsg.transfer m.id ∷ leave ∷ [] =
      ap (λ t. (transfer_and_leave t cl).sent) chosen
      ∙ sent
      ∙ ap (λ t. cl.sent ++ ClientMsg.transfer t ∷ leave ∷ []) (sym named) in
    let ended = ap (λ t. (transfer_and_leave t cl).session) chosen ∙ over in
    rw (first, ended, sent', over', e) refl

-- An owner with other members, in a session with an open socket, clicks on the button that leaves the
-- room. Nothing is sent and the session goes on; a dialog opens. Whichever member is selected in it,
-- it is another one than the owner itself, and the three buttons do this: the first hands the room to
-- that member and then leaves, the second leaves at once, the third changes nothing. The member's id is
-- not empty.
pub on_modal_click-on_leave_clicked :
    (i c : ℕ) (cs : Text) (m : MemberInfo) (s : Session) (v : ModalView) (cl : Client)
    → cl.session ≡ some s
    → s.ws ≡ opened
    → is_owner s.role ≡ true
    → get_elem? (others_of s.member_id s.last_members) i ≡ some m
    → m.id ≡ c ∷ cs
    → ((on_leave_clicked (cl, v)).0 ≡ cl)
      × ((on_leave_clicked (cl, v)).1.hidden ≡ false)
      × (text_eq m.id s.member_id ≡ false)
      × (outcomes i (on_leave_clicked (cl, v))
          ≡ (cl.sent ++ ClientMsg.transfer m.id ∷ leave ∷ [], none)
            ∷ (cl.sent ++ leave ∷ [], none)
            ∷ (cl.sent, some s)
            ∷ [])
on_modal_click-on_leave_clicked i c cs m s v cl e up owns at named =
    let others = others_of s.member_id s.last_members in
    let dialog = opens_dialog s v cl e owns in
    (
      ap (λ (x : Client × ModalView). x.0) dialog,
      ap (λ (x : Client × ModalView). x.1.hidden) dialog ∙ leave_modal-hidden others,
      others_of-other s.member_id s.last_members i m at,
      ap (outcomes i) dialog ∙ outcomes-leave_modal i c cs m s others cl e up at named,
    )
