-- ===== src/Page/Attachments/Held.antt =====
-- Who holds the object URLs of web/src/main.ts that are live: the session, the staged attachment, or
-- nobody any more, where the session has been overwritten.
use e2eanon.Prelude.{
  ◌≤◌, ◌≡◌, refl, ap, sym, subst, ◌∙◌, List, [], ◌∷◌, ◌++◌, append-nil, All, All-map, All-append,
  Bool, true, false, ◌||◌, Option, none, some, Text, text_eq, text_eq_iff, text_eq_refl, member,
  length, arith, Bool-cases, inl, inr,
}
use e2eanon.Client.State.{Client}
use e2eanon.Client.Membership.{discard}
use e2eanon.Client.Lifecycle.{teardown}
use e2eanon.Page.Attachments.{
  Tab, Staged, max_file_bytes, urls_of, revoke_urls, revoke_staged, clear_staged, teardown_tab,
}

-- Each of these URLs is held, or lost.
abbrev pub AreIn : List Text → List Text → List Text → Type 0
AreIn lost held urls = All (λ u. member u (held ++ lost) ≡ true) urls

member-append : (u : Text) (xs ys : List Text) → member u (xs ++ ys) ≡ (member u xs || member u ys)
member-append u [] ys = refl
member-append u (x ∷ xs) ys = ground (arith, member-append u xs ys)

-- What is taken back is no longer live, and nothing else goes.
AreIn-discard :
    (lost : List Text) (url : Text) (held urls : List Text)
    → AreIn lost (url ∷ held) urls
    → AreIn lost held (discard url urls)
unfolding discard
AreIn-discard lost url held [] h = tt
AreIn-discard lost url held (u ∷ urls) (p, h) = elim (Bool-cases (text_eq u url)) [
  | inl same ↦ rw same (AreIn-discard lost url held urls h)
  | inr differs ↦
      rw differs
        (ground (arith, text_eq_iff u url, text_eq_iff url u), AreIn-discard lost url held urls h)
]

AreIn-revoke_urls :
    (lost : List Text) (urls held : List Text) (tab : Tab)
    → AreIn lost (urls ++ held) tab.live
    → AreIn lost held (revoke_urls urls tab).live
unfolding revoke_urls
AreIn-revoke_urls lost [] held tab h = h
AreIn-revoke_urls lost (url ∷ urls) held tab h =
    AreIn-revoke_urls lost urls held (record tab { live = discard url tab.live })
      (AreIn-discard lost url (urls ++ held) tab.live h)

-- Revoking changes nothing else.
revoke_urls_lem :
    (urls : List Text) (tab : Tab)
    → revoke_urls urls tab ≡ record tab { live = (revoke_urls urls tab).live }
unfolding revoke_urls
revoke_urls_lem [] tab = refl
revoke_urls_lem (url ∷ urls) tab = revoke_urls_lem urls (record tab { live = discard url tab.live })

abbrev pub staged_url : Option Staged → List Text
staged_url none = []
staged_url (some st) = st.url ∷ []

abbrev pub IsSmall : Option Staged → Type 0
IsSmall none = Unit
IsSmall (some st) = length st.file.content ≤ max_file_bytes

abbrev pub is_none : Option Staged → Bool
is_none none = true
is_none (some st) = false

pub record IsHeld (lost : List Text) (tab : Tab) : Type 0 where
  pub held : AreIn lost (urls_of tab.client.session ++ staged_url tab.staged) tab.live
  pub small : IsSmall tab.staged
  pub hidden : tab.preview_hidden ≡ is_none tab.staged

-- A client with the same URLs in its session.
pub IsHeld-client :
    {lost : List Text} (tab : Tab) (cl : Client)
    → urls_of cl.session ≡ urls_of tab.client.session
    → IsHeld lost tab
    → IsHeld lost (record tab { client = cl })
IsHeld-client {lost} tab cl e h = record {
  held = subst (λ us. AreIn lost (us ++ staged_url tab.staged) tab.live) (sym e) h.held;
  small = h.small;
  hidden = h.hidden;
}

swap :
    (lost : List Text) (u : Text) (us : List Text) (url : Text)
    → member u ((us ++ url ∷ []) ++ lost) ≡ true
    → member u ((url ∷ us) ++ lost) ≡ true
swap lost u us url h = ground (
  arith,
  member-append u (us ++ url ∷ []) lost,
  member-append u us (url ∷ []),
  member-append u us lost,
)

AreIn-revoke_staged :
    (lost : List Text) (us : List Text) (st : Option Staged) (tab : Tab)
    → AreIn lost (us ++ staged_url st) tab.live
    → AreIn lost us (revoke_staged st tab).live
AreIn-revoke_staged lost us none tab h = subst (λ xs. AreIn lost xs tab.live) (append-nil us) h
AreIn-revoke_staged lost us (some st) tab h = AreIn-discard lost st.url us tab.live (
    All-map (λ u. member u ((us ++ st.url ∷ []) ++ lost) ≡ true) _ tab.live
      (λ u k. swap lost u us st.url k) h)

revoke_staged-client : (st : Option Staged) (tab : Tab) → (revoke_staged st tab).client ≡ tab.client
revoke_staged-client none tab = refl
revoke_staged-client (some st) tab = refl

revoke_staged-staged :
    (st : Option Staged) (tab : Tab) → tab.staged ≡ st → (revoke_staged st tab).staged ≡ none
revoke_staged-staged none tab e = e
revoke_staged-staged (some st) tab e = refl

-- Nothing is staged then, and what is live is the session's.
pub record IsCleared (lost : List Text) (tab : Tab) : Type 0 where
  pub unstaged : tab.staged ≡ none
  pub hidden : tab.preview_hidden ≡ true
  pub held : AreIn lost (urls_of tab.client.session) tab.live

pub clear_staged-IsCleared :
    {lost : List Text} (tab : Tab)
    → AreIn lost (urls_of tab.client.session ++ staged_url tab.staged) tab.live
    → IsCleared lost (clear_staged tab) × ((clear_staged tab).client ≡ tab.client)
unfolding clear_staged
clear_staged-IsCleared {lost} tab h =
    let us = urls_of tab.client.session in
    let same = revoke_staged-client tab.staged tab in
    (
      record {
        unstaged = revoke_staged-staged tab.staged tab refl;
        hidden = refl;
        held =
            subst
              (λ (c : Client). AreIn lost (urls_of c.session) (revoke_staged tab.staged tab).live)
              (sym same) (AreIn-revoke_staged lost us tab.staged tab h);
      },
      same,
    )

pub IsCleared-IsHeld : {lost : List Text} (tab : Tab) → IsCleared lost tab → IsHeld lost tab
IsCleared-IsHeld {lost} tab h = record {
  held =
      subst (λ st. AreIn lost (urls_of tab.client.session ++ staged_url st) tab.live)
        (sym h.unstaged)
        (subst (λ us. AreIn lost us tab.live) (sym (append-nil (urls_of tab.client.session)))
          h.held);
  small = subst IsSmall (sym h.unstaged) tt;
  hidden = h.hidden ∙ ap is_none (sym h.unstaged);
}

-- After a teardown no URL is live that was not lost before.
pub teardown_tab-IsCleared :
    {lost : List Text} (to_lobby : Bool) (tab : Tab)
    → IsHeld lost tab
    → IsCleared lost (teardown_tab to_lobby tab) × AreIn lost [] (teardown_tab to_lobby tab).live
unfolding teardown_tab teardown
teardown_tab-IsCleared {lost} to_lobby tab h =
    let us = urls_of tab.client.session in
    let tab1 = revoke_urls us tab in
    let same = revoke_urls_lem us tab in
    let tab2 = record tab1 { client = teardown to_lobby tab1.client } in
    let kept : AreIn lost (staged_url tab2.staged) tab2.live =
      subst (λ st. AreIn lost (staged_url st) tab1.live) (sym (ap (λ (t : Tab). t.staged) same))
        (AreIn-revoke_urls lost us (staged_url tab.staged) tab h.held) in
    let (cleared, client) = clear_staged-IsCleared tab2 kept in
    (
      cleared,
      subst (λ (c : Client). AreIn lost (urls_of c.session) (clear_staged tab2).live) client
          cleared.held,
    )

-- More URLs in the session, and one more that is live.
pub AreIn-more :
    (lost : List Text) (us st : List Text) (url : Text) (live : List Text)
    → AreIn lost (us ++ st) live
    → AreIn lost ((us ++ url ∷ []) ++ st) (live ++ url ∷ [])
AreIn-more lost us st url live h =
    All-append _ live (url ∷ [])
      (All-map (λ u. member u ((us ++ st) ++ lost) ≡ true) _ live
        (λ u k. ground (
          arith,
          member-append u (us ++ st) lost,
          member-append u ((us ++ url ∷ []) ++ st) lost,
          member-append u us st,
          member-append u (us ++ url ∷ []) st,
          member-append u us (url ∷ []),
        ))
        h)
      (
        ground (
          arith,
          member-append url ((us ++ url ∷ []) ++ st) lost,
          member-append url (us ++ url ∷ []) st,
          member-append url us (url ∷ []),
          text_eq_refl url,
        ),
        tt,
      )

-- The session is overwritten, and its URLs are lost.
pub AreIn-lost :
    (lost : List Text) (us st live : List Text)
    → AreIn lost (us ++ st) live
    → AreIn (us ++ lost) st live
AreIn-lost lost us st live h =
    All-map (λ u. member u ((us ++ st) ++ lost) ≡ true) _ live
      (λ u k. ground (
        arith,
        member-append u (us ++ st) lost,
        member-append u us st,
        member-append u st (us ++ lost),
        member-append u us lost,
      ))
      h
