-- ===== src/Page/Attachments/Safety.antt =====
-- What a teardown leaves of the attachment and the object URLs of web/src/main.ts.
use e2eanon.Prelude.{
  List, All, member, true, ℕ, ◌≤◌, ltb, ◌≡◌, refl, ap, sym, subst, ◌∙◌, [], ◌∷◌, ◌++◌, append-nil,
  Bool, false, Option, none, some, Text, lookup, erase, length, arith, Bool-cases, Option-cases,
  inl, inr,
}
use e2eanon.Crypto.Base64url.{Bytes}
use e2eanon.Crypto.Primitives.{Primitives}
use e2eanon.Client.State.{Session, Client}
use e2eanon.Client.Membership.{send}
use e2eanon.Client.Membership.Frames.{send-Frames}
use e2eanon.Protocol.{file_end}
use e2eanon.Client.Membership.Sending.{update_at}
use e2eanon.Client.Connecting.{finish_connect}
use e2eanon.Client.Transfer.{end_transfer, finish_incoming}
use e2eanon.Client.Upload.{File, finish_upload, finish_own}
use e2eanon.Page.Attachments.{
  Tab, max_file_bytes, urls_of, clear_staged, teardown_tab, take_staged, stage, show_blob,
  on_file_selected, finish_incoming_tab, finish_upload_tab, render_staged, track_url,
}
use e2eanon.Page.Attachments.Steps.{
  Step, Reach, selected, removed, submitted, received, uploaded, torn_down, connected, other, start,
  next,
}
use e2eanon.Page.Attachments.Held.{
  AreIn, staged_url, is_none, IsSmall, IsHeld, IsHeld-client, clear_staged-IsCleared,
  IsCleared-IsHeld, teardown_tab-IsCleared, AreIn-more, AreIn-lost,
}

module _ (object_url : ℕ → Text) where
  show_blob-IsHeld :
      {lost : List Text} (s : Session) (tab : Tab)
      → tab.client.session ≡ some s
      → IsHeld lost tab
      → IsHeld lost (show_blob object_url tab)
  unfolding show_blob track_url
  show_blob-IsHeld {lost} s tab e h =
      let url = object_url tab.created in
      let f = λ (x : Session). record x { object_urls = x.object_urls ++ url ∷ [] } in
      let at = update_at f s tab.client e in
      record {
        held =
            subst
              (λ (c : Client).
                AreIn lost (urls_of c.session ++ staged_url tab.staged) (tab.live ++ url ∷ []))
              (sym at)
              (AreIn-more lost s.object_urls (staged_url tab.staged) url tab.live
                (subst (λ o. AreIn lost (urls_of o ++ staged_url tab.staged) tab.live) e h.held));
        small = h.small;
        hidden = h.hidden;
      }

  stage-IsHeld :
      {lost : List Text} (file : File) (tab : Tab)
      → length file.content ≤ max_file_bytes
      → AreIn lost (urls_of tab.client.session) tab.live
      → IsHeld lost (stage object_url file tab)
  unfolding stage render_staged
  stage-IsHeld {lost} file tab few h =
      let url = object_url tab.created in
      let us = urls_of tab.client.session in
      record {
        held =
            subst (λ xs. AreIn lost xs (tab.live ++ url ∷ [])) (append-nil (us ++ url ∷ []))
              (AreIn-more lost us [] url tab.live
                (subst (λ xs. AreIn lost xs tab.live) (sym (append-nil us)) h));
        small = few;
        hidden = refl;
      }

  on_file_selected-IsHeld :
      {lost : List Text} (choice : Option File) (tab : Tab)
      → IsHeld lost tab
      → IsHeld lost (on_file_selected object_url choice tab)
  unfolding on_file_selected
  on_file_selected-IsHeld none tab h = h
  on_file_selected-IsHeld (some file) tab h =
      elim (Bool-cases (ltb max_file_bytes (length file.content))) [
        | inl large ↦ rw large (record { held = h.held; small = h.small; hidden = h.hidden })
        | inr small ↦ rw small (
            stage-IsHeld file (clear_staged tab) (small_enough (length file.content) small)
              (clear_staged-IsCleared tab h.held).0.held)
      ]
    where
      small_enough : (n : ℕ) → ltb max_file_bytes n ≡ false → n ≤ max_file_bytes
      small_enough n e = ground arith

  finish_incoming-urls_of :
      (transfer : Text) (cl : Client)
      → urls_of (finish_incoming transfer cl).session ≡ urls_of cl.session
  unfolding finish_incoming
  finish_incoming-urls_of transfer cl = elim (Option-cases cl.session) [
    | inl e ↦ ground arith
    | inr (s, e) ↦ elim (Option-cases (lookup transfer s.incoming)) [
      | inl gone ↦ ground arith
      | inr (inc, found) ↦ ground arith
    ]
  ]

  finish_incoming-session :
      (transfer : Text) (s : Session) (cl : Client)
      → cl.session ≡ some s
      → (s' : Session) × ((finish_incoming transfer cl).session ≡ some s')
  unfolding finish_incoming
  finish_incoming-session transfer s cl e = elim (Option-cases (lookup transfer s.incoming)) [
    | inl gone ↦ (s, ground arith)
    | inr (inc, found) ↦ (end_transfer transfer s, ground arith)
  ]

  finish_incoming_tab-IsHeld :
      {lost : List Text} (transfer : Text) (tab : Tab)
      → IsHeld lost tab
      → IsHeld lost (finish_incoming_tab object_url transfer tab)
  unfolding finish_incoming_tab
  finish_incoming_tab-IsHeld transfer tab h = elim (Option-cases tab.client.session) [
    | inl e ↦
        let same : finish_incoming_tab object_url transfer tab ≡ tab = ground arith in rw same h
    | inr (s, e) ↦ elim (Option-cases (lookup transfer s.incoming)) [
      | inl gone ↦
          let same : finish_incoming_tab object_url transfer tab ≡ tab = ground arith in rw same h
      | inr (inc, found) ↦
          let (s', e') = finish_incoming-session transfer s tab.client e in
          let cl' = finish_incoming transfer tab.client in
          let same : finish_incoming_tab object_url transfer tab
              ≡ show_blob object_url (record tab { client = cl' }) =
            ground arith in
          rw same (
            show_blob-IsHeld s' (record tab { client = cl' }) e'
              (IsHeld-client tab cl' (finish_incoming-urls_of transfer tab.client) h))
    ]
  ]

  take_staged-IsHeld :
      {lost : List Text} (tab : Tab) → IsHeld lost tab → IsHeld lost (take_staged tab).1
  unfolding take_staged
  take_staged-IsHeld tab h = elim (Option-cases tab.staged) [
    | inl e ↦ let same : (take_staged tab).1 ≡ tab = ground arith in rw same h
    | inr (st, e) ↦
        let same : (take_staged tab).1 ≡ clear_staged tab = ground arith in
        rw same (IsCleared-IsHeld (clear_staged tab) (clear_staged-IsCleared tab h.held).0)
  ]

  module _ (p : Primitives) (random : ℕ → ℕ → Bytes) where
    finish_upload-session :
        (transfer : Text) (file : File) (s : Session) (cl : Client)
        → cl.session ≡ some s
        → (s' : Session) × ((finish_upload p random transfer file cl).session ≡ some s')
          × (s'.object_urls ≡ s.object_urls)
    unfolding finish_upload finish_own
    finish_upload-session transfer file s cl e =
        let sent = send (file_end transfer) cl in
        let e' : sent.session ≡ some s = (send-Frames (file_end transfer) cl).0 ∙ e in
        let f = λ (x : Session). record x { file_msgs = erase transfer x.file_msgs } in
        (f s, ap (λ (c : Client). c.session) (update_at f s sent e'), refl)

    Step-IsHeld :
        {lost new : List Text} {tab tab' : Tab}
        → IsHeld lost tab
        → Step p random object_url tab new tab'
        → IsHeld (new ++ lost) tab'
    unfolding finish_upload_tab finish_connect
    Step-IsHeld {tab = tab} h (selected choice) = on_file_selected-IsHeld choice tab h
    Step-IsHeld {tab = tab} h removed = IsCleared-IsHeld _ (clear_staged-IsCleared tab h.held).0
    Step-IsHeld {tab = tab} h submitted = take_staged-IsHeld tab h
    Step-IsHeld {tab = tab} h (received transfer) = finish_incoming_tab-IsHeld transfer tab h
    Step-IsHeld {tab = tab} h (uploaded transfer file s e) =
        let (s', e', same) = finish_upload-session transfer file s tab.client e in
        let cl' = finish_upload p random transfer file tab.client in
        show_blob-IsHeld s' (record tab { client = cl' }) e'
          (IsHeld-client tab cl' (ap urls_of e' ∙ same ∙ sym (ap urls_of e)) h)
    Step-IsHeld {tab = tab} h (torn_down to_lobby) =
        IsCleared-IsHeld _ (teardown_tab-IsCleared to_lobby tab h).0
    Step-IsHeld {lost} {tab = tab} h connected = record {
      held = AreIn-lost lost (urls_of tab.client.session) (staged_url tab.staged) tab.live h.held;
      small = h.small;
      hidden = h.hidden;
    }
    Step-IsHeld {tab = tab} h (other cl e) = IsHeld-client tab cl e h

    Reach-IsHeld :
        {lost : List Text} {tab : Tab} → Reach p random object_url lost tab → IsHeld lost tab
    Reach-IsHeld (start cl e) = record { held = tt; small = tt; hidden = refl }
    Reach-IsHeld (next r step) = Step-IsHeld (Reach-IsHeld r) step

    -- However the page has got from its start to where it stands, a staged attachment has at most ten
    -- mebibytes and its preview shows exactly while there is one; and when the session is torn down,
    -- the attachment is gone, and of the object URLs that the page ever created only those may be live
    -- that belonged to a session which `connect` has overwritten without a teardown.
    pub teardown_tab-Reach :
        (to_lobby : Bool) (lost : List Text) (tab : Tab)
        → Reach p random object_url lost tab
        → IsSmall tab.staged
          × (tab.preview_hidden ≡ is_none tab.staged)
          × ((teardown_tab to_lobby tab).staged ≡ none)
          × All (λ url. member url lost ≡ true) (teardown_tab to_lobby tab).live
    teardown_tab-Reach to_lobby lost tab r =
        let h = Reach-IsHeld r in
        let (cleared, dead) = teardown_tab-IsCleared to_lobby tab h in
        (h.small, h.hidden, cleared.unstaged, dead)
