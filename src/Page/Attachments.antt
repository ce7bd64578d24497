-- ===== src/Page/Attachments.antt =====
-- The staged attachment and the object URLs of web/src/main.ts: `onFileSelected`, `renderStaged`,
-- `clearStaged`, `trackUrl`, and where other functions create and revoke URLs.
pub mod Steps
pub mod Held
pub mod Safety
use e2eanon.Prelude.{
  ℕ, suc, ◌+◌, ◌*◌, ltb, List, [], ◌∷◌, ◌++◌, Bool, true, false, Option, none, some, Text, lookup,
  length, if◌then◌else◌,
}
use e2eanon.Crypto.Base64url.{Bytes}
use e2eanon.Crypto.Primitives.{Primitives}
use e2eanon.Crypto.Envelope.{codes}
use e2eanon.Client.State.{Session, Client}
use e2eanon.Client.Membership.{update, discard}
use e2eanon.Client.Lifecycle.{teardown}
use e2eanon.Client.Transfer.{finish_incoming}
use e2eanon.Client.Upload.{File, finish_upload}
use e2eanon.Page.Element.{Element, element, Elements, nil, leaf, elements, starts_with}
use e2eanon.Page.Sizes.{format_bytes}

abbrev pub max_file_bytes : ℕ
max_file_bytes = 10 * 1024 * 1024

pub record Staged : Type 0 where
  pub file : File
  pub url : Text

-- The client with what the page keeps for it: the attachment, its preview, and the URLs that the
-- browser has handed out and not taken back.
pub record Tab : Type 0 where
  pub client : Client
  pub staged : Option Staged
  pub preview : Elements
  pub preview_hidden : Bool
  pub live : List Text
  pub created : ℕ

abbrev pub is_image : Text → Bool
is_image type = starts_with (codes "image/") type

abbrev pub too_large : Text → Text
too_large name =
    codes "\""
    ++ (name ++ (codes "\" is too large (max " ++ (format_bytes max_file_bytes ++ codes ").")))

abbrev pub set_notice : Text → Client → Client
set_notice t cl = record cl { view = record cl.view { room_notice = t } }

abbrev preview_image : Staged → List Element
preview_image st =
    if is_image st.file.type
    then element (codes "img") []
        ((codes "src", st.url) ∷ (codes "alt", codes "attachment preview") ∷ []) [] nil
      ∷ []
    else []

abbrev staged_size : ℕ → Text
staged_size n = format_bytes n ++ (codes " " ++ 0xb7 ∷ codes " staged (not sent yet)")

abbrev remove_button : Element
remove_button =
    element (codes "button") (codes "remove")
      ((codes "type", codes "button") ∷ (codes "aria-label", codes "Remove attachment") ∷ [])
      (0x2715 ∷ []) nil

-- The preview of an attachment: an image, where it is one, its name and size, and the button that
-- removes it.
unfoldable pub staged_elements : Staged → Elements
staged_elements st = elements (
    preview_image st
    ++ element (codes "div") (codes "meta") [] [] (
        elements (
          leaf (codes "span") (codes "name") st.file.name
          ∷ leaf (codes "span") (codes "size") (staged_size (length st.file.content))
          ∷ []))
      ∷ remove_button
      ∷ [])

unfoldable pub render_staged : Tab → Tab
render_staged tab = elim tab.staged [
  | none ↦ tab
  | some st ↦ record tab { preview = staged_elements st; preview_hidden = false }
]

-- `URL.revokeObjectURL`.
abbrev pub revoke_url : Text → Tab → Tab
revoke_url url tab = record tab { live = discard url tab.live }

abbrev pub revoke_staged : Option Staged → Tab → Tab
revoke_staged none tab = tab
revoke_staged (some st) tab = record (revoke_url st.url tab) { staged = none }

unfoldable pub clear_staged : Tab → Tab
clear_staged tab = record (revoke_staged tab.staged tab) { preview = nil; preview_hidden = true }

-- `for (const u of urls) URL.revokeObjectURL(u)`.
unfoldable pub revoke_urls : List Text → Tab → Tab
revoke_urls [] tab = tab
revoke_urls (url ∷ urls) tab = revoke_urls urls (revoke_url url tab)

abbrev pub urls_of : Option Session → List Text
urls_of none = []
urls_of (some s) = s.object_urls

-- `teardown` with what it does on the page.
unfoldable pub teardown_tab : Bool → Tab → Tab
unfolding clear_staged
teardown_tab return_to_lobby tab =
    let tab' = revoke_urls (urls_of tab.client.session) tab in
    clear_staged (record tab' { client = teardown return_to_lobby tab'.client })

-- The attachment is taken by the form that sends messages.
unfoldable pub take_staged : Tab → Option File × Tab
unfolding clear_staged
take_staged tab = elim tab.staged [
  | none ↦ (none, tab)
  | some st ↦ (some st.file, clear_staged tab)
]

unfoldable pub track_url : Text → Tab → Tab
track_url url tab = record tab {
  client = update (λ s. record s { object_urls = s.object_urls ++ url ∷ [] }) tab.client;
}

-- The URL of the n-th call of `URL.createObjectURL` is an argument.
module _ (object_url : ℕ → Text) where
  abbrev pub create_url : Tab → Text × Tab
  create_url tab =
      let url = object_url tab.created in
      (url, record tab { live = tab.live ++ url ∷ []; created = suc tab.created })

  -- `staged = { file: f, url: URL.createObjectURL(f) }` and the preview of it.
  unfoldable pub stage : File → Tab → Tab
  unfolding render_staged
  stage file tab =
      let (url, tab') = create_url tab in
      render_staged (record tab' { staged = some (record { file = file; url = url }) })

  unfoldable pub on_file_selected : Option File → Tab → Tab
  unfolding stage clear_staged
  on_file_selected none tab = tab
  on_file_selected (some file) tab =
      if ltb max_file_bytes (length file.content)
      then record tab { client = set_notice (too_large file.name) tab.client }
      else stage file (clear_staged tab)

  -- `trackUrl(URL.createObjectURL(blob))`.
  unfoldable pub show_blob : Tab → Tab
  unfolding track_url
  show_blob tab = let (url, tab') = create_url tab in track_url url tab'

  -- `finishIncoming` with the URL that it creates.
  unfoldable pub finish_incoming_tab : Text → Tab → Tab
  unfolding show_blob
  finish_incoming_tab transfer tab = elim tab.client.session [
    | none ↦ tab
    | some s ↦ elim (lookup transfer s.incoming) [
      | none ↦ tab
      | some inc ↦ show_blob (record tab { client = finish_incoming transfer tab.client })
    ]
  ]

  -- The end of `sendFile` with the URL that it creates.
  unfoldable pub finish_upload_tab : Primitives → (ℕ → ℕ → Bytes) → Text → File → Tab → Tab
  unfolding show_blob
  finish_upload_tab p random transfer file tab =
      show_blob (record tab { client = finish_upload p random transfer file tab.client })
