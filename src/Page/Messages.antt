-- ===== src/Page/Messages.antt =====
-- The lines of the chat in web/src/main.ts: `addMessage`, `startFileMessage`, `setFileProgress`,
-- `finishFileMessage` and `failFileMessage`.
pub mod Settled
pub mod Linked
pub mod Cleared
pub mod Shown
use e2eanon.Prelude.{
  ℕ, ◌/◌, min, ltb, List, [], ◌∷◌, ◌++◌, Bool, true, false, Option, none, some, Text, lookup,
  insert, erase, length, get_elem?, set, if◌then◌else◌,
}
use e2eanon.Crypto.Envelope.{codes}
use e2eanon.Client.State.{FileMeta}
use e2eanon.Page.Element.{Element, element, Elements, nil, leaf, elements}
use e2eanon.Page.Sizes.{decimal, format_bytes}
use e2eanon.Page.Attachments.{is_image}

-- What a line shows after the name of its sender. A transfer that runs shows its bar, in percent.
pub data Content : Type 0 where
  chat : Text → Content
  running : FileMeta → Bool → ℕ → Content
  image : FileMeta → Text → Content
  link : FileMeta → Text → Content
  broken : FileMeta → Text → Content

pub record Line : Type 0 where
  pub mine : Bool
  pub who : Text
  pub content : Content

-- A handle names the line of its transfer.
pub record FileHandle : Type 0 where
  pub line : ℕ
  pub meta : FileMeta
  pub mine : Bool

-- The chat, and the handles by transfer, which a session has. A line that has been cleared away is
-- kept, since a handle may still lead to it; those from `first` on are on the page.
pub record Messages : Type 0 where
  pub lines : List Line
  pub first : ℕ
  pub file_msgs : Option (List (Text × FileHandle))

abbrev pub paperclip : Text → Text
paperclip t = 0xd83d ∷ 0xdcce ∷ codes " " ++ t

abbrev dash : Text → Text
dash t = codes " " ++ 0x2014 ∷ codes " " ++ t

abbrev pub progress_text : FileMeta → Bool → ℕ → Text
progress_text meta mine pct =
    paperclip meta.name
    ++ (codes " "
        ++ 0xb7 ∷ codes " "
        ++ (format_bytes meta.size
            ++ dash (
                (if mine then codes "uploading" else codes "receiving")
                ++ (codes " " ++ decimal pct (codes "%")))))

abbrev pub status_element : FileMeta → Bool → ℕ → Element
status_element meta mine pct = element (codes "div") (codes "file-status") [] [] (
    elements (
      leaf (codes "span") (codes "file-label") (progress_text meta mine pct)
      ∷ element (codes "div") (codes "file-bar") [] [] (
          elements (
            element (codes "i") [] ((codes "style.width", decimal pct (codes "%")) ∷ []) [] nil
            ∷ []))
      ∷ []))

abbrev pub image_element : FileMeta → Text → Element
image_element meta url =
    element (codes "img") (codes "msg-image") ((codes "src", url) ∷ (codes "alt", meta.name) ∷ [])
      [] nil

abbrev pub link_element : FileMeta → Text → Element
link_element meta url =
    element (codes "a") (codes "msg-file")
      ((codes "href", url) ∷ (codes "download", meta.name) ∷ [])
      (paperclip meta.name ++ (codes " (" ++ (format_bytes meta.size ++ codes ")"))) nil

abbrev pub failed_element : FileMeta → Text → Element
failed_element meta reason =
    leaf (codes "span") (codes "file-failed") (paperclip meta.name ++ dash reason)

abbrev pub content_element : Content → Element
content_element (chat body) = leaf (codes "span") (codes "text") body
content_element (running meta mine pct) = status_element meta mine pct
content_element (image meta url) = image_element meta url
content_element (link meta url) = link_element meta url
content_element (broken meta reason) = failed_element meta reason

abbrev pub line_element : Line → Element
line_element l =
    element (codes "li") (if l.mine then codes "msg-mine" else codes "msg-other") [] []
      (elements (leaf (codes "span") (codes "who") l.who ∷ content_element l.content ∷ []))

unfoldable pub add_line : Text → Text → Bool → Messages → Messages
add_line nick body mine ms = record ms {
  lines = ms.lines ++ record { mine = mine; who = nick; content = chat body } ∷ [];
}

-- `session?.fileMsgs.set(transfer, h)`.
abbrev pub keep_handle :
    Text → FileHandle → Option (List (Text × FileHandle)) → Option (List (Text × FileHandle))
keep_handle transfer h none = none
keep_handle transfer h (some handles) = some (insert transfer h handles)

-- A new line at the end, with an empty bar, and its handle.
unfoldable pub start_line : Text → Text → FileMeta → Bool → Messages → FileHandle × Messages
start_line transfer nick meta mine ms =
    let h : FileHandle = record { line = length ms.lines; meta = meta; mine = mine } in
    (
      h,
      record ms {
        lines = ms.lines ++ record { mine = mine; who = nick; content = running meta mine 0 } ∷ [];
        file_msgs = keep_handle transfer h ms.file_msgs;
      },
    )

abbrev pub set_content : ℕ → Content → List Line → Option Line → List Line
set_content i c lines none = lines
set_content i c lines (some l) = set lines i (record l { content = c })

-- The bar of a line that has none any more is not seen.
abbrev pub moved : ℕ → Content → Content
moved pct (running meta mine old) = running meta mine pct
moved pct c = c

abbrev pub move_bar : ℕ → ℕ → List Line → Option Line → List Line
move_bar i pct lines none = lines
move_bar i pct lines (some l) = set lines i (record l { content = moved pct l.content })

-- The rounded percentage, which is computed in floating point, is an argument.
unfoldable pub set_file_progress : FileHandle → ℕ → Messages → Messages
set_file_progress h rounded ms = record ms {
  lines = move_bar h.line (min 100 rounded) ms.lines (get_elem? ms.lines h.line);
}

-- Where the transfer has a handle: it is dropped, and the bar gives way to this.
abbrev pub settle_with :
    Text
    → (FileHandle → Content)
    → Messages
    → List (Text × FileHandle)
    → Option FileHandle
    → Messages
settle_with transfer f ms handles none = ms
settle_with transfer f ms handles (some h) = record ms {
  lines = set_content h.line (f h) ms.lines (get_elem? ms.lines h.line);
  file_msgs = some (erase transfer handles);
}

unfoldable pub settle_line : Text → (FileHandle → Content) → Messages → Messages
settle_line transfer f ms = elim ms.file_msgs [
  | none ↦ ms
  | some handles ↦ settle_with transfer f ms handles (lookup transfer handles)
]

abbrev pub shown_file : Text → FileHandle → Content
shown_file url h = if is_image h.meta.type then image h.meta url else link h.meta url

abbrev pub shown_failure : Text → FileHandle → Content
shown_failure reason h = broken h.meta reason

unfoldable pub finish_file_message : Text → Text → Messages → Messages
unfolding settle_line
finish_file_message transfer url ms = settle_line transfer (shown_file url) ms

unfoldable pub fail_file_message : Text → Text → Messages → Messages
unfolding settle_line
fail_file_message transfer reason ms = settle_line transfer (shown_failure reason) ms

-- What `teardown` does to the chat: the session is gone, and `messageList.replaceChildren()`.
unfoldable pub clear_chat : Messages → Messages
clear_chat ms = record ms { first = length ms.lines; file_msgs = none }

-- A new session has no handles yet.
unfoldable pub connect_chat : Messages → Messages
connect_chat ms = record ms { file_msgs = some [] }

-- The i-th line, where it is on the page.
abbrev pub on_page : ℕ → Messages → Option Line
on_page i ms = if ltb i ms.first then none else get_elem? ms.lines i

-- What happens to the chat, one act after another; a bar may be moved by a handle that is out of date.
pub data Act : Type 0 where
  says : Text → Text → Bool → Act
  starts : Text → Text → FileMeta → Bool → Act
  moves : FileHandle → ℕ → Act
  finishes : Text → Text → Act
  fails : Text → Text → Act
  connects clears : Act

unfoldable pub act : Act → Messages → Messages
unfolding add_line start_line set_file_progress finish_file_message fail_file_message connect_chat
    clear_chat
act (says nick body mine) ms = add_line nick body mine ms
act (starts transfer nick meta mine) ms = (start_line transfer nick meta mine ms).1
act (moves h rounded) ms = set_file_progress h rounded ms
act (finishes transfer url) ms = finish_file_message transfer url ms
act (fails transfer reason) ms = fail_file_message transfer reason ms
act connects ms = connect_chat ms
act clears ms = clear_chat ms

unfoldable pub run_acts : List Act → Messages → Messages
unfolding act
run_acts [] ms = ms
run_acts (a ∷ acts) ms = run_acts acts (act a ms)
