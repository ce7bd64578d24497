-- ===== src/Page/Chats.antt =====
-- A file in the chat, at concrete inputs.
use e2eanon.Prelude.{◌≡◌, refl, List, [], ◌∷◌, false, some, lookup, text_eq}
use e2eanon.Crypto.Envelope.{codes}
use e2eanon.Client.State.{FileMeta}
use e2eanon.Page.Messages.{
  FileHandle, Act, starts, says, finishes, connects, on_page, moves, run_acts, Line,
  finish_file_message, fail_file_message,
}
use e2eanon.Page.Messages.Shown.{blank, IsFile, IsFailure, Holds, run_acts-settle_line}

abbrev meta : FileMeta
meta = record { name = codes "f"; type = codes "image/png"; size = 2; chunks = 1 }

abbrev handle : FileHandle
handle = record { line = 1; meta = meta; mine = false }

-- The message of a transfer stands second. Later it starts again, and its first bar is moved once more.
abbrev sent_before : List Act
sent_before =
    connects
    ∷ says (codes "bob") (codes "hi") false
    ∷ starts (codes "x") (codes "bob") meta false
    ∷ []

abbrev sent_later : List Act
sent_later =
    starts (codes "x") (codes "bob") meta false
    ∷ moves handle 50
    ∷ finishes (codes "x") (codes "blob:2")
    ∷ []

handles : (run_acts sent_before blank).file_msgs ≡ some ((codes "x", handle) ∷ [])
unfolding run_acts
handles = refl

found : lookup (codes "x") ((codes "x", handle) ∷ []) ≡ some handle
unfolding text_eq
found = refl

run_acts-settle_line_example :
    let ms = run_acts sent_before blank in
    (l : Line) × (on_page 1 ms ≡ some l)
    × Holds
        (IsFile meta (codes "blob:1"))
        l
        1
        (run_acts sent_later (finish_file_message (codes "x") (codes "blob:1") ms))
    × Holds
        (IsFailure meta (codes "lost"))
        l
        1
        (run_acts sent_later (fail_file_message (codes "x") (codes "lost") ms))
run_acts-settle_line_example =
    run_acts-settle_line sent_before sent_later (codes "x") (codes "blob:1") (codes "lost") handle
      ((codes "x", handle) ∷ []) handles found (tt, (tt, (tt, tt)))
