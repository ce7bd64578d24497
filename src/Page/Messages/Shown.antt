-- ===== src/Page/Messages/Shown.antt =====
-- What the line of a transfer shows in the chat of web/src/main.ts once it is over.
use e2eanon.Prelude.{
  ◌≤◌, ◌++◌, ap₂, ◌==◌, true, ◌⊎◌, ℕ, ◌<◌, ◌≡◌, ◌≢◌, refl, ap, subst, ◌∙◌, List, [], ◌∷◌, All, none,
  some, Text, text_eq, lookup, length, get_elem?, get_elem?-set_self, arith, Bool-cases, inl, inr,
}
use e2eanon.Page.Attachments.{is_image}
use e2eanon.Crypto.Envelope.{codes}
use e2eanon.Client.State.{FileMeta}
use e2eanon.Page.Element.{Element, element, nil, starts_with}
use e2eanon.Page.Messages.{
  Content, Line, FileHandle, Messages, set_content, settle_with, settle_line, shown_file,
  shown_failure, finish_file_message, fail_file_message, Act, on_page, content_element, run_acts,
}
use e2eanon.Page.Messages.Settled.{IsSettled, Shows, All-lookup, run_acts-Shows}
use e2eanon.Page.Messages.Linked.{AreLinked, IsLinked, erase-IsAway, run_acts-IsLinked, line_at}
use e2eanon.Page.Messages.Cleared.{
  AreKept, IsPresent, run_acts-IsPresent, Stays, settle_line-first, run_acts-first,
}

shown_file-IsSettled : (url : Text) (h : FileHandle) → IsSettled (shown_file url h)
shown_file-IsSettled url h = elim (Bool-cases (is_image h.meta.type)) [
  | inl yes_image ↦ rw yes_image tt
  | inr other ↦ rw other tt
]

settle_line-Shows :
    (transfer : Text) (f : FileHandle → Content) (h : FileHandle) (m : List (Text × FileHandle))
    (l : Line) (ms : Messages)
    → IsLinked ms
    → ms.file_msgs ≡ some m
    → lookup transfer m ≡ some h
    → get_elem? ms.lines h.line ≡ some l
    → IsSettled (f h)
    → Shows h.line (record l { content = f h }) (settle_line transfer f ms)
unfolding settle_line
settle_line-Shows transfer f h m l ms linked e found at settled =
    let (apart, inside) = subst (AreLinked (length ms.lines)) e linked in
    let same : settle_line transfer f ms ≡ settle_with transfer f ms m (some h) = ground arith in
    let lt = All-lookup (λ (x : FileHandle). x.line < length ms.lines) transfer h m inside found in
    rw same record {
      there =
          ap (λ o. get_elem? (set_content h.line (f h) ms.lines o) h.line) at
          ∙ get_elem?-set_self ms.lines h.line _ lt;
      settled = settled;
      away = erase-IsAway transfer h m apart found;
    }

-- The chat of a page that has just been loaded.
abbrev pub blank : Messages
blank = record { lines = []; first = 0; file_msgs = none }

-- A line that is on the page and shows this by the same sender.
pub record Holds (look : Element → Type 0) (old : Line) (i : ℕ) (ms : Messages) : Type 0 where
  pub line : Line
  pub there : on_page i ms ≡ some line
  pub who : line.who ≡ old.who
  pub mine : line.mine ≡ old.mine
  pub looks : look (content_element line.content)

-- An image of the file where its type begins with "image/", and a link that downloads it otherwise,
-- with the URL of its content.
abbrev pub IsFile : FileMeta → Text → Element → Type 0
IsFile meta url (element tag cls attributes text children) =
    ((rest : Text) × (meta.type ≡ codes "image/" ++ rest)
      × (tag ≡ codes "img")
      × (lookup (codes "src") attributes ≡ some url)
      × (lookup (codes "alt") attributes ≡ some meta.name))
    ⊎ (((rest : Text) → meta.type ≢ codes "image/" ++ rest)
        × (tag ≡ codes "a")
        × (lookup (codes "href") attributes ≡ some url)
        × (lookup (codes "download") attributes ≡ some meta.name))

-- A text with the name of the file and what went wrong, and nothing that leads to a content.
abbrev pub IsFailure : FileMeta → Text → Element → Type 0
IsFailure meta reason (element tag cls attributes text children) =
    (tag ≡ codes "span")
    × (attributes ≡ [])
    × (children ≡ nil)
    × (text
        ≡ 0xd83d ∷ 0xdcce ∷ codes " " ++ (meta.name ++ (codes " " ++ 0x2014 ∷ codes " " ++ reason)))

starts_with-append : (prefix rest : Text) → starts_with prefix (prefix ++ rest) ≡ true
starts_with-append [] rest = refl
starts_with-append (c ∷ prefix) rest = let more = starts_with-append prefix rest in ground arith

starts_with_rest :
    (prefix text : Text) → starts_with prefix text ≡ true → (rest : Text) × (text ≡ prefix ++ rest)
starts_with_rest [] text h = (text, refl)
starts_with_rest (c ∷ prefix) [] h = absurd (ground arith)
starts_with_rest (c ∷ prefix) (x ∷ text) h = elim (Bool-cases (x == c)) [
  | inl same ↦
      let (rest, e) = starts_with_rest prefix text (ground arith) in
      (rest, ap₂ (λ y t. y ∷ t) (ground arith) e)
  | inr other ↦ absurd (ground arith)
]

shown_file-IsFile :
    (url : Text) (h : FileHandle) → IsFile h.meta url (content_element (shown_file url h))
unfolding text_eq
shown_file-IsFile url h = elim (Bool-cases (is_image h.meta.type)) [
  | inl yes_image ↦
      let (rest, e) = starts_with_rest (codes "image/") h.meta.type yes_image in
      rw yes_image (inl (rest, e, refl, refl, refl))
  | inr other ↦ rw other (
      inr (
        λ rest e.
            let starts = ap is_image e ∙ starts_with-append (codes "image/") rest in
            absurd (ground arith),
        refl,
        refl,
        refl,
      ))
]

-- A line that is settled while it is on the page stays there.
Shows-Holds :
    (look : Element → Type 0) (old l : Line) (i : ℕ) (later : List Act) (ms : Messages)
    → All Stays later
    → ms.first ≤ i
    → l.who ≡ old.who
    → l.mine ≡ old.mine
    → look (content_element l.content)
    → Shows i l ms
    → Holds look old i (run_acts later ms)
Shows-Holds look old l i later ms stay le who mine looks shows =
    let first = run_acts-first later ms stay in
    let end = run_acts-Shows i l later ms shows in
    record {
      line = l;
      there = let at = end.there in ground arith;
      who = who;
      mine = mine;
      looks = looks;
    }

-- Whatever has happened to the chat since the page was loaded, sessions that came and went included, a
-- transfer has a handle. Then its line is on the page, and once the transfer has finished, it shows,
-- by the same sender, the image of that name at the URL where the type of the file begins with
-- "image/", or else a link that downloads it under its name from the URL; once the transfer has failed,
-- it shows the name and what went wrong. It stays so whatever happens to the chat afterwards, also if the same
-- transfer starts again or its old bar is moved, until the chat is cleared.
pub run_acts-settle_line :
    (before later : List Act) (transfer url reason : Text) (h : FileHandle)
    (handles : List (Text × FileHandle))
    → (run_acts before blank).file_msgs ≡ some handles
    → lookup transfer handles ≡ some h
    → All Stays later
    → let ms = run_acts before blank in
      (l : Line) × (on_page h.line ms ≡ some l)
      × Holds (IsFile h.meta url) l h.line (run_acts later (finish_file_message transfer url ms))
      × Holds
          (IsFailure h.meta reason)
          l
          h.line
          (run_acts later (fail_file_message transfer reason ms))
unfolding finish_file_message fail_file_message
run_acts-settle_line before later transfer url reason h handles e found stay =
    let ms = run_acts before blank in
    let linked = run_acts-IsLinked before blank tt in
    let present : IsPresent ms =
      run_acts-IsPresent before blank (record { bounded = omega arith; kept = tt }) in
    let (apart, inside) = subst (AreLinked (length ms.lines)) e linked in
    let kept = subst (AreKept ms.first) e present.kept in
    let le : ms.first ≤ h.line =
      All-lookup (λ (x : FileHandle). ms.first ≤ x.line) transfer h handles kept found in
    let (l, at) =
      line_at ms.lines h.line (
        All-lookup (λ (x : FileHandle). x.line < length ms.lines) transfer h handles inside
          found) in
    let image = shown_file url h in
    let failure = shown_failure reason h in
    let done = settle_line transfer (shown_file url) ms in
    let lost = settle_line transfer (shown_failure reason) ms in
    let same = settle_line-first transfer (shown_file url) ms in
    let same' = settle_line-first transfer (shown_failure reason) ms in
    (
      l,
      ground arith,
      Shows-Holds (IsFile h.meta url) l (record l { content = image }) h.line later done stay
          (omega arith) refl refl (shown_file-IsFile url h)
          (settle_line-Shows transfer (shown_file url) h handles l ms linked e found at
            (shown_file-IsSettled url h)),
      Shows-Holds (IsFailure h.meta reason) l (record l { content = failure }) h.line later lost
          stay (omega arith) refl refl (refl, refl, refl, refl)
          (settle_line-Shows transfer (shown_failure reason) h handles l ms linked e found at tt),
    )
