-- ===== src/Page/Messages/Cleared.antt =====
-- The lines of the chat of web/src/main.ts that `teardown` has not cleared away.
use e2eanon.Prelude.{
  ◌≤◌, ℕ, min, ◌≡◌, refl, sym, subst, ◌∙◌, List, [], ◌∷◌, All, Option, none, some, Text, lookup,
  length, length-append, get_elem?, arith, Option-cases, inl, inr,
}
use e2eanon.Page.Messages.{
  Content, FileHandle, Messages, keep_handle, settle_with, settle_line, shown_file, shown_failure,
  add_line, start_line, set_file_progress, finish_file_message, fail_file_message, Act, says,
  starts, moves, finishes, fails, connects, clears, connect_chat, clear_chat, act, run_acts,
}
use e2eanon.Page.Messages.Settled.{All-insert, All-erase}
use e2eanon.Page.Messages.Linked.{length-set_content, length-move_bar}

-- The line of the handle has not been cleared away.
abbrev pub IsKept : ℕ → Text × FileHandle → Type 0
IsKept first (t, h) = first ≤ h.line

abbrev pub AreKept : ℕ → Option (List (Text × FileHandle)) → Type 0
AreKept first none = Unit
AreKept first (some m) = All (IsKept first) m

-- Every handle leads to a line that is on the page.
pub record IsPresent (ms : Messages) : Type 0 where
  pub bounded : ms.first ≤ length ms.lines
  pub kept : AreKept ms.first ms.file_msgs

settle_line-IsPresent :
    (transfer : Text) (f : FileHandle → Content) (ms : Messages)
    → IsPresent ms
    → IsPresent (settle_line transfer f ms)
unfolding settle_line
settle_line-IsPresent transfer f ms s = elim (Option-cases ms.file_msgs) [
  | inl e ↦ let same : settle_line transfer f ms ≡ ms = ground arith in rw same s
  | inr (m, e) ↦
      let kept : All (IsKept ms.first) m = subst (AreKept ms.first) e s.kept in
      elim (Option-cases (lookup transfer m)) [
        | inl gone ↦ let same : settle_line transfer f ms ≡ ms = ground arith in rw same s
        | inr (h, found) ↦
            let same : settle_line transfer f ms ≡ settle_with transfer f ms m (some h) =
              ground arith in
            rw same record {
              bounded =
                  subst (λ n. ms.first ≤ n)
                    (sym (length-set_content h.line (f h) ms.lines (get_elem? ms.lines h.line)))
                    s.bounded;
              kept = All-erase (IsKept ms.first) transfer m kept;
            }
      ]
]

keep_handle-AreKept :
    (first : ℕ) (t : Text) (h : FileHandle) (o : Option (List (Text × FileHandle)))
    → first ≤ h.line
    → AreKept first o
    → AreKept first (keep_handle t h o)
keep_handle-AreKept first t h none le kept = tt
keep_handle-AreKept first t h (some m) le kept = All-insert (IsKept first) t h m (λ j. le) kept

act-IsPresent : (a : Act) (ms : Messages) → IsPresent ms → IsPresent (act a ms)
unfolding act add_line start_line set_file_progress finish_file_message fail_file_message
    connect_chat clear_chat
act-IsPresent (says nick body mine) ms s = record {
  bounded = let b = s.bounded in omega (arith, length-append ms.lines (_ ∷ []));
  kept = s.kept;
}
act-IsPresent (starts transfer nick meta mine) ms s = record {
  bounded = let b = s.bounded in omega (arith, length-append ms.lines (_ ∷ []));
  kept = keep_handle-AreKept ms.first transfer _ ms.file_msgs s.bounded s.kept;
}
act-IsPresent (moves h rounded) ms s = record {
  bounded =
      subst (λ n. ms.first ≤ n)
        (sym (length-move_bar h.line (min 100 rounded) ms.lines (get_elem? ms.lines h.line)))
        s.bounded;
  kept = s.kept;
}
act-IsPresent (finishes transfer url) ms s = settle_line-IsPresent transfer (shown_file url) ms s
act-IsPresent (fails transfer reason) ms s =
    settle_line-IsPresent transfer (shown_failure reason) ms s
act-IsPresent connects ms s = record { bounded = s.bounded; kept = tt }
act-IsPresent clears ms s = record { bounded = omega arith; kept = tt }

pub run_acts-IsPresent :
    (acts : List Act) (ms : Messages) → IsPresent ms → IsPresent (run_acts acts ms)
unfolding run_acts
run_acts-IsPresent [] ms s = s
run_acts-IsPresent (a ∷ acts) ms s = run_acts-IsPresent acts (act a ms) (act-IsPresent a ms s)

-- The act does not clear the chat.
abbrev pub Stays : Act → Type 0
Stays clears = ⊥
Stays _ = Unit

pub settle_line-first :
    (transfer : Text) (f : FileHandle → Content) (ms : Messages)
    → (settle_line transfer f ms).first ≡ ms.first
unfolding settle_line
settle_line-first transfer f ms = elim (Option-cases ms.file_msgs) [
  | inl e ↦ ground arith
  | inr (m, e) ↦ elim (Option-cases (lookup transfer m)) [
    | inl gone ↦ ground arith
    | inr (h, found) ↦ ground arith
  ]
]

act-first : (a : Act) (ms : Messages) → Stays a → (act a ms).first ≡ ms.first
unfolding act add_line start_line set_file_progress finish_file_message fail_file_message
    connect_chat clear_chat
act-first (says nick body mine) ms h = refl
act-first (starts transfer nick meta mine) ms h = refl
act-first (moves b rounded) ms h = refl
act-first (finishes transfer url) ms h = settle_line-first transfer (shown_file url) ms
act-first (fails transfer reason) ms h = settle_line-first transfer (shown_failure reason) ms
act-first connects ms h = refl
act-first clears ms h = elim h [ ]

pub run_acts-first :
    (acts : List Act) (ms : Messages) → All Stays acts → (run_acts acts ms).first ≡ ms.first
unfolding run_acts
run_acts-first [] ms h = refl
run_acts-first (a ∷ acts) ms (here, h) = run_acts-first acts (act a ms) h ∙ act-first a ms here
