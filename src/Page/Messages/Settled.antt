-- ===== src/Page/Messages/Settled.antt =====
-- What a line of the chat of web/src/main.ts shows once its transfer is over.
use e2eanon.Prelude.{
  ℕ, zero, suc, min, ◌≡◌, ◌≢◌, refl, ap, sym, subst, ◌∙◌, List, [], ◌∷◌, ◌++◌, All, Bool, Option,
  none, some, Text, text_eq, lookup, insert, erase, get_elem?, get_elem?-set_self, get_elem?-set_ne,
  lt-length_of_get_elem?, set, arith, Bool-cases, Option-cases, inl, inr, ℕ_discrete,
}
use mathlib.Core.Option.{some-injective}
use e2eanon.Client.State.{FileMeta}
use e2eanon.Page.Messages.{
  Content, Line, FileHandle, Messages, chat, running, image, link, broken, moved, set_content,
  move_bar, keep_handle, settle_with, settle_line, shown_file, shown_failure, add_line, start_line,
  set_file_progress, finish_file_message, fail_file_message, Act, says, starts, moves, finishes,
  fails, connects, clears, connect_chat, clear_chat, act, run_acts,
}

-- The content has no bar to move.
abbrev pub IsSettled : Content → Type 0
IsSettled (running meta mine pct) = ⊥
IsSettled _ = Unit

abbrev pub IsAway : ℕ → Text × FileHandle → Type 0
IsAway i (t, h) = h.line ≢ i

abbrev pub AreAway : ℕ → Option (List (Text × FileHandle)) → Type 0
AreAway i none = Unit
AreAway i (some handles) = All (IsAway i) handles

-- The i-th line shows this, and no handle leads to it.
pub record Shows (i : ℕ) (l : Line) (ms : Messages) : Type 0 where
  pub there : get_elem? ms.lines i ≡ some l
  pub settled : IsSettled l.content
  pub away : AreAway i ms.file_msgs

get_elem?-append :
    (xs : List Line) (y : Line) (i : ℕ) (l : Line)
    → get_elem? xs i ≡ some l
    → get_elem? (xs ++ y ∷ []) i ≡ some l
get_elem?-append [] y i l e = cc
get_elem?-append (x ∷ xs) y zero l e = e
get_elem?-append (x ∷ xs) y (suc i) l e = get_elem?-append xs y i l e

pub All-insert :
    (P : Text × FileHandle → Type 0) (t : Text) (h : FileHandle) (m : List (Text × FileHandle))
    → ((j : Text) → P (j, h))
    → All P m
    → All P (insert t h m)
All-insert P t h [] new old = (new t, tt)
All-insert P t h ((j, w) ∷ m) new (p, old) = elim (Bool-cases (text_eq j t)) [
  | inl same ↦ rw same (new j, old)
  | inr other ↦ rw other (p, All-insert P t h m new old)
]

pub All-erase :
    (P : Text × FileHandle → Type 0) (t : Text) (m : List (Text × FileHandle))
    → All P m
    → All P (erase t m)
All-erase P t [] old = tt
All-erase P t ((j, w) ∷ m) (p, old) = elim (Bool-cases (text_eq j t)) [
  | inl same ↦ rw same (All-erase P t m old)
  | inr other ↦ rw other (p, All-erase P t m old)
]

pub All-lookup :
    (P : FileHandle → Type 0) (t : Text) (h : FileHandle) (m : List (Text × FileHandle))
    → All (λ e. P e.1) m
    → lookup t m ≡ some h
    → P h
All-lookup P t h [] old e = cc
All-lookup P t h ((j, w) ∷ m) (p, old) e = elim (Bool-cases (text_eq j t)) [
  | inl same ↦ let found : some w ≡ some h = ground arith in subst P (some-injective w h found) p
  | inr other ↦ let later : lookup t m ≡ some h = ground arith in All-lookup P t h m old later
]

module _ (i : ℕ) (l : Line) where
  add_line-Shows :
      (nick body : Text) (mine : Bool) (ms : Messages)
      → Shows i l ms
      → Shows i l (add_line nick body mine ms)
  unfolding add_line
  add_line-Shows nick body mine ms s = record {
    there = get_elem?-append ms.lines _ i l s.there;
    settled = s.settled;
    away = s.away;
  }

  keep_handle-AreAway :
      (t : Text) (h : FileHandle) (o : Option (List (Text × FileHandle)))
      → h.line ≢ i
      → AreAway i o
      → AreAway i (keep_handle t h o)
  keep_handle-AreAway t h none new old = tt
  keep_handle-AreAway t h (some m) new old = All-insert (IsAway i) t h m (λ j. new) old

  start_line-Shows :
      (transfer nick : Text) (meta : FileMeta) (mine : Bool) (ms : Messages)
      → Shows i l ms
      → Shows i l (start_line transfer nick meta mine ms).1
  unfolding start_line
  start_line-Shows transfer nick meta mine ms s =
      let inside = lt-length_of_get_elem? ms.lines i l s.there in
      record {
        there = get_elem?-append ms.lines _ i l s.there;
        settled = s.settled;
        away = keep_handle-AreAway transfer _ ms.file_msgs (λ e. omega arith) s.away;
      }

  -- A bar that moves is another line's.
  move_bar-there :
      (j pct : ℕ) (lines : List Line) (o : Option Line)
      → IsSettled l.content
      → get_elem? lines j ≡ o
      → get_elem? lines i ≡ some l
      → get_elem? (move_bar j pct lines o) i ≡ some l
  move_bar-there j pct lines none settled at there = there
  move_bar-there j pct lines (some x) settled at there = elim (ℕ_discrete j i) [
    | no n ↦ get_elem?-set_ne lines j i _ n ∙ there
    | yes same ↦
        let inside = lt-length_of_get_elem? lines i l there in
        let it : x ≡ l = some-injective x l (sym at ∙ ap (get_elem? lines) same ∙ there) in
        ap (λ k. get_elem? (set lines k (record x { content = moved pct x.content })) i) same
        ∙ get_elem?-set_self lines i _ inside
        ∙ ap (λ (y : Line). some (record y { content = moved pct y.content })) it
        ∙ ap (λ c. some (record l { content = c })) (moved-IsSettled pct l.content settled)
  ]
    where
      moved-IsSettled : (pct : ℕ) (c : Content) → IsSettled c → moved pct c ≡ c
      moved-IsSettled pct (chat body) h = refl
      moved-IsSettled pct (running meta mine old) h = elim h [ ]
      moved-IsSettled pct (image meta url) h = refl
      moved-IsSettled pct (link meta url) h = refl
      moved-IsSettled pct (broken meta reason) h = refl

  set_content-there :
      (j : ℕ) (c : Content) (lines : List Line) (o : Option Line)
      → j ≢ i
      → get_elem? lines i ≡ some l
      → get_elem? (set_content j c lines o) i ≡ some l
  set_content-there j c lines none n there = there
  set_content-there j c lines (some x) n there = get_elem?-set_ne lines j i _ n ∙ there

  settle_line-Shows :
      (transfer : Text) (f : FileHandle → Content) (ms : Messages)
      → Shows i l ms
      → Shows i l (settle_line transfer f ms)
  unfolding settle_line
  settle_line-Shows transfer f ms s = elim (Option-cases ms.file_msgs) [
    | inl e ↦ let same : settle_line transfer f ms ≡ ms = ground arith in rw same s
    | inr (handles, e) ↦
        let away : All (IsAway i) handles = subst (AreAway i) e s.away in
        elim (Option-cases (lookup transfer handles)) [
          | inl gone ↦ let same : settle_line transfer f ms ≡ ms = ground arith in rw same s
          | inr (h, found) ↦
              let same : settle_line transfer f ms ≡ settle_with transfer f ms handles (some h) =
                ground arith in
              rw same record {
                there =
                    set_content-there h.line (f h) ms.lines _
                      (All-lookup (λ (x : FileHandle). x.line ≢ i) transfer h handles away found)
                      s.there;
                settled = s.settled;
                away = All-erase (IsAway i) transfer handles away;
              }
        ]
  ]

  act-Shows : (a : Act) (ms : Messages) → Shows i l ms → Shows i l (act a ms)
  unfolding act set_file_progress finish_file_message fail_file_message connect_chat clear_chat
  act-Shows (says nick body mine) ms s = add_line-Shows nick body mine ms s
  act-Shows (starts transfer nick meta mine) ms s = start_line-Shows transfer nick meta mine ms s
  act-Shows (moves h rounded) ms s = record {
    there = move_bar-there h.line (min 100 rounded) ms.lines _ s.settled refl s.there;
    settled = s.settled;
    away = s.away;
  }
  act-Shows (finishes transfer url) ms s = settle_line-Shows transfer (shown_file url) ms s
  act-Shows (fails transfer reason) ms s = settle_line-Shows transfer (shown_failure reason) ms s
  act-Shows connects ms s = record { there = s.there; settled = s.settled; away = tt }
  act-Shows clears ms s = record { there = s.there; settled = s.settled; away = tt }

  pub run_acts-Shows :
      (acts : List Act) (ms : Messages) → Shows i l ms → Shows i l (run_acts acts ms)
  unfolding run_acts
  run_acts-Shows [] ms s = s
  run_acts-Shows (a ∷ acts) ms s = run_acts-Shows acts (act a ms) (act-Shows a ms s)
