-- ===== src/Page/Messages/Linked.antt =====
-- The handles of the chat of web/src/main.ts and the lines that they lead to.
use e2eanon.Prelude.{
  ℕ, zero, suc, ◌<◌, min, ◌≡◌, ◌≢◌, refl, sym, subst, List, [], ◌∷◌, All, All-map, Option, none,
  some, Text, text_eq, lookup, insert, erase, length, length-append, length-set, get_elem?, arith,
  Bool-cases, Option-cases, inl, inr,
}
use mathlib.Core.Option.{some-injective}
use e2eanon.Page.Messages.{
  Content, Line, FileHandle, Messages, set_content, move_bar, keep_handle, settle_with, settle_line,
  shown_file, shown_failure, add_line, start_line, set_file_progress, finish_file_message,
  fail_file_message, Act, says, starts, moves, finishes, fails, connects, clears, connect_chat,
  clear_chat, act, run_acts,
}
use e2eanon.Page.Messages.Settled.{IsAway, All-insert, All-erase, All-lookup}

-- No two handles lead to one line.
abbrev pub Apart : List (Text × FileHandle) → Type 0
Apart [] = Unit
Apart ((t, h) ∷ m) = All (IsAway h.line) m × Apart m

-- The line of the handle is one of the first n.
abbrev pub IsInside : ℕ → Text × FileHandle → Type 0
IsInside n (t, h) = h.line < n

abbrev pub AreLinked : ℕ → Option (List (Text × FileHandle)) → Type 0
AreLinked n none = Unit
AreLinked n (some m) = Apart m × All (IsInside n) m

abbrev pub IsLinked : Messages → Type 0
IsLinked ms = AreLinked (length ms.lines) ms.file_msgs

Apart-insert :
    (t : Text) (h : FileHandle) (m : List (Text × FileHandle))
    → All (IsInside h.line) m
    → Apart m
    → Apart (insert t h m)
Apart-insert t h [] inside apart = (tt, tt)
Apart-insert t h ((j, w) ∷ m) (lt, inside) (away, apart) = elim (Bool-cases (text_eq j t)) [
  | inl same ↦
      rw same (
        All-map (IsInside h.line) (IsAway h.line) m (λ e below same_line. omega arith) inside,
        apart,
      )
  | inr other ↦ rw other (
    All-insert (IsAway w.line) t h m (λ k same_line. omega arith) away,
    Apart-insert t h m inside apart,
  )
]

Apart-erase : (t : Text) (m : List (Text × FileHandle)) → Apart m → Apart (erase t m)
Apart-erase t [] apart = tt
Apart-erase t ((j, w) ∷ m) (away, apart) = elim (Bool-cases (text_eq j t)) [
  | inl same ↦ rw same (Apart-erase t m apart)
  | inr other ↦ rw other (All-erase (IsAway w.line) t m away, Apart-erase t m apart)
]

-- The line of a handle that is dropped has no other.
pub erase-IsAway :
    (t : Text) (h : FileHandle) (m : List (Text × FileHandle))
    → Apart m
    → lookup t m ≡ some h
    → All (IsAway h.line) (erase t m)
erase-IsAway t h [] apart e = cc
erase-IsAway t h ((j, w) ∷ m) (away, apart) e = elim (Bool-cases (text_eq j t)) [
  | inl same ↦
      let found : some w ≡ some h = ground arith in
      rw same (
        All-erase (IsAway h.line) t m
          (subst (λ (x : FileHandle). All (IsAway x.line) m) (some-injective w h found) away))
  | inr other ↦
      let later : lookup t m ≡ some h = ground arith in
      rw other (
        λ same_line.
            All-lookup (λ (x : FileHandle). x.line ≢ w.line) t h m away later (sym same_line),
        erase-IsAway t h m apart later,
      )
]

AreLinked-more :
    (n k : ℕ) (o : Option (List (Text × FileHandle))) → n < k → AreLinked n o → AreLinked k o
AreLinked-more n k none lt h = tt
AreLinked-more n k (some m) lt (apart, inside) =
    (apart, All-map (IsInside n) (IsInside k) m (λ e below. omega arith) inside)

AreLinked-keep_handle :
    (n k : ℕ) (t : Text) (h : FileHandle) (o : Option (List (Text × FileHandle)))
    → h.line ≡ n
    → n < k
    → AreLinked n o
    → AreLinked k (keep_handle t h o)
AreLinked-keep_handle n k t h none at lt linked = tt
AreLinked-keep_handle n k t h (some m) at lt (apart, inside) = (
  Apart-insert t h m (subst (λ i. All (IsInside i) m) (sym at) inside) apart,
  All-insert (IsInside k) t h m (λ j. omega arith)
      (All-map (IsInside n) (IsInside k) m (λ e below. omega arith) inside),
)

pub length-set_content :
    (i : ℕ) (c : Content) (lines : List Line) (o : Option Line)
    → length (set_content i c lines o) ≡ length lines
length-set_content i c lines none = refl
length-set_content i c lines (some l) = length-set lines i _

pub length-move_bar :
    (i pct : ℕ) (lines : List Line) (o : Option Line)
    → length (move_bar i pct lines o) ≡ length lines
length-move_bar i pct lines none = refl
length-move_bar i pct lines (some l) = length-set lines i _

settle_line-IsLinked :
    (transfer : Text) (f : FileHandle → Content) (ms : Messages)
    → IsLinked ms
    → IsLinked (settle_line transfer f ms)
unfolding settle_line
settle_line-IsLinked transfer f ms linked = elim (Option-cases ms.file_msgs) [
  | inl e ↦ let same : settle_line transfer f ms ≡ ms = ground arith in rw same linked
  | inr (m, e) ↦
      let (apart, inside) = subst (AreLinked (length ms.lines)) e linked in
      elim (Option-cases (lookup transfer m)) [
        | inl gone ↦ let same : settle_line transfer f ms ≡ ms = ground arith in rw same linked
        | inr (h, found) ↦
            let same : settle_line transfer f ms ≡ settle_with transfer f ms m (some h) =
              ground arith in
            let size = length-set_content h.line (f h) ms.lines (get_elem? ms.lines h.line) in
            rw same (
              Apart-erase transfer m apart,
              subst (λ n. All (IsInside n) (erase transfer m)) (sym size)
                  (All-erase (IsInside (length ms.lines)) transfer m inside),
            )
      ]
]

act-IsLinked : (a : Act) (ms : Messages) → IsLinked ms → IsLinked (act a ms)
unfolding act add_line start_line set_file_progress finish_file_message fail_file_message
    connect_chat clear_chat
act-IsLinked (says nick body mine) ms linked =
    AreLinked-more (length ms.lines) _ ms.file_msgs (omega (arith, length-append ms.lines (_ ∷ [])))
      linked
act-IsLinked (starts transfer nick meta mine) ms linked =
    AreLinked-keep_handle (length ms.lines) _ transfer _ ms.file_msgs refl
      (omega (arith, length-append ms.lines (_ ∷ []))) linked
act-IsLinked (moves h rounded) ms linked =
    subst (λ n. AreLinked n ms.file_msgs)
      (sym (length-move_bar h.line (min 100 rounded) ms.lines (get_elem? ms.lines h.line))) linked
act-IsLinked (finishes transfer url) ms linked =
    settle_line-IsLinked transfer (shown_file url) ms linked
act-IsLinked (fails transfer reason) ms linked =
    settle_line-IsLinked transfer (shown_failure reason) ms linked
act-IsLinked connects ms linked = (tt, tt)
act-IsLinked clears ms linked = tt

pub run_acts-IsLinked :
    (acts : List Act) (ms : Messages) → IsLinked ms → IsLinked (run_acts acts ms)
unfolding run_acts
run_acts-IsLinked [] ms linked = linked
run_acts-IsLinked (a ∷ acts) ms linked =
    run_acts-IsLinked acts (act a ms) (act-IsLinked a ms linked)

pub line_at :
    (lines : List Line) (i : ℕ) → i < length lines → (l : Line) × (get_elem? lines i ≡ some l)
line_at [] i lt = elim lt [ ]
line_at (l ∷ lines) zero lt = (l, refl)
line_at (l ∷ lines) (suc i) lt = line_at lines i (omega arith)
