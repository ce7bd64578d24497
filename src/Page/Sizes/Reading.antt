-- ===== src/Page/Sizes/Reading.antt =====
-- A size that `formatBytes` of web/src/main.ts has printed, read back.
use e2eanon.Prelude.{
  ℕ, zero, suc, ◌+◌, ◌-◌, ◌*◌, ◌/◌, ◌%◌, ◌≤◌, ◌<◌, ltb, ◌==◌, ◌&&◌, ◌≡◌, refl, ap, ◌∙◌, [], ◌∷◌,
  Option, none, some, Text, if◌then◌else◌, arith, Bool-cases, inl, inr, leb, ltb→lt, false, text_eq,
}
use e2eanon.Crypto.Envelope.{codes}
use e2eanon.Page.Sizes.{digits_from, decimal, tenths, to_fixed_1, format_bytes}

-- How many bytes the unit has, after its blank.
abbrev pub unit_of : Text → Option ℕ
unit_of s =
    if text_eq s (codes "B")
    then some 1
    else if text_eq s (codes "KB")
    then some 1024
    else if text_eq s (codes "MB")
    then some 1048576
    else none

abbrev with_tenths : ℕ → Option ℕ → Option (ℕ × ℕ)
with_tenths t none = none
with_tenths t (some u) = some (t, u)

-- The tenth after the point.
abbrev read_tenth : ℕ → Text → Option (ℕ × ℕ)
read_tenth n (d ∷ c ∷ s) = if c == b' ' then with_tenths (10 * n + (d - b'0')) (unit_of s) else none
read_tenth n _ = none

-- The digits, what stands after them, and the unit: how many tenths of which unit.
unfoldable pub read_from : ℕ → Text → Option (ℕ × ℕ)
read_from n [] = none
read_from n (c ∷ s) =
    let more = read_from (10 * n + (c - b'0')) s in
    if leb b'0' c && leb c b'9'
    then more
    else if c == b'.'
    then read_tenth n s
    else if c == b' '
    then with_tenths (10 * n) (unit_of s)
    else none

read_from-digit :
    (n d : ℕ) (s : Text) → d < 10 → read_from n ((b'0' + d) ∷ s) ≡ read_from (10 * n + d) s
unfolding read_from
read_from-digit n d s h = let e : (b'0' + d) - b'0' ≡ d = omega arith in ground arith

not_below : (n : ℕ) → ltb n 10 ≡ false → 10 ≤ n
not_below n h = ground arith

smaller : (n fuel : ℕ) → 10 ≤ n → n < suc fuel → n / 10 < fuel
smaller n fuel h k = omega arith

whole : (n : ℕ) → 10 * (n / 10) + n % 10 ≡ n
whole n = omega arith

read_from-digits_from :
    (fuel n : ℕ) (s : Text) → n < fuel → read_from 0 (digits_from fuel n s) ≡ read_from n s
unfolding digits_from
read_from-digits_from zero n s h = absurd (omega arith)
read_from-digits_from (suc fuel) n s h = elim (Bool-cases (ltb n 10)) [
  | inl small ↦
      rw small (read_from-digit 0 n s (ltb→lt n 10 small) ∙ ap (λ m. read_from m s) (omega arith))
  | inr large ↦ rw large (
      read_from-digits_from fuel (n / 10) ((b'0' + n % 10) ∷ s)
        (smaller n fuel (not_below n large) h)
      ∙ read_from-digit (n / 10) (n % 10) s (omega arith)
      ∙ ap (λ m. read_from m s) (whole n))
]

read_from-decimal : (n : ℕ) (s : Text) → read_from 0 (decimal n s) ≡ read_from n s
unfolding decimal
read_from-decimal n s = read_from-digits_from (suc n) n s (omega arith)

read_from-to_fixed_1 :
    (t u : ℕ) (s : Text) → unit_of s ≡ some u → read_from 0 (to_fixed_1 t (b' ' ∷ s)) ≡ some (t, u)
unfolding to_fixed_1 read_from
read_from-to_fixed_1 t u s e =
    let same = whole t in
    let digit : (b'0' + t % 10) - b'0' ≡ t % 10 = omega arith in
    read_from-decimal (t / 10) (b'.' ∷ (b'0' + t % 10) ∷ b' ' ∷ s)
    ∙ ap (with_tenths (10 * (t / 10) + ((b'0' + t % 10) - b'0'))) e
    ∙ ap (λ m. some (m, u)) (omega arith)

kilo : unit_of (codes "KB") ≡ some 1024
unfolding text_eq
kilo = refl

mega : unit_of (codes "MB") ≡ some 1048576
unfolding text_eq
mega = refl

blank : (n : ℕ) → read_from n (codes " B") ≡ some (10 * n, 1)
unfolding read_from text_eq
blank n = refl

-- The nearest: what is shown differs from n by at most the half of a tenth of the unit.
abbrev pub IsNearest : ℕ → ℕ → ℕ → Type 0
IsNearest n t u = (20 * n ≤ 2 * (u * t) + u) × (2 * (u * t) ≤ 20 * n + u)

-- What is printed of a size can be read back: tenths of a unit of 1, 1024 or 1048576 bytes, which are
-- as near to the size as tenths of that unit can be.
pub format_bytes-IsNearest :
    (n : ℕ) → (t : ℕ) × (u : ℕ) × (read_from 0 (format_bytes n) ≡ some (t, u)) × IsNearest n t u
unfolding format_bytes
format_bytes-IsNearest n = elim (Bool-cases (ltb n 1024)) [
  | inl small ↦
      rw small (10 * n, 1, read_from-decimal n (codes " B") ∙ blank n, (omega arith, omega arith))
  | inr large ↦ rw large (elim (Bool-cases (ltb n (1024 * 1024))) [
    | inl medium ↦ rw medium (
      tenths 1024 n,
      1024,
      read_from-to_fixed_1 (tenths 1024 n) 1024 (codes "KB") kilo,
      (omega arith, omega arith),
    )
    | inr huge ↦ rw huge (
      tenths 1048576 n,
      1048576,
      read_from-to_fixed_1 (tenths 1048576 n) 1048576 (codes "MB") mega,
      (omega arith, omega arith),
    )
  ])
]
