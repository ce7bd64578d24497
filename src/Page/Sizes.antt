-- ===== src/Page/Sizes.antt =====
-- `formatBytes` of web/src/main.ts: a number of bytes as a text.
pub mod Reading
use e2eanon.Prelude.{ℕ, zero, suc, ◌+◌, ◌*◌, ◌/◌, ◌%◌, ltb, ◌++◌, [], ◌∷◌, Text, if◌then◌else◌}
use e2eanon.Crypto.Envelope.{codes}

-- The decimal digits of n in front of a text; n rounds and one more are enough.
unfoldable pub digits_from : ℕ → ℕ → Text → Text
digits_from zero n text = text
digits_from (suc fuel) n text =
    let rest = digits_from fuel (n / 10) ((b'0' + n % 10) ∷ text) in
    if ltb n 10 then (b'0' + n) ∷ text else rest

-- A number in a template string.
unfoldable pub decimal : ℕ → Text → Text
unfolding digits_from
decimal n text = digits_from (suc n) n text

-- The tenths that `(n / unit).toFixed(1)` shows. The quotient is exact, since the unit is a power of
-- two, and of two tenths that are equally near the larger one is taken.
abbrev pub tenths : ℕ → ℕ → ℕ
tenths unit n = (20 * n + unit) / (2 * unit)

unfoldable pub to_fixed_1 : ℕ → Text → Text
unfolding decimal
to_fixed_1 t text = decimal (t / 10) (b'.' ∷ (b'0' + t % 10) ∷ text)

unfoldable pub format_bytes : ℕ → Text
unfolding decimal to_fixed_1
format_bytes n =
    if ltb n 1024
    then decimal n (codes " B")
    else if ltb n (1024 * 1024)
    then to_fixed_1 (tenths 1024 n) (codes " KB")
    else to_fixed_1 (tenths 1048576 n) (codes " MB")
