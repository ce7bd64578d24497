-- ===== src/Spake2/Bytes/Concat.antt =====
-- `concat` and `lv` build what their names say.
use e2eanon.Prelude.{
  ℕ, zero, suc, ◌+◌, ◌<◌, ◌^◌, ◌≡◌, refl, ap, sym, ◌∙◌, List, [], ◌∷◌, ◌++◌, append-nil,
  append_assoc, length, length-append, set, take, drop, take-append, drop-append, replicate, arith,
}
use e2eanon.Crypto.Base64url.{Bytes}
use e2eanon.Spake2.Bytes.{le_bytes, set_from, total_length, concat_from, concat, lv}
use e2eanon.Spake2.Bytes.Numbers.{length-le_bytes, le_bytes-injective}

-- The parts one after another.
abbrev pub join : List Bytes → Bytes
join [] = []
join (p ∷ parts) = p ++ join parts

abbrev zeros : ℕ → Bytes
zeros n = replicate n 0

zeros-add : (m n : ℕ) → zeros (m + n) ≡ zeros m ++ zeros n
zeros-add zero n = ap zeros (omega arith)
zeros-add (suc m) n =
    let e : suc m + n ≡ suc (m + n) = omega arith in
    ap zeros e ∙ ap (λ (r : Bytes). 0 ∷ r) (zeros-add m n)

total_length_lem : (t : ℕ) (parts : List Bytes) → total_length t parts ≡ t + length (join parts)
unfolding total_length
total_length_lem t [] = omega arith
total_length_lem t (p ∷ parts) =
    omega (arith, total_length_lem (t + length p) parts, length-append p (join parts))

set-middle :
    (pre : Bytes) (v w : ℕ) (tail : Bytes) → set (pre ++ v ∷ tail) (length pre) w ≡ pre ++ w ∷ tail
set-middle [] v w tail = refl
set-middle (x ∷ pre) v w tail = ap (λ r. x ∷ r) (set-middle pre v w tail)

-- Writing a part over zeros puts it there and leaves the rest.
set_from_lem :
    (pre part tail : Bytes) (off : ℕ)
    → off ≡ length pre
    → set_from (pre ++ (zeros (length part) ++ tail)) off part ≡ pre ++ (part ++ tail)
unfolding set_from
set_from_lem pre [] tail off e = refl
set_from_lem pre (b ∷ part) tail off e =
    let written =
      ap (λ i. set (pre ++ (0 ∷ (zeros (length part) ++ tail))) i b) e
      ∙ set-middle pre 0 b (zeros (length part) ++ tail)
      ∙ sym (append_assoc pre (b ∷ []) (zeros (length part) ++ tail)) in
    ap (λ out. set_from out (suc off) part) written
    ∙ set_from_lem (pre ++ b ∷ []) part tail (suc off) (omega (arith, length-append pre (b ∷ [])))
    ∙ append_assoc pre (b ∷ []) (part ++ tail)

concat_from_lem :
    (pre : Bytes) (off : ℕ) (parts : List Bytes)
    → off ≡ length pre
    → concat_from (pre ++ zeros (length (join parts))) off parts ≡ pre ++ join parts
unfolding concat_from
concat_from_lem pre off [] e = refl
concat_from_lem pre off (p ∷ parts) e =
    let split =
      ap (λ r. pre ++ r)
        (ap zeros (length-append p (join parts)) ∙ zeros-add (length p) (length (join parts))) in
    let written =
      ap (λ out. set_from out off p) split
      ∙ set_from_lem pre p (zeros (length (join parts))) off e
      ∙ sym (append_assoc pre p (zeros (length (join parts)))) in
    ap (λ out. concat_from out (off + length p) parts) written
    ∙ concat_from_lem (pre ++ p) (off + length p) parts (omega (arith, length-append pre p))
    ∙ append_assoc pre p (join parts)

-- Filling a preallocated array part by part gives the parts one after another.
pub concat_lem : (parts : List Bytes) → concat parts ≡ join parts
unfolding concat
concat_lem parts =
    ap (λ n. concat_from (zeros n) 0 parts) (omega (arith, total_length_lem 0 parts))
    ∙ concat_from_lem [] 0 parts refl

pub lv_lem : (b : Bytes) → lv b ≡ le_bytes 8 (length b) ++ b
unfolding lv
lv_lem b =
    concat_lem (le_bytes 8 (length b) ∷ b ∷ [])
    ∙ ap (λ r. le_bytes 8 (length b) ++ r) (append-nil b)

lv-append : (b s : Bytes) → lv b ++ s ≡ le_bytes 8 (length b) ++ (b ++ s)
lv-append b s = ap (λ r. r ++ s) (lv_lem b) ∙ append_assoc (le_bytes 8 (length b)) b s

append-injective : (a b s t : Bytes) → length a ≡ length b → a ++ s ≡ b ++ t → (a ≡ b) × (s ≡ t)
append-injective a b s t h e = (
  sym (take-append a s (length a) refl)
      ∙ ap (take (length a)) e
      ∙ take-append b t (length a) (sym h),
  sym (drop-append a s (length a) refl)
      ∙ ap (drop (length a)) e
      ∙ drop-append b t (length a) (sym h),
)

-- A length-prefixed string below 2^64 bytes ends where its length says: equal concatenations have
-- equal strings and equal rests.
pub lv-append-injective :
    (a b s t : Bytes)
    → length a < 256 ^ 8
    → length b < 256 ^ 8
    → lv a ++ s ≡ lv b ++ t
    → (a ≡ b) × (s ≡ t)
lv-append-injective a b s t ha hb e =
    let e' : le_bytes 8 (length a) ++ (a ++ s) ≡ le_bytes 8 (length b) ++ (b ++ t) =
      sym (lv-append a s) ∙ e ∙ lv-append b t in
    let (heads, rests) =
      append-injective (le_bytes 8 (length a)) (le_bytes 8 (length b)) (a ++ s) (b ++ t)
        (length-le_bytes 8 (length a) ∙ sym (length-le_bytes 8 (length b))) e' in
    append-injective a b s t (le_bytes-injective 8 (length a) (length b) ha hb heads) rests
