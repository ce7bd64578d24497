-- ===== src/Client/Upload/Slices.antt =====
-- A file is the sequence of its slices.
use e2eanon.Prelude.{
  ℕ, zero, suc, ◌+◌, ◌*◌, ◌≤◌, ◌≡◌, refl, ap, sym, ◌∙◌, List, [], ◌∷◌, ◌++◌, take, drop, length,
  arith,
}
use e2eanon.Crypto.Base64url.{Bytes}
use e2eanon.Client.Upload.{chunk_size, slice, chunk_count}

-- The slices from i on, n of them.
unfoldable pub slices : ℕ → ℕ → ℕ → Bytes → List Bytes
slices size i zero buf = []
slices size i (suc n) buf = slice size i buf ∷ slices size (suc i) n buf

unfoldable pub join : List Bytes → Bytes
join [] = []
join (b ∷ bs) = b ++ join bs

take-nil {ℓ} : {A : Type ℓ} (n : ℕ) → take {A = A} n [] ≡ []
take-nil zero = refl
take-nil (suc n) = refl

drop-nil {ℓ} : {A : Type ℓ} (n : ℕ) → drop {A = A} n [] ≡ []
drop-nil zero = refl
drop-nil (suc n) = refl

take-add {ℓ} :
    {A : Type ℓ} (a b : ℕ) (xs : List A) → take (a + b) xs ≡ take a xs ++ take b (drop a xs)
take-add zero b xs = ap (λ n. take n xs) (omega arith)
take-add {A} (suc a) b [] = take-nil {A = A} (suc a + b) ∙ sym (take-nil {A = A} b)
take-add (suc a) b (x ∷ xs) =
    ap (λ n. take n (x ∷ xs)) (suc_add a b) ∙ ap (λ ys. x ∷ ys) (take-add a b xs)
  where
    suc_add : (a b : ℕ) → suc a + b ≡ suc (a + b)
    suc_add a b = omega arith

drop-drop {ℓ} : {A : Type ℓ} (a b : ℕ) (xs : List A) → drop a (drop b xs) ≡ drop (b + a) xs
drop-drop a zero xs = ap (λ n. drop n xs) (omega arith)
drop-drop {A} a (suc b) [] = drop-nil {A = A} a ∙ sym (drop-nil {A = A} (suc b + a))
drop-drop a (suc b) (x ∷ xs) = drop-drop a b xs ∙ ap (λ n. drop n (x ∷ xs)) (suc_add a b)
  where
    suc_add : (a b : ℕ) → suc (b + a) ≡ suc b + a
    suc_add a b = omega arith

take-all {ℓ} : {A : Type ℓ} (n : ℕ) (xs : List A) → length xs ≤ n → take n xs ≡ xs
take-all n [] h = take-nil n
take-all zero (x ∷ xs) h = absurd (omega arith)
take-all (suc n) (x ∷ xs) h = ap (λ ys. x ∷ ys) (take-all n xs (omega arith))

join-slices :
    (size i n : ℕ) (buf : Bytes)
    → join (slices size i n buf) ≡ take (n * size) (drop (i * size) buf)
unfolding join slices
join-slices size i zero buf =
    let none_left : 0 ≡ 0 * size = omega arith in ap (λ k. take k (drop (i * size) buf)) none_left
join-slices size i (suc n) buf =
    let next : drop ((suc i) * size) buf ≡ drop size (drop (i * size) buf) =
      ap (λ k. drop k buf) (times_suc i size) ∙ sym (drop-drop size (i * size) buf) in
    let whole = take-add size (n * size) (drop (i * size) buf) in
    ap (λ bs. slice size i buf ++ bs) (join-slices size (suc i) n buf ∙ ap (take (n * size)) next)
    ∙ sym whole
    ∙ ap (λ k. take k (drop (i * size) buf)) (sym (suc_times n size))
  where
    times_suc : (i size : ℕ) → (suc i) * size ≡ i * size + size
    times_suc i size = omega arith

    suc_times : (n size : ℕ) → (suc n) * size ≡ size + n * size
    suc_times n size = omega arith

-- There are enough chunks for the whole file.
chunk_count-le : (n : ℕ) → n ≤ chunk_count chunk_size n * chunk_size
chunk_count-le n = omega arith

-- The slices of all chunks make up the file, whatever its length is, also none.
pub join-slices-chunk_count :
    (buf : Bytes) → join (slices chunk_size 0 (chunk_count chunk_size (length buf)) buf) ≡ buf
join-slices-chunk_count buf =
    let n = chunk_count chunk_size (length buf) in
    let start : 0 * chunk_size ≡ 0 = omega arith in
    join-slices chunk_size 0 n buf
    ∙ ap (λ k. take (n * chunk_size) (drop k buf)) start
    ∙ take-all (n * chunk_size) buf (chunk_count-le (length buf))
