-- ===== src/Client/Invites/Codes.antt =====
-- The code that an owner reads out.
use e2eanon.Prelude.{
  ℕ, zero, suc, ◌+◌, ◌%◌, ◌<◌, ◌≤◌, ◌≡◌, ◌≢◌, refl, ap, sym, subst, [], ◌∷◌, ◌++◌, All, All-append,
  Text, get_elem?, length, length-append, arith,
}
use e2eanon.Crypto.Base64url.{Bytes}
use e2eanon.Client.Invites.{alphabet, char_text, code_from, generate_code}

-- An upper-case letter or a digit that is not mistaken for another.
abbrev pub IsCodeChar : ℕ → Type 0
IsCodeChar ch = (b'2' ≤ ch) × (ch ≤ b'Z') × (ch ≢ b'0') × (ch ≢ b'1') × (ch ≢ b'I') × (ch ≢ b'O')

abbrev IsPick : Text → Type 0
IsPick t = (ch : ℕ) × (t ≡ ch ∷ []) × IsCodeChar ch

pick : (n : ℕ) (t : Text) → n < length t → All IsCodeChar t → IsPick (char_text (get_elem? t n))
pick n [] h k = absurd (omega arith)
pick zero (ch ∷ t) h (k, ks) = (ch, refl, k)
pick (suc n) (ch ∷ t) h (k, ks) = pick n t (omega arith) ks

alphabet-IsCodeChar : All IsCodeChar alphabet
alphabet-IsCodeChar = omega arith

char_text-IsPick : (b : ℕ) → IsPick (char_text (get_elem? alphabet (b % length alphabet)))
char_text-IsPick b = pick (b % 32) alphabet (omega arith) alphabet-IsCodeChar

code_from_lem :
    (out : Text) (bytes : Bytes)
    → All IsCodeChar out
    → (length (code_from out bytes) ≡ length out + length bytes)
      × All IsCodeChar (code_from out bytes)
unfolding code_from
code_from_lem out [] h = (omega arith, h)
code_from_lem out (b ∷ bytes) h =
    let (ch, e, k) = char_text-IsPick b in
    let text = char_text (get_elem? alphabet (b % length alphabet)) in
    let good : All IsCodeChar text = subst (All IsCodeChar) (sym e) (k, tt) in
    let (size, all) = code_from_lem (out ++ text) bytes (All-append IsCodeChar out text h good) in
    (omega (arith, size, length-append out text, ap length e), all)

-- Whatever bytes are drawn, the code has a character for each, and every one is an upper-case
-- letter or a digit other than 0, 1, I and O.
pub generate_code_lem :
    (bytes : Bytes)
    → (length (generate_code bytes) ≡ length bytes) × All IsCodeChar (generate_code bytes)
unfolding generate_code
generate_code_lem bytes = let (size, all) = code_from_lem [] bytes tt in (omega (arith, size), all)
