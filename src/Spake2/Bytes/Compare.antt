-- ===== src/Spake2/Bytes/Compare.antt =====
-- `timingSafeEqual` decides equality.
use Prim.Native.Nat.{bit_or, bit_xor, digits, differ, bit_or-bitwise, bit_xor-bitwise}
use e2eanon.Prelude.{
  ℕ, zero, suc, ◌/◌, ◌%◌, ◌≤◌, max, ◌≡◌, refl, ap, ap₂, sym, subst, ◌∙◌, ◌↔◌, [], ◌∷◌, true, length,
  ◌==◌, arith, Bool-cases, inl, inr,
}
use e2eanon.Crypto.Base64url.{Bytes}
use e2eanon.Spake2.Bytes.{diff_loop, timing_safe_equal}

digits_or_zero : (n a b : ℕ) → a ≤ n → digits (λ y. y) max n a b ≡ 0 → (a ≡ 0) × (b ≡ 0)
digits_or_zero zero a b p h = (omega arith, h)
digits_or_zero (suc n) zero b p h = (refl, h)
digits_or_zero (suc n) (suc a) b p h =
    omega (arith, digits_or_zero n (suc a / 2) (b / 2) (omega arith) (omega arith))

differ_zero : (x y : ℕ) → differ x y ≡ 0 → x ≡ y
differ_zero zero y h = sym h
differ_zero (suc x) zero h = h
differ_zero (suc x) (suc y) h = ap suc (differ_zero x y h)

differ_self : (x : ℕ) → differ x x ≡ 0
differ_self zero = refl
differ_self (suc x) = differ_self x

digits_xor_zero : (n a b : ℕ) → a ≤ n → digits (λ y. y) differ n a b ≡ 0 → a ≡ b
digits_xor_zero zero a b p h = omega arith
digits_xor_zero (suc n) zero b p h = sym h
digits_xor_zero (suc n) (suc a) b p h = omega (
  arith,
  digits_xor_zero n (suc a / 2) (b / 2) (omega arith) (omega arith),
  differ_zero (suc a % 2) (b % 2) (omega arith),
)

digits_xor_self : (n a : ℕ) → a ≤ n → digits (λ y. y) differ n a a ≡ 0
digits_xor_self zero a p = omega arith
digits_xor_self (suc n) zero p = refl
digits_xor_self (suc n) (suc a) p =
    omega (arith, digits_xor_self n (suc a / 2) (omega arith), differ_self (suc a % 2))

bit_or-zero : (a b : ℕ) → bit_or a b ≡ 0 → (a ≡ 0) × (b ≡ 0)
bit_or-zero a b h = digits_or_zero a a b (omega arith) (sym (bit_or-bitwise a b) ∙ h)

bit_xor-zero : (a b : ℕ) → bit_xor a b ≡ 0 → a ≡ b
bit_xor-zero a b h = digits_xor_zero a a b (omega arith) (sym (bit_xor-bitwise a b) ∙ h)

bit_xor_self : (a : ℕ) → bit_xor a a ≡ 0
bit_xor_self a = bit_xor-bitwise a a ∙ digits_xor_self a a (omega arith)

diff_loop_self : (a : Bytes) → diff_loop 0 a a ≡ 0
unfolding diff_loop
diff_loop_self [] = refl
diff_loop_self (x ∷ a) = rw (bit_xor_self x) (diff_loop_self a)

diff_loop-zero :
    (d : ℕ) (a b : Bytes) → length a ≡ length b → diff_loop d a b ≡ 0 → (d ≡ 0) × (a ≡ b)
unfolding diff_loop
diff_loop-zero d [] [] e h = (h, refl)
diff_loop-zero d [] (y ∷ b) e h = absurd (omega arith)
diff_loop-zero d (x ∷ a) [] e h = absurd (omega arith)
diff_loop-zero d (x ∷ a) (y ∷ b) e h =
    let (d0, rest) = diff_loop-zero (bit_or d (bit_xor x y)) a b (omega arith) h in
    let (z, same) = bit_or-zero d (bit_xor x y) d0 in
    (z, ap₂ (λ c cs. c ∷ cs) (bit_xor-zero x y same) rest)

-- The comparison that looks at every byte answers true exactly for equal arrays.
pub timing_safe_equal_iff : (a b : Bytes) → (timing_safe_equal a b ≡ true) ↔ (a ≡ b)
unfolding timing_safe_equal
timing_safe_equal_iff a b =
    (λ h. sound a b h, λ e. subst (λ c. timing_safe_equal a c ≡ true) e (complete a))
  where
    sound : (a b : Bytes) → timing_safe_equal a b ≡ true → a ≡ b
    sound a b h = elim (Bool-cases (length a == length b)) [
      | inl same ↦ (diff_loop-zero 0 a b (ground arith) (ground arith)).1
      | inr other ↦ absurd (ground arith)
    ]

    complete : (a : Bytes) → timing_safe_equal a a ≡ true
    complete a = ground (arith, diff_loop_self a)
