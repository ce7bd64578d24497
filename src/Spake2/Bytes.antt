-- ===== src/Spake2/Bytes.antt =====
-- The byte helpers of web/src/spake2.ts. A bigint is a number; `n & 0xff` is its remainder by 256
-- and `n >> 8` its quotient.
pub mod Compare
pub mod Numbers
pub mod Concat
use Prim.Native.Nat.{bit_or, bit_xor}
use e2eanon.Prelude.{
  ℕ, zero, suc, ◌+◌, ◌*◌, ◌/◌, ◌%◌, List, [], ◌∷◌, ◌++◌, Bool, true, false, not, length, set,
  replicate, ◌==◌, if◌then◌else◌,
}
use e2eanon.Crypto.Base64url.{Bytes}

-- The loop of `lv`: eight bytes, the lowest first.
pub le_bytes : ℕ → ℕ → Bytes
le_bytes zero n = []
le_bytes (suc k) n = n % 256 ∷ le_bytes k (n / 256)

-- `out.set(part, off)` on a typed array.
pub set_from : Bytes → ℕ → Bytes → Bytes
set_from out off [] = out
set_from out off (b ∷ part) = set_from (set out off b) (suc off) part

pub total_length : ℕ → List Bytes → ℕ
total_length total [] = total
total_length total (p ∷ parts) = total_length (total + length p) parts

pub concat_from : Bytes → ℕ → List Bytes → Bytes
unfolding set_from
concat_from out off [] = out
concat_from out off (p ∷ parts) = concat_from (set_from out off p) (off + length p) parts

unfoldable pub concat : List Bytes → Bytes
unfolding total_length concat_from
concat parts = concat_from (replicate (total_length 0 parts) 0) 0 parts

unfoldable pub lv : Bytes → Bytes
unfolding le_bytes concat
lv b = concat (le_bytes 8 (length b) ∷ b ∷ [])

-- The loop of `bytesToBigBE`. A byte fills exactly the eight bits that the shift frees, so `|` adds.
pub big_be_from : ℕ → Bytes → ℕ
big_be_from n [] = n
big_be_from n (byte ∷ b) = big_be_from (n * 256 + byte) b

unfoldable pub bytes_to_big_be : Bytes → ℕ
unfolding big_be_from
bytes_to_big_be b = big_be_from 0 b

-- The loop of `bigToBytesBE`, over the positions that are left, from the last to the first.
pub be_loop : ℕ → ℕ → Bytes → Bytes
be_loop zero n out = out
be_loop (suc i) n out = be_loop i (n / 256) (set out i (n % 256))

unfoldable pub big_to_bytes_be : ℕ → ℕ → Bytes
unfolding be_loop
big_to_bytes_be n len = be_loop len n (replicate len 0)

-- The loop of `timingSafeEqual`, past the check of the lengths.
pub diff_loop : ℕ → Bytes → Bytes → ℕ
diff_loop diff (x ∷ a) (y ∷ b) = diff_loop (bit_or diff (bit_xor x y)) a b
diff_loop diff _ _ = diff

unfoldable pub timing_safe_equal : Bytes → Bytes → Bool
unfolding diff_loop
timing_safe_equal a b = if not (length a == length b) then false else diff_loop 0 a b == 0
