-- ===== src/Go/Ints.antt =====
-- Go's integers of a fixed width, as bit patterns: a signed value is its 64-bit pattern.
use sqlr.Prelude.{ℕ, ◌+◌, ◌-◌, ◌≤◌, ◌<◌, ◌%◌, ◌≡◌, ◌≢◌, ◌⊎◌, arith, ltb, if◌then◌else◌}

-- The sizes of `int8`, `int16`, `int32` and `int64`; `int` has 64 bits.
pub data Width : Type 0 where
  bits8 bits16 bits32 bits64 : Width

-- `2 ^ w`, and `2 ^ (w - 1)`, from which on a pattern is negative
abbrev pub modulus : Width → ℕ
modulus bits8 = 256
modulus bits16 = 65536
modulus bits32 = 4294967296
modulus bits64 = 18446744073709551616

abbrev pub sign_bit : Width → ℕ
sign_bit bits8 = 128
sign_bit bits16 = 32768
sign_bit bits32 = 2147483648
sign_bit bits64 = 9223372036854775808

abbrev pub word : ℕ
word = 18446744073709551616

-- Whole numbers: `negsuc n` is `- (n + 1)`.
pub data ℤ : Type 0 where
  pos negsuc : ℕ → ℤ

-- The number that a pattern of 64 bits stands for, as an `int64` and as a `uint64`
abbrev pub signed : ℕ → ℤ
signed n = if ltb n (sign_bit bits64) then pos n else negsuc (word - (n + 1))

abbrev pub unsigned : ℕ → ℤ
unsigned = pos

-- The value of a signed pattern in 64 bits.
unfoldable pub sign_extend : Width → ℕ → ℕ
sign_extend w t = if ltb t (sign_bit w) then t else t + (word - modulus w)

-- `int64(intN(n))`: `Int` after `SetInt(n)`
unfoldable pub wrap : Width → ℕ → ℕ
wrap w n = sign_extend w (n % modulus w)

-- The value has a pattern of that width.
abbrev pub Fits : Width → ℕ → Type 0
Fits w n = (n < sign_bit w) ⊎ ((word - sign_bit w ≤ n) × (n < word))

pub wrap-Fits : (w : Width) (n : ℕ) → Fits w (wrap w n)
unfolding wrap sign_extend
wrap-Fits bits8 n = ground arith
wrap-Fits bits16 n = ground arith
wrap-Fits bits32 n = ground arith
wrap-Fits bits64 n = ground arith

pub Fits-wrap : (w : Width) (n : ℕ) → Fits w n → wrap w n ≡ n
unfolding wrap sign_extend
Fits-wrap bits8 n h = ground arith
Fits-wrap bits16 n h = ground arith
Fits-wrap bits32 n h = ground arith
Fits-wrap bits64 n h = ground arith

-- The next value is another one, also where it wraps around.
pub wrap-suc : (w : Width) (n : ℕ) → wrap w ((n + 1) % word) ≢ n
unfolding wrap sign_extend
wrap-suc bits8 n = ground arith
wrap-suc bits16 n = ground arith
wrap-suc bits32 n = ground arith
wrap-suc bits64 n = ground arith
