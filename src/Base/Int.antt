-- ===== src/Base/Int.antt =====
-- Go's signed machine integers over the native numbers, under the library's names.
-- A value of `int64` or `int32` is an integer; `inc64`, `inc32` and `dec32` keep the wrap-around.
use Prim.Native.Nat.{ℕ, zero, suc, ◌+◌, ◌-◌, ◌*◌, ◌%◌, ◌^◌, ◌<◌}
use mathlib.Core.Path.{◌≡◌, refl}
use mathlib.Core.Logic.{◌↔◌}
use mathlib.Core.Bool.{Bool, true, false}
use native.Mathlib.Omega.{arith}
use cycle.Base.Tests.{ltb, leb, ◌==◌, if◌then◌else◌}

-- `negsuc n` is -(n + 1).
pub data ℤ : Type 0 where
  pos : ℕ → ℤ
  negsuc : ℕ → ℤ

abbrev pub int_eq : ℤ → ℤ → Bool
int_eq (pos m) (pos n) = m == n
int_eq (negsuc m) (negsuc n) = m == n
int_eq _ _ = false

abbrev pub int_lt : ℤ → ℤ → Bool
int_lt (pos m) (pos n) = ltb m n
int_lt (pos m) (negsuc n) = false
int_lt (negsuc m) (pos n) = true
int_lt (negsuc m) (negsuc n) = ltb n m

abbrev pub int_le : ℤ → ℤ → Bool
int_le (pos m) (pos n) = leb m n
int_le (pos m) (negsuc n) = false
int_le (negsuc m) (pos n) = true
int_le (negsuc m) (negsuc n) = leb n m

abbrev pub is_negative : ℤ → Bool
is_negative (pos n) = false
is_negative (negsuc n) = true

-- x + 1 in a signed type whose greatest value is `top`.
abbrev pub inc : ℕ → ℤ → ℤ
inc top (pos n) = if n == top then negsuc top else pos (n + 1)
inc top (negsuc zero) = pos 0
inc top (negsuc (suc n)) = negsuc n

-- x - 1 in such a type.
abbrev pub dec : ℕ → ℤ → ℤ
dec top (pos zero) = negsuc 0
dec top (pos (suc n)) = pos n
dec top (negsuc n) = if n == top then pos top else negsuc (n + 1)

abbrev pub max_int64 : ℕ
max_int64 = 2 ^ 63 - 1

abbrev pub max_int32 : ℕ
max_int32 = 2 ^ 31 - 1

unfoldable pub inc64 : ℤ → ℤ
inc64 = inc max_int64

unfoldable pub inc32 : ℤ → ℤ
inc32 = inc max_int32

unfoldable pub dec32 : ℤ → ℤ
dec32 = dec max_int32

pub int_eq_iff : (a b : ℤ) → (int_eq a b ≡ true) ↔ (a ≡ b)
int_eq_iff (pos m) (pos n) = ground arith
int_eq_iff (negsuc m) (negsuc n) = ground arith
int_eq_iff (pos m) (negsuc n) = ground arith
int_eq_iff (negsuc m) (pos n) = ground arith

pub int_eq_refl : (a : ℤ) → int_eq a a ≡ true
int_eq_refl a = (int_eq_iff a a).1 refl

-- Within the type's range a step is never a fixed point, also where it wraps.
pub inc64-ne : (a : ℤ) → int_eq (inc64 a) a ≡ false
unfolding inc64
inc64-ne (pos n) = ground arith
inc64-ne (negsuc zero) = refl
inc64-ne (negsuc (suc n)) = ground arith

pub dec32-inc32 : (n : ℕ) → n < max_int32 → dec32 (inc32 (pos n)) ≡ pos n
unfolding inc32 dec32
dec32-inc32 n h = ground arith

abbrev pub add : ℤ → ℤ → ℤ
add (pos m) (pos n) = pos (m + n)
add (pos m) (negsuc n) = if ltb n m then pos (m - n - 1) else negsuc (n - m)
add (negsuc m) (pos n) = if ltb m n then pos (n - m - 1) else negsuc (m - n)
add (negsuc m) (negsuc n) = negsuc (m + n + 1)

-- The value of a signed type whose greatest value is `top` that is congruent to an integer.
abbrev pub wrap : ℕ → ℤ → ℤ
wrap top (pos n) =
    let r = n % (2 * top + 2) in if leb r top then pos r else negsuc (2 * top + 1 - r)
wrap top (negsuc n) =
    let r = n % (2 * top + 2) in if leb r top then negsuc r else pos (2 * top + 1 - r)

unfoldable pub add64 : ℤ → ℤ → ℤ
add64 a b = wrap max_int64 (add a b)

abbrev negate : ℤ → ℤ
negate (pos zero) = pos 0
negate (pos (suc n)) = negsuc n
negate (negsuc n) = pos (n + 1)

unfoldable pub sub64 : ℤ → ℤ → ℤ
sub64 a b = wrap max_int64 (add a (negate b))

abbrev pub int_min : ℤ → ℤ → ℤ
int_min x y = if int_lt y x then y else x

abbrev pub int_max : ℤ → ℤ → ℤ
int_max x y = if int_lt x y then y else x
