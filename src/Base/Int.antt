-- ===== src/Base/Int.antt =====
-- `long` as an integer, and `std::stol`, base 10.
use Prim.Native.Nat.{ℕ, zero, suc, ◌-◌, ◌^◌}
use mathlib.Core.Bool.{Bool, true, false}
use mathlib.Core.List.{[], ◌∷◌}
use wfa.Base.Decimal.{digits_value, starts_with_digit}
use wfa.Base.Spaces.{skip_spaces}
use wfa.Base.Result.{Result, ok, thrown}
use wfa.Base.Tests.{ltb, leb, ◌==◌, if◌then◌else◌}
use wfa.Base.Text.{Bytes}

-- `negsuc n` is -(n + 1).
pub data ℤ : Type 0 where
  pos negsuc : ℕ → ℤ

abbrev pub same_int : ℤ → ℤ → Bool
same_int (pos m) (pos n) = m == n
same_int (negsuc m) (negsuc n) = m == n
same_int a b = false

-- `long` has 32 bits under Visual C++, the compiler for which the code is written: it names an
-- enumerator `and`.
abbrev pub long_bits : ℕ
long_bits = 32

abbrev negative : ℕ → ℤ
negative zero = pos 0
negative (suc n) = negsuc n

-- No digit, or a value that `long` does not hold, throws.
unfoldable pub signed_value : Bool → Bytes → Result ℤ
unfolding digits_value
signed_value minus s =
    let n = digits_value s 0 in
    if starts_with_digit s
    then if minus
      then (if leb n (2 ^ (long_bits - 1)) then ok (negative n) else thrown)
      else (if ltb n (2 ^ (long_bits - 1)) then ok (pos n) else thrown)
    else thrown

unfoldable pub after_spaces : Bytes → Result ℤ
unfolding signed_value
after_spaces [] = thrown
after_spaces (c ∷ s) =
    if c == b'-'
    then signed_value true s
    else if c == b'+'
    then signed_value false s
    else signed_value false (c ∷ s)

unfoldable pub stol : Bytes → Result ℤ
unfolding skip_spaces after_spaces
stol s = after_spaces (skip_spaces s)
