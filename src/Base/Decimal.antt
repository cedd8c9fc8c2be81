-- ===== src/Base/Decimal.antt =====
-- `std::to_string` and `std::from_chars` for the unsigned integers, base 10.
use Prim.Native.Nat.{ℕ, zero, suc, ◌+◌, ◌-◌, ◌*◌, ◌/◌, ◌%◌, ◌^◌, ◌≤◌, ◌<◌}
use mathlib.Core.Path.{◌≡◌}
use mathlib.Core.Bool.{Bool, true, false, ◌&&◌}
use mathlib.Core.Option.{Option, none, some}
use mathlib.Core.List.{[], ◌∷◌}
use native.Mathlib.Omega.{arith}
use wfa.Base.Tests.{ltb, leb, ◌==◌, if◌then◌else◌}
use wfa.Base.Text.{Bytes}

-- One digit a round; `n` rounds are enough for `n`.
emit : ℕ → ℕ → Bytes → Bytes
emit zero n out = out
emit (suc f) n out =
    let rest = emit f (n / 10) ((b'0' + n % 10) ∷ out) in if n == 0 then out else rest

unfoldable pub to_string : ℕ → Bytes
unfolding emit
to_string n = if n == 0 then b'0' ∷ [] else emit n n []

abbrev pub is_digit : ℕ → Bool
is_digit c = leb b'0' c && leb c b'9'

-- The value of the digits in front, read behind `n`; what is no digit ends the number.
unfoldable pub digits_value : Bytes → ℕ → ℕ
digits_value [] n = n
digits_value (c ∷ s) n =
    let more = digits_value s (n * 10 + (c - b'0')) in if is_digit c then more else n

abbrev pub starts_with_digit : Bytes → Bool
starts_with_digit [] = false
starts_with_digit (c ∷ s) = is_digit c

-- `none` is an error code: no digit in front, or a value that `width` bits do not hold.
unfoldable pub from_chars : ℕ → Bytes → Option ℕ
unfolding digits_value
from_chars width s =
    if starts_with_digit s
    then if ltb (digits_value s 0) (2 ^ width) then some (digits_value s 0) else none
    else none

digits_value_last :
    (n : ℕ) (out : Bytes) → digits_value ((b'0' + n % 10) ∷ out) (n / 10) ≡ digits_value out n
unfolding digits_value
digits_value_last n out = ground arith

digits_value-emit :
    (f n : ℕ) (out : Bytes) → n ≤ f → digits_value (emit f n out) 0 ≡ digits_value out n
unfolding emit
digits_value-emit zero n out h = ground arith
digits_value-emit (suc f) n out h =
    ground (arith, digits_value-emit f (n / 10) ((b'0' + n % 10) ∷ out), digits_value_last n out)

starts_with_digit-emit :
    (f n : ℕ) (out : Bytes) → starts_with_digit out ≡ true → starts_with_digit (emit f n out) ≡ true
unfolding emit
starts_with_digit-emit zero n out h = h
starts_with_digit-emit (suc f) n out h =
    ground (arith, starts_with_digit-emit f (n / 10) ((b'0' + n % 10) ∷ out))

starts_with_digit-to_string : (n : ℕ) → starts_with_digit (to_string n) ≡ true
unfolding to_string
starts_with_digit-to_string zero = ground arith
starts_with_digit-to_string (suc n) =
    ground (arith, starts_with_digit-emit n (suc n / 10) ((b'0' + suc n % 10) ∷ []))

digits_value-to_string : (n : ℕ) → digits_value (to_string n) 0 ≡ n
unfolding to_string digits_value
digits_value-to_string zero = ground arith
digits_value-to_string (suc n) = ground (arith, digits_value-emit (suc n) (suc n) [])

-- A number that fits is read back from its decimal print.
pub from_chars-to_string : (width n : ℕ) → n < 2 ^ width → from_chars width (to_string n) ≡ some n
unfolding from_chars
from_chars-to_string width n h =
    ground (arith, starts_with_digit-to_string n, digits_value-to_string n)
