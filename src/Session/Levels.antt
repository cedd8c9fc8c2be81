-- ===== src/Session/Levels.antt =====
-- Server/include/Network.h, enum class authLevel. A level is any `int`, here by its 32-bit pattern:
-- a user may have a level above the named ones, and `static_cast` turns an unsigned int into one.
use wfa.Base.{ℕ, ◌+◌, ◌-◌, ◌%◌, ◌^◌, Bool, Bytes, ◌∷◌, ltb, leb, if◌then◌else◌}
use wfa.Base.Decimal.{to_string}

abbrev pub Level : Type 0
Level = ℕ

abbrev pub client : Level
client = 0

abbrev pub employee : Level
employee = 1

abbrev pub manager : Level
manager = 2

abbrev pub superuser : Level
superuser = 3

-- Adding 2^31 turns the order of the signed numbers into that of the patterns.
unfoldable pub biased : Level → ℕ
biased l = (l + 2 ^ 31) % 2 ^ 32

-- `held >= asked`, as `int`s.
unfoldable pub at_least : Level → Level → Bool
unfolding biased
at_least held asked = leb (biased asked) (biased held)

-- `std::to_string(static_cast<int>(level))`.
unfoldable pub level_to_string : Level → Bytes
level_to_string l = if ltb l (2 ^ 31) then to_string l else b'-' ∷ to_string (2 ^ 32 - l)
