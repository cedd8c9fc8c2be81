-- ===== src/Base/Spaces.antt =====
-- White space, as `std::isspace` tells it in the C locale.
use Prim.Native.Nat.{ℕ}
use mathlib.Core.Bool.{Bool, ◌&&◌, ◌||◌}
use mathlib.Core.List.{[], ◌∷◌}
use wfa.Base.Tests.{leb, ◌==◌, if◌then◌else◌}
use wfa.Base.Text.{Bytes}

abbrev pub is_space : ℕ → Bool
is_space c = c == b' ' || (leb 9 c && leb c 13)

unfoldable pub skip_spaces : Bytes → Bytes
skip_spaces [] = []
skip_spaces (c ∷ s) = if is_space c then skip_spaces s else c ∷ s
