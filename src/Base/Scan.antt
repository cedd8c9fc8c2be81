-- ===== src/Base/Scan.antt =====
-- `std::find` over a byte range, with the ranges that it splits.
use Prim.Native.Nat.{ℕ, ◌≤◌}
use mathlib.Core.Path.{◌≡◌, refl}
use mathlib.Core.Logic.{◌≢◌}
use mathlib.Core.List.{[], ◌∷◌, ◌++◌}
use native.Mathlib.Omega.{arith}
use wfa.Base.Tests.{◌==◌, if◌then◌else◌}
use wfa.Base.Lists.{length}
use wfa.Base.Text.{Bytes}

-- The range before the first `c`: all of it, if there is none.
unfoldable pub before : ℕ → Bytes → Bytes
before c [] = []
before c (x ∷ xs) = if x == c then [] else x ∷ before c xs

-- The range from the first `c` to the end: empty, if there is none.
unfoldable pub from : ℕ → Bytes → Bytes
from c [] = []
from c (x ∷ xs) = if x == c then x ∷ xs else from c xs

-- `++it`, where the range is not at its end.
abbrev pub skip : Bytes → Bytes
skip [] = []
skip (x ∷ xs) = xs

abbrev pub Lacks : ℕ → Bytes → Type 0
Lacks c [] = Unit
Lacks c (x ∷ xs) = (x ≢ c) × Lacks c xs

pub before-from : (c : ℕ) (xs : Bytes) → before c xs ++ from c xs ≡ xs
unfolding before from
before-from c [] = refl
before-from c (x ∷ xs) = ground (arith, before-from c xs)

pub length-from : (c : ℕ) (xs : Bytes) → length (from c xs) ≤ length xs
unfolding from
length-from c [] = omega arith
length-from c (x ∷ xs) = ground (arith, length-from c xs)

pub length-skip : (xs : Bytes) → length (skip xs) ≤ length xs
length-skip [] = omega arith
length-skip (x ∷ xs) = omega arith

module _ (c : ℕ) where
  pub before_of_Lacks : (xs ys : Bytes) → Lacks c xs → before c (xs ++ c ∷ ys) ≡ xs
  unfolding before
  before_of_Lacks [] ys h = ground arith
  before_of_Lacks (x ∷ xs) ys h = ground (arith, before_of_Lacks xs ys)

  pub from_of_Lacks : (xs ys : Bytes) → Lacks c xs → from c (xs ++ c ∷ ys) ≡ c ∷ ys
  unfolding from
  from_of_Lacks [] ys h = ground arith
  from_of_Lacks (x ∷ xs) ys h = ground (arith, from_of_Lacks xs ys)

  pub before_all : (xs : Bytes) → Lacks c xs → before c xs ≡ xs
  unfolding before
  before_all [] h = refl
  before_all (x ∷ xs) h = ground (arith, before_all xs)

  pub from_none : (xs : Bytes) → Lacks c xs → from c xs ≡ []
  unfolding from
  from_none [] h = refl
  from_none (x ∷ xs) h = ground (arith, from_none xs)

pub Lacks-append : (c : ℕ) (xs ys : Bytes) → Lacks c xs → Lacks c ys → Lacks c (xs ++ ys)
Lacks-append c [] ys h g = g
Lacks-append c (x ∷ xs) ys h g = (h.0, Lacks-append c xs ys h.1 g)
