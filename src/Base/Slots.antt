-- ===== src/Base/Slots.antt =====
-- Variables that own handles by a pointer: Translator/include/Curl.h and Server/include/Database.h.
use wfa.Base.{
  ℕ, zero, suc, ◌+◌, ◌<◌, ◌≡◌, refl, ap, Option, none, some, List, [], ◌∷◌, length, ◌==◌,
  if◌then◌else◌, arith,
}

-- The variables in a row, each with its handle: `none` for nullptr, and where no object lives.
abbrev pub Slots : Type 0
Slots = List (Option ℕ)

unfoldable pub get_slot : Slots → ℕ → Option ℕ
get_slot [] i = none
get_slot (o ∷ slots) zero = o
get_slot (o ∷ slots) (suc i) = get_slot slots i

unfoldable pub set_slot : Slots → ℕ → Option ℕ → Slots
set_slot [] i v = []
set_slot (o ∷ slots) zero v = v ∷ slots
set_slot (o ∷ slots) (suc i) v = o ∷ set_slot slots i v

-- How often a handle stands in a slot, in all slots, and in a list of those given back.
abbrev pub in_slot : ℕ → Option ℕ → ℕ
in_slot h none = 0
in_slot h (some k) = if k == h then 1 else 0

unfoldable pub owners : ℕ → Slots → ℕ
owners h [] = 0
owners h (o ∷ slots) = in_slot h o + owners h slots

unfoldable pub cleanings : ℕ → List ℕ → ℕ
cleanings h [] = 0
cleanings h (k ∷ cleaned) = (if k == h then 1 else 0) + cleanings h cleaned

pub length-set_slot :
    (slots : Slots) (i : ℕ) (v : Option ℕ) → length (set_slot slots i v) ≡ length slots
unfolding set_slot
length-set_slot [] i v = refl
length-set_slot (o ∷ slots) zero v = refl
length-set_slot (o ∷ slots) (suc i) v = ap suc (length-set_slot slots i v)

pub owners-set_slot :
    (h : ℕ) (slots : Slots) (i : ℕ) (v : Option ℕ)
    → i < length slots
    → owners h (set_slot slots i v) + in_slot h (get_slot slots i) ≡ owners h slots + in_slot h v
unfolding owners set_slot get_slot
owners-set_slot h [] i v b = absurd (omega arith)
owners-set_slot h (o ∷ slots) zero v b = omega arith
owners-set_slot h (o ∷ slots) (suc i) v b = omega (arith, owners-set_slot h slots i v (omega arith))

pub get_slot-set_slot :
    (slots : Slots) (i : ℕ) (v : Option ℕ) → i < length slots → get_slot (set_slot slots i v) i ≡ v
unfolding set_slot get_slot
get_slot-set_slot [] i v b = absurd (omega arith)
get_slot-set_slot (o ∷ slots) zero v b = refl
get_slot-set_slot (o ∷ slots) (suc i) v b = get_slot-set_slot slots i v (omega arith)

-- A slot keeps its handle while another one gets a copy of it.
pub get_slot-copy :
    (slots : Slots) (x y : ℕ) → get_slot (set_slot slots x (get_slot slots y)) y ≡ get_slot slots y
unfolding set_slot get_slot
get_slot-copy [] x y = refl
get_slot-copy (o ∷ slots) zero zero = refl
get_slot-copy (o ∷ slots) zero (suc y) = refl
get_slot-copy (o ∷ slots) (suc x) zero = refl
get_slot-copy (o ∷ slots) (suc x) (suc y) = get_slot-copy slots x y

-- Variables before any constructor.
unfoldable pub no_objects : ℕ → Slots
no_objects zero = []
no_objects (suc n) = none ∷ no_objects n

pub owners-no_objects : (h n : ℕ) → owners h (no_objects n) ≡ 0
unfolding owners no_objects
owners-no_objects h zero = refl
owners-no_objects h (suc n) = omega (arith, owners-no_objects h n)
