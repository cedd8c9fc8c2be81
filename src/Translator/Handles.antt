-- ===== src/Translator/Handles.antt =====
-- Translator/include/Curl.h, class curlwrapper: which wrapper owns which handle of libcurl.
pub mod Once
use wfa.Base.{
  ℕ, zero, suc, ◌+◌, ◌<◌, ◌≡◌, Bool, true, false, Option, none, some, List, [], ◌∷◌, length,
  if◌then◌else◌,
}
use wfa.Base.Slots.{Slots, get_slot, set_slot}

-- The handles cleaned up, the last one first; those that curl_easy_init gives are numbered.
pub record Wrappers : Type 0 where
  pub slots : Slots
  pub cleaned : List ℕ
  pub made : ℕ

-- `tidy`.
unfoldable pub tidy : ℕ → Wrappers → Wrappers
unfolding get_slot set_slot
tidy x s = elim (get_slot s.slots x) [
  | none ↦ s
  | some h ↦ record { slots = set_slot s.slots x none; cleaned = h ∷ s.cleaned; made = s.made }
]

-- The constructor; curl_easy_init may fail.
unfoldable pub construct : Bool → ℕ → Wrappers → Wrappers
unfolding set_slot
construct valid x s =
    if valid
    then record { slots = set_slot s.slots x (some s.made); cleaned = s.cleaned; made = suc s.made }
    else record { slots = set_slot s.slots x none; cleaned = s.cleaned; made = s.made }

-- `object = other.object; other.object = nullptr;`: the move constructor.
unfoldable pub take_over : ℕ → ℕ → Wrappers → Wrappers
unfolding get_slot set_slot
take_over x y s = record {
  slots = set_slot (set_slot s.slots x (get_slot s.slots y)) y none;
  cleaned = s.cleaned;
  made = s.made;
}

-- The move assignment.
unfoldable pub move_assign : ℕ → ℕ → Wrappers → Wrappers
unfolding tidy take_over
move_assign x y s = take_over x y (tidy x s)

-- What a program may do: a wrapper is constructed where none lives, and each variable exists.
pub data Step : Wrappers → Wrappers → Type 0 where
  constructs :
      (valid : Bool) (x : ℕ) (s : Wrappers)
      → x < length s.slots
      → get_slot s.slots x ≡ none
      → Step s (construct valid x s)
  move_constructs :
      (x y : ℕ) (s : Wrappers)
      → x < length s.slots
      → y < length s.slots
      → get_slot s.slots x ≡ none
      → Step s (take_over x y s)
  assigns :
      (x y : ℕ) (s : Wrappers)
      → x < length s.slots
      → y < length s.slots
      → Step s (move_assign x y s)
  destructs : (x : ℕ) (s : Wrappers) → x < length s.slots → Step s (tidy x s)

pub data Reach (s : Wrappers) : Wrappers → Type 0 where
  here : Reach s s
  then_step : {t u : Wrappers} → Reach s t → Step t u → Reach s u
