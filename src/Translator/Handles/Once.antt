-- ===== src/Translator/Handles/Once.antt =====
-- Each handle has one owner until it is cleaned up, and is cleaned up once.
use wfa.Base.{
  ℕ, suc, ◌+◌, ◌<◌, ◌≡◌, refl, Bool, true, false, none, some, [], ◌∷◌, length, leb, if◌then◌else◌,
  Option-cases, inl, inr, arith,
}
use wfa.Base.Slots.{
  get_slot, set_slot, owners, cleanings, length-set_slot, owners-set_slot, get_slot-set_slot,
  get_slot-copy, no_objects, owners-no_objects,
}
use wfa.Translator.Handles.{
  Wrappers, tidy, construct, take_over, move_assign, Step, constructs, move_constructs, assigns,
  destructs, Reach, here, then_step,
}

-- Owners and cleanings together: one for each handle that was made, none for another number.
abbrev pub IsAccounted : Wrappers → Type 0
IsAccounted s =
    (h : ℕ) → owners h s.slots + cleanings h s.cleaned ≡ (if leb (suc h) s.made then 1 else 0)

tidy-none : (x : ℕ) (s : Wrappers) → get_slot s.slots x ≡ none → tidy x s ≡ s
unfolding tidy
tidy-none x s e = rw (tidy, e) refl

tidy-some :
    (x k : ℕ) (s : Wrappers)
    → get_slot s.slots x ≡ some k
    → tidy x s ≡ record { slots = set_slot s.slots x none; cleaned = k ∷ s.cleaned; made = s.made }
unfolding tidy
tidy-some x k s e = rw (tidy, e) refl

pub tidy-IsAccounted :
    (x : ℕ) (s : Wrappers) → x < length s.slots → IsAccounted s → IsAccounted (tidy x s)
unfolding cleanings
tidy-IsAccounted x s b inv h = elim (Option-cases (get_slot s.slots x)) [
  | inl e ↦ rw (tidy-none x s e) (inv h)
  | inr (k, e) ↦
      rw (tidy-some x k s e) (omega (arith, inv h, (rw e at (owners-set_slot h s.slots x none b))))
]

-- Behind `tidy` the slot is empty, and as many slots stand.
tidy-empty :
    (x : ℕ) (s : Wrappers)
    → x < length s.slots
    → (get_slot (tidy x s).slots x ≡ none) × (length (tidy x s).slots ≡ length s.slots)
tidy-empty x s b = elim (Option-cases (get_slot s.slots x)) [
  | inl e ↦ rw (tidy-none x s e) (e, refl)
  | inr (k, e) ↦
      rw (tidy-some x k s e) (get_slot-set_slot s.slots x none b, length-set_slot s.slots x none)
]

pub construct-IsAccounted :
    (valid : Bool) (x : ℕ) (s : Wrappers)
    → x < length s.slots
    → get_slot s.slots x ≡ none
    → IsAccounted s
    → IsAccounted (construct valid x s)
unfolding construct
construct-IsAccounted true x s b e inv h =
    ground (arith, inv h, (rw e at (owners-set_slot h s.slots x (some s.made) b)))
construct-IsAccounted false x s b e inv h =
    omega (arith, inv h, (rw e at (owners-set_slot h s.slots x none b)))

pub take_over-IsAccounted :
    (x y : ℕ) (s : Wrappers)
    → x < length s.slots
    → y < length s.slots
    → get_slot s.slots x ≡ none
    → IsAccounted s
    → IsAccounted (take_over x y s)
unfolding take_over
take_over-IsAccounted x y s b c e inv h =
    let moved = set_slot s.slots x (get_slot s.slots y) in
    omega (
      arith,
      inv h,
      (rw e at (owners-set_slot h s.slots x (get_slot s.slots y) b)),
      (rw (get_slot-copy s.slots x y) at (
          owners-set_slot h moved y none
            (omega (arith, length-set_slot s.slots x (get_slot s.slots y))))),
    )

Step-IsAccounted : {s t : Wrappers} → Step s t → IsAccounted s → IsAccounted t
unfolding move_assign
Step-IsAccounted (constructs valid x s b e) inv = construct-IsAccounted valid x s b e inv
Step-IsAccounted (move_constructs x y s b c e) inv = take_over-IsAccounted x y s b c e inv
Step-IsAccounted (assigns x y s b c) inv =
    take_over-IsAccounted x y (tidy x s) (omega (arith, (tidy-empty x s b).1))
      (omega (arith, (tidy-empty x s b).1)) (tidy-empty x s b).0 (tidy-IsAccounted x s b inv)
Step-IsAccounted (destructs x s b) inv = tidy-IsAccounted x s b inv

abbrev pub start : ℕ → Wrappers
start n = record { slots = no_objects n; cleaned = []; made = 0 }

pub start-IsAccounted : (n : ℕ) → IsAccounted (start n)
unfolding cleanings
start-IsAccounted n h = ground (arith, owners-no_objects h n)

Reach-IsAccounted : (n : ℕ) {t : Wrappers} → Reach (start n) t → IsAccounted t
Reach-IsAccounted n here = start-IsAccounted n
Reach-IsAccounted n (then_step r st) = Step-IsAccounted st (Reach-IsAccounted n r)

-- Whatever sequence of constructions (of a variable where no wrapper lives), move constructions,
-- move assignments (also of a variable to itself) and destructions a program makes on any number
-- of curlwrapper variables, and whether curl_easy_init succeeds or not: each handle made so far
-- either has exactly one owner and was not cleaned up, or was cleaned up exactly once and has no
-- owner; so none leaks, none is freed twice and none is used after its end.
pub Reach-once :
    (n h : ℕ) (t : Wrappers)
    → Reach (start n) t
    → h < t.made
    → owners h t.slots + cleanings h t.cleaned ≡ 1
Reach-once n h t r b = ground (arith, Reach-IsAccounted n r h)
