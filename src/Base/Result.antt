-- ===== src/Base/Result.antt =====
-- What a function returns, or how it stops: an exception, a failed assertion, a read or a pointer
-- outside a range; `out_of_fuel` is a loop that the fuel did not finish.
use mathlib.Core.Path.{◌≡◌, refl}
use mathlib.Core.Bool.{Bool, true, false}
use mathlib.Core.Option.{Option, none, some}
use mathlib.Core.Logic.{◌≢◌}
use native.Mathlib.Omega.{arith}
use wfa.Base.Tests.{if◌then◌else◌}

pub data Result (A : Type 0) : Type 0 where
  ok : A → Result A
  thrown asserted outside out_of_fuel : Result A

-- What follows runs on the value.
infixl 5 ◌>>=◌
abbrev pub ◌>>=◌ : {A B : Type 0} → Result A → (A → Result B) → Result B
thrown >>= next = thrown
asserted >>= next = asserted
outside >>= next = outside
out_of_fuel >>= next = out_of_fuel
ok value >>= next = next value

-- `assert(c)`.
abbrev pub check : {A : Type 0} → Bool → Result A → Result A
check c r = if c then r else asserted

-- The fuel was enough.
abbrev pub Finishes : {A : Type 0} → Result A → Type 0
Finishes r = r ≢ out_of_fuel

pub Finishes-bind :
    {A B : Type 0} (r : Result A) (f : A → Result B)
    → Finishes r
    → ((a : A) → r ≡ ok a → Finishes (f a))
    → Finishes (r >>= f)
Finishes-bind (ok a) f h k = k a refl
Finishes-bind thrown f h k = ground arith
Finishes-bind asserted f h k = ground arith
Finishes-bind outside f h k = ground arith
Finishes-bind out_of_fuel f h k = absurd (h refl)

-- Equal continuations.
pub bind-ext :
    {A B : Type 0} (r : Result A) {f g : A → Result B} → ((a : A) → f a ≡ g a) → r >>= f ≡ r >>= g
bind-ext (ok a) h = h a
bind-ext thrown h = refl
bind-ext asserted h = refl
bind-ext outside h = refl
bind-ext out_of_fuel h = refl

pub bind_assoc :
    {A B C : Type 0} (r : Result A) (f : A → Result B) (g : B → Result C)
    → (r >>= f) >>= g ≡ r >>= λ a. f a >>= g
bind_assoc (ok a) f g = refl
bind_assoc thrown f g = refl
bind_assoc asserted f g = refl
bind_assoc outside f g = refl
bind_assoc out_of_fuel f g = refl

pub Finishes-if :
    {A : Type 0} (c : Bool) (r q : Result A)
    → (c ≡ true → Finishes r)
    → (c ≡ false → Finishes q)
    → Finishes (if c then r else q)
Finishes-if true r q h k = h refl
Finishes-if false r q h k = k refl

pub Finishes-option :
    {A B : Type 0} (o : Option A) (r : Result B) (f : A → Result B)
    → Finishes r
    → ((a : A) → o ≡ some a → Finishes (f a))
    → Finishes (elim o [ none ↦ r | some a ↦ f a ])
Finishes-option none r f h k = h
Finishes-option (some a) r f h k = k a refl

-- What a range inside gives.
pub inside-ok :
    {A : Type 0} (c : Bool) (a b : A) → (if c then ok a else outside) ≡ ok b → (c ≡ true) × (a ≡ b)
inside-ok true a b e = (refl, cc)
inside-ok false a b e = ground arith

pub Finishes-ok : {A : Type 0} (a : A) → Finishes (ok a)
Finishes-ok a = ground arith

pub Finishes-outside : {A : Type 0} → Finishes {A = A} outside
Finishes-outside = ground arith

pub Finishes-thrown : {A : Type 0} → Finishes {A = A} thrown
Finishes-thrown = ground arith

pub Finishes-asserted : {A : Type 0} → Finishes {A = A} asserted
Finishes-asserted = ground arith
