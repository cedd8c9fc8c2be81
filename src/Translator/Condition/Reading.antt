-- ===== src/Translator/Condition/Reading.antt =====
-- What the text of an "<HTMTCOND:" tag stands for: tests, combined from left to right.
use wfa.Base.{
  ℕ, zero, suc, ◌+◌, ◌<◌, ◌≡◌, refl, ap, Bool, true, false, Option, none, some, List, [], ◌∷◌, ◌++◌,
  Bytes, length, length-append, take-length, drop-length, ◌==◌, if◌then◌else◌, arith,
}
use wfa.Base.Result.{ok, ◌>>=◌}
use wfa.Base.Scan.{from, Lacks, Lacks-append, before_of_Lacks, from_of_Lacks, from_none}
use wfa.Response.{Entries}
use wfa.Translator.Condition.{
  equal, not_equal, always, SubCondition, Conjunction, and, or, Condition, check_sub,
  apply_conjunction, check_rest, check_condition, parse_sub_condition, find_byte, is_before,
  find_divisor, parse_conditions, parse_condition,
}

-- A test of a variable against a constant, and a test that always holds.
pub data Test : Type 0 where
  equals differs : Bytes → Bytes → Test
  holds : Test

abbrev pub sub_of : Test → SubCondition
sub_of (equals x v) = record { action = equal; constant = v; variable = x }
sub_of (differs x v) = record { action = not_equal; constant = v; variable = x }
sub_of holds = record { action = always; constant = []; variable = [] }

abbrev pub print_test : Test → Bytes
print_test (equals x v) = x ++ b'=' ∷ v
print_test (differs x v) = x ++ b'!' ∷ v
print_test holds = []

abbrev pub sign : Conjunction → ℕ
sign and = b'&'
sign or = b'|'

abbrev pub Links : Type 0
Links = List (Conjunction × Test)

abbrev pub print_tests : Test → Links → Bytes
print_tests t [] = print_test t
print_tests t ((j, u) ∷ r) = print_test t ++ sign j ∷ print_tests u r

-- No divisor in a test, and no operator before its own.
abbrev Undivided : Bytes → Type 0
Undivided s = Lacks b'&' s × Lacks b'|' s

abbrev pub PlainTest : Test → Type 0
PlainTest (equals x v) = (Undivided x × Undivided v) × Lacks b'=' x
PlainTest (differs x v) =
    (Undivided x × Undivided v) × ((Lacks b'=' x × Lacks b'!' x) × Lacks b'=' v)
PlainTest holds = Unit

abbrev pub PlainTests : Test → Links → Type 0
PlainTests t [] = PlainTest t
PlainTests t ((j, u) ∷ r) = PlainTest t × PlainTests u r

-- From left to right, neither conjunction first.
abbrev pub evaluate : Bool → Links → Entries → Bool
evaluate state [] e = state
evaluate state ((j, u) ∷ r) e = evaluate (apply_conjunction state j (check_sub (sub_of u) e)) r e

abbrev subs_of : Links → List SubCondition
subs_of [] = []
subs_of ((j, u) ∷ r) = sub_of u ∷ subs_of r

abbrev conjunctions_of : Links → List Conjunction
conjunctions_of [] = []
conjunctions_of ((j, u) ∷ r) = j ∷ conjunctions_of r

abbrev condition_of : Test → Links → Condition
condition_of t r = record { conditions = sub_of t ∷ subs_of r; conjunctions = conjunctions_of r }

parse_sub_condition-print : (t : Test) → PlainTest t → parse_sub_condition (print_test t) ≡ sub_of t
unfolding parse_sub_condition
parse_sub_condition-print (equals x v) h =
    rw (from_of_Lacks b'=' x v h.1, before_of_Lacks b'=' x v h.1) refl
parse_sub_condition-print (differs x v) h =
    rw
      (
        from_none b'=' (x ++ b'!' ∷ v) (Lacks-append b'=' x _ h.1.0.0 (ground arith, h.1.1)),
        from_of_Lacks b'!' x v h.1.0.1,
        before_of_Lacks b'!' x v h.1.0.1,
      )
      refl
parse_sub_condition-print holds h = unfold from in refl

print_test-Undivided : (t : Test) → PlainTest t → Undivided (print_test t)
print_test-Undivided (equals x v) h = (
  Lacks-append b'&' x _ h.0.0.0 (ground arith, h.0.1.0),
  Lacks-append b'|' x _ h.0.0.1 (ground arith, h.0.1.1),
)
print_test-Undivided (differs x v) h = (
  Lacks-append b'&' x _ h.0.0.0 (ground arith, h.0.1.0),
  Lacks-append b'|' x _ h.0.0.1 (ground arith, h.0.1.1),
)
print_test-Undivided holds h = (tt, tt)

abbrev shift : ℕ → Option ℕ → Option ℕ
shift n none = none
shift n (some m) = some (n + m)

shift-zero : (o : Option ℕ) → o ≡ shift 0 o
shift-zero none = refl
shift-zero (some m) = ground arith

shift-suc :
    (b : Bool) (n : ℕ) (o : Option ℕ)
    → b ≡ false
    → (if b then some 0 else elim (shift n o) [ none ↦ none | some m ↦ some (suc m) ])
      ≡ shift (suc n) o
shift-suc true n o h = ground arith
shift-suc false n none h = refl
shift-suc false n (some m) h = ground arith

find_byte-append :
    (c : ℕ) (xs ys : Bytes)
    → Lacks c xs
    → find_byte c (xs ++ ys) ≡ shift (length xs) (find_byte c ys)
unfolding find_byte
find_byte-append c [] ys h = shift-zero (find_byte c ys)
find_byte-append c (x ∷ xs) ys h =
    rw (find_byte-append c xs ys h.1)
      (shift-suc (x == c) (length xs) (find_byte c ys) (ground arith))

find_byte-Lacks : (c : ℕ) (xs : Bytes) → Lacks c xs → find_byte c xs ≡ none
unfolding find_byte
find_byte-Lacks c [] h = refl
find_byte-Lacks c (x ∷ xs) h = rw (find_byte-Lacks c xs h.1) (ground arith)

find_divisor-print :
    (xs : Bytes) (j : Conjunction) (ys : Bytes)
    → Undivided xs
    → find_divisor (xs ++ sign j ∷ ys) ≡ (some (length xs), j)
unfolding find_divisor find_byte
find_divisor-print xs and ys h =
    rw (find_byte-append b'|' xs (b'&' ∷ ys) h.1, find_byte-append b'&' xs (b'&' ∷ ys) h.0)
      (nearest (find_byte b'|' ys))
  where
    nearest :
        (o : Option ℕ)
        → ◌≡◌ {A = Option ℕ × Conjunction}
            (if is_before
                (shift (length xs) (elim o [ none ↦ none | some n ↦ some (suc n) ]))
                (some (length xs + 0))
              then (shift (length xs) (elim o [ none ↦ none | some n ↦ some (suc n) ]), or)
              else (some (length xs + 0), and))
            (some (length xs), and)
    nearest none = ground arith
    nearest (some n) = ground arith
find_divisor-print xs or ys h =
    rw (find_byte-append b'|' xs (b'|' ∷ ys) h.1, find_byte-append b'&' xs (b'|' ∷ ys) h.0)
      (nearest (find_byte b'&' ys))
  where
    nearest :
        (o : Option ℕ)
        → ◌≡◌ {A = Option ℕ × Conjunction}
            (if is_before
                (some (length xs + 0))
                (shift (length xs) (elim o [ none ↦ none | some n ↦ some (suc n) ]))
              then (some (length xs + 0), or)
              else (shift (length xs) (elim o [ none ↦ none | some n ↦ some (suc n) ]), and))
            (some (length xs), or)
    nearest none = ground arith
    nearest (some n) = ground arith

find_divisor-last : (xs : Bytes) → Undivided xs → (find_divisor xs).0 ≡ none
unfolding find_divisor
find_divisor-last xs h = rw (find_byte-Lacks b'|' xs h.1, find_byte-Lacks b'&' xs h.0) refl

parse_conditions-print :
    (fuel : ℕ) (t : Test) (r : Links)
    → length (print_tests t r) < fuel
    → PlainTests t r
    → parse_conditions fuel (print_tests t r) ≡ ok (condition_of t r)
unfolding parse_conditions
parse_conditions-print zero t r b h = absurd (omega arith)
parse_conditions-print (suc fuel) t [] b h =
    rw
      (
        parse_conditions,
        find_divisor-last (print_test t) (print_test-Undivided t h),
        parse_sub_condition-print t h,
      )
      refl
parse_conditions-print (suc fuel) t ((j, u) ∷ r) b h =
    rw
      (
        parse_conditions,
        find_divisor-print (print_test t) j (print_tests u r) (print_test-Undivided t h.0),
        take-length (print_test t) (sign j ∷ print_tests u r),
        drop-length (print_test t) (sign j) (print_tests u r),
        parse_sub_condition-print t h.0,
        parse_conditions-print fuel u r
            (omega (arith, length-append (print_test t) (sign j ∷ print_tests u r))) h.1,
        ap (λ (p : Option ℕ × Conjunction). p.1)
            (find_divisor-print (print_test t) j (print_tests u r) (print_test-Undivided t h.0)),
      )
      refl

check_rest-evaluate :
    (e : Entries) (r : Links) (state : Bool)
    → check_rest e state (conjunctions_of r) (subs_of r) ≡ ok (evaluate state r e)
unfolding check_rest
check_rest-evaluate e [] state = refl
check_rest-evaluate e ((j, u) ∷ r) state =
    check_rest-evaluate e r (apply_conjunction state j (check_sub (sub_of u) e))

length_of_parts : (r : Links) → length (subs_of r) ≡ length (conjunctions_of r)
length_of_parts [] = refl
length_of_parts ((j, u) ∷ r) = omega (arith, length_of_parts r)

-- For tests printed as name=text, name!text or nothing and joined by '&' and '|' (no '&' or '|' in
-- a name or a text, no '=' in a name, for name!text no '!' in the name and no '=' in the text):
-- the parsed condition, checked against any response, gives the tests joined from left to right,
-- '&' and '|' with the same precedence; no read leaves its range.
pub parse_condition-evaluate :
    (t : Test) (r : Links) (e : Entries)
    → PlainTests t r
    → (parse_condition (print_tests t r) >>= λ c. check_condition c e)
      ≡ ok (evaluate (check_sub (sub_of t) e) r e)
unfolding parse_condition check_condition
parse_condition-evaluate t r e h =
    rw (parse_conditions-print (length (print_tests t r) + 1) t r (omega arith) h, paired)
      (check_rest-evaluate e r (check_sub (sub_of t) e))
  where
    paired : (suc (length (subs_of r)) == length (conjunctions_of r) + 1) ≡ true
    paired = ground (arith, length_of_parts r)
