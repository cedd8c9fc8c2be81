-- ===== src/Translator/Condition.antt =====
-- Translator/src/Source.cpp, class translationCondition: the tests of an "<HTMTCOND:" tag.
pub mod Reading
pub mod Total
use wfa.Base.{
  ℕ, zero, suc, ◌+◌, ◌<◌, ◌≡◌, refl, arith, Bool, true, false, not, ◌&&◌, ◌||◌, Option, none, some,
  List, [], ◌∷◌, ◌++◌, Bytes, same, is_empty, ltb, ◌==◌, length, take, drop, if◌then◌else◌,
}
use wfa.Base.Result.{Result, ok, outside, out_of_fuel, check, ◌>>=◌}
use wfa.Base.Scan.{before, from, skip}
use wfa.Response.{Entries, Container, strings, objects, search}

pub data Comparison : Type 0 where
  equal not_equal always : Comparison

pub record SubCondition : Type 0 where
  pub action : Comparison
  pub constant : Bytes
  pub variable : Bytes

pub data Conjunction : Type 0 where
  and or : Conjunction

pub record Condition : Type 0 where
  pub conditions : List SubCondition
  pub conjunctions : List Conjunction

-- The value is one text, and that is the constant.
abbrev holds : Bytes → Option Container → Bool
holds constant none = false
holds constant (some (strings v [])) = same v constant
holds constant (some (strings v (w ∷ vs))) = false
holds constant (some (objects e os)) = false

unfoldable pub is_equal : SubCondition → Entries → Bool
is_equal c response = holds c.constant (search response c.variable)

abbrev compare_by : Comparison → Bool → Bool
compare_by equal b = b
compare_by not_equal b = not b
compare_by always b = true

-- `subCondition::check`.
unfoldable pub check_sub : SubCondition → Entries → Bool
unfolding is_equal
check_sub c response = compare_by c.action (is_equal c response)

unfoldable pub apply_conjunction : Bool → Conjunction → Bool → Bool
apply_conjunction left and right = left && right
apply_conjunction left or right = left || right

-- The loop of `check`, from the second condition on; a missing conjunction is a read out of range.
unfoldable pub check_rest : Entries → Bool → List Conjunction → List SubCondition → Result Bool
unfolding apply_conjunction check_sub
check_rest response state js [] = ok state
check_rest response state [] (c ∷ cs) = outside
check_rest response state (j ∷ js) (c ∷ cs) =
    check_rest response (apply_conjunction state j (check_sub c response)) js cs

unfoldable pub check_condition : Condition → Entries → Result Bool
unfolding check_rest check_sub
check_condition t response = elim t.conditions [
  | [] ↦ ok true
  | c ∷ cs ↦ check_rest response (check_sub c response) t.conjunctions cs
]

-- `parseSubCondition`: the first '=' divides, or the first '!' where there is no '='.
unfoldable pub parse_sub_condition : Bytes → SubCondition
parse_sub_condition source =
    if not (is_empty (from b'=' source))
    then record {
      action = equal;
      variable = before b'=' source;
      constant = skip (from b'=' source);
    }
    else if not (is_empty (from b'!' source))
    then record {
      action = not_equal;
      variable = before b'!' source;
      constant = skip (from b'!' source);
    }
    else record { action = always; variable = []; constant = [] }

-- `std::string_view::find` of a byte; `none` is npos.
unfoldable pub find_byte : ℕ → Bytes → Option ℕ
find_byte c [] = none
find_byte c (x ∷ s) =
    let later = find_byte c s in
    if x == c then some 0 else elim later [ none ↦ none | some n ↦ some (suc n) ]

-- The order of positions: npos is above all others.
abbrev pub is_before : Option ℕ → Option ℕ → Bool
is_before none q = false
is_before (some m) none = true
is_before (some m) (some n) = ltb m n

-- The loop over `divisors`: the nearest of '&' and '|'.
unfoldable pub find_divisor : Bytes → Option ℕ × Conjunction
unfolding find_byte
find_divisor s =
    if is_before (find_byte b'|' s) (find_byte b'&' s)
    then (find_byte b'|' s, or)
    else (find_byte b'&' s, and)

-- A byte is found inside the text.
find_byte-inside : (c : ℕ) (s : Bytes) (n : ℕ) → find_byte c s ≡ some n → n < length s
unfolding find_byte
find_byte-inside c [] n e = ground arith
find_byte-inside c (x ∷ s) n e = inside (find_byte c s) (find_byte-inside c s) (x == c) n e
  where
    inside :
        (o : Option ℕ)
        → ((m : ℕ) → o ≡ some m → m < length s)
        → (b : Bool) (n : ℕ)
        → (if b then some 0 else elim o [ none ↦ none | some m ↦ some (suc m) ]) ≡ some n
        → n < suc (length s)
    inside o h true n e = ground arith
    inside none h false n e = ground arith
    inside (some m) h false n e = ground (arith, h m refl)

pub find_divisor-inside : (s : Bytes) (n : ℕ) → (find_divisor s).0 ≡ some n → n < length s
unfolding find_divisor
find_divisor-inside s n e = ground (arith, find_byte-inside b'|' s n, find_byte-inside b'&' s n)

-- The loop of `parse`, from `left`. A round takes a byte or ends.
unfoldable pub parse_conditions : ℕ → Bytes → Result Condition
unfolding find_divisor parse_sub_condition
parse_conditions zero left = out_of_fuel
parse_conditions (suc fuel) left =
    let (at, conjunction) = find_divisor left in
    elim at [
      | none ↦ ok (record { conditions = parse_sub_condition left ∷ []; conjunctions = [] })
      | some div ↦ parse_conditions fuel (drop (div + 1) left) >>= λ rest. ok (record {
        conditions = parse_sub_condition (take div left) ∷ rest.conditions;
        conjunctions = conjunction ∷ rest.conjunctions;
      })
    ]

unfoldable pub parse_condition : Bytes → Result Condition
unfolding parse_conditions
parse_condition source = parse_conditions (length source + 1) source >>= λ t.
    check (length t.conditions == length t.conjunctions + 1) (ok t)
