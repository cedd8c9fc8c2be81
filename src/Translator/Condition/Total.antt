-- ===== src/Translator/Condition/Total.antt =====
-- Any text of an "<HTMTCOND:" tag is read as a condition that can be checked.
use wfa.Base.{
  ℕ, zero, suc, ◌+◌, ◌<◌, ◌≡◌, refl, Bool, true, Option, none, some, List, [], ◌∷◌, Bytes, length,
  length-drop, drop, take, ◌==◌, arith,
}
use wfa.Base.Result.{Result, ok, ◌>>=◌}
use wfa.Response.{Entries}
use wfa.Translator.Condition.{
  SubCondition, Conjunction, Condition, check_sub, apply_conjunction, check_rest, check_condition,
  parse_sub_condition, find_divisor, find_divisor-inside, parse_conditions, parse_condition,
}

-- One conjunction fewer than there are conditions.
abbrev Paired : Condition → Type 0
Paired t = length t.conditions ≡ length t.conjunctions + 1

abbrev Reads : Result Condition → Type 0
Reads r = (t : Condition) × ((r ≡ ok t) × Paired t)

read_on :
    (c : SubCondition) (j : Conjunction) (r : Result Condition)
    → Reads r
    → Reads (
        r >>= λ rest.
        ok (record { conditions = c ∷ rest.conditions; conjunctions = j ∷ rest.conjunctions }))
read_on c j r (t, (e, p)) = (
  record { conditions = c ∷ t.conditions; conjunctions = j ∷ t.conjunctions },
  (rw e refl, omega (arith, p)),
)

Reads-option :
    (o : Option ℕ) (r : Result Condition) (f : ℕ → Result Condition)
    → Reads r
    → ((n : ℕ) → o ≡ some n → Reads (f n))
    → Reads (elim o [ none ↦ r | some n ↦ f n ])
Reads-option none r f h k = h
Reads-option (some n) r f h k = k n refl

parse_conditions-Reads : (fuel : ℕ) (s : Bytes) → length s < fuel → Reads (parse_conditions fuel s)
unfolding parse_conditions
parse_conditions-Reads zero s b = absurd (omega arith)
parse_conditions-Reads (suc fuel) s b =
    Reads-option (find_divisor s).0 _ _ (_, (refl, omega arith))
      λ n e. read_on (parse_sub_condition (take n s)) (find_divisor s).1 _ (
        parse_conditions-Reads fuel (drop (n + 1) s)
          (omega (arith, length-drop (n + 1) s, find_divisor-inside s n e)))

check_rest-total :
    (e : Entries) (cs : List SubCondition) (js : List Conjunction) (state : Bool)
    → length cs ≡ length js
    → (met : Bool) × (check_rest e state js cs ≡ ok met)
unfolding check_rest
check_rest-total e [] js state p = (state, refl)
check_rest-total e (c ∷ cs) [] state p = absurd (omega arith)
check_rest-total e (c ∷ cs) (j ∷ js) state p =
    check_rest-total e cs js (apply_conjunction state j (check_sub c e)) (omega arith)

check_condition-total :
    (t : Condition) (e : Entries) → Paired t → (met : Bool) × (check_condition t e ≡ ok met)
unfolding check_condition
check_condition-total t e p = first t.conditions p
  where
    first :
        (cs : List SubCondition)
        → length cs ≡ length t.conjunctions + 1
        → (met : Bool) × (elim cs [
          | [] ↦ ok true
          | c ∷ cs ↦ check_rest e (check_sub c e) t.conjunctions cs
        ]
            ≡ ok met)
    first [] p = (true, refl)
    first (c ∷ cs) p = check_rest-total e cs t.conjunctions (check_sub c e) (omega arith)

-- Whatever text stands in an HTMTCOND tag and whatever the response: the text parses without the
-- assertion on the number of conjunctions failing, and the check of the parsed condition gives a
-- truth value and reads no conjunction out of range.
pub parse_condition-total :
    (s : Bytes) (e : Entries)
    → (met : Bool) × ((parse_condition s >>= λ t. check_condition t e) ≡ ok met)
unfolding parse_condition
parse_condition-total s e =
    let (t, (read, p)) = parse_conditions-Reads (length s + 1) s (omega arith) in
    let paired : (length t.conditions == length t.conjunctions + 1) ≡ true = ground (arith, p) in
    rw (read, paired) (check_condition-total t e p)
