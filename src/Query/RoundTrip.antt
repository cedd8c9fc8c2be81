-- ===== src/Query/RoundTrip.antt =====
-- A query that is printed from names and encoded values, read back by `parseURLValues`.
use wfa.Base.{
  ℕ, zero, suc, ◌≡◌, refl, ap, ◌∙◌, none, ◌≤◌, ◌<◌, false, [], ◌∷◌, ◌++◌, Bytes, length,
  length-append, arith, append-nil, is_empty, if◌then◌else◌, same,
}
use wfa.Base.Map.{Map, lookup, assign, lookup-assign}
use wfa.Base.Scan.{
  before, from, skip, Lacks, before_of_Lacks, from_of_Lacks, before_all, from_none, Lacks-append,
}
use wfa.Query.{replace_plus, parse_pair, parse_pairs, parse_url_values}

abbrev pub print_pair : Bytes × Bytes → Bytes
print_pair (n, v) = n ++ b'=' ∷ v

unfoldable pub print_rest : Map → Bytes
print_rest [] = []
print_rest (p ∷ ps) = b'&' ∷ (print_pair p ++ print_rest ps)

-- "name=value&name=value".
unfoldable pub print_query : Map → Bytes
unfolding print_rest
print_query [] = []
print_query (p ∷ ps) = print_pair p ++ print_rest ps

-- No name is empty or has '=' or '&', no value has '&'.
abbrev pub ArePairs : Map → Type 0
ArePairs [] = Unit
ArePairs ((n, v) ∷ ps) =
    (is_empty n ≡ false) × Lacks b'=' n × Lacks b'&' n × Lacks b'&' v × ArePairs ps

module _ (unescape : Bytes → Bytes) where
  -- The value that a printed one stands for: the empty text is not unescaped.
  abbrev pub decode : Bytes → Bytes
  decode v = if is_empty v then [] else unescape (replace_plus v)

  unfoldable pub assign_decoded : Map → Map → Map
  assign_decoded values [] = values
  assign_decoded values ((n, v) ∷ ps) = assign_decoded (assign values n (decode v)) ps

before-print : (p : Bytes) (ps : Map) → Lacks b'&' p → before b'&' (p ++ print_rest ps) ≡ p
unfolding print_rest
before-print p [] h = rw append-nil (before_all b'&' p h)
before-print p (q ∷ ps) h = before_of_Lacks b'&' p _ h

after-print :
    (p : Bytes) (ps : Map) → Lacks b'&' p → skip (from b'&' (p ++ print_rest ps)) ≡ print_query ps
after-print p [] h = unfold print_rest print_query in rw (append-nil, from_none b'&' p h) refl
after-print p (q ∷ ps) h =
    unfold print_rest print_query in
    rw (from_of_Lacks b'&' p (print_pair q ++ print_rest ps) h) refl

parse_pair-print :
    (unescape : Bytes → Bytes) (n v : Bytes) (values : Map)
    → Lacks b'=' n
    → parse_pair unescape (n ++ b'=' ∷ v) values ≡ assign values n (decode unescape v)
unfolding parse_pair
parse_pair-print unescape n [] values h =
    rw (before_of_Lacks b'=' n [] h, from_of_Lacks b'=' n [] h) refl
parse_pair-print unescape n (x ∷ v) values h =
    rw (before_of_Lacks b'=' n (x ∷ v) h, from_of_Lacks b'=' n (x ∷ v) h) refl

is_empty-append : (xs : Bytes) (y : ℕ) (ys zs : Bytes) → is_empty ((xs ++ y ∷ ys) ++ zs) ≡ false
is_empty-append [] y ys zs = refl
is_empty-append (x ∷ xs) y ys zs = refl

length-print_rest : (ps : Map) → length (print_query ps) ≤ length (print_rest ps)
unfolding print_rest print_query
length-print_rest [] = omega arith
length-print_rest (p ∷ ps) = omega arith

print_query-cons :
    (n v : Bytes) (ps : Map) → print_query ((n, v) ∷ ps) ≡ (n ++ b'=' ∷ v) ++ print_rest ps
unfolding print_query
print_query-cons n v ps = refl

length-print_query :
    (n v : Bytes) (ps : Map) → length (print_query ps) < length (print_query ((n, v) ∷ ps))
length-print_query n v ps = rw print_query-cons (
    omega (
      arith,
      length-append (n ++ b'=' ∷ v) (print_rest ps),
      length-append n (b'=' ∷ v),
      length-print_rest ps,
    ))

module _ (unescape : Bytes → Bytes) where
  -- One round, at a query that is printed.
  parse_pairs-print :
      (fuel : ℕ) (n v : Bytes) (ps values : Map)
      → ArePairs ((n, v) ∷ ps)
      → parse_pairs unescape (suc fuel) (print_query ((n, v) ∷ ps)) values
        ≡ parse_pairs unescape fuel (print_query ps) (assign values n (decode unescape v))
  parse_pairs-print fuel n v ps values (named, no_equals, no_amp, no_amp_in, others) =
      let no_amp_at = Lacks-append b'&' n (b'=' ∷ v) no_amp (ground arith) in
      unfold parse_pairs in
      rw
        (
          print_query-cons n v ps,
          is_empty-append n b'=' v (print_rest ps),
          after-print (n ++ b'=' ∷ v) ps no_amp_at,
          before-print (n ++ b'=' ∷ v) ps no_amp_at,
          parse_pair-print unescape n v values no_equals,
        )
        refl

  parse_pairs-assign :
      (fuel : ℕ) (ps values : Map)
      → ArePairs ps
      → length (print_query ps) ≤ fuel
      → parse_pairs unescape fuel (print_query ps) values ≡ assign_decoded unescape values ps
  unfolding assign_decoded
  parse_pairs-assign zero [] values a h = unfold parse_pairs in refl
  parse_pairs-assign (suc fuel) [] values a h = unfold print_query parse_pairs in refl
  parse_pairs-assign zero ((n, v) ∷ ps) values a h =
      absurd (omega (arith, length-print_query n v ps))
  parse_pairs-assign (suc fuel) ((n, v) ∷ ps) values a h =
      rw (parse_pairs-print fuel n v ps values a) (
        parse_pairs-assign fuel ps (assign values n (decode unescape v)) a.4
          (omega (arith, length-print_query n v ps)))

  lookup-assign_decoded :
      (ps values : Map)
      → ArePairs ps
      → lookup (assign_decoded unescape values ps) [] ≡ lookup values []
  unfolding assign_decoded lookup same
  lookup-assign_decoded [] values a = refl
  lookup-assign_decoded (([], v) ∷ ps) values a = ground arith
  lookup-assign_decoded ((c ∷ n, v) ∷ ps) values a =
      lookup-assign_decoded ps (assign values (c ∷ n) (decode unescape v)) a.4
      ∙ lookup-assign values (c ∷ n) (decode unescape v) []

  -- For every unescaping: a query printed from names that are not empty and have no '=' and '&',
  -- and values without '&', is read by parseURLValues as the assignment of each value to its name,
  -- in their order, and gives no element with an empty name; a value is unescaped after its '+'
  -- became spaces, and an empty one stays empty.
  pub parse_url_values-print_query :
      (ps : Map)
      → ArePairs ps
      → (parse_url_values unescape (print_query ps) ≡ assign_decoded unescape [] ps)
        × (lookup (parse_url_values unescape (print_query ps)) [] ≡ none)
  unfolding parse_url_values
  parse_url_values-print_query ps a =
      let read = parse_pairs-assign (length (print_query ps)) ps [] a (omega arith) in
      (read, ap (λ (m : Map). lookup m []) read ∙ unfold lookup in lookup-assign_decoded ps [] a)
