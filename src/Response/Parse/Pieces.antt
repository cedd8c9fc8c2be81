-- ===== src/Response/Parse/Pieces.antt =====
-- The functions of `fromData` on printed texts, and the value that is read back.
use wfa.Base.{
  ℕ, ◌≡◌, refl, ap, ◌≢◌, Bool, true, false, ◌||◌, List, [], ◌∷◌, ◌++◌, Bytes, append-nil, ◌==◌,
  arith,
}
use wfa.Base.Scan.{before, from, skip, Lacks, before_of_Lacks, from_of_Lacks, before_all, from_none}
use wfa.Response.{
  Entries, Container, Objects, nil, entry, strings, objects, done, object, any_more, is_many,
}
use wfa.Response.Print.{print_strings}
use wfa.Response.Parse.{first_or, drop_last, last_or, split_values}
use wfa.Response.Parse.Blocks.{PlainValue, PlainValues, body}

-- What is read back: an array is forced.
unfoldable mutual
  pub normal : Entries → Entries
  normal nil = nil
  normal (entry key forced c rest) =
      entry key (is_array c || forced) (normal_container c) (normal rest)

  pub is_array : Container → Bool
  is_array (strings v vs) = any_more vs
  is_array (objects e os) = is_many os

  pub normal_container : Container → Container
  normal_container (strings v vs) = strings v vs
  normal_container (objects e os) = objects (normal e) (normal_objects os)

  pub normal_objects : Objects → Objects
  normal_objects done = done
  normal_objects (object e os) = object (normal e) (normal_objects os)

pub last_or-append : (c d : ℕ) (s : Bytes) → last_or c (s ++ d ∷ []) ≡ d
unfolding last_or
last_or-append c d [] = refl
last_or-append c d (x ∷ s) = last_or-append x d s

pub drop_last-append : (s : Bytes) (c : ℕ) → drop_last (s ++ c ∷ []) ≡ s
unfolding drop_last
drop_last-append [] c = refl
drop_last-append (x ∷ []) c = refl
drop_last-append (x ∷ y ∷ s) c = ap (λ (t : Bytes). x ∷ t) (drop_last-append (y ∷ s) c)

pub split_values-plain : (v : Bytes) → Lacks b',' v → split_values v ≡ (v, [])
unfolding split_values
split_values-plain [] h = refl
split_values-plain (x ∷ v) h = ground (arith, split_values-plain v)

pub split_values-cons :
    (v s : Bytes)
    → Lacks b',' v
    → split_values (v ++ b',' ∷ s) ≡ (v, (split_values s).0 ∷ (split_values s).1)
unfolding split_values
split_values-cons [] s h = refl
split_values-cons (x ∷ v) s h = ground (arith, split_values-cons v s)

pub split_values-print :
    (v : Bytes) (vs : List Bytes)
    → PlainValue v
    → PlainValues vs
    → split_values (v ++ print_strings vs) ≡ (v, vs)
unfolding print_strings
split_values-print v [] h k = rw append-nil (split_values-plain v h.0)
split_values-print v (w ∷ vs) h k =
    rw (split_values-cons v (w ++ print_strings vs) h.0, split_values-print w vs k.0 k.1) refl

-- The range behind an element starts with a comma, or is empty.
pub skip-body : (e : Entries) → skip (body e true) ≡ body e false
unfolding body
skip-body nil = refl
skip-body (entry key forced c rest) = refl

pub before-body : (v : Bytes) (e : Entries) → Lacks b',' v → before b',' (v ++ body e true) ≡ v
unfolding body
before-body v nil h = rw append-nil (before_all b',' v h)
before-body v (entry key forced c rest) h = before_of_Lacks b',' v _ h

pub skip-from-body :
    (v : Bytes) (e : Entries) → Lacks b',' v → skip (from b',' (v ++ body e true)) ≡ body e false
unfolding body
skip-from-body v nil h = rw (append-nil, from_none b',' v h) refl
skip-from-body v (entry key forced c rest) h = rw (from_of_Lacks b',' v _ h) refl

pub first_or-value :
    (d : ℕ) (v s : Bytes) → Lacks d v → first_or b'}' s ≢ d → (first_or b'}' (v ++ s) == d) ≡ false
first_or-value d [] s h k = ground arith
first_or-value d (x ∷ v) s h k = ground arith

pub first_or-body : (d : ℕ) (e : Entries) → d ≢ b'}' → d ≢ b',' → first_or b'}' (body e true) ≢ d
unfolding body
first_or-body d nil n m = ground arith
first_or-body d (entry key forced c rest) n m = ground arith

pub first_or-values :
    (v : Bytes) (vs : List Bytes)
    → Lacks b'{' v
    → (first_or b']' (v ++ print_strings vs) == b'{') ≡ false
unfolding print_strings
first_or-values [] [] h = refl
first_or-values [] (w ∷ vs) h = refl
first_or-values (x ∷ v) vs h = ground arith
