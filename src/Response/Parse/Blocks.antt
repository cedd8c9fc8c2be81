-- ===== src/Response/Parse/Blocks.antt =====
-- How the lambda `match` of `fromData` passes over a printed text, up to the bracket that closes.
use wfa.Base.{
  ℕ, ◌+◌, ◌-◌, ◌≡◌, refl, ◌≢◌, ◌⊎◌, inl, inr, Bool, true, false, Option, none, some, List, [], ◌∷◌,
  ◌++◌, Bytes, append_assoc, if◌then◌else◌, arith,
}
use wfa.Base.Scan.{Lacks}
use wfa.Response.{Entries, Container, Objects, nil, entry, strings, objects, done, object}
use wfa.Response.Print.{print_strings, print_entries, print_value, print_objects, brackets}
use wfa.Response.Parse.{prepend, find_close, match_block}

abbrev pub NoBrackets : Bytes → Type 0
NoBrackets s = Lacks b'{' s × Lacks b'}' s × Lacks b'[' s × Lacks b']' s

abbrev pub PlainKey : Bytes → Type 0
PlainKey k = Lacks b':' k × NoBrackets k

abbrev pub PlainValue : Bytes → Type 0
PlainValue v = Lacks b',' v × NoBrackets v

abbrev pub PlainValues : List Bytes → Type 0
PlainValues [] = Unit
PlainValues (v ∷ vs) = PlainValue v × PlainValues vs

-- No text holds a bracket, no key a ':' and no value a ','.
unfoldable mutual
  pub ArePlain : Entries → Type 0
  ArePlain nil = Unit
  ArePlain (entry key forced c rest) = PlainKey key × IsPlain c × ArePlain rest

  pub IsPlain : Container → Type 0
  IsPlain (strings v vs) = PlainValue v × PlainValues vs
  IsPlain (objects e os) = ArePlain e × AllPlain os

  pub AllPlain : Objects → Type 0
  AllPlain done = Unit
  AllPlain (object e os) = ArePlain e × AllPlain os

-- The print of the elements without the closing brace.
unfoldable pub body : Entries → Bool → Bytes
body nil later = []
body (entry key forced c rest) later =
    (if later then b',' ∷ [] else []) ++ (key ++ b':' ∷ (print_value c forced ++ body rest true))

pub print_entries-body :
    (e : Entries) (later : Bool) → print_entries e later ≡ body e later ++ b'}' ∷ []
unfolding print_entries body
print_entries-body nil later = refl
print_entries-body (entry key forced c rest) later =
    rw (print_entries-body rest true) (simp append_assoc)

abbrev prepend_all : Bytes → Option (Bytes × Bytes) → Option (Bytes × Bytes)
prepend_all xs none = none
prepend_all xs (some (a, b)) = some (xs ++ a, b)

-- At every depth the loop passes over the text and is back at that depth.
pub record Flat (o c : ℕ) (xs : Bytes) : Type 0 where
  pub at : (d : ℕ) (ys : Bytes) → find_close o c d (xs ++ ys) ≡ prepend_all xs (find_close o c d ys)

prepend_all-append :
    (xs ys : Bytes) (r : Option (Bytes × Bytes))
    → prepend_all (xs ++ ys) r ≡ prepend_all xs (prepend_all ys r)
prepend_all-append xs ys none = refl
prepend_all-append xs ys (some (a, b)) = simp append_assoc

prepend_all-cons :
    (x : ℕ) (xs : Bytes) (r : Option (Bytes × Bytes))
    → prepend x (prepend_all xs r) ≡ prepend_all (x ∷ xs) r
prepend_all-cons x xs none = refl
prepend_all-cons x xs (some (a, b)) = refl

prepend_all-nil : (r : Option (Bytes × Bytes)) → prepend_all [] r ≡ r
prepend_all-nil none = refl
prepend_all-nil (some (a, b)) = refl

prepend_wrap :
    (x : ℕ) (xs : Bytes) (y : ℕ) (r : Option (Bytes × Bytes))
    → prepend x (prepend_all xs (prepend y r)) ≡ prepend_all (x ∷ (xs ++ y ∷ [])) r
prepend_wrap x xs y none = refl
prepend_wrap x xs y (some (a, b)) = simp append_assoc

module _ (o c : ℕ) where
  find_close-other :
      (d x : ℕ) (s : Bytes)
      → x ≢ o
      → x ≢ c
      → find_close o c d (x ∷ s) ≡ prepend x (find_close o c d s)
  unfolding find_close
  find_close-other d x s n m = ground arith

  find_close-open :
      (d : ℕ) (s : Bytes) → find_close o c d (o ∷ s) ≡ prepend o (find_close o c (d + 1) s)
  unfolding find_close
  find_close-open d s = ground arith

  find_close-close :
      (d : ℕ) (s : Bytes) → c ≢ o → find_close o c (d + 1) (c ∷ s) ≡ prepend c (find_close o c d s)
  unfolding find_close
  find_close-close d s n = let e : (d + 1) - 1 ≡ d = omega arith in ground arith

  find_close-last : (s : Bytes) → c ≢ o → find_close o c 0 (c ∷ s) ≡ some (c ∷ [], s)
  unfolding find_close
  find_close-last s n = ground arith

  Flat-nil : Flat o c []
  Flat-nil = record { at = λ d ys. rw prepend_all-nil refl }

  pub Flat-append : (xs ys : Bytes) → Flat o c xs → Flat o c ys → Flat o c (xs ++ ys)
  Flat-append xs ys h k = record {
    at = λ d zs. rw (append_assoc, h.at d (ys ++ zs), k.at d zs, prepend_all-append) refl;
  }

  Flat-cons : (x : ℕ) (xs : Bytes) → x ≢ o → x ≢ c → Flat o c xs → Flat o c (x ∷ xs)
  Flat-cons x xs n m h = record {
    at = λ d ys. rw (find_close-other d x _ n m, h.at d ys, prepend_all-cons) refl;
  }

  Flat-Lacks : (xs : Bytes) → Lacks o xs → Lacks c xs → Flat o c xs
  Flat-Lacks [] h k = Flat-nil
  Flat-Lacks (x ∷ xs) h k = Flat-cons x xs h.0 k.0 (Flat-Lacks xs h.1 k.1)

  find_close-done :
      (xs ys : Bytes)
      → c ≢ o
      → Flat o c xs
      → find_close o c 0 (xs ++ c ∷ ys) ≡ some (xs ++ c ∷ [], ys)
  find_close-done xs ys n h = rw (h.at 0 (c ∷ ys), find_close-last ys n) refl

  Flat-wrap : (xs : Bytes) → c ≢ o → Flat o c xs → Flat o c (o ∷ (xs ++ c ∷ []))
  Flat-wrap xs n h = record {
    at = λ d ys.
        rw
          (
            find_close-open d _,
            append_assoc,
            h.at (d + 1) (c ∷ ys),
            find_close-close d ys n,
            prepend_wrap,
          )
          refl;
  }

  pub match_block-wrap :
      (xs ys : Bytes)
      → c ≢ o
      → Flat o c xs
      → match_block o c ((o ∷ (xs ++ c ∷ [])) ++ ys) ≡ some (o ∷ (xs ++ c ∷ []), ys)
  unfolding match_block
  match_block-wrap xs ys n h = rw (append_assoc, find_close-done xs ys n h) refl

-- What a kind of bracket passes over: texts, separators, and both kinds of brackets in pairs.
pub record Passes (o c : ℕ) : Type 0 where
  pub plain : (xs : Bytes) → NoBrackets xs → Flat o c xs
  pub sign : (x : ℕ) (xs : Bytes) → (x ≡ b',') ⊎ (x ≡ b':') → Flat o c xs → Flat o c (x ∷ xs)
  pub curly : (xs : Bytes) → Flat o c xs → Flat o c (b'{' ∷ (xs ++ b'}' ∷ []))
  pub square : (xs : Bytes) → Flat o c xs → Flat o c (b'[' ∷ (xs ++ b']' ∷ []))

sign-ne : (x o : ℕ) → o ≢ b',' → o ≢ b':' → (x ≡ b',') ⊎ (x ≡ b':') → x ≢ o
sign-ne x o n m (inl e) = ground arith
sign-ne x o n m (inr e) = ground arith

pub curly-Passes : Passes b'{' b'}'
curly-Passes = record {
  plain = λ xs h. Flat-Lacks b'{' b'}' xs h.0 h.1;
  sign = λ x xs e.
      Flat-cons b'{' b'}' x xs (sign-ne x b'{' (ground arith) (ground arith) e)
        (sign-ne x b'}' (ground arith) (ground arith) e);
  curly = λ xs. Flat-wrap b'{' b'}' xs (ground arith);
  square = λ xs h. Flat-cons b'{' b'}' b'[' _ (ground arith) (ground arith) (
      Flat-append b'{' b'}' xs _ h
        (Flat-cons b'{' b'}' b']' [] (ground arith) (ground arith) (Flat-nil b'{' b'}')));
}

pub square-Passes : Passes b'[' b']'
square-Passes = record {
  plain = λ xs h. Flat-Lacks b'[' b']' xs h.2 h.3;
  sign = λ x xs e.
      Flat-cons b'[' b']' x xs (sign-ne x b'[' (ground arith) (ground arith) e)
        (sign-ne x b']' (ground arith) (ground arith) e);
  curly = λ xs h. Flat-cons b'[' b']' b'{' _ (ground arith) (ground arith) (
      Flat-append b'[' b']' xs _ h
        (Flat-cons b'[' b']' b'}' [] (ground arith) (ground arith) (Flat-nil b'[' b']')));
  square = λ xs. Flat-wrap b'[' b']' xs (ground arith);
}

module _ (o c : ℕ) (p : Passes o c) where
  pub print_strings-Flat : (vs : List Bytes) → PlainValues vs → Flat o c (print_strings vs)
  unfolding print_strings
  print_strings-Flat [] h = Flat-nil o c
  print_strings-Flat (v ∷ vs) h =
      p.sign b',' _ (inl refl) (Flat-append o c v _ (p.plain v h.0.1) (print_strings-Flat vs h.1))

  brackets-Flat : (many : Bool) (xs : Bytes) → Flat o c xs → Flat o c (brackets many xs)
  brackets-Flat true xs h = p.square xs h
  brackets-Flat false xs h = h

  pub object-Flat :
      (e : Entries) → Flat o c (body e false) → Flat o c (b'{' ∷ print_entries e false)
  object-Flat e h = rw print_entries-body (p.curly (body e false) h)

  mutual
    unfolding body print_entries ArePlain

    pub body-Flat : (e : Entries) (later : Bool) → ArePlain e → Flat o c (body e later)
    body-Flat nil later h = Flat-nil o c
    body-Flat (entry key forced v rest) true h = p.sign b',' _ (inl refl) (
        Flat-append o c key _ (p.plain key h.0.1) (
          p.sign b':' _ (inr refl)
            (Flat-append o c _ _ (print_value-Flat v forced h.1) (body-Flat rest true h.2))))
    body-Flat (entry key forced v rest) false h = Flat-append o c key _ (p.plain key h.0.1) (
        p.sign b':' _ (inr refl)
          (Flat-append o c _ _ (print_value-Flat v forced h.1) (body-Flat rest true h.2)))

    pub print_value-Flat :
        (v : Container) (forced : Bool) → IsPlain v → Flat o c (print_value v forced)
    print_value-Flat (strings v vs) forced h =
        brackets-Flat _ _ (Flat-append o c v _ (p.plain v h.0.1) (print_strings-Flat vs h.1))
    print_value-Flat (objects e os) forced h =
        brackets-Flat _ _
          (Flat-append o c _ _ (object-Flat e (body-Flat e false h.0)) (print_objects-Flat os h.1))

    pub print_objects-Flat : (os : Objects) → AllPlain os → Flat o c (print_objects os)
    print_objects-Flat done h = Flat-nil o c
    print_objects-Flat (object e os) h =
        p.sign b',' _ (inl refl)
          (Flat-append o c _ _ (object-Flat e (body-Flat e false h.0)) (print_objects-Flat os h.1))
