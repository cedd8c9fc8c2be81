-- ===== src/Response/Parse/Steps.antt =====
-- One call of each function of `fromData`, at a printed text.
use wfa.Base.{
  ℕ, zero, suc, ◌+◌, ◌≤◌, ◌<◌, ◌≡◌, refl, Bool, true, false, some, List, [], ◌∷◌, ◌++◌, Bytes,
  is_empty, length, length-append, if◌then◌else◌, arith,
}
use wfa.Base.Result.{ok}
use wfa.Base.Scan.{skip, before_of_Lacks, from_of_Lacks}
use wfa.Response.{Entries, Container, nil, entry, strings, objects, done, object}
use wfa.Response.Print.{print_strings, print_entries, print_value}
use wfa.Response.Parse.{
  then_read, with_entry, from_data, read_entries, read_array, read_objects, Read,
}
use wfa.Response.Parse.Blocks.{
  PlainKey, PlainValue, PlainValues, body, print_entries-body, Flat, match_block-wrap,
}
use wfa.Response.Parse.Pieces.{
  last_or-append, drop_last-append, split_values-print, skip-body, before-body, skip-from-body,
  first_or-value, first_or-body, first_or-values,
}

-- One call of each function, at a printed text.
module _ (fuel : ℕ) (key : Bytes) (plain_key : PlainKey key) (rest : Entries) where
  pub read_entries-value :
      (v : Bytes)
      → PlainValue v
      → read_entries (suc fuel) (key ++ b':' ∷ (v ++ body rest true))
        ≡ with_entry key false (strings v []) (read_entries fuel (body rest false))
  read_entries-value v h =
      unfold read_entries in
      rw
        (
          before_of_Lacks b':' key (v ++ body rest true) plain_key.0,
          from_of_Lacks b':' key (v ++ body rest true) plain_key.0,
          first_or-value b'{' v (body rest true) h.1.0
              (first_or-body b'{' rest (ground arith) (ground arith)),
          first_or-value b'[' v (body rest true) h.1.2
              (first_or-body b'[' rest (ground arith) (ground arith)),
          before-body v rest h.0,
          skip-from-body v rest h.0,
        )
        refl

  pub read_entries-array :
      (xs : Bytes)
      → Flat b'[' b']' xs
      → read_entries (suc fuel) (key ++ b':' ∷ ((b'[' ∷ (xs ++ b']' ∷ [])) ++ body rest true))
        ≡ read_array fuel key xs b']' (read_entries fuel (body rest false))
  read_entries-array xs h =
      let after = (b'[' ∷ (xs ++ b']' ∷ [])) ++ body rest true in
      unfold read_entries in
      rw
        (
          before_of_Lacks b':' key after plain_key.0,
          from_of_Lacks b':' key after plain_key.0,
          match_block-wrap b'[' b']' xs (body rest true) (ground arith) h,
          drop_last-append xs b']',
          skip-body rest,
        )
        refl

  pub read_entries-object :
      (xs : Bytes)
      → Flat b'{' b'}' xs
      → read_entries (suc fuel) (key ++ b':' ∷ ((b'{' ∷ (xs ++ b'}' ∷ [])) ++ body rest true))
        ≡ then_read
            (from_data fuel (b'{' ∷ (xs ++ b'}' ∷ [])))
            (λ e. with_entry key false (objects e done) (read_entries fuel (body rest false)))
  read_entries-object xs h =
      let after = (b'{' ∷ (xs ++ b'}' ∷ [])) ++ body rest true in
      unfold read_entries in
      rw
        (
          before_of_Lacks b':' key after plain_key.0,
          from_of_Lacks b':' key after plain_key.0,
          match_block-wrap b'{' b'}' xs (body rest true) (ground arith) h,
          skip-body rest,
        )
        refl

pub read_array-values :
    (fuel : ℕ) (key v : Bytes) (vs : List Bytes) (others : Read)
    → PlainValue v
    → PlainValues vs
    → read_array (suc fuel) key (v ++ print_strings vs) b']' others
      ≡ with_entry key true (strings v vs) others
read_array-values fuel key v vs others h k =
    unfold read_array in rw (first_or-values v vs h.1.0, split_values-print v vs h k) refl

pub from_data-object :
    (fuel : ℕ) (xs : Bytes) → from_data (suc fuel) (b'{' ∷ (xs ++ b'}' ∷ [])) ≡ read_entries fuel xs
from_data-object fuel xs =
    unfold from_data in rw (last_or-append b'{' b'}' xs, drop_last-append xs b'}') refl

pub read_objects-step :
    (fuel : ℕ) (xs ys : Bytes)
    → Flat b'{' b'}' xs
    → read_objects (suc fuel) ((b'{' ∷ (xs ++ b'}' ∷ [])) ++ ys) b']'
      ≡ then_read (from_data fuel (b'{' ∷ (xs ++ b'}' ∷ []))) (λ e.
        if is_empty ys
        then ok (some (e, done))
        else then_read (read_objects fuel (skip ys) b']') λ (d, os). ok (some (e, object d os)))
read_objects-step fuel xs ys h =
    unfold read_objects in rw (match_block-wrap b'{' b'}' xs ys (ground arith) h) refl

pub length-object :
    (e : Entries) → length (b'{' ∷ print_entries e false) ≡ length (body e false) + 2
length-object e = rw print_entries-body (omega (arith, length-append (body e false) (b'}' ∷ [])))

pub length-body :
    (key : Bytes) (forced : Bool) (c : Container) (rest : Entries)
    → length (body (entry key forced c rest) false)
      ≡ length key + 1 + length (print_value c forced) + length (body rest true)
unfolding body
length-body key forced c rest = omega (
  arith,
  length-append key (b':' ∷ (print_value c forced ++ body rest true)),
  length-append (print_value c forced) (body rest true),
)

pub length-body-later : (e : Entries) → length (body e false) ≤ length (body e true)
unfolding body
length-body-later nil = omega arith
length-body-later (entry key forced c rest) = omega arith

pub length-brackets : (xs : Bytes) → length (b'[' ∷ (xs ++ b']' ∷ [])) ≡ length xs + 2
length-brackets xs = omega (arith, length-append xs (b']' ∷ []))

-- A call with enough fuel takes one round, with the bound's fuel or more behind it.
pub one_round :
    {bound : ℕ} (Reads : ℕ → Type 0)
    → ((left : ℕ) → bound ≤ left → Reads (suc left))
    → (fuel : ℕ) → bound < fuel
    → Reads fuel
one_round Reads round (suc left) b = round left (omega arith)
one_round Reads round zero b = absurd (omega arith)
