-- ===== src/Response/Parse/RoundTrip.antt =====
-- What `fromData` reads from the compact print of a response.
use wfa.Base.{
  ℕ, suc, ◌+◌, ◌*◌, ◌<◌, ◌≡◌, refl, ◌∙◌, Bool, true, false, ◌||◌, some, [], ◌∷◌, ◌++◌, Bytes,
  append-nil, length, length-append, arith,
}
use wfa.Base.Result.{ok}
use wfa.Base.Scan.{from}
use wfa.Response.{
  to_data, Entries, Container, Objects, nil, entry, strings, objects, done, object, is_many,
}
use wfa.Response.Print.Refines.{to_data-print}
use wfa.Response.Print.{print_value, print_objects, print}
use wfa.Response.Parse.{from_data, read_entries, read_array, read_objects, from_data_all, Read}
use wfa.Response.Parse.Blocks.{
  PlainKey, ArePlain, IsPlain, AllPlain, body, print_entries-body, Flat, Flat-append, curly-Passes,
  square-Passes, body-Flat, print_objects-Flat,
}
use wfa.Response.Parse.Pieces.{normal, normal_objects}
use wfa.Response.Parse.Steps.{
  read_entries-array, read_entries-object, from_data-object, read_objects-step, length-body,
  length-body-later, length-brackets, one_round,
}
use wfa.Response.Parse.Values.{ReadsValue, read_value-strings}

-- The range of one object.
abbrev block : Entries → Bytes
block e = b'{' ∷ (body e false ++ b'}' ∷ [])

abbrev ReadsObject : Entries → Type 0
ReadsObject e =
    (fuel : ℕ) → 2 * length (block e) < fuel → from_data fuel (block e) ≡ ok (some (normal e))

abbrev ReadsObjects : Entries → Objects → Type 0
ReadsObjects e os =
    (fuel : ℕ)
    → 2 * length (block e ++ print_objects os) + 1 < fuel
    → read_objects fuel (block e ++ print_objects os) b']' ≡ ok (some (normal e, normal_objects os))

read_value-object :
    (key : Bytes)
    → PlainKey key
    → (e : Entries) → ArePlain e
    → ReadsObject e
    → ReadsValue key (objects e done) false
unfolding print_value print_objects normal
read_value-object key k e a back rest fuel b r =
    let size = rw (append-nil, print_entries-body e false) at b in
    rw (append-nil, print_entries-body e false)
      (rw
        (
          read_entries-object fuel key k rest (body e false)
              (body-Flat b'{' b'}' curly-Passes e false a),
          back fuel size,
          r,
        )
        refl)

block-Flat :
    (e : Entries) (os : Objects)
    → ArePlain e
    → AllPlain os
    → Flat b'[' b']' (block e ++ print_objects os)
block-Flat e os a b =
    Flat-append b'[' b']' (block e) _
      (square-Passes.curly (body e false) (body-Flat b'[' b']' square-Passes e false a))
      (print_objects-Flat b'[' b']' square-Passes os b)

read_array-objects :
    (key : Bytes) (e : Entries) (os : Objects) (others : Read) (r : Entries)
    → ReadsObjects e os
    → others ≡ ok (some r)
    → (fuel : ℕ) → 2 * length (block e ++ print_objects os) + 2 < fuel
    → read_array fuel key (block e ++ print_objects os) b']' others
      ≡ ok (some (entry key true (objects (normal e) (normal_objects os)) r))
read_array-objects key e os others r back h =
    one_round _ λ fuel b. unfold read_array in rw (back fuel (omega arith), h) refl

read_objects-array :
    (key : Bytes)
    → PlainKey key
    → (e : Entries) (os : Objects) → ArePlain e
    → AllPlain os
    → ReadsObjects e os
    → (rest : Entries) (fuel : ℕ) → 2 * length (block e ++ print_objects os) + 3 < fuel
    → read_entries fuel (body rest false) ≡ ok (some (normal rest))
    → read_entries
        (suc fuel)
        (key ++ b':' ∷ ((b'[' ∷ ((block e ++ print_objects os) ++ b']' ∷ [])) ++ body rest true))
      ≡ ok (some (entry key true (objects (normal e) (normal_objects os)) (normal rest)))
read_objects-array key k e os a as' back rest fuel b r =
    read_entries-array fuel key k rest (block e ++ print_objects os) (block-Flat e os a as')
    ∙ read_array-objects key e os _ (normal rest) back r fuel (omega arith)

-- The objects of an array, of one of which the recursion is given.
read_objects-one : (e : Entries) → ArePlain e → ReadsObject e → ReadsObjects e done
unfolding print_objects normal
read_objects-one e a back = one_round _ λ fuel b.
    rw (read_objects-step fuel (body e false) [] (body-Flat b'{' b'}' curly-Passes e false a)) (
      let size : 2 * length (block e) < fuel = omega (arith, length-append (block e) []) in
      rw (back fuel size) refl)

read_objects-more :
    (e d : Entries) (os : Objects)
    → ArePlain e
    → ReadsObject e
    → ReadsObjects d os
    → ReadsObjects e (object d os)
unfolding print_objects normal
read_objects-more e d os a back more = one_round _ λ fuel b.
    let b' = rw (print_entries-body d false) at b in
    let first_size : 2 * length (block e) < fuel =
      omega (arith, length-append (block e) (b',' ∷ (block d ++ print_objects os))) in
    let more_size : 2 * length (block d ++ print_objects os) + 1 < fuel =
      omega (arith, length-append (block e) (b',' ∷ (block d ++ print_objects os))) in
    rw (print_entries-body d false) (
      rw
        (
          read_objects-step fuel (body e false) (b',' ∷ (block d ++ print_objects os))
              (body-Flat b'{' b'}' curly-Passes e false a),
          back fuel first_size,
          more fuel more_size,
        )
        refl)

read_value-forced :
    (key : Bytes)
    → PlainKey key
    → (e : Entries) (os : Objects) → ArePlain e
    → AllPlain os
    → ReadsObjects e os
    → (forced : Bool) → (is_many os || forced) ≡ true
    → ReadsValue key (objects e os) forced
unfolding print_value normal
read_value-forced key k e os a as' back forced many rest fuel b r =
    let b' = rw (many, print_entries-body e false) at b in
    rw (many, print_entries-body e false)
      (read_objects-array key k e os a as' back rest fuel
        (omega (arith, length-brackets (block e ++ print_objects os))) r)

abbrev ReadsEntries : Entries → Type 0
ReadsEntries e =
    (fuel : ℕ)
    → 2 * length (body e false) + 1 < fuel
    → read_entries fuel (body e false) ≡ ok (some (normal e))

read_entries-nil : ReadsEntries nil
read_entries-nil = one_round _ λ fuel h. unfold read_entries from body normal in refl

read_entries-entry :
    (key : Bytes) (forced : Bool) (c : Container) (rest : Entries)
    → ReadsValue key c forced
    → ReadsEntries rest
    → ReadsEntries (entry key forced c rest)
read_entries-entry key forced c rest value back = one_round _ λ fuel h.
    let size = length-body key forced c rest in
    let later = length-body-later rest in
    let others = back fuel (omega arith) in unfold body in value rest fuel (omega arith) others

read_block : (e : Entries) → ReadsEntries e → ReadsObject e
read_block e back = one_round _ λ fuel h.
    from_data-object fuel (body e false)
    ∙ back fuel (omega (arith, length-append (body e false) (b'}' ∷ [])))

mutual
  unfolding ArePlain normal print_objects

  read_entries-body : (e : Entries) → ArePlain e → ReadsEntries e
  read_entries-body nil a = read_entries-nil
  read_entries-body (entry key forced c rest) a =
      read_entries-entry key forced c rest (read_container key a.0 c a.1 forced)
        (read_entries-body rest a.2)

  read_container :
      (key : Bytes)
      → PlainKey key
      → (c : Container) → IsPlain c
      → (forced : Bool) → ReadsValue key c forced
  read_container key k (strings v vs) a forced = read_value-strings key k v vs a.0 a.1 forced
  read_container key k (objects e done) a false =
      read_value-object key k e a.0 (read_block e (read_entries-body e a.0))
  read_container key k (objects e done) a true =
      read_value-forced key k e done a.0 a.1 (read_blocks done e a.0 (read_entries-body e a.0) a.1)
        true refl
  read_container key k (objects e (object d os)) a forced =
      read_value-forced key k e (object d os) a.0 a.1
        (read_blocks (object d os) e a.0 (read_entries-body e a.0) a.1) forced refl

  read_blocks :
      (os : Objects) (e : Entries) → ArePlain e → ReadsEntries e → AllPlain os → ReadsObjects e os
  read_blocks done e a back b = read_objects-one e a (read_block e back)
  read_blocks (object d os) e a back b =
      read_objects-more e d os a (read_block e back)
        (read_blocks os d b.0 (read_entries-body d b.0) b.1)

-- For every response of which no text has a bracket, no key a ':' and no value a ',': fromData
-- reads the compact text that toData gives back as that response, where each array counts as a
-- forced one; in particular it ends, and neither an assertion nor the end of a range stops it.
pub from_data-to_data :
    (e : Entries) → ArePlain e → from_data_all (to_data e false) ≡ ok (some (normal e))
unfolding from_data_all print
from_data-to_data e a =
    rw (to_data-print e, print_entries-body e false)
      (read_block e (read_entries-body e a) _ (omega arith))
