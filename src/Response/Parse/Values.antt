-- ===== src/Response/Parse/Values.antt =====
-- The value of an element, a text or an array of texts, as `fromData` reads it from a print.
use wfa.Base.{
  ℕ, suc, ◌*◌, ◌<◌, ◌≡◌, refl, ◌∙◌, Bool, true, false, some, List, [], ◌∷◌, ◌++◌, Bytes, append-nil,
  length, arith,
}
use wfa.Base.Result.{ok}
use wfa.Response.{Entries, Container, entry, strings}
use wfa.Response.Print.{print_strings, print_value}
use wfa.Response.Parse.{read_entries, read_array, Read}
use wfa.Response.Parse.Blocks.{
  PlainKey, PlainValue, PlainValues, body, print_strings-Flat, Flat-append, square-Passes,
}
use wfa.Response.Parse.Pieces.{normal}
use wfa.Response.Parse.Steps.{read_entries-value, read_entries-array, read_array-values, one_round}

-- The parts that the element's value adds, at the fuel left for it.
abbrev pub ReadsValue : Bytes → Container → Bool → Type 0
ReadsValue key c forced =
    (rest : Entries) (fuel : ℕ)
    → 2 * length (print_value c forced) < fuel
    → read_entries fuel (body rest false) ≡ ok (some (normal rest))
    → read_entries (suc fuel) (key ++ b':' ∷ (print_value c forced ++ body rest true))
      ≡ ok (some (normal (entry key forced c rest)))

pub read_array-print :
    (key v : Bytes) (vs : List Bytes) (others : Read) (r : Entries)
    → PlainValue v
    → PlainValues vs
    → others ≡ ok (some r)
    → (fuel : ℕ) → 0 < fuel
    → read_array fuel key (v ++ print_strings vs) b']' others
      ≡ ok (some (entry key true (strings v vs) r))
read_array-print key v vs others r h k e =
    one_round _ λ fuel b. rw (read_array-values fuel key v vs others h k, e) refl

pub read_strings-array :
    (key : Bytes)
    → PlainKey key
    → (v : Bytes) (vs : List Bytes) → PlainValue v
    → PlainValues vs
    → (rest : Entries) (fuel : ℕ) → 0 < fuel
    → read_entries fuel (body rest false) ≡ ok (some (normal rest))
    → read_entries
        (suc fuel)
        (key ++ b':' ∷ ((b'[' ∷ ((v ++ print_strings vs) ++ b']' ∷ [])) ++ body rest true))
      ≡ ok (some (entry key true (strings v vs) (normal rest)))
read_strings-array key k v vs h hs rest fuel b r =
    read_entries-array fuel key k rest (v ++ print_strings vs) (
      Flat-append b'[' b']' v _ (square-Passes.plain v h.1)
        (print_strings-Flat b'[' b']' square-Passes vs hs))
    ∙ read_array-print key v vs _ (normal rest) h hs r fuel b

pub read_value-strings :
    (key : Bytes)
    → PlainKey key
    → (v : Bytes) (vs : List Bytes) → PlainValue v
    → PlainValues vs
    → (forced : Bool) → ReadsValue key (strings v vs) forced
unfolding print_value normal
read_value-strings key k v [] h hs false rest fuel b r =
    rw append-nil (rw (read_entries-value fuel key k rest v h, r) refl)
read_value-strings key k v [] h hs true rest fuel b r =
    read_strings-array key k v [] h hs rest fuel (omega arith) r
read_value-strings key k v (w ∷ vs) h hs forced rest fuel b r =
    read_strings-array key k v (w ∷ vs) h hs rest fuel (omega arith) r
