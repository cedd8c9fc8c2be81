-- ===== src/Response/Parse/Ends.antt =====
-- The fuel of `fromData` is enough for every text.
use wfa.Base.{
  ◌≢◌, ℕ, zero, suc, ◌+◌, ◌-◌, ◌*◌, ◌≤◌, ◌<◌, ◌≡◌, refl, Bool, true, false, Option, none, some, [],
  ◌∷◌, ◌++◌, Bytes, is_empty, length, length-append, ◌==◌, if◌then◌else◌, arith,
}
use wfa.Base.Result.{
  Result, ok, thrown, asserted, outside, out_of_fuel, Finishes, Finishes-if, Finishes-ok,
}
use wfa.Base.Scan.{from, skip, length-from}
use wfa.Response.{Container}
use wfa.Response.Parse.{
  first_or, drop_last, last_or, prepend, find_close, match_block, Read, then_read, on_block,
  with_entry, from_data, read_entries, read_array, read_objects, from_data_all,
}

Finishes-then_read :
    {A B : Type 0} (r : Result (Option A)) (f : A → Result (Option B))
    → Finishes r
    → ((a : A) → Finishes (f a))
    → Finishes (then_read r f)
Finishes-then_read (ok none) f h k = ground arith
Finishes-then_read (ok (some a)) f h k = k a
Finishes-then_read thrown f h k = ground arith
Finishes-then_read asserted f h k = ground arith
Finishes-then_read outside f h k = ground arith
Finishes-then_read out_of_fuel f h k = absurd (h refl)

Finishes-on_block :
    {A : Type 0} (o : Option (Bytes × Bytes)) (f : Bytes → Bytes → Result A) (g : Result A)
    → ((a b : Bytes) → o ≡ some (a, b) → Finishes (f a b))
    → Finishes g
    → Finishes (on_block o f g)
Finishes-on_block none f g h k = k
Finishes-on_block (some (a, b)) f g h k = h a b refl

length-drop_last : (s : Bytes) → length (drop_last s) ≡ length s - 1
unfolding drop_last
length-drop_last [] = omega arith
length-drop_last (x ∷ []) = omega arith
length-drop_last (x ∷ y ∷ s) = omega (arith, length-drop_last (y ∷ s))

length-skip_sub : (s : Bytes) → length (skip s) ≡ length s - 1
length-skip_sub [] = omega arith
length-skip_sub (x ∷ s) = omega arith

abbrev Splits : Bytes → Option (Bytes × Bytes) → Type 0
Splits s none = Unit
Splits s (some (a, b)) = (0 < length a) × (length a + length b ≡ length s)

prepend-Splits :
    (x : ℕ) (s : Bytes) (o : Option (Bytes × Bytes)) → Splits s o → Splits (x ∷ s) (prepend x o)
prepend-Splits x s none h = tt
prepend-Splits x s (some (a, b)) h = omega arith

find_close-Splits : (o c d : ℕ) (s : Bytes) → Splits s (find_close o c d s)
unfolding find_close
find_close-Splits o c d [] = tt
find_close-Splits o c d (x ∷ s) =
    let d' = if x == o then d + 1 else if x == c then d - 1 else d in
    let more = prepend-Splits x s (find_close o c d' s) (find_close-Splits o c d' s) in ground arith

match_block-Splits : (o c : ℕ) (s : Bytes) → Splits s (match_block o c s)
unfolding match_block
match_block-Splits o c [] = tt
match_block-Splits o c (x ∷ s) = prepend-Splits x s _ (find_close-Splits o c 0 s)

match_block-length :
    (o c : ℕ) (s a b : Bytes)
    → match_block o c s ≡ some (a, b)
    → (0 < length a) × (length a + length b ≡ length s)
match_block-length o c s a b h = rw h at (match_block-Splits o c s)

length_of_nonempty : (s : Bytes) → is_empty s ≡ false → 0 < length s
length_of_nonempty [] h = ground arith
length_of_nonempty (x ∷ s) h = omega arith

length_of_first : (s : Bytes) (c d : ℕ) → c ≢ d → (first_or c s == d) ≡ true → 0 < length s
length_of_first [] c d n h = ground arith
length_of_first (x ∷ s) c d n h = omega arith

length-skip-from :
    (c : ℕ) (s : Bytes) → is_empty (from c s) ≡ false → length (skip (from c s)) + 1 ≤ length s
length-skip-from c s h =
    omega (arith, length-from c s, length-skip_sub (from c s), length_of_nonempty (from c s) h)

Finishes-with_entry :
    (key : Bytes) (forced : Bool) (c : Container) (r : Read)
    → Finishes r
    → Finishes (with_entry key forced c r)
Finishes-with_entry key forced c r h = Finishes-then_read r _ h (λ e. Finishes-ok _)

mutual
  unfolding from_data

  from_data-Finishes :
      (fuel : ℕ) (s : Bytes) → 2 * length s + 1 ≤ fuel → Finishes (from_data fuel s)
  from_data-Finishes zero s h = absurd (omega arith)
  from_data-Finishes (suc fuel) [] h = Finishes-ok _
  from_data-Finishes (suc fuel) (x ∷ s) h =
      Finishes-if (x == b'{') _ _
        (λ e.
          Finishes-if (last_or x s == b'}') _ _
            (λ e'. read_entries-Finishes fuel (drop_last s) (omega (arith, length-drop_last s)))
            (λ e'. Finishes-ok none))
        (λ e. Finishes-ok none)

  read_entries-Finishes :
      (fuel : ℕ) (s : Bytes) → 2 * length s + 2 ≤ fuel → Finishes (read_entries fuel s)
  read_entries-Finishes zero s h = absurd (omega arith)
  read_entries-Finishes (suc fuel) s h =
      let after = skip (from b':' s) in
      Finishes-if (is_empty (from b':' s)) _ _ (λ e. Finishes-ok _)
        λ e.
          let fits = length-skip-from b':' s e in
          Finishes-if (first_or b'}' after == b'{') _ _
            (λ e₁.
              Finishes-on_block (match_block b'{' b'}' after) _ _
                (λ block rest m.
                  let parts = match_block-length b'{' b'}' after block rest m in
                  Finishes-then_read (from_data fuel block) _
                    (from_data-Finishes fuel block (omega arith))
                    λ o. Finishes-with_entry _ _ _ _ (
                      read_entries-Finishes fuel (skip rest) (omega (arith, length-skip_sub rest))))
                (Finishes-then_read (from_data fuel (after ++ b'}' ∷ [])) _
                  (from_data-Finishes fuel _ (omega (arith, length-append after (b'}' ∷ []))))
                  λ o. ground arith))
            λ e₁.
              Finishes-if (first_or b'}' after == b'[') _ _
                (λ e₂.
                  let some_byte = length_of_first after b'}' b'[' (ground arith) e₂ in
                  Finishes-on_block (match_block b'[' b']' after) _ _
                    (λ block rest m.
                      let parts = match_block-length b'[' b']' after block rest m in
                      read_array-Finishes fuel _ (drop_last (skip block)) b']' _
                        (omega (arith, length-drop_last (skip block), length-skip_sub block))
                        (read_entries-Finishes fuel (skip rest)
                          (omega (arith, length-skip_sub rest))))
                    (read_array-Finishes fuel _ (skip after) b'}' _
                      (omega (arith, length-skip_sub after)) (ground arith)))
                λ e₂. Finishes-with_entry _ _ _ _ (
                  read_entries-Finishes fuel (skip (from b',' after))
                    (omega (arith, length-skip_sub (from b',' after), length-from b',' after)))

  read_array-Finishes :
      (fuel : ℕ) (key s : Bytes) (c : ℕ) (others : Read)
      → 2 * length s + 5 ≤ fuel
      → Finishes others
      → Finishes (read_array fuel key s c others)
  read_array-Finishes zero key s c others h k = absurd (omega arith)
  read_array-Finishes (suc fuel) key s c others h k =
      Finishes-if (first_or c s == b'{') _ _
        (λ e.
          Finishes-then_read (read_objects fuel s c) _
            (read_objects-Finishes fuel s c (omega arith)) λ o. Finishes-with_entry _ _ _ others k)
        (λ e. Finishes-with_entry _ _ _ others k)

  read_objects-Finishes :
      (fuel : ℕ) (s : Bytes) (c : ℕ) → 2 * length s + 4 ≤ fuel → Finishes (read_objects fuel s c)
  read_objects-Finishes zero s c h = absurd (omega arith)
  read_objects-Finishes (suc fuel) s c h =
      Finishes-if (first_or c s == b'{') _ _
        (λ e.
          Finishes-on_block (match_block b'{' b'}' s) _ _
            (λ block rest m.
              let parts = match_block-length b'{' b'}' s block rest m in
              Finishes-then_read (from_data fuel block) _
                (from_data-Finishes fuel block (omega arith))
                λ o.
                  Finishes-if (is_empty rest) _ _ (λ e₁. Finishes-ok _)
                    λ e₁.
                      Finishes-then_read (read_objects fuel (skip rest) c) _
                        (read_objects-Finishes fuel (skip rest) c
                          (omega (arith, length-skip_sub rest, length_of_nonempty rest e₁)))
                        λ q. Finishes-ok _)
            (Finishes-then_read (from_data fuel (s ++ c ∷ [])) _
              (from_data-Finishes fuel _ (omega (arith, length-append s (c ∷ []))))
              λ o. ground arith))
        (λ e. ground arith)

-- For every text, well formed or not, the fuel of the model of fromData is enough: fromData ends,
-- with a response, with std::nullopt, with a failed assertion or by leaving its range.
pub from_data_all-Finishes : (s : Bytes) → Finishes (from_data_all s)
unfolding from_data_all
from_data_all-Finishes s = from_data-Finishes (2 * length s + 2) s (omega arith)
