-- ===== src/Console/Width.antt =====
-- The lines of a printed result line up.
use wfa.Base.{
  ℕ, zero, suc, ◌+◌, ◌-◌, ◌*◌, ◌/◌, ◌≤◌, ◌≡◌, refl, ap, Bool, true, false, List, [], ◌∷◌, ◌++◌,
  Bytes, length, length-append, length-drop, take, drop, All, ◌==◌, if◌then◌else◌, arith,
}
use native.Mathlib.Nat.{div-mul-le_self}
use wfa.Platform.{SqlResult}
use wfa.Console.{
  rows_from, widen, widen_all, spaces, zeros, print_cells, print_names, print_rows, print_result,
}

-- Each cell fits its column.
unfoldable pub Fits : List ℕ → List Bytes → Type 0
Fits [] [] = Unit
Fits [] (v ∷ vs) = suc (length vs) ≤ 0
Fits (s ∷ sizes) [] = suc (length sizes) ≤ 0
Fits (s ∷ sizes) (v ∷ vs) = (length v ≤ s) × Fits sizes vs

-- A line: a bar, and each column with its bar.
unfoldable pub width_of : List ℕ → ℕ
width_of [] = 1
width_of (s ∷ sizes) = s + 1 + width_of sizes

length-spaces : (n : ℕ) → length (spaces n) ≡ n
unfolding spaces
length-spaces zero = refl
length-spaces (suc n) = ap suc (length-spaces n)

length-print_cells :
    (sizes : List ℕ) (vs : List Bytes)
    → Fits sizes vs
    → suc (length (print_cells sizes vs)) ≡ width_of sizes
unfolding print_cells width_of Fits
length-print_cells [] [] h = refl
length-print_cells [] (v ∷ vs) h = ground arith
length-print_cells (s ∷ sizes) [] h = ground arith
length-print_cells (s ∷ sizes) (v ∷ vs) h = omega (
  arith,
  h.0,
  length-print_cells sizes vs h.1,
  length-append v (spaces (s - length v) ++ b'|' ∷ print_cells sizes vs),
  length-append (spaces (s - length v)) (b'|' ∷ print_cells sizes vs),
  length-spaces (s - length v),
)

length-widen : (sizes : List ℕ) (vs : List Bytes) → length (widen sizes vs) ≡ length sizes
unfolding widen
length-widen [] vs = refl
length-widen (s ∷ sizes) [] = refl
length-widen (s ∷ sizes) (v ∷ vs) = ap suc (length-widen sizes vs)

-- The sizes fit the row that widened them, and what fitted before.
widen-Fits :
    (sizes : List ℕ) (vs : List Bytes) → length vs ≡ length sizes → Fits (widen sizes vs) vs
unfolding widen Fits
widen-Fits [] [] h = tt
widen-Fits [] (v ∷ vs) h = omega arith
widen-Fits (s ∷ sizes) [] h = omega arith
widen-Fits (s ∷ sizes) (v ∷ vs) h = (ground arith, widen-Fits sizes vs (omega arith))

Fits-widen :
    (sizes : List ℕ) (vs ws : List Bytes)
    → length vs ≡ length sizes
    → Fits sizes ws
    → Fits (widen sizes vs) ws
unfolding widen Fits
Fits-widen [] vs ws e h = h
Fits-widen (s ∷ sizes) [] ws e h = h
Fits-widen (s ∷ sizes) (v ∷ vs) [] e h = absurd (omega (arith, h))
Fits-widen (s ∷ sizes) (v ∷ vs) (w ∷ ws) e h =
    (ground (arith, h.0), Fits-widen sizes vs ws (omega arith) h.1)

-- The loop over the names widens the sizes and prints the names as a row of the widened table.
print_names-widen :
    (sizes : List ℕ) (vs : List Bytes)
    → length vs ≡ length sizes
    → print_names sizes vs ≡ (widen sizes vs, print_cells (widen sizes vs) vs)
unfolding print_names widen print_cells
print_names-widen [] vs h = refl
print_names-widen (s ∷ sizes) [] h = absurd (omega arith)
print_names-widen (s ∷ sizes) (v ∷ vs) h = rw (print_names-widen sizes vs (omega arith)) refl

-- Rows of one length.
abbrev AreRows : ℕ → List (List Bytes) → Type 0
AreRows n rows = All (λ (row : List Bytes). length row ≡ n) rows

Fits-widen_all :
    (rows : List (List Bytes)) (sizes : List ℕ) (ws : List Bytes)
    → AreRows (length sizes) rows
    → Fits sizes ws
    → Fits (widen_all sizes rows) ws
unfolding widen_all
Fits-widen_all [] sizes ws k h = h
Fits-widen_all (row ∷ rows) sizes ws k h =
    Fits-widen_all rows (widen sizes row) ws (rw (length-widen sizes row) k.1)
      (Fits-widen sizes row ws k.0 h)

widen_all-Fits :
    (rows : List (List Bytes)) (sizes : List ℕ)
    → AreRows (length sizes) rows
    → All (Fits (widen_all sizes rows)) rows
unfolding widen_all
widen_all-Fits [] sizes k = tt
widen_all-Fits (row ∷ rows) sizes k =
    let kept : AreRows (length (widen sizes row)) rows = rw (length-widen sizes row) k.1 in
    (
      Fits-widen_all rows (widen sizes row) row kept (widen-Fits sizes row k.0),
      widen_all-Fits rows (widen sizes row) kept,
    )

length-widen_all :
    (rows : List (List Bytes)) (sizes : List ℕ) → length (widen_all sizes rows) ≡ length sizes
unfolding widen_all
length-widen_all [] sizes = refl
length-widen_all (row ∷ rows) sizes =
    rw (length-widen_all rows (widen sizes row)) (length-widen sizes row)

All-Fits-widen :
    (rows : List (List Bytes)) (sizes : List ℕ) (vs : List Bytes)
    → length vs ≡ length sizes
    → All (Fits sizes) rows
    → All (Fits (widen sizes vs)) rows
All-Fits-widen [] sizes vs e h = tt
All-Fits-widen (row ∷ rows) sizes vs e h =
    (Fits-widen sizes vs row e h.0, All-Fits-widen rows sizes vs e h.1)

length-zeros : (n : ℕ) → length (zeros n) ≡ n
unfolding zeros
length-zeros zero = refl
length-zeros (suc n) = ap suc (length-zeros n)

length-take-all : (n : ℕ) (xs : List Bytes) → n ≤ length xs → length (take n xs) ≡ n
length-take-all zero xs h = refl
length-take-all (suc n) [] h = absurd (omega arith)
length-take-all (suc n) (x ∷ xs) h = ap suc (length-take-all n xs (omega arith))

rows_from-AreRows :
    (r : SqlResult) (k row : ℕ)
    → (row + k) * r.col_count ≤ length r.cells
    → AreRows r.col_count (rows_from r k row)
unfolding rows_from
rows_from-AreRows r zero row h = tt
rows_from-AreRows r (suc k) row h = (
  length-take-all r.col_count (drop (row * r.col_count) r.cells)
      (omega (arith, length-drop (row * r.col_count) r.cells)),
  rows_from-AreRows r k (row + 1) (omega (arith, h)),
)

print_rows-width :
    (sizes : List ℕ) (rows : List (List Bytes))
    → All (Fits sizes) rows
    → All (λ (line : Bytes). length line ≡ width_of sizes) (print_rows sizes rows)
unfolding print_rows
print_rows-width sizes [] h = tt
print_rows-width sizes (row ∷ rows) h =
    (length-print_cells sizes row h.0, print_rows-width sizes rows h.1)

All-unless :
    (P : Bytes → Type 0) (c : Bool) (lines : List Bytes)
    → All P lines
    → All P (if c then [] else lines)
All-unless P true lines h = tt
All-unless P false lines h = h

lines-width :
    (sizes s : List ℕ) (line : Bytes) (col_names : List Bytes) (rows : List (List Bytes))
    → s ≡ sizes
    → line ≡ print_cells sizes col_names
    → Fits sizes col_names
    → All (Fits sizes) rows
    → All (λ (line : Bytes). length line ≡ width_of sizes) ((b'|' ∷ line) ∷ print_rows s rows)
lines-width sizes s line col_names rows e e₁ h k =
    (rw e₁ (length-print_cells sizes col_names h), rw e (print_rows-width sizes rows k))

-- For every result with one name for each column: all lines that printResult prints, the names and
-- each row, have the same length.
pub print_result-width :
    (r : SqlResult) (col_names : List Bytes)
    → length col_names ≡ r.col_count
    → (width : ℕ) × All (λ (line : Bytes). length line ≡ width) (print_result r col_names)
unfolding print_result
print_result-width r col_names h =
    let rows = rows_from r (length r.cells / r.col_count) 0 in
    let sizes = widen_all (zeros r.col_count) rows in
    let all_rows : AreRows (length (zeros r.col_count)) rows = rw (length-zeros r.col_count) (
      rows_from-AreRows r (length r.cells / r.col_count) 0
        (omega (arith, div-mul-le_self (length r.cells) r.col_count))) in
    let fits = widen_all-Fits rows (zeros r.col_count) all_rows in
    let names : length col_names ≡ length sizes =
      rw (length-widen_all rows (zeros r.col_count), length-zeros r.col_count) h in
    (
      width_of (widen sizes col_names),
      All-unless (λ line. length line ≡ width_of (widen sizes col_names)) (r.col_count == 0) _
          (All-unless _ (length r.cells / r.col_count == 0) _ (
            lines-width (widen sizes col_names) _ _ col_names rows
              (ap (λ (p : List ℕ × Bytes). p.0) (print_names-widen sizes col_names names))
              (ap (λ (p : List ℕ × Bytes). p.1) (print_names-widen sizes col_names names))
              (widen-Fits sizes col_names names) (All-Fits-widen rows sizes col_names names fits))),
    )
