-- ===== src/Sql/Handles.antt =====
-- Each statement that `query` prepares is finalised once, on every way out.
use wfa.Base.{
  ℕ, zero, suc, ◌-◌, ◌≡◌, refl, ap, Bool, true, false, Option, none, some, List, [], ◌∷◌, ◌++◌,
  Bytes, length, leb, ◌==◌, if◌then◌else◌, arith,
}
use wfa.Base.Int.{ℤ}
use wfa.Base.Result.{Result, ok, thrown, asserted, outside, out_of_fuel, check, ◌>>=◌}
use wfa.Sql.{
  Sqlite, Status, row, done, failure, Answer, step_rows, execute, bind_all, run_statement, query,
  to_int, no_answer, int_max, each_column, text_or_null,
}

-- How SQLite's count of the statements of a connection moves: one more for a statement that
-- `prepare` makes, one less behind `finalize`.
pub record Counts (S : Sqlite) : Type 0 where
  pub live : S.Connection → ℕ
  pub prepare_some :
      (c d : S.Connection) (sql : Bytes) (st : S.Statement)
      → S.prepare c sql ≡ (d, some st)
      → live d ≡ suc (live c)
  pub prepare_none :
      (c d : S.Connection) (sql : Bytes) → S.prepare c sql ≡ (d, none) → live d ≡ live c
  pub bind_text :
      (c : S.Connection) (st : S.Statement) (i : ℕ) (val : Bytes) (size : ℤ)
      → live (S.bind_text c st i val size) ≡ live c
  pub step : (c : S.Connection) (st : S.Statement) → live (S.step c st).0 ≡ live c
  pub finalize : (c : S.Connection) (st : S.Statement) → live (S.finalize c st) ≡ live c - 1

module _ (S : Sqlite) (k : Counts S) where
  -- Where it returns, it leaves the count at `n`.
  abbrev Leaves : {A : Type 0} → ℕ → Result (S.Connection × A) → Type 0
  Leaves n (ok (c, a)) = k.live c ≡ n
  Leaves n thrown = Unit
  Leaves n asserted = Unit
  Leaves n outside = Unit
  Leaves n out_of_fuel = Unit

  Leaves-bind :
      {A B : Type 0} (m n : ℕ) (r : Result (S.Connection × A))
      (f : S.Connection × A → Result (S.Connection × B))
      → Leaves m r
      → ((c : S.Connection) (a : A) → k.live c ≡ m → Leaves n (f (c, a)))
      → Leaves n (r >>= f)
  Leaves-bind m n (ok (c, a)) f h g = g c a h
  Leaves-bind m n thrown f h g = tt
  Leaves-bind m n asserted f h g = tt
  Leaves-bind m n outside f h g = tt
  Leaves-bind m n out_of_fuel f h g = tt

  Leaves-status :
      (m : ℕ) (c : S.Connection) (status : Status) (cells : List Bytes)
      (more : Result (S.Connection × (Status × List Bytes)))
      → k.live c ≡ m
      → Leaves m more
      → Leaves m (elim status [
        | row ↦ more
        | done ↦ ok (c, (done, cells))
        | failure n ↦ ok (c, (failure n, cells))
      ])
  Leaves-status m c row cells more h g = g
  Leaves-status m c done cells more h g = h
  Leaves-status m c (failure n) cells more h g = h

  step_rows-Leaves :
      (fuel : ℕ) (st : S.Statement) (n : ℕ) (c : S.Connection) (cells : List Bytes)
      → Leaves (k.live c) (step_rows S fuel c st n cells)
  unfolding step_rows
  step_rows-Leaves zero st n c cells = tt
  step_rows-Leaves (suc fuel) st n c cells =
      let d = (S.step c st).0 in
      Leaves-status (k.live c) d (S.step c st).1 cells _ (k.step c st) (
        rw (k.step c st) at (
          step_rows-Leaves fuel st n d
            (cells ++ each_column n 0 (λ i. text_or_null (S.column_text d st i)))))

  execute-Leaves :
      (fuel : ℕ) (c : S.Connection) (st : S.Statement) (n : ℕ)
      → Leaves (k.live c - 1) (execute S fuel c st n)
  unfolding execute
  execute-Leaves fuel c st n =
      Leaves-bind (k.live c) (k.live c - 1) (step_rows S fuel c st n []) _
        (step_rows-Leaves fuel st n c []) λ d a h. rw (k.finalize d st, h) refl

  abbrev Bound-live : ℕ → S.Connection × Bool → Type 0
  Bound-live m (c, true) = k.live c ≡ m
  Bound-live m (c, false) = k.live c ≡ m - 1

  Bound-live-if :
      (b : Bool) (m : ℕ) (p q : S.Connection × Bool)
      → Bound-live m p
      → Bound-live m q
      → Bound-live m (if b then p else q)
  Bound-live-if true m p q h g = h
  Bound-live-if false m p q h g = g

  bind_all-live :
      (st : S.Statement) (params : List (Bytes × Bytes)) (c : S.Connection)
      → Bound-live (k.live c) (bind_all S c st params)
  unfolding bind_all
  bind_all-live st [] c = refl
  bind_all-live st ((name, val) ∷ params) c =
      let id = S.parameter_index c st name in
      Bound-live-if (id == 0) (k.live c) (S.finalize c st, false)
        (bind_all S (S.bind_text c st id val (to_int (length val))) st params) (k.finalize c st)
        (rw (k.bind_text c st id val (to_int (length val))) at
          (bind_all-live st params (S.bind_text c st id val (to_int (length val)))))

  Leaves-bound :
      {A : Type 0} (m : ℕ) (c : S.Connection) (b : Bool) (r : Result (S.Connection × A)) (a : A)
      → Bound-live m (c, b)
      → (k.live c ≡ m → Leaves (m - 1) r)
      → Leaves (m - 1) (if b then r else ok (c, a))
  Leaves-bound m c true r a h g = g h
  Leaves-bound m c false r a h g = h

  run_statement-Leaves :
      (fuel : ℕ) (c : S.Connection) (st : S.Statement) (params : List (Bytes × Bytes))
      → Leaves (k.live c - 1) (run_statement S fuel c st params)
  unfolding run_statement
  run_statement-Leaves fuel c st params =
      let d = (bind_all S c st params).0 in
      Leaves-bound (k.live c) d (bind_all S c st params).1 _ no_answer (bind_all-live st params c)
        λ h.
          Leaves-bind (k.live c - 1) (k.live c - 1) (execute S fuel d st (S.column_count d st)) _
            (rw h at (execute-Leaves fuel d st (S.column_count d st))) (λ e a g. g)

  Leaves-prepared :
      (m : ℕ) (fuel : ℕ) (c : S.Connection) (o : Option S.Statement) (params : List (Bytes × Bytes))
      → (o ≡ none → k.live c ≡ m)
      → ((st : S.Statement) → o ≡ some st → k.live c ≡ suc m)
      → Leaves m (elim o [ none ↦ ok (c, no_answer) | some st ↦ run_statement S fuel c st params ])
  Leaves-prepared m fuel c none params h g = h refl
  Leaves-prepared m fuel c (some st) params h g =
      let less : k.live c - 1 ≡ m = omega (arith, g st refl) in
      rw less at (run_statement-Leaves fuel c st params)

  Leaves-check :
      {A : Type 0} (m : ℕ) (b : Bool) (r : Result (S.Connection × A))
      → Leaves m r
      → Leaves m (check b r)
  Leaves-check m true r h = h
  Leaves-check m false r h = tt

  query-Leaves :
      (fuel : ℕ) (c : S.Connection) (sql : Bytes) (params : List (Bytes × Bytes))
      → Leaves (k.live c) (query S fuel c sql params)
  unfolding query
  query-Leaves fuel c sql params =
      let d = (S.prepare c sql).0 in
      Leaves-check (k.live c) (leb (length sql) int_max) _ (
        Leaves-prepared (k.live c) fuel d (S.prepare c sql).1 params
          (λ e. k.prepare_none c d sql (ap (λ (o : Option S.Statement). (d, o)) e))
          (λ st e. k.prepare_some c d sql st (ap (λ (o : Option S.Statement). (d, o)) e)))

  -- Where SQLite's count of live statements grows by one for each statement that it prepares,
  -- drops by one with each finalisation and stays with all other calls: whenever query returns
  -- (after a text that does not parse, an unknown parameter, an error or the last row), the count
  -- is what it was before the call, so the statement was finalised and no handle is left.
  pub query-live :
      (fuel : ℕ) (c d : S.Connection) (sql : Bytes) (params : List (Bytes × Bytes))
      (answer : Answer)
      → query S fuel c sql params ≡ ok (d, answer)
      → k.live d ≡ k.live c
  query-live fuel c d sql params answer e = rw e at (query-Leaves fuel c sql params)
