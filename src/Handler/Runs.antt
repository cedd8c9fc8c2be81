-- ===== src/Handler/Runs.antt =====
-- A run of an action that goes on, step by step, with a rule for each way to build one.
use wfa.Base.{ℕ, ◌+◌, ◌*◌, ◌≡◌, refl, Bool, false, some, Bytes, get_elem?, if◌then◌else◌}
use wfa.Base.Map.{Map, lookup}
use wfa.Handler.{Server, next, Act, ◌>>=◌, value_of, get_element, query, cell}
use wfa.Platform.{Platform, Reply, SqlResult}

-- From `s`, the action goes on with `a` and `t`.
pub record Runs {P : Platform} {A : Type 0} (m : Act P A) (s : Server P) (a : A) (t : Server P)
    : Type 0 where
  pub at : m s ≡ next a t

module _ {P : Platform} {A : Type 0} where
  pub Runs-bind :
      {B : Type 0} {m : Act P B} {s u t : Server P} {a : A} {b : B} (f : B → Act P A)
      → Runs m s b u
      → Runs (f b) u a t
      → Runs (m >>= f) s a t
  unfolding ◌>>=◌
  Runs-bind f h k = record { at = rw h.at k.at }

  pub Runs-if :
      {s t : Server P} {a : A} (m n : Act P A) {b : Bool}
      → b ≡ false
      → Runs n s a t
      → Runs (if b then m else n) s a t
  Runs-if m n h k = record { at = rw h k.at }

module _ {P : Platform} where
  pub Runs-get_element :
      (m : Map) (n : Bytes) {v : Bytes} {s : Server P}
      → lookup m n ≡ some v
      → Runs (get_element m n) s v s
  unfolding get_element value_of
  Runs-get_element m n h = record { at = rw h refl }

  pub Runs-query :
      (sql : Bytes) (params : Map) {s : Server P} {db : P.State} {r : Reply}
      → P.query s.db sql params ≡ (db, r)
      → Runs (query sql params) s r (record s { db = db })
  unfolding query
  Runs-query sql params h = record { at = rw h refl }

  pub Runs-cell :
      (r : SqlResult) (row col : ℕ) {v : Bytes} {s : Server P}
      → get_elem? r.cells (row * r.col_count + col) ≡ some v
      → Runs (cell r row col) s v s
  unfolding cell value_of
  Runs-cell r row col h = record { at = rw h refl }
