-- ===== src/Handler/Breaks.antt =====
-- A run of an action up to where it fails.
use wfa.Base.{false, ℕ, ◌+◌, ◌*◌, get_elem?, is_empty, ◌≡◌, refl, true, Option, none, some, Bytes}
use wfa.Base.Map.{Map, lookup}
use wfa.Handler.{
  Fault, exception, undefined, cell, Server, Request, failed, Act, ◌>>=◌, pure, gets, value_of,
  get_element, require, verify, require_ok, element_or,
}
use wfa.Handler.Runs.{Runs}
use wfa.Platform.{Platform, Reply, SqlResult}
use wfa.Query.{has_element}
use wfa.Session.Levels.{Level}
use wfa.Session.Table

-- From `s`, the action fails with `e` and leaves `t`.
pub record Breaks {P : Platform} {A : Type 0} (m : Act P A) (s : Server P) (e : Fault)
    (t : Server P) : Type 0 where
  pub at : m s ≡ failed e t

module _ {P : Platform} {A B : Type 0} where
  pub Breaks-here :
      {m : Act P B} {s t : Server P} {e : Fault} (f : B → Act P A)
      → Breaks m s e t
      → Breaks (m >>= f) s e t
  unfolding ◌>>=◌
  Breaks-here f h = record { at = rw h.at refl }

  pub Breaks-later :
      {m : Act P B} {s u t : Server P} {b : B} {e : Fault} (f : B → Act P A)
      → Runs m s b u
      → Breaks (f b) u e t
      → Breaks (m >>= f) s e t
  unfolding ◌>>=◌
  Breaks-later f h k = record { at = rw h.at k.at }

module _ {P : Platform} where
  pub Breaks-get_element :
      (m : Map) (n : Bytes) (s : Server P)
      → lookup m n ≡ none
      → Breaks (get_element m n) s exception s
  unfolding get_element value_of
  Breaks-get_element m n s h = record { at = rw h refl }

  pub Breaks-cell :
      (r : SqlResult) (row col : ℕ) (s : Server P)
      → get_elem? r.cells (row * r.col_count + col) ≡ none
      → Breaks (cell r row col) s undefined s
  unfolding cell value_of
  Breaks-cell r row col s h = record { at = rw h refl }

  pub Runs-pure : {A : Type 0} (a : A) (s : Server P) → Runs (pure a) s a s
  unfolding pure
  Runs-pure a s = record { at = refl }

  pub Runs-gets : {A : Type 0} (f : Server P → A) (s : Server P) → Runs (gets f) s (f s) s
  unfolding gets
  Runs-gets f s = record { at = refl }

  pub Runs-value_of :
      {A : Type 0} (e : Fault) {o : Option A} {a : A} (s : Server P)
      → o ≡ some a
      → Runs (value_of e o) s a s
  unfolding value_of
  Runs-value_of e s h = record { at = rw h refl }

  pub Runs-require :
      (req : Request) (l : Level) (s : Server P)
      → Table.verify s.sessions req.cookie l ≡ true
      → Runs (require req l) s tt s
  unfolding require verify gets pure ◌>>=◌
  Runs-require req l s h = record { at = rw h refl }

  pub Runs-require_ok : (r : Reply) (s : Server P) → r.ok ≡ true → Runs (require_ok r) s tt s
  unfolding require_ok pure
  Runs-require_ok r s h = record { at = rw h refl }

  pub Runs-element_missing :
      (m : Map) (n v : Bytes) (s : Server P) → lookup m n ≡ none → Runs (element_or m n v) s v s
  unfolding element_or has_element pure
  Runs-element_missing m n v s h = record { at = rw (has_element, h) refl }

pub has_element-filled :
    (m : Map) (n v : Bytes)
    → lookup m n ≡ some v
    → is_empty v ≡ false
    → has_element m n false ≡ true
unfolding has_element
has_element-filled m n v h e = rw (has_element, h, e) refl
