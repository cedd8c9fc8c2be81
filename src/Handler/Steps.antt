-- ===== src/Handler/Steps.antt =====
-- What an action does to the session table, with a rule for each way to build one.
use wfa.Base.{
  ℕ, zero, suc, ◌+◌, Bool, true, false, Option, none, some, List, [], ◌∷◌, Bytes, if◌then◌else◌,
  Bool-cases, inl, inr, ◌==◌,
}
use wfa.Base.Map.{Map, lookup}
use wfa.Handler.{
  Call, Fault, Server, Outcome, next, returned, failed, exception, undefined, aborted, Act, Request,
  continue, ◌>>=◌, pure, gets, fail, return_early, call, write_status, end_with, stop, value_of,
  on_option, get_element, element_empty, element_or, query, row_count, cell, add, add_wrapper,
  add_cells, each_row, log_session, log_element, verify, require, require_elements, require_ok,
  report, if_found, send,
}
use wfa.Platform.{Platform, Reply, SqlResult}
use wfa.Response.{Entries, add_string, add_object}
use wfa.Session.Levels.{Level}
use wfa.Session.Table.{Sessions}

-- A preorder on session tables.
pub record Growth : Type 1 where
  pub leads : Sessions → Sessions → Type 0
  pub stays : (ss : Sessions) → leads ss ss
  pub joins : (ss ts us : Sessions) → leads ss ts → leads ts us → leads ss us

-- The session table behind an action, whichever way the action went.
abbrev pub sessions_after : {P : Platform} {A : Type 0} → Outcome (Server P) A → Sessions
sessions_after (next a s) = s.sessions
sessions_after (returned s) = s.sessions
sessions_after (failed e s) = s.sessions

pub record Steps {P : Platform} {A : Type 0} (R : Growth) (m : Act P A) : Type 0 where
  pub at : (s : Server P) → R.leads s.sessions (sessions_after (m s))

module _ {P : Platform} {R : Growth} {A : Type 0} where
  pub Steps-pure : (a : A) → Steps {P = P} R (pure a)
  unfolding pure
  Steps-pure a = record { at = λ s. R.stays s.sessions }

  pub Steps-gets : (f : Server P → A) → Steps R (gets f)
  unfolding gets
  Steps-gets f = record { at = λ s. R.stays s.sessions }

  pub Steps-value_of : (e : Fault) (o : Option A) → Steps {P = P} R (value_of e o)
  unfolding value_of
  Steps-value_of e none = record { at = λ s. R.stays s.sessions }
  Steps-value_of e (some a) = record { at = λ s. R.stays s.sessions }

  pub Steps-value : (e : Fault) (o : Option A) → Steps {P = P} R (value_of e o)
  Steps-value e o = Steps-value_of e o

  pub Steps-fail : (e : Fault) → Steps {P = P} {A = A} R (fail e)
  unfolding fail
  Steps-fail e = record { at = λ s. R.stays s.sessions }

  pub Steps-if : (b : Bool) (m n : Act P A) → Steps R m → Steps R n → Steps R (if b then m else n)
  Steps-if true m n hm hn = hm
  Steps-if false m n hm hn = hn

module _ {P : Platform} {R : Growth} {A B : Type 0} where
  continue-Growth :
      (ss : Sessions) (f : A → Act P B)
      → ((a : A) → Steps R (f a))
      → (o : Outcome (Server P) A) → R.leads ss (sessions_after o)
      → R.leads ss (sessions_after (continue o f))
  continue-Growth ss f hf (next a s) h = R.joins ss s.sessions _ h ((hf a).at s)
  continue-Growth ss f hf (returned s) h = h
  continue-Growth ss f hf (failed e s) h = h

  pub Steps-bind :
      (m : Act P A) (f : A → Act P B) → Steps R m → ((a : A) → Steps R (f a)) → Steps R (m >>= f)
  unfolding ◌>>=◌
  Steps-bind m f hm hf = record { at = λ s. continue-Growth s.sessions f hf (m s) (hm.at s) }

  pub Steps-on_option :
      (o : Option A) (m : Act P B) (f : A → Act P B)
      → Steps R m
      → ((a : A) → Steps R (f a))
      → Steps R (on_option o m f)
  unfolding on_option
  Steps-on_option none m f hm hf = hm
  Steps-on_option (some a) m f hm hf = hf a

module _ {P : Platform} {R : Growth} where
  pub Steps-call : (c : Call) → Steps {P = P} R (call c)
  unfolding call
  Steps-call c = record { at = λ s. R.stays s.sessions }

  pub Steps-return_early : Steps {P = P} R return_early
  unfolding return_early
  Steps-return_early = record { at = λ s. R.stays s.sessions }

  pub Steps-write_status : (c : Bytes) → Steps {P = P} R (write_status c)
  unfolding write_status
  Steps-write_status c = Steps-call _

  pub Steps-end_with : (c : Bytes) → Steps {P = P} R (end_with c)
  unfolding end_with
  Steps-end_with c = Steps-call _

  pub Steps-stop : (c : Bytes) → Steps {P = P} R (stop c)
  unfolding stop
  Steps-stop c = search (Steps-bind, Steps-write_status, Steps-end_with, Steps-return_early)

  pub Steps-query : (sql : Bytes) (ps : Map) → Steps {P = P} R (query sql ps)
  unfolding query
  Steps-query sql ps = record { at = λ s. R.stays s.sessions }

  pub Steps-row_count : (r : SqlResult) → Steps {P = P} R (row_count r)
  unfolding row_count
  Steps-row_count r = record {
    at = λ s. elim (Bool-cases (r.col_count == 0)) [
      | inl none_there ↦ rw (none_there, row_count) (R.stays s.sessions)
      | inr some_there ↦ rw (some_there, row_count) (R.stays s.sessions)
    ];
  }

module _ {P : Platform} {R : Growth} where
  pub Steps-get_element : (m : Map) (n : Bytes) → Steps {P = P} R (get_element m n)
  unfolding get_element
  Steps-get_element m n = Steps-value_of exception (lookup m n)

  pub Steps-cell : (r : SqlResult) (i j : ℕ) → Steps {P = P} R (cell r i j)
  unfolding cell
  Steps-cell r i j = Steps-value_of undefined _

  pub Steps-add : (w : Entries) (k v : Bytes) (f : Bool) → Steps {P = P} R (add w k v f)
  unfolding add
  Steps-add w k v f = Steps-value_of aborted (add_string w k v f)

  pub Steps-add_wrapper :
      (w : Entries) (k : Bytes) (v : Entries) (f : Bool) → Steps {P = P} R (add_wrapper w k v f)
  unfolding add_wrapper
  Steps-add_wrapper w k v f = Steps-value_of aborted (add_object w k v f)

pub ruleset core_rules = (
  Steps-pure, Steps-gets, Steps-if, Steps-bind, Steps-on_option, Steps-write_status, Steps-call,
  Steps-return_early, Steps-end_with, Steps-stop, Steps-query, Steps-row_count, Steps-get_element,
  Steps-cell, Steps-add, Steps-add_wrapper,
)

module _ {P : Platform} {R : Growth} where
  pub Steps-element_empty : (m : Map) (n : Bytes) → Steps {P = P} R (element_empty m n)
  unfolding element_empty
  Steps-element_empty m n = search core_rules

  pub Steps-element_or : (m : Map) (n o : Bytes) → Steps {P = P} R (element_or m n o)
  unfolding element_or
  Steps-element_or m n o = search core_rules

  pub Steps-add_cells :
      (r : SqlResult) (i j : ℕ) (ks : List Bytes) (w : Entries)
      → Steps {P = P} R (add_cells r i j ks w)
  unfolding add_cells
  Steps-add_cells r i j [] w = search core_rules
  Steps-add_cells r i j (k ∷ ks) w =
      Steps-bind _ _ (Steps-cell r i j)
        λ v. Steps-bind _ _ (Steps-add w k v false) λ w'. Steps-add_cells r i (j + 1) ks w'

  pub Steps-each_row :
      {A : Type 0} (n i : ℕ) (body : ℕ → A → Act P A) (a : A)
      → ((j : ℕ) (b : A) → Steps R (body j b))
      → Steps R (each_row n i body a)
  unfolding each_row
  Steps-each_row zero i body a h = Steps-pure a
  Steps-each_row (suc n) i body a h = Steps-bind _ _ (h i a) λ b. Steps-each_row n (i + 1) body b h

  pub Steps-log_session : (req : Request) → Steps {P = P} R (log_session req)
  unfolding log_session
  Steps-log_session req = Steps-bind _ _ (Steps-value_of exception _) λ id. Steps-pure tt

  pub Steps-log_element : (m : Map) (n : Bytes) → Steps {P = P} R (log_element m n)
  unfolding log_element
  Steps-log_element m n = search core_rules

  pub Steps-verify : (req : Request) (l : Level) → Steps {P = P} R (verify req l)
  unfolding verify
  Steps-verify req l = search core_rules

  pub Steps-require : (req : Request) (l : Level) → Steps {P = P} R (require req l)
  unfolding require
  Steps-require req l = search core_rules

  pub Steps-require_elements : (m : Map) (ns : List Bytes) → Steps {P = P} R (require_elements m ns)
  unfolding require_elements
  Steps-require_elements m ns = search core_rules

  pub Steps-require_ok : (r : Reply) → Steps {P = P} R (require_ok r)
  unfolding require_ok
  Steps-require_ok r = search core_rules

  pub Steps-report : (r : Reply) (m : Act P (Unit {0})) → Steps R m → Steps R (report r m)
  unfolding report
  Steps-report r m h = search core_rules

  pub Steps-if_found : (n : ℕ) (m : Act P (Unit {0})) → Steps R m → Steps R (if_found n m)
  unfolding if_found
  Steps-if_found n m h = search core_rules

  pub Steps-send : (w : Entries) → Steps {P = P} R (send w)
  unfolding send
  Steps-send w = search core_rules

pub ruleset steps_rules = (
  core_rules, Steps-element_empty, Steps-element_or, Steps-add_cells, Steps-each_row,
  Steps-log_session, Steps-log_element, Steps-verify, Steps-require, Steps-require_elements,
  Steps-require_ok, Steps-report, Steps-if_found, Steps-send,
)
