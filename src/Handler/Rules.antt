-- ===== src/Handler/Rules.antt =====
-- How often an action ends the response, with a rule for each way to build one.
use wfa.Base.{
  ℕ, zero, suc, ◌+◌, ◌≡◌, refl, Bool, true, false, Option, none, some, List, [], ◌∷◌, ◌++◌, Bytes,
  arith, if◌then◌else◌, Bool-cases, inl, inr, ◌==◌,
}
use wfa.Base.Map.{Map, lookup}
use wfa.Handler.{
  Call, status, header, finish, Fault, Server, Outcome, next, returned, failed, exception,
  undefined, aborted, Act, Request, continue, ◌>>=◌, pure, gets, fail, return_early, call,
  write_status, end_with, stop, value_of, on_option, get_element, element_empty, element_or, query,
  row_count, cell, add, add_wrapper, add_cells, each_row, log_session, log_element, verify, require,
  require_elements, require_ok, report, if_found, send,
}
use wfa.Platform.{Platform, Reply, SqlResult}
use wfa.Response.{Entries, add_string, add_object}
use wfa.Session.Levels.{Level}

-- The number of `end` and `tryEnd` calls.
unfoldable pub ends : List Call → ℕ
ends [] = 0
ends (status c ∷ cs) = ends cs
ends (header n v ∷ cs) = ends cs
ends (finish d ∷ cs) = suc (ends cs)

ends-append : (cs ds : List Call) → ends (cs ++ ds) ≡ ends cs + ends ds
unfolding ends
ends-append [] ds = omega arith
ends-append (status c ∷ cs) ds = ends-append cs ds
ends-append (header n v ∷ cs) ds = ends-append cs ds
ends-append (finish d ∷ cs) ds = omega (arith, ends-append cs ds)

-- From `n` ends on: `k` more where the handler goes on, one more where it returned.
abbrev pub EndsAfter : {P : Platform} {A : Type 0} → ℕ → ℕ → Outcome (Server P) A → Type 0
EndsAfter n k (next a s) = ends s.calls ≡ n + k
EndsAfter n k (returned s) = ends s.calls ≡ n + 1
EndsAfter n k (failed e s) = Unit

pub record Sends {P : Platform} {A : Type 0} (k : ℕ) (m : Act P A) : Type 0 where
  pub at : (s : Server P) → EndsAfter (ends s.calls) k (m s)

module _ {P : Platform} {A : Type 0} where
  pub Sends-pure : (a : A) → Sends {P = P} 0 (pure a)
  unfolding pure
  Sends-pure a = record { at = λ s. omega arith }

  pub Sends-gets : (f : Server P → A) → Sends 0 (gets f)
  unfolding gets
  Sends-gets f = record { at = λ s. omega arith }

  pub Sends-value_of : (k : ℕ) (e : Fault) (o : Option A) → k ≡ 0 → Sends {P = P} k (value_of e o)
  unfolding value_of
  Sends-value_of k e none h = record { at = λ s. tt }
  Sends-value_of k e (some a) h = record { at = λ s. omega arith }

  pub Sends-value : (e : Fault) (o : Option A) → Sends {P = P} 0 (value_of e o)
  Sends-value e o = Sends-value_of 0 e o refl

  pub Sends-fail : (k : ℕ) (e : Fault) → Sends {P = P} {A = A} k (fail e)
  unfolding fail
  Sends-fail k e = record { at = λ s. tt }

  pub Sends-if :
      (k : ℕ) (b : Bool) (m n : Act P A) → Sends k m → Sends k n → Sends k (if b then m else n)
  Sends-if k true m n hm hn = hm
  Sends-if k false m n hm hn = hn

module _ {P : Platform} {A B : Type 0} where
  continue-Ends :
      (n k : ℕ) (f : A → Act P B)
      → ((a : A) → Sends k (f a))
      → (o : Outcome (Server P) A) → EndsAfter n 0 o
      → EndsAfter n k (continue o f)
  continue-Ends n k f hf (next a s) h =
      let e : ends s.calls ≡ n = omega arith in rw (← e) ((hf a).at s)
  continue-Ends n k f hf (returned s) h = h
  continue-Ends n k f hf (failed e s) h = tt

  pub Sends-bind :
      (k : ℕ) (m : Act P A) (f : A → Act P B)
      → Sends 0 m
      → ((a : A) → Sends k (f a))
      → Sends k (m >>= f)
  unfolding ◌>>=◌
  Sends-bind k m f hm hf = record { at = λ s. continue-Ends (ends s.calls) k f hf (m s) (hm.at s) }

module _ {P : Platform} {A B : Type 0} where
  pub Sends-on_option :
      (k : ℕ) (o : Option A) (m : Act P B) (f : A → Act P B)
      → Sends k m
      → ((a : A) → Sends k (f a))
      → Sends k (on_option o m f)
  unfolding on_option
  Sends-on_option k none m f hm hf = hm
  Sends-on_option k (some a) m f hm hf = hf a

module _ {P : Platform} where
  pub Sends-write_status : (c : Bytes) → Sends {P = P} 0 (write_status c)
  unfolding write_status ends
  Sends-write_status c = record { at = λ s. rw ends-append (omega arith) }

  pub Sends-header : (n v : Bytes) → Sends {P = P} 0 (call (header n v))
  unfolding call ends
  Sends-header n v = record { at = λ s. rw ends-append (omega arith) }

  pub Sends-end_with : (c : Bytes) → Sends {P = P} 1 (end_with c)
  unfolding end_with ends
  Sends-end_with c = record { at = λ s. rw ends-append (omega arith) }

  -- An end and a return: nothing behind it runs.
  pub Sends-end_return : (k : ℕ) (c : Bytes) → Sends {P = P} k (end_with c >>= λ _. return_early)
  unfolding end_with return_early ◌>>=◌ ends
  Sends-end_return k c = record { at = λ s. rw ends-append (omega arith) }

  pub Sends-stop : (k : ℕ) (c : Bytes) → Sends {P = P} k (stop c)
  unfolding stop
  Sends-stop k c = record {
    at = λ s.
        unfold write_status end_with return_early ◌>>=◌ ends in
        rw (ends-append, ends-append) (omega arith);
  }

  pub Sends-query : (sql : Bytes) (ps : Map) → Sends {P = P} 0 (query sql ps)
  unfolding query
  Sends-query sql ps = record { at = λ s. omega arith }

  pub Sends-row_count : (r : SqlResult) → Sends {P = P} 0 (row_count r)
  unfolding row_count
  Sends-row_count r = record {
    at = λ s. elim (Bool-cases (r.col_count == 0)) [
      | inl none_there ↦ rw (none_there, row_count) tt
      | inr some_there ↦ rw (some_there, row_count) (omega arith)
    ];
  }

module _ {P : Platform} where
  pub Sends-get_element : (m : Map) (n : Bytes) → Sends {P = P} 0 (get_element m n)
  unfolding get_element
  Sends-get_element m n = Sends-value_of 0 exception (lookup m n) refl

  pub Sends-cell : (r : SqlResult) (i j : ℕ) → Sends {P = P} 0 (cell r i j)
  unfolding cell
  Sends-cell r i j = Sends-value_of 0 undefined _ refl

  pub Sends-add : (w : Entries) (k v : Bytes) (f : Bool) → Sends {P = P} 0 (add w k v f)
  unfolding add
  Sends-add w k v f = Sends-value_of 0 aborted (add_string w k v f) refl

  pub Sends-add_wrapper :
      (w : Entries) (k : Bytes) (v : Entries) (f : Bool) → Sends {P = P} 0 (add_wrapper w k v f)
  unfolding add_wrapper
  Sends-add_wrapper w k v f = Sends-value_of 0 aborted (add_object w k v f) refl

pub ruleset core_rules = (
  Sends-pure, Sends-gets, Sends-if, Sends-bind, Sends-on_option, Sends-write_status, Sends-header,
  Sends-end_with, Sends-stop, Sends-query, Sends-row_count, Sends-get_element, Sends-cell,
  Sends-add, Sends-add_wrapper,
)

module _ {P : Platform} where
  pub Sends-element_empty : (m : Map) (n : Bytes) → Sends {P = P} 0 (element_empty m n)
  unfolding element_empty
  Sends-element_empty m n = search core_rules

  pub Sends-element_or : (m : Map) (n o : Bytes) → Sends {P = P} 0 (element_or m n o)
  unfolding element_or
  Sends-element_or m n o = search core_rules

  pub Sends-add_cells :
      (r : SqlResult) (i j : ℕ) (ks : List Bytes) (w : Entries)
      → Sends {P = P} 0 (add_cells r i j ks w)
  unfolding add_cells
  Sends-add_cells r i j [] w = search core_rules
  Sends-add_cells r i j (k ∷ ks) w =
      Sends-bind 0 _ _ (Sends-cell r i j)
        λ v. Sends-bind 0 _ _ (Sends-add w k v false) λ w'. Sends-add_cells r i (j + 1) ks w'

  pub Sends-each_row :
      {A : Type 0} (n i : ℕ) (body : ℕ → A → Act P A) (a : A)
      → ((j : ℕ) (b : A) → Sends 0 (body j b))
      → Sends 0 (each_row n i body a)
  unfolding each_row
  Sends-each_row zero i body a h = Sends-pure a
  Sends-each_row (suc n) i body a h =
      Sends-bind 0 _ _ (h i a) λ b. Sends-each_row n (i + 1) body b h

  pub Sends-log_session : (req : Request) → Sends {P = P} 0 (log_session req)
  unfolding log_session
  Sends-log_session req = Sends-bind 0 _ _ (Sends-value_of 0 exception _ refl) λ id. Sends-pure tt

  pub Sends-log_element : (m : Map) (n : Bytes) → Sends {P = P} 0 (log_element m n)
  unfolding log_element
  Sends-log_element m n = search core_rules

  pub Sends-verify : (req : Request) (l : Level) → Sends {P = P} 0 (verify req l)
  unfolding verify
  Sends-verify req l = search core_rules

  pub Sends-require : (req : Request) (l : Level) → Sends {P = P} 0 (require req l)
  unfolding require
  Sends-require req l = search core_rules

  pub Sends-require_elements : (m : Map) (ns : List Bytes) → Sends {P = P} 0 (require_elements m ns)
  unfolding require_elements
  Sends-require_elements m ns = search core_rules

  pub Sends-require_ok : (r : Reply) → Sends {P = P} 0 (require_ok r)
  unfolding require_ok
  Sends-require_ok r = search core_rules

  pub Sends-report : (r : Reply) (m : Act P (Unit {0})) → Sends 0 m → Sends 0 (report r m)
  unfolding report
  Sends-report r m h = search core_rules

  pub Sends-if_found : (n : ℕ) (m : Act P (Unit {0})) → Sends 1 m → Sends 1 (if_found n m)
  unfolding if_found
  Sends-if_found n m h = search core_rules

  pub Sends-send : (w : Entries) → Sends {P = P} 1 (send w)
  unfolding send
  Sends-send w = search core_rules

pub ruleset sends_rules = (
  core_rules, Sends-element_empty, Sends-element_or, Sends-add_cells, Sends-each_row,
  Sends-log_session, Sends-log_element, Sends-verify, Sends-require, Sends-require_elements,
  Sends-require_ok, Sends-report, Sends-if_found, Sends-send,
)
