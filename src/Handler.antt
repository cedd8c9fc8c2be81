-- ===== src/Handler.antt =====
-- The effects of a request handler: the session table, the database, the calls on the response,
-- early returns, exceptions and what the language leaves undefined.
pub mod Codes
pub mod Rules
pub mod Steps
pub mod Refusal
pub mod Runs
pub mod Breaks
use wfa.Base.{
  ℕ, zero, suc, ◌+◌, ◌*◌, ◌/◌, Bool, true, false, not, Option, none, some, List, [], ◌∷◌, ◌++◌,
  Bytes, text, is_empty, get_elem?, length, ltb, ◌==◌, if◌then◌else◌,
}
use wfa.Base.Map.{Map, lookup}
use wfa.Platform.{Platform, SqlResult, Reply}
use wfa.Query.{has_element, contains_all}
use wfa.Handler.Codes.{bad_request, forbidden, not_found, internal_error}
use wfa.Response.{Entries, add_string, add_object, to_data}
use wfa.Session.Levels.{Level}
use wfa.Session.Table.{Sessions, get_session_id}
use wfa.Session.Table

-- The calls on uWS::HttpResponse, in their order.
pub data Call : Type 0 where
  status : Bytes → Call
  header : Bytes → Bytes → Call
  finish : Bytes → Call

-- An exception that leaves the handler, a failed assertion, a read outside a container or a
-- division by zero, and a loop that is still running.
pub data Fault : Type 0 where
  exception aborted undefined blocked : Fault

pub record Server (P : Platform) : Type 0 where
  pub sessions : Sessions
  pub draws : List ℕ
  pub db : P.State
  pub calls : List Call

-- `returned` is an early return of the handler.
pub data Outcome (S A : Type 0) : Type 0 where
  next : A → S → Outcome S A
  returned : S → Outcome S A
  failed : Fault → S → Outcome S A

abbrev pub Act : Platform → Type 0 → Type 0
Act P A = Server P → Outcome (Server P) A

-- The headers of uWS::HttpRequest that are read: "cookie".
pub record Request : Type 0 where
  pub cookie : Bytes

module _ {P : Platform} where
  abbrev pub continue : {A B : Type 0} → Outcome (Server P) A → (A → Act P B) → Outcome (Server P) B
  continue (next a s) f = f a s
  continue (returned s) f = returned s
  continue (failed e s) f = failed e s

  unfoldable pub pure : {A : Type 0} → A → Act P A
  pure a s = next a s

  infixl 5 ◌>>=◌ ◌>>◌
  unfoldable pub ◌>>=◌ : {A B : Type 0} → Act P A → (A → Act P B) → Act P B
  unfolding pure
  ◌>>=◌ m f s = continue (m s) f

  abbrev pub ◌>>◌ : {B : Type 0} → Act P (Unit {0}) → Act P B → Act P B
  m >> k = m >>= λ _. k

  unfoldable pub gets : {A : Type 0} → (Server P → A) → Act P A
  gets f s = next (f s) s

  unfoldable pub fail : {A : Type 0} → Fault → Act P A
  fail e s = failed e s

  unfoldable pub return_early : Act P (Unit {0})
  return_early s = returned s

  unfoldable pub call : Call → Act P (Unit {0})
  call c s = next tt (record s { calls = s.calls ++ c ∷ [] })

  -- `res->writeStatus(code)`.
  unfoldable pub write_status : Bytes → Act P (Unit {0})
  unfolding call
  write_status code = call (status code)

  -- `res->end()` and `res->end(data)`, `res->tryEnd(data)`.
  unfoldable pub end_with : Bytes → Act P (Unit {0})
  unfolding call
  end_with contents = call (finish contents)

  abbrev pub end_call : Act P (Unit {0})
  end_call = end_with []

  abbrev pub when : Bool → Act P (Unit {0}) → Act P (Unit {0})
  when c m = if c then m else pure tt

  -- `res->writeStatus(code); res->end(); return;`
  unfoldable pub stop : Bytes → Act P (Unit {0})
  unfolding ◌>>=◌ write_status end_with return_early
  stop code = do write_status code; end_call; return_early

  -- `a || b` and `a && b`, where the right side may throw.
  abbrev pub or_else : Bool → Act P Bool → Act P Bool
  or_else c m = if c then pure true else m

  abbrev pub and_then : Bool → Act P Bool → Act P Bool
  and_then c m = if c then m else pure false

  -- A branch on `std::optional`, or on an error code of a conversion.
  unfoldable pub on_option : {A B : Type 0} → Option A → Act P B → (A → Act P B) → Act P B
  on_option none m f = m
  on_option (some a) m f = f a

  -- A value that has to be there, or the fault.
  unfoldable pub value_of : {A : Type 0} → Fault → Option A → Act P A
  value_of e none s = failed e s
  value_of e (some a) s = next a s

  -- `getElement`: `at` throws where there is no element.
  unfoldable pub get_element : Map → Bytes → Act P Bytes
  unfolding value_of
  get_element m name = value_of exception (lookup m name)

  unfoldable pub element_empty : Map → Bytes → Act P Bool
  unfolding get_element ◌>>=◌
  element_empty m name = do v ← get_element m name; pure (is_empty v)

  -- `m.hasElement(name) ? m.getElement(name) : other`.
  unfoldable pub element_or : Map → Bytes → Bytes → Act P Bytes
  unfolding get_element pure has_element
  element_or m name other = if has_element m name false then get_element m name else pure other

  -- `serverData::database->query`.
  unfoldable pub query : Bytes → Map → Act P Reply
  query sql params s = let (db, r) = P.query s.db sql params in next r (record s { db = db })

  -- `SQLResult::rowCount` and `SQLResult::operator[][]`.
  unfoldable pub row_count : SqlResult → Act P ℕ
  row_count r s =
      if r.col_count == 0 then failed undefined s else next (length r.cells / r.col_count) s

  unfoldable pub cell : SqlResult → ℕ → ℕ → Act P Bytes
  unfolding value_of
  cell r row col = value_of undefined (get_elem? r.cells (row * r.col_count + col))

  -- `responseWrapper::add`, of a text, of a cell and of an object.
  unfoldable pub add : Entries → Bytes → Bytes → Bool → Act P Entries
  unfolding value_of
  add w key value forced = value_of aborted (add_string w key value forced)

  unfoldable pub add_wrapper : Entries → Bytes → Entries → Bool → Act P Entries
  unfolding value_of
  add_wrapper w key value forced = value_of aborted (add_object w key value forced)

  -- A run of `w.add(key, result[row][col])`, with the columns in their order from `col`.
  unfoldable pub add_cells : SqlResult → ℕ → ℕ → List Bytes → Entries → Act P Entries
  unfolding cell add ◌>>=◌ pure
  add_cells r row col [] w = pure w
  add_cells r row col (key ∷ keys) w = do
    v ← cell r row col
    w ← add w key v false
    add_cells r row (col + 1) keys w

  -- `for (size_t i = row; i < row + n; i++)`, over what the body builds.
  unfoldable pub each_row : {A : Type 0} → ℕ → ℕ → (ℕ → A → Act P A) → A → Act P A
  unfolding ◌>>=◌ pure
  each_row zero row body a = pure a
  each_row (suc n) row body a = do a ← body row a; each_row n (row + 1) body a

  -- The log line `"Session (" << serverData::auth->getSessionID(req).value()`: what is printed is
  -- left out, and `value()` throws where there is no identifier.
  unfoldable pub log_session : Request → Act P (Unit {0})
  unfolding value_of ◌>>=◌ pure
  log_session req = do id ← value_of exception (get_session_id req.cookie); pure tt

  -- An element that a log line prints.
  unfoldable pub log_element : Map → Bytes → Act P (Unit {0})
  unfolding get_element ◌>>=◌ pure
  log_element m name = do v ← get_element m name; pure tt

  unfoldable pub verify : Request → Level → Act P Bool
  unfolding gets
  verify req level = gets (λ s. Table.verify s.sessions req.cookie level)

  -- `if (!verify(req, level)) { 403; return; }`.
  unfoldable pub require : Request → Level → Act P (Unit {0})
  unfolding verify stop ◌>>=◌ pure
  require req level = do allowed ← verify req level; when (not allowed) (stop forbidden)

  -- `if (!m.containsAll(names)) { 400; return; }`.
  unfoldable pub require_elements : Map → List Bytes → Act P (Unit {0})
  unfolding stop pure contains_all
  require_elements m names = when (not (contains_all m names false)) (stop bad_request)

  -- `if (!status) { 500; return; }`.
  unfoldable pub require_ok : Reply → Act P (Unit {0})
  unfolding stop pure
  require_ok r = when (not r.ok) (stop internal_error)

  -- `if (!status) writeStatus(500); else ...`, after which the handler goes on.
  unfoldable pub report : Reply → Act P (Unit {0}) → Act P (Unit {0})
  unfolding write_status
  report r m = if r.ok then m else write_status internal_error

  -- `if (rowCount() != 0) ...; else { 404; end; }`.
  unfoldable pub if_found : ℕ → Act P (Unit {0}) → Act P (Unit {0})
  unfolding write_status ◌>>=◌ end_with
  if_found n m = if n == 0 then write_status not_found >> end_call else m

  -- `res->end(response.toData(false))`.
  unfoldable pub send : Entries → Act P (Unit {0})
  unfolding end_with
  send response = end_with (to_data response false)
