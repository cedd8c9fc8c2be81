-- ===== src/Tests/Demo.antt =====
-- A database that records its statements and gives one reply to all of them, and two sessions.
use wfa.Base.{ℕ, true, Bytes, List, [], ◌∷◌, ◌++◌, text, none}
use wfa.Base.Map.{Map}
use wfa.Handler.{Server, Request}
use wfa.Platform.{Platform, Reply}
use wfa.Session.Table.{Sessions}

abbrev pub recorder : Reply → Platform
recorder reply = record {
  State = List (Bytes × Map);
  query = λ log sql params. (log ++ (sql, params) ∷ [], reply);
  unescape = λ s. s;
  iterate = λ m. m;
  Double = ℕ;
  parse_double = λ s. none;
  times = λ x n. x;
  plus = λ x y. x;
  zero_double = 0;
  print_double = λ x. [];
}

abbrev pub one_cell : Bytes → Reply
one_cell v = record { ok = true; result = record { col_count = 1; cells = v ∷ [] } }

-- Session 7 is an employee's, session 8 a manager's.
abbrev pub two_sessions : Sessions
two_sessions = (7, record { level = 1; user_id = 4 }) ∷ (8, record { level = 2; user_id = 5 }) ∷ []

abbrev pub demo : Platform
demo = recorder (one_cell (text "3"))

abbrev pub idle : (P : Platform) → P.State → Server P
idle P db = record { sessions = two_sessions; draws = 9 ∷ []; db = db; calls = [] }

abbrev pub as_employee : Request
as_employee = record { cookie = text "auth=7" }

abbrev pub as_manager : Request
as_manager = record { cookie = text "auth=8" }
