-- ===== src/Platform.antt =====
-- What the server takes from outside the repository: SQLite behind `sqlite3DB::query`, libcurl's
-- unescaping, the iteration order of std::unordered_map, and the arithmetic of double.
use wfa.Base.{ℕ, Bool, Option, List, Bytes}
use wfa.Base.Map.{Map}

-- `SQLResult`: the cells of all rows, one after another.
pub record SqlResult : Type 0 where
  pub col_count : ℕ
  pub cells : List Bytes

-- `std::pair<SQLCode, SQLResult>`; `ok` is `SQLCode::isOK`.
pub record Reply : Type 0 where
  pub ok : Bool
  pub result : SqlResult

pub record Platform : Type 1 where
  -- The contents of the database, and one call of `query` with its statement and parameters.
  pub State : Type 0
  pub query : State → Bytes → Map → State × Reply
  -- `curl_easy_unescape`.
  pub unescape : Bytes → Bytes
  -- The order in which a loop meets the entries of a map.
  pub iterate : Map → Map
  -- `std::from_chars` into a double, `double * size_t`, `+`, 0 and `std::to_string`.
  pub Double : Type 0
  pub parse_double : Bytes → Option Double
  pub times : Double → ℕ → Double
  pub plus : Double → Double → Double
  pub zero_double : Double
  pub print_double : Double → Bytes
