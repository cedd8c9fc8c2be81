-- ===== src/Session/Table.antt =====
-- Server/include/Network.h, class authenticator: `sessions` and the questions asked of it.
use wfa.Base.{
  ℕ, Bool, true, false, Option, none, some, List, [], ◌∷◌, Bytes, text, same, is_empty, ◌==◌,
  if◌then◌else◌,
}
use wfa.Base.Decimal.{from_chars, to_string}
use wfa.Session.Cookies.{get_cookies, get_cookie}
use wfa.Session.Levels.{Level, at_least}

pub record Session : Type 0 where
  pub level : Level
  pub user_id : ℕ

-- std::unordered_map<sessionID, session>.
abbrev pub Sessions : Type 0
Sessions = List (ℕ × Session)

unfoldable pub find_session : Sessions → ℕ → Option Session
find_session [] id = none
find_session ((i, s) ∷ ss) id = if i == id then some s else find_session ss id

unfoldable pub erase_session : Sessions → ℕ → Sessions
erase_session [] id = []
erase_session ((i, s) ∷ ss) id = if i == id then ss else (i, s) ∷ erase_session ss id

unfoldable pub assign_session : Sessions → ℕ → Session → Sessions
assign_session [] id v = (id, v) ∷ []
assign_session ((i, s) ∷ ss) id v = if i == id then (i, v) ∷ ss else (i, s) ∷ assign_session ss id v

-- `authCookie`.
abbrev pub auth_cookie : Bytes
auth_cookie = text "auth"

-- `getSessionID`, of the "cookie" header.
unfoldable pub get_session_id : Bytes → Option ℕ
get_session_id header =
    let cookies = get_cookies header in
    let auth = get_cookie cookies auth_cookie in
    if is_empty cookies then none else if is_empty auth then none else from_chars 64 auth

unfoldable pub has_session : Bytes → Bool
has_session header = elim (get_session_id header) [ none ↦ false | some id ↦ true ]

-- The session that a request belongs to.
unfoldable pub current_session : Sessions → Bytes → Option Session
current_session ss header = elim (get_session_id header) [
  | none ↦ none
  | some id ↦ find_session ss id
]

-- `verify`.
unfoldable pub verify : Sessions → Bytes → Level → Bool
unfolding current_session
verify ss header check_level = elim (current_session ss header) [
  | none ↦ false
  | some s ↦ at_least s.level check_level
]

unfoldable pub get_session_user : Sessions → Bytes → Option ℕ
unfolding current_session
get_session_user ss header = elim (current_session ss header) [
  | none ↦ none
  | some s ↦ some s.user_id
]

unfoldable pub get_session_auth_level : Sessions → Bytes → Option Level
unfolding current_session
get_session_auth_level ss header = elim (current_session ss header) [
  | none ↦ none
  | some s ↦ some s.level
]

unfoldable pub is_session_user : Sessions → Bytes → Bytes → Bool
unfolding get_session_user
is_session_user ss header uid = elim (get_session_user ss header) [
  | none ↦ false
  | some id ↦ same (to_string id) uid
]

unfoldable pub is_session_user_from_id : Sessions → Bytes → Bytes → Bool
unfolding get_session_user
is_session_user_from_id ss header user_index = elim (get_session_user ss header) [
  | none ↦ false
  | some id ↦ elim (from_chars 64 user_index) [ none ↦ false | some user_id ↦ id == user_id ]
]

-- The do-while of `request`: draws until an identifier is free. `none` stands for a loop that is
-- still running when the draws listed are used up.
unfoldable pub draw_id : Sessions → List ℕ → Option (ℕ × List ℕ)
draw_id ss [] = none
draw_id ss (val ∷ draws) = elim (find_session ss val) [
  | none ↦ some (val, draws)
  | some _ ↦ draw_id ss draws
]
