-- ===== src/Authenticator.antt =====
-- Server/include/Network.h, class authenticator: the operations that change the session table.
pub mod Login
pub mod Refused
pub mod Opening
use wfa.Base.{
  ℕ, Bool, true, false, not, Option, none, some, [], ◌∷◌, ◌++◌, Bytes, text, ◌==◌, map, ◌-◌,
  if◌then◌else◌,
}
use wfa.Base.Decimal.{from_chars, to_string}
use wfa.Base.Map.{Map}
use wfa.Database.{user, table_name}
use wfa.Handler.{
  Act, Request, ◌>>=◌, on_option, ◌>>◌, pure, gets, when, or_else, call, header, next, failed,
  blocked, aborted, fail, get_element, query, row_count, cell, log_element,
}
use wfa.Platform.{Platform, Reply, SqlResult}
use wfa.Query.{contains_all}
use wfa.Session.Table

-- `hash`: `~` of each char.
unfoldable pub hash : Bytes → Bytes
hash = map (λ c. 255 - c)

module _ {P : Platform} where
  unfoldable pub set_cookie : Bytes → Bytes → Act P (Unit {0})
  unfolding call
  set_cookie name val = call (header (text "Set-Cookie") (name ++ (text "=" ++ val)))

  unfoldable pub clear_cookie : Bytes → Act P (Unit {0})
  unfolding set_cookie
  clear_cookie name = set_cookie name (text "deleted; expires=Thu, 01 Jan 1970 00:00:00 GMT;")

  unfoldable pub set_sessions : Table.Sessions → Act P (Unit {0})
  set_sessions ss s = next tt (record s { sessions = ss })

  -- `release`.
  unfoldable pub release : Request → Act P Bool
  unfolding gets set_sessions clear_cookie pure ◌>>=◌
  release req = on_option (Table.get_session_id req.cookie) (pure false) (λ id. do
    ss ← gets (λ s. s.sessions)
    set_sessions (Table.erase_session ss id)
    clear_cookie Table.auth_cookie
    pure true)

  -- The do-while that picks an identifier.
  unfoldable pub draw : Act P ℕ
  draw s = elim (Table.draw_id s.sessions s.draws) [
    | none ↦ failed blocked s
    | some (val, draws) ↦ next val (record s { draws = draws })
  ]

  -- A conversion of `request`: it returns false on an error code.
  unfoldable pub if_converted : Option ℕ → (ℕ → Act P Bool) → Act P Bool
  unfolding pure
  if_converted none f = pure false
  if_converted (some n) f = f n

  -- The end of `request`.
  unfoldable pub open_session : ℕ → ℕ → ℕ → Map → Act P Bool
  unfolding gets set_sessions set_cookie log_element pure ◌>>=◌
  open_session val user_id level b = do
    ss ← gets (λ s. s.sessions)
    set_sessions (Table.assign_session ss val (record { level = level; user_id = user_id }))
    set_cookie Table.auth_cookie (to_string val)
    log_element b (text "username")
    pure true

  -- `!status || matches.rowCount() == 0`.
  unfoldable pub has_no_match : Reply → Act P Bool
  unfolding pure row_count ◌>>=◌
  has_no_match r = or_else (not r.ok) do n ← row_count r.result; pure (n == 0)

  unfoldable pub assert_single : SqlResult → Act P (Unit {0})
  unfolding pure row_count fail ◌>>=◌
  assert_single r = do n ← row_count r; when (not (n == 1)) (fail aborted)

  -- `request`.
  unfoldable pub log_in : Request → Map → Act P Bool
  log_in req b =
      if not (contains_all b (text "username" ∷ text "password" ∷ []) false) then pure false else do
        when (Table.has_session req.cookie) (do released ← release req; pure tt)
        username ← get_element b (text "username")
        password ← get_element b (text "password")
        matches ←
            query
              (text "SELECT ID, PERMISSIONS FROM "
                ++ (table_name user ++ text " WHERE USERNAME = :USR AND PASSWORD = :PWD"))
              ((text ":USR", username) ∷ (text ":PWD", hash password) ∷ [])
        unmatched ← has_no_match matches
        if unmatched then pure false else do
          assert_single matches.result
          val ← draw
          id ← cell matches.result 0 0
          if_converted (from_chars 64 id) λ user_id. do
            permissions ← cell matches.result 0 1
            if_converted (from_chars 32 permissions) λ level. open_session val user_id level b
