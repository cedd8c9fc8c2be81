-- ===== src/Authenticator/Opening.antt =====
-- What a login leaves behind, and what a logout does.
use wfa.Base.{◌++◌, ◌==◌, text, ℕ, ◌≡◌, refl, true, none, some, [], ◌∷◌, Bytes, if◌then◌else◌}
use wfa.Base.Map.{Map, lookup}
use wfa.Authenticator.{release, open_session, set_cookie, clear_cookie, set_sessions}
use wfa.Base.Decimal.{to_string}
use wfa.Handler.{
  Request, Server, call, header, gets, pure, next, ◌>>=◌, on_option, log_element, get_element,
  value_of,
}
use wfa.Platform.{Platform}
use wfa.Session.Table
use wfa.Session.Unique.{IsUnique, find-erase, find-assign}

module _ {P : Platform} where
  -- The server after `release` has dropped a session.
  abbrev pub released_server : ℕ → Server P → Server P
  released_server id s = record s {
    sessions = Table.erase_session s.sessions id;
    calls =
        s.calls
        ++ header (text "Set-Cookie") (text "auth=deleted; expires=Thu, 01 Jan 1970 00:00:00 GMT;")
          ∷ [];
  }

  pub release-next :
      (req : Request) (s : Server P) (id : ℕ)
      → Table.get_session_id req.cookie ≡ some id
      → release req s ≡ next true (released_server id s)
  unfolding release text set_cookie clear_cookie call gets set_sessions pure ◌>>=◌ on_option
  release-next req s id h = rw h refl

  -- If no identifier stands twice in the session table and the request's cookie holds an
  -- identifier, release answers true and drops the session of that identifier; every other
  -- session, the draws and the database stay as they were.
  pub release_lem :
      (req : Request) (s : Server P) (id : ℕ)
      → IsUnique s.sessions
      → Table.get_session_id req.cookie ≡ some id
      → (t : Server P) × (release req s ≡ next true t)
        × ((i : ℕ)
            → Table.find_session t.sessions i
              ≡ (if id == i then none else Table.find_session s.sessions i))
        × (t.draws ≡ s.draws)
        × (t.db ≡ s.db)
  release_lem req s id u h = (
    released_server id s,
    release-next req s id h,
    (λ i. find-erase s.sessions id i u),
    refl,
    refl,
  )

  -- The server after `request` has opened a session.
  abbrev pub opened_server : ℕ → ℕ → ℕ → Server P → Server P
  opened_server val user_id level s = record s {
    sessions = Table.assign_session s.sessions val (record { level = level; user_id = user_id });
    calls = s.calls ++ header (text "Set-Cookie") (text "auth" ++ (text "=" ++ to_string val)) ∷ [];
  }

  pub open_session-next :
      (val user_id level : ℕ) (b : Map) (name : Bytes) (s : Server P)
      → lookup b (text "username") ≡ some name
      → open_session val user_id level b s ≡ next true (opened_server val user_id level s)
  unfolding open_session set_cookie call gets set_sessions pure ◌>>=◌ log_element get_element
      value_of
  open_session-next val user_id level b name s h = rw h refl

  -- The end of a login answers true, sends the identifier as the cookie, and gives it the user and
  -- the level; every other session, the draws and the database stay as they were.
  pub open_session_lem :
      (val user_id level : ℕ) (b : Map) (name : Bytes) (s : Server P)
      → lookup b (text "username") ≡ some name
      → (t : Server P) × (open_session val user_id level b s ≡ next true t)
        × ((i : ℕ)
            → Table.find_session t.sessions i ≡ (
                if val == i
                then some (record { level = level; user_id = user_id })
                else Table.find_session s.sessions i))
        × (t.calls
            ≡ s.calls
              ++ header (text "Set-Cookie") (text "auth" ++ (text "=" ++ to_string val)) ∷ [])
        × (t.draws ≡ s.draws)
        × (t.db ≡ s.db)
  open_session_lem val user_id level b name s h = (
    opened_server val user_id level s,
    open_session-next val user_id level b name s h,
    (λ i. find-assign s.sessions val i (record { level = level; user_id = user_id })),
    refl,
    refl,
    refl,
  )
