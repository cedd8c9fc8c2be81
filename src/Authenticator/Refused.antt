-- ===== src/Authenticator/Refused.antt =====
-- A login for which the database has no row.
use wfa.Base.{◌≡◌, refl, true, false, not, some, [], ◌∷◌, ◌++◌, Bytes, text, is_empty}
use wfa.Base.Map.{Map, lookup}
use wfa.Authenticator.{log_in, has_no_match}
use wfa.Authenticator.Login.{
  login_statement, login_params, cleared_server, clear-Runs, contains_credentials,
}
use wfa.Handler.{
  Server, Request, Call, status, finish, next, ◌>>=◌, pure, call, element_empty, write_status,
  end_with, row_count,
}
use wfa.Handler.Codes.{unauthorised}
use wfa.Handler.Runs.{Runs, Runs-bind, Runs-if, Runs-get_element, Runs-query}
use wfa.Platform.{Platform, Reply}
use wfa.Query.{contains_all}
use wfa.Routes.Auth.{authenticate}

-- No row of two columns.
abbrev pub no_match : Reply
no_match = record { ok = true; result = record { col_count = 2; cells = [] } }

module _ {P : Platform} where
  has_no_match-Runs : (s : Server P) → Runs (has_no_match no_match) s true s
  unfolding has_no_match pure row_count ◌>>=◌
  has_no_match-Runs s = record { at = refl }

  pure-Runs : {A : Type 0} (a : A) (s : Server P) → Runs (pure a) s a s
  unfolding pure
  pure-Runs a s = record { at = refl }

  call-Runs :
      (c : Call) (s : Server P) → Runs (call c) s tt (record s { calls = s.calls ++ c ∷ [] })
  unfolding call
  call-Runs c s = record { at = refl }

  element_empty-Runs :
      (b : Map) (n v : Bytes) (s : Server P)
      → lookup b n ≡ some v
      → Runs (element_empty b n) s (is_empty v) s
  unfolding element_empty
  element_empty-Runs b n v s h = Runs-bind _ (Runs-get_element _ _ h) (pure-Runs _ s)

  log_in-Runs :
      (req : Request) (b : Map) (s : Server P) (name password : Bytes) (db : P.State)
      → lookup b (text "username") ≡ some name
      → not (contains_all b (text "username" ∷ text "password" ∷ []) false) ≡ false
      → lookup b (text "password") ≡ some password
      → P.query (cleared_server req s).db login_statement (login_params name password)
        ≡ (db, no_match)
      → Runs (log_in req b) s false (record (cleared_server req s) { db = db })
  unfolding log_in
  log_in-Runs req b s name password db hn hc hp hq = Runs-if _ _ hc (
      Runs-bind _ (clear-Runs req s) (
        Runs-bind _ (Runs-get_element _ _ hn) (
          Runs-bind _ (Runs-get_element _ _ hp) (
            Runs-bind _ (Runs-query login_statement (login_params name password) hq)
              (Runs-bind _ (has_no_match-Runs _) (pure-Runs false _))))))

  authenticate-Runs :
      (req : Request) (b q : Map) (s : Server P) (name password : Bytes) (db : P.State)
      → lookup b (text "username") ≡ some name
      → not (contains_all b (text "username" ∷ text "password" ∷ []) false) ≡ false
      → lookup b (text "password") ≡ some password
      → is_empty name ≡ false
      → is_empty password ≡ false
      → P.query (cleared_server req s).db login_statement (login_params name password)
        ≡ (db, no_match)
      → Runs (authenticate req b q) s tt (record (cleared_server req s) {
        db = db;
        calls = ((cleared_server req s).calls ++ status unauthorised ∷ []) ++ finish [] ∷ [];
      })
  unfolding authenticate write_status end_with
  authenticate-Runs req b q s name password db hn hc hp en ep hq =
      Runs-bind _
        (Runs-if _ _ hc (
          Runs-bind _ (element_empty-Runs b _ name s hn)
            (Runs-if _ _ en (element_empty-Runs b _ password s hp))))
        (Runs-bind _ (Runs-if _ _ ep (pure-Runs tt s)) (
          Runs-bind _ (log_in-Runs req b s name password db hn hc hp hq)
            (Runs-bind _ (call-Runs (status unauthorised) _) (call-Runs (finish []) _))))

  -- Where the body has a non-empty user name and password and the database answers the login
  -- statement (the password hashed) with no row, the handler of /request answers 401 with an empty
  -- body as its only calls behind those of release, and the session table is the one that release
  -- left: no session is opened.
  pub authenticate-no_match :
      (req : Request) (b q : Map) (s : Server P) (name password : Bytes) (db : P.State)
      → lookup b (text "username") ≡ some name
      → lookup b (text "password") ≡ some password
      → is_empty name ≡ false
      → is_empty password ≡ false
      → P.query (cleared_server req s).db login_statement (login_params name password)
        ≡ (db, no_match)
      → authenticate req b q s
        ≡ next tt (record (cleared_server req s) {
          db = db;
          calls = ((cleared_server req s).calls ++ status unauthorised ∷ []) ++ finish [] ∷ [];
        })
  authenticate-no_match req b q s name password db hn hp en ep hq =
      let contained : not (contains_all b (text "username" ∷ text "password" ∷ []) false) ≡ false =
        rw (contains_credentials b name password hn hp en ep) refl in
      (authenticate-Runs req b q s name password db hn contained hp en ep hq).at
