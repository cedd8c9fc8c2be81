-- ===== src/Authenticator/Login.antt =====
-- `authenticator::request`, from the elements of the body to the session.
use wfa.Base.{
  ℕ, ◌≡◌, refl, Bool, true, false, not, Option, none, some, List, [], ◌∷◌, ◌++◌, Bytes, text,
  is_empty, arith, Option-cases, inl, inr,
}
use wfa.Base.Decimal.{from_chars}
use wfa.Base.Map.{Map, lookup}
use wfa.Authenticator.{
  hash, release, draw, if_converted, has_no_match, assert_single, open_session, log_in,
}
use wfa.Authenticator.Opening.{released_server, release-next, opened_server, open_session-next}
use wfa.Database.{user, table_name}
use wfa.Handler.{Act, Request, Server, next, ◌>>=◌, pure, when, row_count, cell}
use wfa.Handler.Runs.{Runs, Runs-bind, Runs-if, Runs-get_element, Runs-query, Runs-cell}
use wfa.Platform.{Platform, Reply}
use wfa.Query.{has_element, contains_all}
use wfa.Session.Levels.{Level, at_least}
use wfa.Session.Table
use wfa.Session.Unique.{find-assign}

-- The statement of a login, and its parameters.
abbrev pub login_statement : Bytes
login_statement =
    text "SELECT ID, PERMISSIONS FROM "
    ++ (table_name user ++ text " WHERE USERNAME = :USR AND PASSWORD = :PWD")

abbrev pub login_params : Bytes → Bytes → Map
login_params name password = (text ":USR", name) ∷ (text ":PWD", hash password) ∷ []

pub contains_credentials :
    (b : Map) (name password : Bytes)
    → lookup b (text "username") ≡ some name
    → lookup b (text "password") ≡ some password
    → is_empty name ≡ false
    → is_empty password ≡ false
    → contains_all b (text "username" ∷ text "password" ∷ []) false ≡ true
unfolding contains_all has_element
contains_credentials b name password hn hp en ep =
    rw (contains_all, has_element, hn, hp, en, ep) refl

abbrev pub one_match : Bytes → Bytes → Reply
one_match id permissions = record {
  ok = true;
  result = record { col_count = 2; cells = id ∷ permissions ∷ [] };
}

module _ {P : Platform} where
  -- The server once the session of the request, if it has one, is dropped.
  abbrev without : Option ℕ → Server P → Server P
  without none s = s
  without (some id) s = released_server id s

  abbrev pub cleared_server : Request → Server P → Server P
  cleared_server req s = without (Table.get_session_id req.cookie) s

  draw-Runs :
      (s : Server P) (val : ℕ) (draws : List ℕ)
      → Table.draw_id s.sessions s.draws ≡ some (val, draws)
      → Runs draw s val (record s { draws = draws })
  unfolding draw
  draw-Runs s val draws h = record { at = rw (h, draw) refl }

  if_converted-Runs :
      (f : ℕ → Act P Bool) {o : Option ℕ} {n : ℕ} {s t : Server P}
      → o ≡ some n
      → Runs (f n) s true t
      → Runs (if_converted o f) s true t
  unfolding if_converted
  if_converted-Runs f h k = record { at = rw h k.at }

  has_no_match-Runs :
      (s : Server P) (id permissions : Bytes)
      → Runs (has_no_match (one_match id permissions)) s false s
  unfolding has_no_match pure row_count ◌>>=◌
  has_no_match-Runs s id permissions = record { at = refl }

  assert_single-Runs :
      (s : Server P) (id permissions : Bytes)
      → Runs (assert_single (one_match id permissions).result) s tt s
  unfolding assert_single pure row_count ◌>>=◌
  assert_single-Runs s id permissions = record { at = refl }

  clear-next :
      (req : Request) (s : Server P)
      → when (Table.has_session req.cookie) (do released ← release req; pure tt) s
        ≡ next tt (cleared_server req s)
  unfolding Table.has_session ◌>>=◌ pure
  clear-next req s = elim (Option-cases (Table.get_session_id req.cookie)) [
    | inl missing ↦ rw (Table.has_session, missing) refl
    | inr (id, held) ↦ rw (Table.has_session, held, release-next req s id held) refl
  ]

  id-Runs :
      (s : Server P) (id permissions : Bytes)
      → Runs (cell (one_match id permissions).result 0 0) s id s
  id-Runs s id permissions = Runs-cell (one_match id permissions).result 0 0 refl

  permissions-Runs :
      (s : Server P) (id permissions : Bytes)
      → Runs (cell (one_match id permissions).result 0 1) s permissions s
  permissions-Runs s id permissions = Runs-cell (one_match id permissions).result 0 1 refl

  open_session-Runs :
      (val user_id level : ℕ) (b : Map) (name : Bytes) (s : Server P)
      → lookup b (text "username") ≡ some name
      → Runs (open_session val user_id level b) s true (opened_server val user_id level s)
  open_session-Runs val user_id level b name s h = record {
    at = open_session-next val user_id level b name s h;
  }

  pub clear-Runs :
      (req : Request) (s : Server P)
      → Runs
          (when (Table.has_session req.cookie) (do released ← release req; pure tt))
          s
          tt
          (cleared_server req s)
  clear-Runs req s = record { at = clear-next req s }

  log_in-Runs :
      (req : Request) (b : Map) (s : Server P) (name password id permissions : Bytes)
      (val user_id level : ℕ) (draws : List ℕ) (db : P.State)
      → lookup b (text "username") ≡ some name
      → contains_all b (text "username" ∷ text "password" ∷ []) false ≡ true
      → lookup b (text "password") ≡ some password
      → P.query (cleared_server req s).db login_statement (login_params name password)
        ≡ (db, one_match id permissions)
      → Table.draw_id (cleared_server req s).sessions (cleared_server req s).draws
        ≡ some (val, draws)
      → from_chars 64 id ≡ some user_id
      → from_chars 32 permissions ≡ some level
      → Runs (log_in req b) s true (
          opened_server val user_id level
            (record (cleared_server req s) { draws = draws; db = db }))
  unfolding log_in
  log_in-Runs req b s name password id permissions val user_id level draws db hn hc hp hq hd hi hl =
      let contained : not (contains_all b (text "username" ∷ text "password" ∷ []) false) ≡ false =
        rw hc refl in
      Runs-if _ _ contained (
        Runs-bind _ (clear-Runs req s) (
          Runs-bind _ (Runs-get_element _ _ hn) (
            Runs-bind _ (Runs-get_element _ _ hp) (
              Runs-bind _ (Runs-query login_statement (login_params name password) hq) (
                Runs-bind _ (has_no_match-Runs _ id permissions) (
                  Runs-bind _ (assert_single-Runs _ id permissions) (
                    Runs-bind _ (draw-Runs _ val draws hd) (
                      Runs-bind _ (id-Runs _ id permissions) (
                        if_converted-Runs _ hi (
                          Runs-bind _ (permissions-Runs _ id permissions) (
                            if_converted-Runs _ hl
                              (open_session-Runs val user_id level b name _ hn))))))))))))

  find_session_opened :
      (val user_id level : ℕ) (s : Server P)
      → Table.find_session (opened_server val user_id level s).sessions val
        ≡ some (record { level = level; user_id = user_id })
  find_session_opened val user_id level s =
      ground (arith, find-assign s.sessions val val (record { level = level; user_id = user_id }))

  current-opened :
      (val user_id level : ℕ) (s : Server P) (header : Bytes)
      → Table.get_session_id header ≡ some val
      → Table.current_session (opened_server val user_id level s).sessions header
        ≡ some (record { level = level; user_id = user_id })
  unfolding Table.current_session
  current-opened val user_id level s header h =
      rw (Table.current_session, h, find_session_opened val user_id level s) refl

  -- Where the body has a non-empty user name and password, the database answers the login
  -- statement (the password hashed) with one row of two columns, the identifier drawn is free, and
  -- the columns convert, authenticator::request answers true (after it has released the session of
  -- the request, if there was one); then every cookie header that carries the drawn identifier
  -- belongs to the row's user and passes exactly the levels that the row's level reaches.
  pub log_in_lem :
      (req : Request) (b : Map) (s : Server P) (name password id permissions : Bytes)
      (val user_id level : ℕ) (draws : List ℕ) (db : P.State)
      → lookup b (text "username") ≡ some name
      → contains_all b (text "username" ∷ text "password" ∷ []) false ≡ true
      → lookup b (text "password") ≡ some password
      → P.query (cleared_server req s).db login_statement (login_params name password)
        ≡ (db, one_match id permissions)
      → Table.draw_id (cleared_server req s).sessions (cleared_server req s).draws
        ≡ some (val, draws)
      → from_chars 64 id ≡ some user_id
      → from_chars 32 permissions ≡ some level
      → (t : Server P) × (log_in req b s ≡ next true t)
        × (t.db ≡ db)
        × ((header : Bytes)
            → Table.get_session_id header ≡ some val
            → (Table.get_session_user t.sessions header ≡ some user_id)
              × ((l : Level) → Table.verify t.sessions header l ≡ at_least level l))
  unfolding Table.get_session_user Table.verify
  log_in_lem req b s name password id permissions val user_id level draws db hn hc hp hq hd hi hl =
      let run =
        log_in-Runs req b s name password id permissions val user_id level draws db hn hc hp hq hd
          hi hl in
      let opened =
        current-opened val user_id level
          (record (cleared_server req s) { draws = draws; db = db }) in
      (
        _,
        run.at,
        refl,
        λ header held. (
          rw (Table.get_session_user, opened header held) refl,
          λ l. rw (Table.verify, opened header held) refl,
        ),
      )
