-- ===== src/Routes/Auth.antt =====
-- Server/include/WebRoutes/Auth.h: logging in and out.
use wfa.Base.{false, not, [], ◌∷◌, ◌++◌, text, if◌then◌else◌}
use wfa.Base.Map.{Map}
use wfa.Authenticator.{release, log_in}
use wfa.Database.{user, table_name}
use wfa.Handler.{
  Act, Request, exception, ◌>>=◌, ◌>>◌, gets, when, or_else, stop, write_status, end_call, value_of,
  get_element, element_empty, query, add, log_element, require_elements, report, send,
}
use wfa.Handler.Codes.{ok_code, bad_request, unauthorised, conflict}
use wfa.Platform.{Platform}
use wfa.Query.{contains_all}
use wfa.Response
use wfa.Response.{Entries, to_data}
use wfa.Session.Levels.{level_to_string}
use wfa.Session.Table

module _ {P : Platform} where
  unfoldable pub authenticate : Request → Map → Map → Act P (Unit {0})
  authenticate req b q = do
    bad ← or_else (not (contains_all b (text "username" ∷ text "password" ∷ []) false)) do
      nameless ← element_empty b (text "username")
      or_else nameless (element_empty b (text "password"))
    when bad (stop bad_request)
    known ← log_in req b
    when (not known) (write_status unauthorised)
    end_call

  -- A failed insertion writes its status and goes on to `authenticate`.
  unfoldable pub register_user : Request → Map → Map → Act P (Unit {0})
  unfolding authenticate
  register_user req b q = do
    require_elements b (text "username" ∷ text "password" ∷ [])
    username ← get_element b (text "username")
    password ← get_element b (text "password")
    r ←
        query
          (text "INSERT INTO "
            ++ (table_name user
                ++ text " (ID, USERNAME, PASSWORD, PERMISSIONS) VALUES (NULL, :USR, :PAS, 1);"))
          ((text ":USR", username) ∷ (text ":PAS", password) ∷ [])
    report r (log_element b (text "username"))
    authenticate req b q

  unfoldable pub deauthenticate : Request → Act P (Unit {0})
  deauthenticate req = do
    released ← release req
    when (not released) (write_status conflict)
    end_call

  unfoldable pub check_session : Request → Act P (Unit {0})
  check_session req =
      if Table.has_session req.cookie
      then (do
        write_status ok_code
        level ← gets (λ s. Table.get_session_auth_level s.sessions req.cookie)
        held ← value_of exception level
        wrap ← add Response.nil (text "Permissions") (level_to_string held) false
        send wrap)
      else do released ← release req; write_status unauthorised; end_call
