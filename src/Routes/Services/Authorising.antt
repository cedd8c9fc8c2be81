-- ===== src/Routes/Services/Authorising.antt =====
-- authoriseRequest of Server/include/WebRoutes/Services.h, for a body without a quote.
use wfa.Base.{
  ℕ, ◌≡◌, refl, true, false, not, ◌&&◌, none, some, [], is_empty, ◌∷◌, ◌++◌, Bytes, text,
}
use wfa.Base.Map.{Map, lookup}
use wfa.Database.{service_unauthorised, table_name}
use wfa.Handler.{Server, Request, failed, exception, row_count}
use wfa.Handler.Breaks.{
  Breaks, Breaks-here, Breaks-later, Breaks-get_element, Runs-pure, Runs-gets, Runs-value_of,
  Runs-require, Runs-require_ok, Runs-element_missing, has_element-filled,
}
use wfa.Handler.Runs.{Runs, Runs-if, Runs-get_element, Runs-query}
use wfa.Platform.{Platform, Reply}
use wfa.Query.{has_element}
use wfa.Routes.Services.Lifecycle.{authorise_request}
use wfa.Session.Levels.{manager}
use wfa.Session.Table

abbrev pub select_statement : Bytes
select_statement =
    text "SELECT SERVICE FROM " ++ (table_name service_unauthorised ++ text " WHERE SERVICE = :ID")

abbrev pub delete_statement : Bytes
delete_statement =
    text "DELETE FROM " ++ (table_name service_unauthorised ++ text " WHERE SERVICE = :ID")

-- One row of one column.
abbrev pub one_row : Bytes → Reply
one_row v = record { ok = true; result = record { col_count = 1; cells = v ∷ [] } }

module _ {P : Platform} where
  row_count-Runs : (v : Bytes) (s : Server P) → Runs (row_count (one_row v).result) s 1 s
  unfolding row_count
  row_count-Runs v s = record { at = refl }

  authorise_request-Breaks :
      (req : Request) (b q : Map) (s : Server P) (id service : Bytes) (uid : ℕ) (deleted : Reply)
      (db db' : P.State)
      → (not (has_element b (text "ID") false) && not (has_element b (text "quote") false)) ≡ false
      → lookup b (text "ID") ≡ some id
      → lookup b (text "notes") ≡ none
      → lookup b (text "quote") ≡ none
      → Table.verify s.sessions req.cookie manager ≡ true
      → Table.get_session_user s.sessions req.cookie ≡ some uid
      → P.query s.db select_statement ((text ":ID", id) ∷ []) ≡ (db, one_row service)
      → P.query db delete_statement ((text ":ID", id) ∷ []) ≡ (db', deleted)
      → deleted.ok ≡ true
      → Breaks (authorise_request req b q) s exception (record s { db = db' })
  unfolding authorise_request
  authorise_request-Breaks req b q s id service uid deleted db db' present hid hn hq hv hu h1 h2
        hd =
      Breaks-later _ (Runs-if _ _ present (Runs-pure tt s)) (
        Breaks-later _ (Runs-require req manager s hv) (
          Breaks-later _ (Runs-get_element _ _ hid) (
            Breaks-later _ (Runs-query select_statement ((text ":ID", id) ∷ []) h1) (
              Breaks-later _ (Runs-require_ok _ _ refl) (
                Breaks-later _ (row_count-Runs service _) (
                  Breaks-later _ (Runs-pure tt _) (
                    Breaks-later _ (Runs-query delete_statement ((text ":ID", id) ∷ []) h2) (
                      Breaks-later _ (Runs-require_ok _ _ hd) (
                        Breaks-later _ (Runs-gets _ _) (
                          Breaks-later _ (Runs-value_of exception _ hu) (
                            Breaks-later _ (Runs-element_missing b _ [] _ hn)
                              (Breaks-here _ (Breaks-get_element b _ _ hq)))))))))))))

  -- Where a manager authorises a request with a non-empty ID and without notes and quote, and the
  -- database has one such request and deletes it, the handler fails with an exception behind the
  -- deletion: the database stays without the request, no service is inserted and nothing is
  -- answered.
  pub authorise_request-exception :
      (req : Request) (b q : Map) (s : Server P) (id service : Bytes) (uid : ℕ) (deleted : Reply)
      (db db' : P.State)
      → lookup b (text "ID") ≡ some id
      → is_empty id ≡ false
      → lookup b (text "notes") ≡ none
      → lookup b (text "quote") ≡ none
      → Table.verify s.sessions req.cookie manager ≡ true
      → Table.get_session_user s.sessions req.cookie ≡ some uid
      → P.query s.db select_statement ((text ":ID", id) ∷ []) ≡ (db, one_row service)
      → P.query db delete_statement ((text ":ID", id) ∷ []) ≡ (db', deleted)
      → deleted.ok ≡ true
      → authorise_request req b q s ≡ failed exception (record s { db = db' })
  authorise_request-exception req b q s id service uid deleted db db' hid he hn hq hv hu h1 h2 hd =
      let present : (not (has_element b (text "ID") false)
            && not (has_element b (text "quote") false))
          ≡ false =
        rw (has_element-filled b (text "ID") id hid he) refl in
      (authorise_request-Breaks req b q s id service uid deleted db db' present hid hn hq hv hu h1
        h2 hd).at
