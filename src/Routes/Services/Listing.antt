-- ===== src/Routes/Services/Listing.antt =====
-- Server/include/WebRoutes/Services.h: searchServices.
use wfa.Base.{
  ℕ, Bool, true, false, not, Option, none, some, List, [], ◌∷◌, ◌++◌, Bytes, text, if◌then◌else◌,
}
use wfa.Base.Decimal.{from_chars}
use wfa.Base.Map.{Map}
use wfa.Database.{
  user, parts, parts_in_service, vehicles, service_shared, service_unauthorised, service_active,
  service_open, service_closed, table_name,
}
use wfa.Handler.{
  Act, Request, exception, ◌>>=◌, ◌>>◌, pure, when, stop, value_of, get_element, query, row_count,
  cell, add, add_wrapper, add_cells, each_row, require_ok, send,
}
use wfa.Handler.Codes.{bad_request, unauthorised, internal_error}
use wfa.Platform.{Platform, SqlResult}
use wfa.Query.{has_element, contains_any}
use wfa.Response
use wfa.Response.{Entries, to_data}
use wfa.Session.Table
use wfa.Routes.Services.ServiceParts.{require_self}

module _ (P : Platform) where
  -- getPartPrice.
  unfoldable pub get_part_price : Bytes → Bytes → Option P.Double
  get_part_price price quantity = elim (P.parse_double price) [
    | none ↦ none
    | some part_price ↦ elim (from_chars 64 quantity) [
      | none ↦ none
      | some part_quantity ↦ some (P.times part_price part_quantity)
    ]
  ]

abbrev where_user : Bool → Bytes → Bytes
where_user given clause = if given then clause else []

module _ {P : Platform} where
  unfoldable pub add_price : P.Double → Option P.Double → Act P P.Double
  unfolding stop value_of pure ◌>>=◌
  add_price total none = do stop internal_error; value_of exception none
  add_price total (some price) = pure (P.plus total price)

  -- One round over the parts of a service: the columns are added from `col` on, and the price and
  -- the quantity stand in the last two of them.
  unfoldable pub add_part :
      SqlResult → List Bytes → ℕ → ℕ → ℕ → Entries × P.Double → Act P (Entries × P.Double)
  unfolding add_cells cell add_price get_part_price add_wrapper pure ◌>>=◌
  add_part r columns price_col quantity_col i (response, total) = do
    temp ← add_cells r i 0 columns Response.nil
    price ← cell r i price_col
    quantity ← cell r i quantity_col
    total ← add_price total (get_part_price P price quantity)
    response ← add_wrapper response (text "parts") temp true
    pure (response, total)

  -- The loop over the parts, and the sum.
  unfoldable pub add_parts : SqlResult → List Bytes → ℕ → ℕ → Entries → Act P Entries
  unfolding add_part row_count each_row add ◌>>=◌
  add_parts r columns price_col quantity_col response = do
    n ← row_count r
    priced ← each_row n 0 (add_part r columns price_col quantity_col) (response, P.zero_double)
    add priced.0 (text "total") (P.print_double priced.1) false

  unfoldable pub list_unauthorised : Map → Map → Entries → Act P Entries
  unfolding query require_ok row_count each_row add_cells add_wrapper ◌>>=◌
  list_unauthorised q user_id response = do
    r ←
        query
          (text "SELECT SERVICE, V.ID, V.OWNER, SS.REQUEST, SS.REQUESTED FROM "
            ++ (table_name service_unauthorised
                ++ (text " INNER JOIN "
                    ++ (table_name service_shared
                        ++ (text " AS SS ON SERVICE = SS.ID"
                            ++ (text " INNER JOIN "
                                ++ (table_name vehicles
                                    ++ (text " AS V ON SS.VEHICLE = V.ID"
                                        ++ (text " INNER JOIN "
                                            ++ (table_name user
                                                ++ (text " AS U ON U.ID = V.OWNER"
                                                    ++ where_user (has_element q (text "UID") false)
                                                        (text " WHERE U.ID = :ID"))))))))))))
          user_id
    require_ok r
    n ← row_count r.result
    each_row n 0
        (λ i response. do
          temp ←
              add_cells r.result i 0
                (text "service"
                  ∷ text "vehicle"
                  ∷ text "owner"
                  ∷ text "request"
                  ∷ text "requested"
                  ∷ [])
                Response.nil
          add_wrapper response (text "Unauthorised") temp true)
        response

  -- One round of the loop over open services.
  unfoldable pub add_open : SqlResult → ℕ → Entries → Act P Entries
  unfolding cell query require_ok add_parts add_cells add_wrapper ◌>>=◌
  add_open r i response = do
    temp ←
        add_cells r i 0
          (text "service"
            ∷ text "vehicle"
            ∷ text "owner"
            ∷ text "request"
            ∷ text "requested"
            ∷ text "labour"
            ∷ text "notes"
            ∷ text "authoriser"
            ∷ text "quote"
            ∷ [])
          Response.nil
    id ← cell r i 9
    p ←
        query
          (text "SELECT PS.ID, P.NAME, PS.PART, PS.QUANTITY, P.PRICE FROM "
            ++ (table_name parts_in_service
                ++ (text " AS PS INNER JOIN "
                    ++ (table_name parts
                        ++ text " AS P ON PS.PART = P.ID WHERE PS.SERVICE = :ID"))))
          ((text ":ID", id) ∷ [])
    require_ok p
    temp ←
        add_parts p.result
          (text "entry" ∷ text "name" ∷ text "ID" ∷ text "quantity" ∷ text "price" ∷ []) 4 3 temp
    add_wrapper response (text "Open") temp true

  unfoldable pub list_open : Map → Map → Entries → Act P Entries
  unfolding query require_ok row_count each_row add_open ◌>>=◌
  list_open q user_id response = do
    r ←
        query
          (text
              "SELECT S.ID, S.VEHICLE, V.OWNER, S.REQUEST, S.REQUESTED, A.LABOUR, A.NOTES, U.ID, A.QUOTE, S.ID FROM "
            ++ (table_name service_open
                ++ (text " AS SO INNER JOIN "
                    ++ (table_name service_active
                        ++ (text " AS A ON SO.SERVICE = A.ID INNER JOIN "
                            ++ (table_name service_shared
                                ++ (text " AS S ON A.SERVICE = S.ID INNER JOIN "
                                    ++ (table_name vehicles
                                        ++ (text " AS V ON S.VEHICLE = V.ID INNER JOIN "
                                            ++ (table_name user
                                                ++ (text " AS U ON A.AUTHORISER = U.ID INNER JOIN "
                                                    ++ (table_name user
                                                        ++ (text " AS O ON V.OWNER = O.ID"
                                                            ++ where_user
                                                            (has_element q (text "UID") false)
                                                            (text " WHERE O.ID = :ID"))))))))))))))
          user_id
    require_ok r
    n ← row_count r.result
    each_row n 0 (add_open r.result) response

  -- One round of the loop over closed services.
  unfoldable pub add_closed : SqlResult → ℕ → Entries → Act P Entries
  unfolding cell query require_ok add_parts add_cells add_wrapper ◌>>=◌
  add_closed r i response = do
    temp ←
        add_cells r i 0
          (text "service"
            ∷ text "vehicle"
            ∷ text "owner"
            ∷ text "request"
            ∷ text "requested"
            ∷ text "labour"
            ∷ text "notes"
            ∷ text "authoriser"
            ∷ text "quote"
            ∷ text "completed"
            ∷ text "completer"
            ∷ text "paid"
            ∷ [])
          Response.nil
    id ← cell r i 0
    p ←
        query
          (text "SELECT P.NAME, PS.PART, PS.QUANTITY, P.PRICE FROM "
            ++ (table_name parts_in_service
                ++ (text " AS PS INNER JOIN "
                    ++ (table_name parts
                        ++ text " AS P ON PS.PART = P.ID WHERE PS.SERVICE = :ID"))))
          ((text ":ID", id) ∷ [])
    require_ok p
    temp ←
        add_parts p.result (text "name" ∷ text "ID" ∷ text "quantity" ∷ text "price" ∷ []) 3 2 temp
    add_wrapper response (text "Closed") temp true

  unfoldable pub list_closed : Map → Map → Entries → Act P Entries
  unfolding query require_ok row_count each_row add_closed ◌>>=◌
  list_closed q user_id response = do
    r ←
        query
          (text
              "SELECT S.ID, S.VEHICLE, V.OWNER, S.REQUEST, S.REQUESTED, A.LABOUR, A.NOTES, A.AUTHORISER, A.QUOTE, C.COMPLETED, C.COMPLETER, C.PAID FROM "
            ++ (table_name service_closed
                ++ (text " AS C INNER JOIN "
                    ++ (table_name service_active
                        ++ (text " AS A ON C.SERVICE = A.ID INNER JOIN "
                            ++ (table_name service_shared
                                ++ (text " AS S ON A.SERVICE = S.ID INNER JOIN "
                                    ++ (table_name vehicles
                                        ++ (text " AS V ON S.VEHICLE = V.ID INNER JOIN "
                                            ++ (table_name user
                                                ++ (text " AS O ON V.OWNER = O.ID"
                                                    ++ where_user (has_element q (text "UID") false)
                                                        (text " WHERE O.ID = :ID"))))))))))))
          user_id
    require_ok r
    n ← row_count r.result
    each_row n 0 (add_closed r.result) response

  unfoldable pub search_services : Request → Map → Map → Act P (Unit {0})
  unfolding require_self
  search_services req b q = do
    when (not (contains_any q (text "unauthorised" ∷ text "open" ∷ text "closed" ∷ []) true))
        (stop bad_request)
    require_self req q
    when (not (Table.has_session req.cookie)) (stop unauthorised)
    user_id ←
        if has_element q (text "UID") false
        then (do uid ← get_element q (text "UID"); pure ((text ":ID", uid) ∷ []))
        else pure []
    response ←
        if has_element q (text "unauthorised") true
        then list_unauthorised q user_id Response.nil
        else pure Response.nil
    response ←
        if has_element q (text "open") true then list_open q user_id response else pure response
    response ←
        if has_element q (text "closed") true then list_closed q user_id response else pure response
    send response
