-- ===== src/Translator/Forward.antt =====
-- Translator/include/Forwarding.h, the answers of forwardingWrapper in Translator/src/Source.cpp, and
-- APIResponse::writeHeaders of Translator/include/Curl.h: what of the server's answer goes on.
pub mod Headers
pub mod Pages
use wfa.Base.{
  ℕ, zero, suc, ◌+◌, Bool, true, false, ◌&&◌, ◌||◌, Option, none, some, List, [], ◌∷◌, ◌++◌, Bytes,
  text, same, is_empty, ◌==◌, if◌then◌else◌,
}
use wfa.Base.Decimal.{to_string}
use wfa.Base.Int.{pos}
use wfa.Base.Map.{Map}
use wfa.Base.Result.{Result, ok, asserted, outside, ◌>>=◌}
use wfa.Base.Scan.{before, from, skip}
use wfa.Handler.{Call, status, header, finish}
use wfa.Response.{Entries, to_data}
use wfa.Response.Parse.{from_data_all}
use wfa.Translator.Page.{Translation, apply_page}

abbrev pub Headers : Type 0
Headers = List (Bytes × Bytes)

-- `APIResponse`, as libcurl has filled it; a code of HTTP is not negative.
pub record ApiResponse : Type 0 where
  pub headers : Headers
  pub response : Bytes
  pub response_code : ℕ

-- `allowedHeaders`.
unfoldable pub is_allowed : Bytes → Bool
is_allowed name = same name (text "Set-Cookie") || same name (text "cookie")

-- The bytes before the last two, which the second assertion wants to be '\r' and '\n'.
unfoldable pub before_line_end : Bytes → Option Bytes
before_line_end [] = none
before_line_end (x ∷ []) = none
before_line_end (x ∷ y ∷ []) = if x == 13 && y == 10 then some [] else none
before_line_end (x ∷ y ∷ z ∷ s) =
    let later = before_line_end (y ∷ z ∷ s) in elim later [ none ↦ none | some t ↦ some (x ∷ t) ]

-- What stands behind the name: the byte behind the ':' is assigned, not compared.
unfoldable pub header_value : Bytes → Result (Option Bytes)
unfolding before_line_end
header_value [] = ok none
header_value (div ∷ []) = outside
header_value (div ∷ x ∷ s) = elim (before_line_end (b' ' ∷ s)) [
  | none ↦ asserted
  | some t ↦ ok (some (skip t))
]

-- `writeHeaders`, at one line of the head. libcurl gives it whole.
unfoldable pub write_headers : Bytes → Headers → Result Headers
unfolding is_allowed header_value before from
write_headers buffer headers =
    let name = before b':' buffer in
    if is_allowed name
    then (header_value (from b':' buffer) >>= λ value. elim value [
      | none ↦ ok headers
      | some v ↦ ok (headers ++ (name, v) ∷ [])
    ])
    else ok headers

-- The lines of a head in turn.
unfoldable pub write_all : List Bytes → Headers → Result Headers
unfolding write_headers
write_all [] headers = ok headers
write_all (line ∷ lines) headers = write_headers line headers >>= write_all lines

abbrev pub header_calls : Headers → List Call
header_calls [] = []
header_calls ((name, value) ∷ headers) = header name value ∷ header_calls headers

abbrev pub answer_with : ApiResponse → Bytes → List Call
answer_with api contents =
    status (to_string api.response_code) ∷ (header_calls api.headers ++ finish contents ∷ [])

-- `writeBack`.
unfoldable pub write_back : ApiResponse → Result (List Call)
unfolding from_data_all to_data to_string
write_back api = from_data_all api.response >>= λ read. elim read [
  | none ↦ ok (answer_with api api.response)
  | some e ↦ ok (answer_with api (to_data e true))
]

-- `applyTranslation`.
unfoldable pub apply_translation : ApiResponse → Translation → Map → Result (List Call)
unfolding from_data_all apply_page to_string
apply_translation api tran q = from_data_all api.response >>= λ read. elim read [
  | none ↦ ok (answer_with api api.response)
  | some e ↦ apply_page tran e (pos api.response_code) q >>= λ page. ok (answer_with api page)
]

-- The URL that `forward` asks for, and the one of a page that forwards.
abbrev pub server_address : Bytes
server_address = text "localhost:9001"

unfoldable pub forward_url : Bytes → Bytes → Bytes
forward_url path url_query = (server_address ++ path) ++ url_query

unfoldable pub page_url : Bytes → Bytes → Bytes
page_url destination url_query =
    let url = server_address ++ destination in
    if is_empty url_query then url else url ++ b'?' ∷ url_query
