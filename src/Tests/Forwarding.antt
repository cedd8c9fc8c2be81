-- ===== src/Tests/Forwarding.antt =====
-- Bodies collected, answers handed on, and the lines of a link file.
use wfa.Base.{◌≡◌, refl, false, true, List, [], ◌∷◌, ◌++◌, text, same, arith, length, ◌≤◌}
use wfa.Base.Int.{pos}
use wfa.Base.Decimal.{from_chars, to_string}
use wfa.Handler.{status, header, finish}
use wfa.Base.Result.{ok, thrown, outside, ◌>>=◌}
use wfa.Base.Scan.{before, from}
use wfa.Posted.{
  chunk, aborted, Effect, callback, write_status, content_length, receive, Delivery, delivered,
  part_of, Abort, cut, part_before, receive-Delivery,
}
use wfa.Response.{to_data}
use wfa.Response.Parse.Pieces.{normal}
use wfa.Translator.Forward.{Headers, write_headers, write_all, write_back, apply_translation}
use wfa.Translator.Forward.Headers.{print_head, allowed_of, NamesLackColon, write_all-print}
use wfa.Translator.Forward.Pages.{answered, handed_on, apply_translation-to_data}
use wfa.Translator.Page.Render.{render}
use wfa.Translator.Parse.{parse}
use wfa.Translator.Search.{tag_search, find_text}
use wfa.Translator.Links.{get, post, static, is_comment, parse_line, link_pages}
use wfa.Translator.Links.Reading.{
  Line, link_line, own_line, comment_line, empty_line, print_lines, PlainLines, links_of, made,
  link_pages-print,
}
use wfa.Tests.Responses.{vehicle_list}
use wfa.Tests.Parsing.{vehicle_list-ArePlain}
use wfa.Tests.Pages.{vehicle_page}

three_parts :
    Delivery
      (text "a=1&b=2")
      (chunk (text "a=") false ∷ chunk (text "1&b") false ∷ chunk (text "=2") true ∷ [])
unfolding text
three_parts = part_of (text "a=") (part_of (text "1&b") (delivered (text "=2")))

length_seven : content_length (text "7") ≡ 7
unfolding content_length text from_chars
length_seven = refl

length_ten : content_length (text "10") ≡ 10
unfolding content_length text from_chars
length_ten = refl

body_length : length (text "a=1&b=2") ≤ 9
unfolding text
body_length = ground arith

sent_length : length (text "a=") ≤ 9
unfolding text
sent_length = ground arith

part_sent : Abort (text "a=") (chunk (text "a=") false ∷ aborted ∷ [])
unfolding text
part_sent = part_before (text "a=") cut

receive-Delivery_example :
    (receive 9
        (text "7")
        (chunk (text "a=") false ∷ chunk (text "1&b") false ∷ chunk (text "=2") true ∷ [])
      ≡ ok (callback (text "a=1&b=2") ∷ []))
    × (receive 9 (text "7") (chunk (text "a=") false ∷ aborted ∷ [])
        ≡ ok (write_status (text "500") ∷ Effect.finish ∷ []))
    × (receive 9 (text "10") (chunk (text "a=") true ∷ []) ≡ thrown)
receive-Delivery_example =
    receive-Delivery 9 (text "7") (text "10") (text "a=1&b=2") (text "a=")
      (chunk (text "a=") false ∷ chunk (text "1&b") false ∷ chunk (text "=2") true ∷ [])
      (chunk (text "a=") false ∷ aborted ∷ []) (chunk (text "a=") true ∷ [])
      (rw length_seven (ground arith)) (rw length_seven (ground arith))
      (rw length_ten (ground arith)) body_length sent_length three_parts part_sent

no_length : receive 9 (text "x") (chunk (text "y") true ∷ []) ≡ ok (callback [] ∷ [])
unfolding receive text
no_length = refl

abbrev cookie_head : Headers
cookie_head = (text "Date", text "now") ∷ (text "Set-Cookie", text "auth=7") ∷ []

cookie_head-NamesLackColon : NamesLackColon cookie_head
unfolding text
cookie_head-NamesLackColon = ground arith

write_all-print_example : write_all (print_head cookie_head) [] ≡ ok (allowed_of cookie_head)
write_all-print_example = write_all-print cookie_head [] cookie_head-NamesLackColon

no_space : write_headers (text "Set-Cookie:x\r\n") [] ≡ ok ((text "Set-Cookie", []) ∷ [])
unfolding write_headers text same before from
no_space = refl

apply_translation-to_data_example :
    ((write_all (print_head cookie_head) [] >>= λ headers.
    apply_translation
      (answered headers (to_data vehicle_list false) 200)
      vehicle_page
      ((text "q", text "hi") ∷ []))
      ≡ render vehicle_page (normal vehicle_list) (pos 200) ((text "q", text "hi") ∷ []) >>= λ page.
          ok (handed_on cookie_head 200 page))
    × ((write_all (print_head cookie_head) [] >>= λ headers.
          write_back (answered headers (to_data vehicle_list false) 200))
        ≡ ok (handed_on cookie_head 200 (to_data (normal vehicle_list) true)))
    × ((write_all (print_head cookie_head) [] >>= λ headers.
          apply_translation
            (answered headers (b'B' ∷ text "ad") 200)
            vehicle_page
            ((text "q", text "hi") ∷ []))
        ≡ ok (handed_on cookie_head 200 (b'B' ∷ text "ad")))
    × ((write_all (print_head cookie_head) [] >>= λ headers.
          write_back (answered headers (b'B' ∷ text "ad") 200))
        ≡ ok (handed_on cookie_head 200 (b'B' ∷ text "ad")))
apply_translation-to_data_example =
    apply_translation-to_data cookie_head vehicle_list b'B' (text "ad") 200 vehicle_page
      ((text "q", text "hi") ∷ []) cookie_head-NamesLackColon vehicle_list-ArePlain (ground arith)

cookie_handed_on :
    handed_on cookie_head 404 (text "x")
    ≡ status (text "404") ∷ header (text "Set-Cookie") (text "auth=7") ∷ finish (text "x") ∷ []
unfolding text same to_string
cookie_handed_on = refl

abbrev link_file : List Line
link_file =
    comment_line (text " pages")
    ∷ link_line get b'/' (text "style") (static (text "a:b"))
    ∷ empty_line
    ∷ own_line post b'/' (text "login") (text "Login.html")
    ∷ []

link_file-PlainLines : PlainLines link_file
unfolding text
link_file-PlainLines = ground arith

link_pages-print_example :
    (link_pages (λ file. file) (print_lines link_file)
      ≡ made (λ file. file) (links_of link_file) (ok true))
    × (link_pages (λ file. file) (print_lines link_file ++ text "XS:/a:b" ∷ [])
        ≡ made (λ file. file) (links_of link_file) (ok false))
unfolding text is_comment parse_line
link_pages-print_example =
    link_pages-print (λ file. file) link_file (text "XS:/a:b") [] link_file-PlainLines refl refl

-- A page with an unclosed tag stops the links behind it.
unclosed_page :
    (link_pages
      (λ file. text "<HTMT:a>x")
      (text "GS:/a:b" ∷ text "GF:/c:d" ∷ text "GS:/e:f" ∷ [])).1
    ≡ outside
unfolding link_pages text is_comment parse_line parse tag_search find_text before from
unclosed_page = refl
