-- ===== src/Tests/Parsing.antt =====
-- Responses read back.
use wfa.Base.{arith, refl, ◌≡◌, some, none, false, true, [], text}
use wfa.Base.Result.{ok, outside, asserted, Finishes}
use wfa.Base.Scan.{before, from}
use wfa.Response.{Entries, nil, entry, strings, objects, done, object}
use wfa.Response.{to_data}
use wfa.Response.Parse.{from_data_all}
use wfa.Response.Unformatted.{
  from_unformatted_data, Spread, at_end, same_byte, white, quoted, from_unformatted_data-Spread,
}
use wfa.Response.Parse.Blocks.{ArePlain}
use wfa.Response.Parse.Pieces.{normal}
use wfa.Response.Parse.RoundTrip.{from_data-to_data}
use wfa.Response.Parse.Ends.{from_data_all-Finishes}
use wfa.Tests.Responses.{vehicle_list}

object_list_back :
    from_data_all (text "{a:[{b:1,c:[]},{b:}],d:x}")
    ≡ ok (
        some (
          entry
            (text "a")
            true
            (objects
              (entry
                (text "b")
                false
                (strings (text "1") [])
                (entry (text "c") true (strings [] []) nil))
              (object (entry (text "b") false (strings [] []) nil) done))
            (entry (text "d") false (strings (text "x") []) nil)))
unfolding from_data_all before from text
object_list_back = refl

no_object : from_data_all (text "[1]") ≡ ok none
unfolding from_data_all text
no_object = refl

unclosed : from_data_all (text "{a:[1}") ≡ outside
unfolding from_data_all text before from
unclosed = refl

trailing_comma : from_data_all (text "{a:[{b:1},]}") ≡ asserted
unfolding from_data_all text before from
trailing_comma = refl

pub vehicle_list-ArePlain : ArePlain vehicle_list
unfolding ArePlain text
vehicle_list-ArePlain = ground arith

from_data-to_data_example :
    from_data_all (to_data vehicle_list false) ≡ ok (some (normal vehicle_list))
from_data-to_data_example = from_data-to_data vehicle_list vehicle_list-ArePlain

from_data_all-Finishes_example : Finishes (from_data_all (text "{a:[{b:1,c:[]},{b:}],d:[x"))
from_data_all-Finishes_example = from_data_all-Finishes (text "{a:[{b:1,c:[]},{b:}],d:[x")

abbrev one_count : Entries
one_count = entry (text "count") false (strings (text "1") []) nil

one_count-ArePlain : ArePlain one_count
unfolding ArePlain text
one_count-ArePlain = ground arith

one_count-Spread : Spread (to_data one_count false) (text "{ \"count\":\n1}")
unfolding text to_data
one_count-Spread = same_byte b'{' refl (ground arith) (
    white b' ' refl (
      quoted (text "count") (ground arith) (
        same_byte b':' refl (ground arith) (
          white 10 refl
            (same_byte b'1' refl (ground arith) (same_byte b'}' refl (ground arith) at_end))))))

from_unformatted_data-Spread_example :
    from_unformatted_data (text "{ \"count\":\n1}") ≡ ok (some (normal one_count))
from_unformatted_data-Spread_example =
    from_unformatted_data-Spread one_count (text "{ \"count\":\n1}") one_count-ArePlain
      one_count-Spread
