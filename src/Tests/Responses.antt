-- ===== src/Tests/Responses.antt =====
-- A response in its text form.
use wfa.Base.{refl, same, if◌then◌else◌, ◌≡◌, false, true, [], ◌∷◌, text}
use wfa.Response.Adding.{with_text, search-add_string}
use wfa.Response.{
  search, add_string, append_string, Entries, nil, entry, strings, objects, done, to_data,
}
use wfa.Response.Print.{print}
use wfa.Response.Print.Refines.{to_data-print}

abbrev pub vehicle_list : Entries
vehicle_list = entry (text "count") false (strings (text "1") []) (
    entry (text "vehicles") true
      (objects (entry (text "plate") false (strings (text "AB") (text "CD" ∷ [])) nil) done) nil)

to_data-print_example : to_data vehicle_list false ≡ print vehicle_list
to_data-print_example = to_data-print vehicle_list

abbrev two_counts : Entries
two_counts = entry (text "count") false (strings (text "1") (text "2" ∷ [])) (
    entry (text "vehicles") true
      (objects (entry (text "plate") false (strings (text "AB") (text "CD" ∷ [])) nil) done) nil)

search-add_string_example : search two_counts (text "count") ≡ (
    if same (text "count") (text "count")
    then with_text (search vehicle_list (text "count")) (text "2")
    else search vehicle_list (text "count"))
unfolding text same add_string append_string
search-add_string_example =
    search-add_string vehicle_list two_counts (text "count") (text "2") (text "count") false refl
