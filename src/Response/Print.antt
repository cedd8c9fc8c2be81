-- ===== src/Response/Print.antt =====
-- The compact form: `toData(false)` joins the printed elements by commas.
pub mod Refines
use wfa.Base.{Bool, true, false, ◌||◌, List, [], ◌∷◌, ◌++◌, Bytes, if◌then◌else◌}
use wfa.Response.{
  Entries, Container, Objects, nil, entry, strings, objects, done, object, any_more, is_many,
}

-- What follows the first item of a list: each further item behind a comma.
unfoldable pub print_strings : List Bytes → Bytes
print_strings [] = []
print_strings (v ∷ vs) = b',' ∷ (v ++ print_strings vs)

abbrev pub brackets : Bool → Bytes → Bytes
brackets many body = if many then b'[' ∷ (body ++ b']' ∷ []) else body

-- An object is its elements in braces; `print_entries` says whether an element stands before.
unfoldable mutual
  unfolding print_strings

  pub print_entries : Entries → Bool → Bytes
  print_entries nil later = b'}' ∷ []
  print_entries (entry key forced c rest) later =
      (if later then b',' ∷ [] else [])
      ++ (key ++ b':' ∷ (print_value c forced ++ print_entries rest true))

  pub print_value : Container → Bool → Bytes
  print_value (strings v vs) forced = brackets (any_more vs || forced) (v ++ print_strings vs)
  print_value (objects e os) forced =
      brackets (is_many os || forced) ((b'{' ∷ print_entries e false) ++ print_objects os)

  pub print_objects : Objects → Bytes
  print_objects done = []
  print_objects (object e os) = b',' ∷ ((b'{' ∷ print_entries e false) ++ print_objects os)

unfoldable pub print : Entries → Bytes
unfolding print_entries
print e = b'{' ∷ print_entries e false
