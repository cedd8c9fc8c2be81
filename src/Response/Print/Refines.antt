-- ===== src/Response/Print/Refines.antt =====
-- `toData(false)` prints the compact form, whatever stands before.
use wfa.Base.{
  ℕ, ◌+◌, ◌-◌, ◌≡◌, refl, ap, Bool, true, false, List, [], ◌∷◌, ◌++◌, append_assoc, append-nil,
  arith, Bytes, length, length-append,
}
use wfa.Response.{
  Entries, Container, Objects, nil, entry, strings, objects, done, object, string_to_data,
  strings_to_data, entries_to_data, container_to_data, objects_to_data, to_data, add_padding,
  erase_at, erase_comma, close_object,
}
use wfa.Response.Print.{print_strings, print_entries, print_value, print_objects, print}

erase_at-length : (s : Bytes) (c : ℕ) → erase_at (length s) (s ++ c ∷ []) ≡ s
erase_at-length [] c = refl
erase_at-length (x ∷ s) c = ap (λ (t : Bytes). x ∷ t) (erase_at-length s c)

erase_comma-append : (s : Bytes) → erase_comma false (s ++ b',' ∷ []) ≡ s
unfolding erase_comma
erase_comma-append s =
    let e : length (s ++ b',' ∷ []) - 1 ≡ length s = omega (arith, length-append s (b',' ∷ [])) in
    rw e (erase_at-length s b',')

strings_to_data-print :
    (vs : List Bytes) (src : Bytes) (d : ℕ)
    → strings_to_data (src ++ b',' ∷ []) d vs false ≡ (src ++ print_strings vs) ++ b',' ∷ []
unfolding strings_to_data print_strings add_padding string_to_data
strings_to_data-print [] src d = rw append-nil
strings_to_data-print (v ∷ vs) src d =
    rw (strings_to_data-print vs ((src ++ b',' ∷ []) ++ v) d) (simp append_assoc)

mutual
  unfolding to_data print_entries

  close_entries :
      (e : Entries) (src : Bytes) (d : ℕ)
      → erase_comma false (entries_to_data e (src ++ b',' ∷ []) d false) ++ b'}' ∷ []
        ≡ src ++ print_entries e true
  close_entries nil src d = rw erase_comma-append
  close_entries (entry key forced c rest) src d =
      rw (container_to_data-print c _ d forced, close_entries rest _ d) (simp append_assoc)

  close_object-print :
      (e : Entries) (src : Bytes) (d d' : ℕ)
      → close_object (entries_to_data e (src ++ b'{' ∷ []) d false) d' e false
        ≡ src ++ b'{' ∷ print_entries e false
  close_object-print nil src d d' = simp append_assoc
  close_object-print (entry key forced c rest) src d d' =
      rw (container_to_data-print c _ d forced, close_entries rest _ d) (simp append_assoc)

  container_to_data-print :
      (c : Container) (src : Bytes) (d : ℕ) (forced : Bool)
      → container_to_data c src d forced false ≡ src ++ print_value c forced
  container_to_data-print (strings v []) src d true = rw erase_comma-append (simp append_assoc)
  container_to_data-print (strings v []) src d false = rw append-nil
  container_to_data-print (strings v (w ∷ vs)) src d forced =
      rw (strings_to_data-print (w ∷ vs) ((src ++ b'[' ∷ []) ++ v) d, erase_comma-append)
        (simp append_assoc)
  container_to_data-print (objects e done) src d true =
      rw (close_object-print e (src ++ b'[' ∷ []) (d + 1 + 1) (d + 1), erase_comma-append)
        (simp append_assoc)
  container_to_data-print (objects e done) src d false =
      rw (append-nil, close_object-print e src (d + 1) d)
  container_to_data-print (objects e (object o os)) src d forced =
      rw
        (
          close_object-print e (src ++ b'[' ∷ []) (d + 1 + 1) (d + 1),
          objects_to_data-print (object o os) _ d,
          erase_comma-append,
        )
        (simp append_assoc)

  objects_to_data-print :
      (os : Objects) (src : Bytes) (d : ℕ)
      → objects_to_data os (src ++ b',' ∷ []) d false ≡ (src ++ print_objects os) ++ b',' ∷ []
  objects_to_data-print done src d = rw append-nil
  objects_to_data-print (object e os) src d =
      rw (close_object-print e (src ++ b',' ∷ []) (d + 1 + 1) (d + 1), objects_to_data-print os _ d)
        (simp append_assoc)

-- For every response, toData(false), which appends each element behind a comma and erases the last
-- one, gives the same text as an independent print that joins the elements by commas.
pub to_data-print : (e : Entries) → to_data e false ≡ print e
unfolding to_data print
to_data-print e = close_object-print e [] 1 0
