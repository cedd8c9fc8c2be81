-- ===== src/Translator/Page/Render.antt =====
-- What a page stands for, without the text before it: each part's own text, joined.
use wfa.Base.{
  ◌≡◌, refl, Bool, true, false, Option, none, some, [], ◌∷◌, ◌++◌, Bytes, append_assoc, append-nil,
  if◌then◌else◌,
}
use wfa.Base.Int.{ℤ, same_int}
use wfa.Base.Map.{Map, lookup}
use wfa.Base.Result.{
  Result, ok, thrown, asserted, outside, out_of_fuel, ◌>>=◌, bind-ext, bind_assoc,
}
use wfa.Query.{has_element}
use wfa.Response.{Entries, Container, Objects, strings, objects, done, object, search}
use wfa.Translator.Condition.{check_condition}
use wfa.Translator.Page.{
  Match, always, tag, code, condition, Translation, translation, Values, no_values, value,
  TranslationValue, access, html, query_value, nested, append_access, append_query, each_object,
  each_field, apply_match, apply, apply_values, apply_value,
}

-- One text behind another.
abbrev pub joined : Result Bytes → Result Bytes → Result Bytes
joined r q = r >>= λ front. q >>= λ back. ok (front ++ back)

abbrev pub behind : Bytes → Result Bytes → Result Bytes
behind source r = r >>= λ out. ok (source ++ out)

unfoldable pub render_objects : (Entries → Result Bytes) → Objects → Result Bytes
render_objects f done = ok []
render_objects f (object e os) = joined (f e) (render_objects f os)

unfoldable pub render_field : (Entries → Result Bytes) → Option Container → Result Bytes
unfolding render_objects
render_field f none = ok []
render_field f (some (strings v vs)) = asserted
render_field f (some (objects e os)) = joined (f e) (render_objects f os)

unfoldable pub render_match : (Entries → Result Bytes) → Match → Entries → ℤ → Result Bytes
unfolding render_field
render_match f always response http_code = f response
render_match f (tag name) response http_code = render_field f (search response name)
render_match f (code n) response http_code = if same_int http_code n then f response else ok []
render_match f (condition c) response http_code =
    check_condition c response >>= λ met. if met then f response else ok []

unfoldable mutual
  unfolding render_match

  pub render : Translation → Entries → ℤ → Map → Result Bytes
  render (translation m values) response http_code q =
      render_match (λ response. render_values values response http_code q) m response http_code

  pub render_values : Values → Entries → ℤ → Map → Result Bytes
  render_values no_values response http_code q = ok []
  render_values (value v values) response http_code q =
      joined (render_value v response http_code q) (render_values values response http_code q)

  pub render_value : TranslationValue → Entries → ℤ → Map → Result Bytes
  render_value (access name) response http_code q = append_access [] (search response name)
  render_value (html contents) response http_code q = ok contents
  render_value (query_value name) response http_code q = append_query [] q name
  render_value (nested t) response http_code q = render t response http_code q

behind-joined :
    (source : Bytes) (r q : Result Bytes)
    → behind source (joined r q) ≡ behind source r >>= λ s. behind s q
behind-joined source (ok a) (ok b) = simp append_assoc
behind-joined source (ok a) thrown = refl
behind-joined source (ok a) asserted = refl
behind-joined source (ok a) outside = refl
behind-joined source (ok a) out_of_fuel = refl
behind-joined source thrown q = refl
behind-joined source asserted q = refl
behind-joined source outside q = refl
behind-joined source out_of_fuel q = refl

-- The loop appends what the spec joins.
abbrev Appends : (Bytes → Entries → Result Bytes) → (Entries → Result Bytes) → Type 0
Appends f g = (source : Bytes) (e : Entries) → f source e ≡ behind source (g e)

each_object-render :
    (f : Bytes → Entries → Result Bytes) (g : Entries → Result Bytes)
    → Appends f g
    → (os : Objects) (source : Bytes)
    → each_object f source os ≡ behind source (render_objects g os)
unfolding each_object render_objects
each_object-render f g h done source = rw append-nil
each_object-render f g h (object e os) source =
    rw (h source e, behind-joined source (g e) (render_objects g os))
      (bind-ext (behind source (g e)) λ s. each_object-render f g h os s)

each_field-render :
    (f : Bytes → Entries → Result Bytes) (g : Entries → Result Bytes)
    → Appends f g
    → (v : Option Container) (source : Bytes)
    → each_field f source v ≡ behind source (render_field g v)
unfolding each_field render_field each_object render_objects
each_field-render f g h none source = rw append-nil
each_field-render f g h (some (strings v vs)) source = refl
each_field-render f g h (some (objects e os)) source = each_object-render f g h (object e os) source

behind-if :
    (c : Bool) (source : Bytes) (r q : Result Bytes)
    → r ≡ behind source q
    → (if c then r else ok source) ≡ behind source (if c then q else ok [])
behind-if true source r q h = h
behind-if false source r q h = rw append-nil

apply_match-render :
    (f : Bytes → Entries → Result Bytes) (g : Entries → Result Bytes)
    → Appends f g
    → (m : Match) (source : Bytes) (e : Entries) (http_code : ℤ)
    → apply_match f m source e http_code ≡ behind source (render_match g m e http_code)
unfolding apply_match render_match
apply_match-render f g h always source e n = h source e
apply_match-render f g h (tag name) source e n = each_field-render f g h (search e name) source
apply_match-render f g h (code k) source e n = behind-if (same_int n k) source _ _ (h source e)
apply_match-render f g h (condition c) source e n =
    rw
      (bind_assoc (check_condition c e) (λ met. if met then g e else ok [])
        (λ out. ok (source ++ out)))
      (bind-ext (check_condition c e) λ met. behind-if met source _ _ (h source e))

append_access-render :
    (source : Bytes) (v : Option Container)
    → append_access source v ≡ behind source (append_access [] v)
append_access-render source none = rw append-nil
append_access-render source (some (strings v [])) = refl
append_access-render source (some (strings v (w ∷ vs))) = refl
append_access-render source (some (objects e os)) = refl

append_query-render :
    (source : Bytes) (q : Map) (name : Bytes)
    → append_query source q name ≡ behind source (append_query [] q name)
unfolding append_query
append_query-render source q name =
    behind-if (has_element q name false) source _ _ (found (lookup q name))
  where
    found :
        (v : Option Bytes)
        → elim v [ none ↦ thrown | some w ↦ ok (source ++ w) ]
          ≡ behind source (elim v [ none ↦ thrown | some w ↦ ok ([] ++ w) ])
    found none = refl
    found (some w) = refl

mutual
  unfolding apply render

  apply-behind :
      (t : Translation) (source : Bytes) (e : Entries) (http_code : ℤ) (q : Map)
      → apply t source e http_code q ≡ behind source (render t e http_code q)
  apply-behind (translation m values) source e n q =
      apply_match-render (λ s e. apply_values values s e n q) (λ e. render_values values e n q)
        (λ s e. apply_values-behind values s e n q) m source e n

  apply_values-behind :
      (vs : Values) (source : Bytes) (e : Entries) (http_code : ℤ) (q : Map)
      → apply_values vs source e http_code q ≡ behind source (render_values vs e http_code q)
  apply_values-behind no_values source e n q = rw append-nil
  apply_values-behind (value v vs) source e n q =
      rw
        (
          apply_value-behind v source e n q,
          behind-joined source (render_value v e n q) (render_values vs e n q),
        )
        (bind-ext (behind source (render_value v e n q)) λ s. apply_values-behind vs s e n q)

  apply_value-behind :
      (v : TranslationValue) (source : Bytes) (e : Entries) (http_code : ℤ) (q : Map)
      → apply_value v source e http_code q ≡ behind source (render_value v e http_code q)
  apply_value-behind (access name) source e n q = append_access-render source (search e name)
  apply_value-behind (html contents) source e n q = refl
  apply_value-behind (query_value name) source e n q = append_query-render source q name
  apply_value-behind (nested t) source e n q = apply-behind t source e n q

-- For every page, response, HTTP code, query and text so far: apply, which appends part by part to
-- one text, gives the text so far with the page's own text behind it, and an exception or a failed
-- assertion just where the page's own text, which joins what its parts give for themselves, has
-- one.
pub apply-render :
    (t : Translation) (source : Bytes) (e : Entries) (http_code : ℤ) (q : Map)
    → apply t source e http_code q ≡ behind source (render t e http_code q)
apply-render t source e n q = apply-behind t source e n q
