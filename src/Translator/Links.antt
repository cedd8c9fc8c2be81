-- ===== src/Translator/Links.antt =====
-- Translator/src/Source.cpp, linkPages: the lines of the link file.
pub mod Reading
use wfa.Base.{
  ℕ, Bool, true, false, not, ◌&&◌, ◌||◌, Option, none, some, List, [], ◌∷◌, ◌++◌, Bytes, is_empty,
  ◌==◌, if◌then◌else◌,
}
use wfa.Base.Result.{Result, ok, thrown, asserted, outside, out_of_fuel, ◌>>=◌}
use wfa.Translator.Parse.{parse}
use wfa.Base.Scan.{before, from, skip}

-- [G]ET or [P]OST.
pub data Method : Type 0 where
  get post : Method

-- `staticWrapper` and `forwardingWrapper`, with the names they are made from.
pub data Wrapper : Type 0 where
  static : Bytes → Wrapper
  forwarding : Bytes → Bytes → Wrapper

-- `app.get` or `app.post`.
pub record Link : Type 0 where
  pub method : Method
  pub web_directory : Bytes
  pub wrapper : Wrapper

-- What follows the ':' behind the web directory.
unfoldable pub wrapper_of : ℕ → Bytes → Bytes → Wrapper
wrapper_of kind web rest =
    if kind == b'S'
    then static rest
    else if is_empty (from b':' rest)
    then forwarding (before b':' rest) web
    else forwarding (before b':' rest) (skip (from b':' rest))

-- A line of four bytes or more; `none` is an invalid entry.
unfoldable pub parse_entry : ℕ → ℕ → ℕ → ℕ → Bytes → Option Link
unfolding wrapper_of
parse_entry method kind colon first rest =
    let web = first ∷ before b':' rest in
    let after = from b':' rest in
    let invalid =
      (not (method == b'P') && not (method == b'G'))
      || (not (kind == b'S') && not (kind == b'F'))
      || not (colon == b':') in
    if invalid || is_empty after
    then none
    else some (record {
      method = if method == b'P' then post else get;
      web_directory = web;
      wrapper = wrapper_of kind web (skip after);
    })

unfoldable pub parse_line : Bytes → Option Link
unfolding parse_entry
parse_line (method ∷ kind ∷ colon ∷ first ∷ rest) = parse_entry method kind colon first rest
parse_line line = none

unfoldable pub is_comment : Bytes → Bool
is_comment [] = true
is_comment (c ∷ line) = c == b'#'

-- The loop over the lines, with the links made, and what is returned or stops it. `files` is
-- `readEntireFile`.
module _ (files : Bytes → Bytes) where
  -- The constructor of the wrapper: a page that forwards is parsed.
  unfoldable pub load : Wrapper → Result Bool
  unfolding parse
  load (static file) = ok true
  load (forwarding file target) = parse (files file) >>= λ page. ok true

  -- The line's own link, and what stands behind it.
  unfoldable pub make_link : Link → Result Bool → List Link × Result Bool → List Link × Result Bool
  make_link link (ok loaded) (links, linked) = (link ∷ links, linked)
  make_link link thrown others = ([], thrown)
  make_link link asserted others = ([], asserted)
  make_link link outside others = ([], outside)
  make_link link out_of_fuel others = ([], out_of_fuel)

  unfoldable pub link_pages : List Bytes → List Link × Result Bool
  unfolding parse_line is_comment load make_link
  link_pages [] = ([], ok true)
  link_pages (line ∷ lines) =
      let others = link_pages lines in
      if is_comment line then others else elim (parse_line line) [
        | none ↦ ([], ok false)
        | some link ↦ make_link link (load link.wrapper) others
      ]
