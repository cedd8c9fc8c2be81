-- ===== src/Translator/Links/Reading.antt =====
-- Links written as lines, and read back.
use wfa.Base.{
  ℕ, ◌≡◌, refl, true, false, Bool, Option, none, some, List, [], ◌∷◌, ◌++◌, Bytes, append-nil,
}
use wfa.Base.Result.{Result, ok, thrown, asserted, outside, out_of_fuel, ◌>>=◌}
use wfa.Translator.Page.{Translation}
use wfa.Translator.Parse.{parse}
use wfa.Base.Scan.{Lacks, before_of_Lacks, from_of_Lacks, before_all, from_none}
use wfa.Translator.Links.{
  Method, get, post, Wrapper, static, forwarding, Link, wrapper_of, parse_entry, parse_line,
  is_comment, load, make_link, link_pages,
}

-- A line of the file: a link with the first byte of its web directory apart, a link that forwards to
-- its own web directory, or a comment.
pub data Line : Type 0 where
  link_line : Method → ℕ → Bytes → Wrapper → Line
  own_line : Method → ℕ → Bytes → Bytes → Line
  comment_line : Bytes → Line
  empty_line : Line

abbrev pub method_sign : Method → ℕ
method_sign get = b'G'
method_sign post = b'P'

abbrev pub print_wrapper : Wrapper → Bytes
print_wrapper (static file) = file
print_wrapper (forwarding file target) = file ++ b':' ∷ target

abbrev pub kind_sign : Wrapper → ℕ
kind_sign (static file) = b'S'
kind_sign (forwarding file target) = b'F'

abbrev pub print_line : Line → Bytes
print_line (link_line m c web w) =
    method_sign m ∷ kind_sign w ∷ b':' ∷ c ∷ (web ++ b':' ∷ print_wrapper w)
print_line (own_line m c web file) = method_sign m ∷ b'F' ∷ b':' ∷ c ∷ (web ++ b':' ∷ file)
print_line (comment_line s) = b'#' ∷ s
print_line empty_line = []

abbrev pub print_lines : List Line → List Bytes
print_lines [] = []
print_lines (l ∷ ls) = print_line l ∷ print_lines ls

abbrev pub PlainWrapper : Wrapper → Type 0
PlainWrapper (static file) = Unit
PlainWrapper (forwarding file target) = Lacks b':' file

-- No ':' in a web directory behind its first byte, or in the file of a link that forwards.
abbrev pub PlainLine : Line → Type 0
PlainLine (link_line m c web w) = Lacks b':' web × PlainWrapper w
PlainLine (own_line m c web file) = Lacks b':' web × Lacks b':' file
PlainLine (comment_line s) = Unit
PlainLine empty_line = Unit

abbrev pub PlainLines : List Line → Type 0
PlainLines [] = Unit
PlainLines (l ∷ ls) = PlainLine l × PlainLines ls

abbrev pub links_of : List Line → List Link
links_of [] = []
links_of (link_line m c web w ∷ ls) =
    record { method = m; web_directory = c ∷ web; wrapper = w } ∷ links_of ls
links_of (own_line m c web file ∷ ls) =
    record { method = m; web_directory = c ∷ web; wrapper = forwarding file (c ∷ web) }
    ∷ links_of ls
links_of (comment_line s ∷ ls) = links_of ls
links_of (empty_line ∷ ls) = links_of ls

wrapper_of-print :
    (w : Wrapper) (web : Bytes)
    → PlainWrapper w
    → wrapper_of (kind_sign w) web (print_wrapper w) ≡ w
unfolding wrapper_of
wrapper_of-print (static file) web k = refl
wrapper_of-print (forwarding file target) web k =
    rw (from_of_Lacks b':' file target k, before_of_Lacks b':' file target k) refl

wrapper_of-own :
    (file web : Bytes) → Lacks b':' file → wrapper_of b'F' web file ≡ forwarding file web
unfolding wrapper_of
wrapper_of-own file web k = rw (from_none b':' file k, before_all b':' file k) refl

parse_entry-print :
    (m : Method) (w : Wrapper) (c : ℕ) (web rest : Bytes)
    → Lacks b':' web
    → parse_entry (method_sign m) (kind_sign w) b':' c (web ++ b':' ∷ rest)
      ≡ some (record {
        method = m;
        web_directory = c ∷ web;
        wrapper = wrapper_of (kind_sign w) (c ∷ web) rest;
      })
unfolding parse_entry
parse_entry-print get (static file) c web rest k =
    rw (from_of_Lacks b':' web rest k, before_of_Lacks b':' web rest k) refl
parse_entry-print get (forwarding file target) c web rest k =
    rw (from_of_Lacks b':' web rest k, before_of_Lacks b':' web rest k) refl
parse_entry-print post (static file) c web rest k =
    rw (from_of_Lacks b':' web rest k, before_of_Lacks b':' web rest k) refl
parse_entry-print post (forwarding file target) c web rest k =
    rw (from_of_Lacks b':' web rest k, before_of_Lacks b':' web rest k) refl

method_sign-is_comment : (m : Method) (s : Bytes) → is_comment (method_sign m ∷ s) ≡ false
unfolding is_comment
method_sign-is_comment get s = refl
method_sign-is_comment post s = refl

-- What stops a page from being read.
abbrev pub fault_of : Result Translation → Option (Result Bool)
fault_of (ok t) = none
fault_of thrown = some thrown
fault_of asserted = some asserted
fault_of outside = some outside
fault_of out_of_fuel = some out_of_fuel

module _ (files : Bytes → Bytes) where
  abbrev pub page_fault : Wrapper → Option (Result Bool)
  page_fault (static file) = none
  page_fault (forwarding file target) = fault_of (parse (files file))

  -- The links up to the first one whose page cannot be read, which ends with its fault; or all of
  -- them and `end`.
  unfoldable pub made : List Link → Result Bool → List Link × Result Bool
  made [] end = ([], end)
  made (l ∷ links) end =
      let (others, r) = made links end in
      elim (page_fault l.wrapper) [ none ↦ (l ∷ others, r) | some fault ↦ ([], fault) ]

  make_link-load :
      (l : Link) (links : List Link) (r : Result Bool)
      → make_link files l (load files l.wrapper) (links, r)
        ≡ elim (page_fault l.wrapper) [ none ↦ (l ∷ links, r) | some fault ↦ ([], fault) ]
  make_link-load l links r = by_wrapper l.wrapper
    where
      by_page :
          (p : Result Translation)
          → make_link files l (p >>= λ t. ok true) (links, r)
            ≡ elim (fault_of p) [ none ↦ (l ∷ links, r) | some fault ↦ ([], fault) ]
      by_page (ok t) = unfold make_link in refl
      by_page thrown = unfold make_link in refl
      by_page asserted = unfold make_link in refl
      by_page outside = unfold make_link in refl
      by_page out_of_fuel = unfold make_link in refl

      by_wrapper :
          (w : Wrapper)
          → make_link files l (load files w) (links, r)
            ≡ elim (page_fault w) [ none ↦ (l ∷ links, r) | some fault ↦ ([], fault) ]
      by_wrapper (static file) = unfold make_link load in refl
      by_wrapper (forwarding file target) = unfold load in by_page (parse (files file))

  -- Lines in front of others add their links, and nothing else.
  link_pages-append :
      (ls : List Line) (others : List Bytes) (end : Result Bool)
      → PlainLines ls
      → link_pages files others ≡ ([], end)
      → link_pages files (print_lines ls ++ others) ≡ made (links_of ls) end
  unfolding link_pages parse_line is_comment made
  link_pages-append [] others end k h = h
  link_pages-append (link_line m c web w ∷ ls) others end k h =
      rw
        (
          method_sign-is_comment m _,
          parse_entry-print m w c web (print_wrapper w) k.0.0,
          wrapper_of-print w (c ∷ web) k.0.1,
          link_pages-append ls others end k.1 h,
        )
        (make_link-load (record { method = m; web_directory = c ∷ web; wrapper = w })
          (made (links_of ls) end).0 (made (links_of ls) end).1)
  link_pages-append (own_line m c web file ∷ ls) others end k h =
      rw
        (
          method_sign-is_comment m _,
          parse_entry-print m (forwarding [] []) c web file k.0.0,
          wrapper_of-own file (c ∷ web) k.0.1,
          link_pages-append ls others end k.1 h,
        )
        (make_link-load
          (record { method = m; web_directory = c ∷ web; wrapper = forwarding file (c ∷ web) })
          (made (links_of ls) end).0 (made (links_of ls) end).1)
  link_pages-append (comment_line s ∷ ls) others end k h = link_pages-append ls others end k.1 h
  link_pages-append (empty_line ∷ ls) others end k h = link_pages-append ls others end k.1 h

  -- For a link file written from links, comments and empty lines (no ':' in a web directory behind
  -- its first byte nor in the file of a forwarding link), and any contents of the page files:
  -- linkPages makes just those links in their order, a forwarding link without a target forwarding
  -- to its own web directory, up to the first forwarding link whose page translation::parse cannot
  -- read, whose exception, failed assertion or range fault ends it; without such a link it makes
  -- all of them and returns true. With an invalid line behind them and any lines after it, it
  -- makes the same links and ends with the same fault, or else returns false.
  pub link_pages-print :
      (ls : List Line) (bad : Bytes) (others : List Bytes)
      → PlainLines ls
      → is_comment bad ≡ false
      → parse_line bad ≡ none
      → (link_pages files (print_lines ls) ≡ made (links_of ls) (ok true))
        × (link_pages files (print_lines ls ++ bad ∷ others) ≡ made (links_of ls) (ok false))
  link_pages-print ls bad others k no_comment invalid = (
    rw append-nil at (link_pages-append ls [] (ok true) k (unfold link_pages in refl)),
    link_pages-append ls (bad ∷ others) (ok false) k
        (unfold link_pages in rw (no_comment, invalid) refl),
  )
