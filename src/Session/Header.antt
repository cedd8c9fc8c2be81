-- ===== src/Session/Header.antt =====
-- The "cookie" header that a client prints from its cookies, read back by `getCookies`.
use wfa.Base.{
  ℕ, zero, suc, ◌≡◌, refl, Bool, false, not, ◌&&◌, ◌||◌, same, ◌≤◌, ◌<◌, ◌^◌, some, [], ◌∷◌, ◌++◌,
  Bytes, length, length-append, arith, append-nil, is_empty,
}
use wfa.Base.Decimal.{from_chars, to_string, from_chars-to_string}
use wfa.Base.Map.{Map, lookup, assign, lookup-assign}
use wfa.Base.Spaces.{is_space, skip_spaces}
use wfa.Base.Scan.{
  before, from, skip, Lacks, before_of_Lacks, from_of_Lacks, before_all, from_none, Lacks-append,
}
use wfa.Session.Cookies.{read_cookies, get_cookies, get_cookie}
use wfa.Session.Table.{get_session_id, auth_cookie}

abbrev pub print_cookie : Bytes × Bytes → Bytes
print_cookie (n, v) = n ++ b'=' ∷ v

unfoldable pub print_more : Map → Bytes
print_more [] = []
print_more (c ∷ cs) = b';' ∷ b' ' ∷ (print_cookie c ++ print_more cs)

-- "name=value; name=value".
unfoldable pub print_cookies : Map → Bytes
unfolding print_more
print_cookies [] = []
print_cookies (c ∷ cs) = print_cookie c ++ print_more cs

abbrev pub StartsPlain : Bytes → Type 0
StartsPlain [] = ⊥
StartsPlain (c ∷ s) = is_space c ≡ false

-- A name is not empty and does not start with a space; names have no '=' and no text has a ';'.
abbrev pub ArePlain : Map → Type 0
ArePlain [] = Unit
ArePlain ((n, v) ∷ cs) = StartsPlain n × Lacks b'=' n × Lacks b';' n × Lacks b';' v × ArePlain cs

unfoldable pub assign_all : Map → Map → Map
assign_all values [] = values
assign_all values ((n, v) ∷ cs) = assign_all (assign values n v) cs

before-print : (p : Bytes) (cs : Map) → Lacks b';' p → before b';' (p ++ print_more cs) ≡ p
unfolding print_more
before-print p [] h = rw append-nil (before_all b';' p h)
before-print p (c ∷ cs) h = before_of_Lacks b';' p _ h

skip_spaces-print : (cs : Map) → ArePlain cs → skip_spaces (print_cookies cs) ≡ print_cookies cs
unfolding skip_spaces print_cookies
skip_spaces-print [] h = refl
skip_spaces-print (([], v) ∷ cs) h = absurd h.0
skip_spaces-print ((x ∷ n, v) ∷ cs) h = ground arith

after-print :
    (p : Bytes) (cs : Map)
    → Lacks b';' p
    → ArePlain cs
    → skip_spaces (skip (from b';' (p ++ print_more cs))) ≡ print_cookies cs
after-print p [] h a =
    unfold print_more print_cookies skip_spaces in rw (append-nil, from_none b';' p h) refl
after-print p (c ∷ cs) h a =
    unfold print_more in
    rw (from_of_Lacks b';' p (b' ' ∷ (print_cookie c ++ print_more cs)) h) (
      let rest : skip_spaces (b' ' ∷ print_cookies (c ∷ cs)) ≡ print_cookies (c ∷ cs) =
        unfold skip_spaces in skip_spaces-print (c ∷ cs) a in
      unfold print_cookies in rest)

length-print_more : (cs : Map) → length (print_cookies cs) ≤ length (print_more cs)
unfolding print_more print_cookies
length-print_more [] = omega arith
length-print_more (c ∷ cs) = omega arith

print_cookies-cons :
    (n v : Bytes) (cs : Map) → print_cookies ((n, v) ∷ cs) ≡ (n ++ b'=' ∷ v) ++ print_more cs
unfolding print_cookies
print_cookies-cons n v cs = refl

length-print_cookies :
    (n v : Bytes) (cs : Map) → length (print_cookies cs) < length (print_cookies ((n, v) ∷ cs))
length-print_cookies n v cs = rw print_cookies-cons (
    omega (
      arith,
      length-append (n ++ b'=' ∷ v) (print_more cs),
      length-append n (b'=' ∷ v),
      length-print_more cs,
    ))

-- One round, at a header that is printed.
read_cookies-print :
    (fuel : ℕ) (n v : Bytes) (cs values : Map)
    → ArePlain ((n, v) ∷ cs)
    → read_cookies (suc fuel) (print_cookies ((n, v) ∷ cs)) values
      ≡ read_cookies fuel (print_cookies cs) (assign values n v)
read_cookies-print fuel [] v cs values a = absurd a.0
read_cookies-print fuel (x ∷ n) v cs values (starts, no_equals, no_end, no_end_in, others) =
    let no_end_at : Lacks b';' (x ∷ (n ++ b'=' ∷ v)) =
      Lacks-append b';' (x ∷ n) (b'=' ∷ v) no_end (ground arith) in
    unfold read_cookies print_cookies in
    rw
      (
        before-print (x ∷ (n ++ b'=' ∷ v)) cs no_end_at,
        before_of_Lacks b'=' (x ∷ n) v no_equals,
        from_of_Lacks b'=' (x ∷ n) v no_equals,
        after-print (x ∷ (n ++ b'=' ∷ v)) cs no_end_at others,
      )
      refl

read_cookies-assign_all :
    (fuel : ℕ) (cs values : Map)
    → ArePlain cs
    → length (print_cookies cs) ≤ fuel
    → read_cookies fuel (print_cookies cs) values ≡ assign_all values cs
unfolding assign_all
read_cookies-assign_all zero [] values a h = unfold read_cookies in refl
read_cookies-assign_all (suc fuel) [] values a h = unfold print_cookies read_cookies in refl
read_cookies-assign_all zero ((n, v) ∷ cs) values a h =
    absurd (omega (arith, length-print_cookies n v cs))
read_cookies-assign_all (suc fuel) ((n, v) ∷ cs) values a h =
    rw (read_cookies-print fuel n v cs values a) (
      read_cookies-assign_all fuel cs (assign values n v) a.4
        (omega (arith, length-print_cookies n v cs)))

assign_all-print_cookies :
    (cs : Map) → ArePlain cs → get_cookies (print_cookies cs) ≡ assign_all [] cs
unfolding get_cookies
assign_all-print_cookies cs a =
    read_cookies-assign_all (length (print_cookies cs)) cs [] a (omega arith)

abbrev pub HaveValues : Map → Type 0
HaveValues [] = Unit
HaveValues ((n, v) ∷ cs) = (is_empty v ≡ false) × HaveValues cs

unfoldable pub is_named : Bytes → Map → Bool
is_named name [] = false
is_named name ((n, v) ∷ cs) = same n name || is_named name cs

is_empty-get_cookie :
    (cs values : Map) (name : Bytes)
    → HaveValues cs
    → is_empty (get_cookie (assign_all values cs) name)
      ≡ (not (is_named name cs) && is_empty (get_cookie values name))
unfolding assign_all is_named get_cookie
is_empty-get_cookie [] values name h = refl
is_empty-get_cookie ((n, v) ∷ cs) values name h =
    ground (arith, is_empty-get_cookie cs (assign values n v) name, lookup-assign values n v name)

-- A cookie header printed from plain cookies (no '=' in a name, no ';' in a text, no name empty or
-- starting with a space) of which none has an empty value is read by getCookies as the assignment
-- of each of them, in their order; and get of a name is the empty text just where no cookie has
-- that name.
pub get_cookies-print_cookies :
    (cs : Map) (name : Bytes)
    → ArePlain cs
    → HaveValues cs
    → (get_cookies (print_cookies cs) ≡ assign_all [] cs)
      × (is_empty (get_cookie (get_cookies (print_cookies cs)) name) ≡ not (is_named name cs))
unfolding get_cookie lookup
get_cookies-print_cookies cs name a h =
    let read = assign_all-print_cookies cs a in
    (read, rw read (ground (arith, is_empty-get_cookie cs [] name h)))

is_empty_of_lookup : (m : Map) (k v : Bytes) → lookup m k ≡ some v → is_empty m ≡ false
unfolding lookup
is_empty_of_lookup [] k v h = ground arith
is_empty_of_lookup (e ∷ m) k v h = refl

is_empty_of_from_chars :
    (width n : ℕ) (s : Bytes) → from_chars width s ≡ some n → is_empty s ≡ false
unfolding from_chars
is_empty_of_from_chars width n [] h = ground arith
is_empty_of_from_chars width n (c ∷ s) h = refl

-- For a cookie header printed from plain cookies (no '=' in a name, no ';' in a text, no name
-- empty or starting with a space) of which the one named auth holds the decimal print of an
-- identifier below 2^64, getSessionID gives that identifier.
pub get_session_id-print_cookies :
    (cs : Map) (id : ℕ)
    → ArePlain cs
    → lookup (assign_all [] cs) auth_cookie ≡ some (to_string id)
    → id < 2 ^ 64
    → get_session_id (print_cookies cs) ≡ some id
unfolding get_cookie
get_session_id-print_cookies cs id a h l =
    let read = from_chars-to_string 64 id l in
    let held : get_cookie (assign_all [] cs) auth_cookie ≡ to_string id = rw (get_cookie, h) refl in
    unfold get_session_id in
    rw
      (
        assign_all-print_cookies cs a,
        is_empty_of_lookup _ _ _ h,
        held,
        is_empty_of_from_chars 64 id (to_string id) read,
      )
      read
