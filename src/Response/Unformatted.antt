-- ===== src/Response/Unformatted.antt =====
-- `fromUnformattedData`: a response's text with white space and quotes in it.
use wfa.Base.{
  ℕ, ◌≡◌, refl, ◌≢◌, Bool, true, false, not, ◌&&◌, some, [], ◌∷◌, ◌++◌, Bytes, ◌==◌, if◌then◌else◌,
  arith,
}
use wfa.Base.Result.{ok}
use wfa.Base.Scan.{Lacks}
use wfa.Base.Spaces.{is_space}
use wfa.Response.{Entries, to_data}
use wfa.Response.Parse.{Read, from_data_all}
use wfa.Response.Parse.Blocks.{ArePlain}
use wfa.Response.Parse.Pieces.{normal}
use wfa.Response.Parse.RoundTrip.{from_data-to_data}

-- The first `remove_if`: a quote turns `isQuote` round.
unfoldable pub remove_spaces : Bool → Bytes → Bytes
remove_spaces is_quote [] = []
remove_spaces is_quote (v ∷ s) =
    let is_quote' = if v == b'"' then not is_quote else is_quote in
    let rest = remove_spaces is_quote' s in if not is_quote' && is_space v then rest else v ∷ rest

-- The second one.
unfoldable pub remove_quotes : Bytes → Bytes
remove_quotes [] = []
remove_quotes (v ∷ s) = let rest = remove_quotes s in if v == b'"' then rest else v ∷ rest

unfoldable pub from_unformatted_data : Bytes → Read
unfolding from_data_all remove_spaces remove_quotes
from_unformatted_data s = from_data_all (remove_quotes (remove_spaces false s))

-- A text, and a form of it with white space between its bytes and with parts in quotes.
pub data Spread : Bytes → Bytes → Type 0 where
  at_end : Spread [] []
  same_byte :
      (c : ℕ) {s t : Bytes} → is_space c ≡ false → c ≢ b'"' → Spread s t → Spread (c ∷ s) (c ∷ t)
  white : (c : ℕ) {s t : Bytes} → is_space c ≡ true → Spread s t → Spread s (c ∷ t)
  quoted :
      (q : Bytes) {s t : Bytes}
      → Lacks b'"' q
      → Spread s t
      → Spread (q ++ s) (b'"' ∷ (q ++ b'"' ∷ t))

remove_spaces-quoted :
    (q t : Bytes)
    → Lacks b'"' q
    → remove_spaces true (q ++ b'"' ∷ t) ≡ q ++ b'"' ∷ remove_spaces false t
unfolding remove_spaces
remove_spaces-quoted [] t h = refl
remove_spaces-quoted (x ∷ q) t h =
    let other : (x == b'"') ≡ false = ground arith in rw (other, remove_spaces-quoted q t h.1) refl

remove_quotes-quoted :
    (q t : Bytes) → Lacks b'"' q → remove_quotes (q ++ b'"' ∷ t) ≡ q ++ remove_quotes t
unfolding remove_quotes
remove_quotes-quoted [] t h = refl
remove_quotes-quoted (x ∷ q) t h =
    let other : (x == b'"') ≡ false = ground arith in rw (other, remove_quotes-quoted q t h.1) refl

remove_quotes-Spread : {s t : Bytes} → Spread s t → remove_quotes (remove_spaces false t) ≡ s
unfolding remove_spaces remove_quotes
remove_quotes-Spread at_end = refl
remove_quotes-Spread (same_byte c e n p) =
    let other : (c == b'"') ≡ false = ground arith in
    rw (other, e, other, remove_quotes-Spread p) refl
remove_quotes-Spread (white c e p) =
    let other : (c == b'"') ≡ false = ground (arith, e) in
    rw (other, e, remove_quotes-Spread p) refl
remove_quotes-Spread (quoted q {t = t} h p) =
    rw
      (
        remove_spaces-quoted q t h,
        remove_quotes-quoted q (remove_spaces false t) h,
        remove_quotes-Spread p,
      )
      refl

-- For every response of which no text has a bracket, no key a ':' and no value a ',', and every
-- form of its compact text that has white space between the bytes and parts of it in quotes (white
-- space in a part stays; no other white space or quote is in the text): fromUnformattedData reads
-- that form as the response, each array forced.
pub from_unformatted_data-Spread :
    (e : Entries) (t : Bytes)
    → ArePlain e
    → Spread (to_data e false) t
    → from_unformatted_data t ≡ ok (some (normal e))
unfolding from_unformatted_data
from_unformatted_data-Spread e t a p = rw (remove_quotes-Spread p) (from_data-to_data e a)
