-- ===== src/Translator/Forward/Pages.antt =====
-- The server's answer as the translator hands it on.
use wfa.Base.{
  ℕ, suc, ◌+◌, ◌*◌, length, ◌≡◌, ◌≢◌, refl, ap, ◌∙◌, false, true, none, List, [], ◌∷◌, ◌++◌, Bytes,
  text, same, arith, ◌==◌, ◌||◌, if◌then◌else◌, Bool-cases, inl, inr,
}
use wfa.Base.Decimal.{to_string}
use wfa.Handler.{Call, status, header, finish}
use wfa.Response.Parse.{from_data, from_data_all}
use wfa.Base.Int.{pos}
use wfa.Base.Map.{Map}
use wfa.Base.Result.{ok, ◌>>=◌, bind_assoc, bind-ext}
use wfa.Response.{Entries, to_data}
use wfa.Response.Parse.Blocks.{ArePlain}
use wfa.Response.Parse.Pieces.{normal}
use wfa.Response.Parse.RoundTrip.{from_data-to_data}
use wfa.Translator.Page.{Translation, apply_page}
use wfa.Translator.Page.Render.{render, apply-render}
use wfa.Translator.Forward.Headers.{print_head, allowed_of, NamesLackColon, write_all-print}
use wfa.Translator.Forward.{
  header_calls, is_allowed, write_all, Headers, ApiResponse, answer_with, write_back,
  apply_translation,
}

-- libcurl's record of an answer.
abbrev pub answered : Headers → Bytes → ℕ → ApiResponse
answered headers body code = record { headers = headers; response = body; response_code = code }

-- The answer that the browser is to get: the code, the headers of the head that may go on, and the
-- contents.
abbrev pub kept_calls : Headers → List Call → List Call
kept_calls [] calls = calls
kept_calls ((name, value) ∷ head) calls =
    if same name (text "Set-Cookie") || same name (text "cookie")
    then header name value ∷ kept_calls head calls
    else kept_calls head calls

abbrev pub handed_on : Headers → ℕ → Bytes → List Call
handed_on head code contents = status (to_string code) ∷ kept_calls head (finish contents ∷ [])

kept_calls-allowed_of :
    (head : Headers) (calls : List Call)
    → header_calls (allowed_of head) ++ calls ≡ kept_calls head calls
unfolding is_allowed
kept_calls-allowed_of [] calls = refl
kept_calls-allowed_of ((name, value) ∷ head) calls =
    elim (Bool-cases (same name (text "Set-Cookie") || same name (text "cookie"))) [
      | inl e ↦ rw (e, kept_calls-allowed_of head calls) refl
      | inr e ↦ rw (e, kept_calls-allowed_of head calls) refl
    ]

answer_with-handed_on :
    (head : Headers) (code : ℕ) (body contents : Bytes)
    → answer_with (answered (allowed_of head) body code) contents ≡ handed_on head code contents
answer_with-handed_on head code body contents =
    ap (λ (calls : List Call). status (to_string code) ∷ calls)
      (kept_calls-allowed_of head (finish contents ∷ []))

from_data-other : (fuel c : ℕ) (s : Bytes) → c ≢ b'{' → from_data (suc fuel) (c ∷ s) ≡ ok none
unfolding from_data
from_data-other fuel c s h = let differs : (c == b'{') ≡ false = ground arith in rw differs refl

from_data_all-other : (c : ℕ) (s : Bytes) → c ≢ b'{' → from_data_all (c ∷ s) ≡ ok none
unfolding from_data_all
from_data_all-other c s h =
    let enough : 2 * length (c ∷ s) + 2 ≡ suc (2 * length s + 3) = omega arith in
    rw enough (from_data-other (2 * length s + 3) c s h)

-- For an answer of the server with any code and a head of lines that are each a name without ':',
-- a colon, a space, a value and a line end, the headers being those that writeHeaders keeps:
-- applyTranslation and writeBack write that code and then just the headers of the head that are
-- named Set-Cookie or cookie, in their order and with their values. Where the body is the compact
-- text of a response (no bracket in a text, no ':' in a key, no ',' in a value), applyTranslation
-- ends with the page's own text for that response, each array forced, or stops where that text has
-- an exception or a failed assertion, and writeBack ends with the padded text of that response.
-- Where the body starts with another byte than '{', both end with the body unchanged.
pub apply_translation-to_data :
    (head : Headers) (e : Entries) (c : ℕ) (other : Bytes) (code : ℕ) (tran : Translation) (q : Map)
    → NamesLackColon head
    → ArePlain e
    → c ≢ b'{'
    → ((write_all (print_head head) [] >>= λ headers.
          apply_translation (answered headers (to_data e false) code) tran q)
        ≡ render tran (normal e) (pos code) q >>= λ page. ok (handed_on head code page))
      × ((write_all (print_head head) [] >>= λ headers.
            write_back (answered headers (to_data e false) code))
          ≡ ok (handed_on head code (to_data (normal e) true)))
      × ((write_all (print_head head) [] >>= λ headers.
            apply_translation (answered headers (c ∷ other) code) tran q)
          ≡ ok (handed_on head code (c ∷ other)))
      × ((write_all (print_head head) [] >>= λ headers.
            write_back (answered headers (c ∷ other) code))
          ≡ ok (handed_on head code (c ∷ other)))
unfolding apply_translation apply_page write_back
apply_translation-to_data head e c other code tran q k a h = rw (write_all-print head [] k) (
  (rw (from_data-to_data e a, apply-render tran [] (normal e) (pos code) q)
        (bind_assoc (render tran (normal e) (pos code) q) (λ out. ok out)
          (λ page. ok (answer_with (answered (allowed_of head) (to_data e false) code) page)))
      ∙ bind-ext (render tran (normal e) (pos code) q)
          (λ page. ap ok (answer_with-handed_on head code (to_data e false) page))),
  rw (from_data-to_data e a)
      (ap ok (answer_with-handed_on head code (to_data e false) (to_data (normal e) true))),
  rw (from_data_all-other c other h)
      (ap ok (answer_with-handed_on head code (c ∷ other) (c ∷ other))),
  rw (from_data_all-other c other h)
      (ap ok (answer_with-handed_on head code (c ∷ other) (c ∷ other))),
)
