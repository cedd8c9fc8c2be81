-- ===== src/Translator/Forward/Headers.antt =====
-- The head of an answer: which of its lines are kept.
use wfa.Base.{
  ℕ, ◌≡◌, refl, Bool, true, false, Bool-cases, inl, inr, some, List, [], ◌∷◌, ◌++◌, Bytes,
  append_assoc, append-nil, if◌then◌else◌,
}
use wfa.Base.Result.{ok}
use wfa.Base.Scan.{Lacks, before_of_Lacks, from_of_Lacks}
use wfa.Translator.Forward.{
  Headers, is_allowed, before_line_end, header_value, write_headers, write_all,
}

-- A line as HTTP writes it.
abbrev pub print_header : Bytes × Bytes → Bytes
print_header (name, value) = name ++ b':' ∷ b' ' ∷ (value ++ 13 ∷ 10 ∷ [])

abbrev pub print_head : Headers → List Bytes
print_head [] = []
print_head (h ∷ headers) = print_header h ∷ print_head headers

abbrev pub allowed_of : Headers → Headers
allowed_of [] = []
allowed_of (h ∷ headers) = if is_allowed h.0 then h ∷ allowed_of headers else allowed_of headers

abbrev pub NamesLackColon : Headers → Type 0
NamesLackColon [] = Unit
NamesLackColon (h ∷ headers) = Lacks b':' h.0 × NamesLackColon headers

before_line_end-append :
    (x : ℕ) (v : Bytes) → before_line_end (x ∷ (v ++ 13 ∷ 10 ∷ [])) ≡ some (x ∷ v)
unfolding before_line_end
before_line_end-append x [] = refl
before_line_end-append x (y ∷ []) = refl
before_line_end-append x (y ∷ z ∷ v) = rw (before_line_end-append y (z ∷ v)) refl

header_value-print :
    (value : Bytes) → header_value (b':' ∷ b' ' ∷ (value ++ 13 ∷ 10 ∷ [])) ≡ ok (some value)
unfolding header_value
header_value-print value = rw (header_value, before_line_end-append b' ' value) refl

write_headers-print :
    (h : Bytes × Bytes) (headers : Headers)
    → Lacks b':' h.0
    → write_headers (print_header h) headers
      ≡ ok (if is_allowed h.0 then headers ++ h ∷ [] else headers)
unfolding write_headers
write_headers-print (name, value) headers k =
    let line = b' ' ∷ (value ++ 13 ∷ 10 ∷ []) in
    rw
      (
        before_of_Lacks b':' name line k,
        from_of_Lacks b':' name line k,
        header_value-print value,
        before_of_Lacks b':' name line k,
      )
      (kept (is_allowed name))
  where
    kept :
        (b : Bool)
        → (if b then ok (headers ++ (name, value) ∷ []) else ok headers)
          ≡ ok (if b then headers ++ (name, value) ∷ [] else headers)
    kept true = refl
    kept false = refl

-- For a head of lines that are each a name without ':', a colon, a space, a value and a line end:
-- writeHeaders, called with each line, keeps just the headers that are named Set-Cookie or cookie,
-- behind those from before and in their order, with their values.
pub write_all-print :
    (head headers : Headers)
    → NamesLackColon head
    → write_all (print_head head) headers ≡ ok (headers ++ allowed_of head)
unfolding write_all
write_all-print [] headers k = rw append-nil refl
write_all-print (h ∷ head) headers k =
    rw (write_headers-print h headers k.0) (elim (Bool-cases (is_allowed h.0)) [
      | inl e ↦
          rw
            (
              e,
              write_all-print head (headers ++ h ∷ []) k.1,
              append_assoc headers (h ∷ []) (allowed_of head),
            )
            refl
      | inr e ↦ rw (e, write_all-print head headers k.1) refl
    ])
