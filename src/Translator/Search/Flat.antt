-- ===== src/Translator/Search/Flat.antt =====
-- tagSearch on a tag whose contents hold no other tag.
use wfa.Base.{ℕ, suc, ◌+◌, ◌≡◌, refl, false, [], ◌∷◌, ◌++◌, Bytes, text, length, ◌==◌, arith}
use wfa.Base.Result.{ok}
use wfa.Base.Scan.{Lacks}
use wfa.Translator.Search.{agrees, tag_scan, tag_search}
use wfa.Translator.Parse.{Kind, tag_kind, code_kind, condition_kind, tag_open, tag_close}

tag_scan-skipped :
    (p q xs ys : Bytes) (depth at : ℕ)
    → tag_scan p q depth at (length xs) (xs ++ ys) ≡ tag_scan p q depth (at + length xs) 0 ys
unfolding tag_scan
tag_scan-skipped p q [] ys depth at = let e : at + 0 ≡ at = omega arith in rw e refl
tag_scan-skipped p q (x ∷ xs) ys depth at =
    let e : at + suc (length xs) ≡ at + 1 + length xs = omega arith in
    rw e (tag_scan-skipped p q xs ys depth (at + 1))

tag_scan-Lacks :
    (p q xs ys : Bytes) (depth at : ℕ)
    → Lacks b'<' xs
    → tag_scan (b'<' ∷ p) (b'<' ∷ q) depth at 0 (xs ++ ys)
      ≡ tag_scan (b'<' ∷ p) (b'<' ∷ q) depth (at + length xs) 0 ys
unfolding tag_scan agrees
tag_scan-Lacks p q [] ys depth at h = let e : at + 0 ≡ at = omega arith in rw e refl
tag_scan-Lacks p q (x ∷ xs) ys depth at h =
    let e : at + suc (length xs) ≡ at + 1 + length xs = omega arith in
    let other : (x == b'<') ≡ false = ground arith in
    rw (other, e) (tag_scan-Lacks p q xs ys depth (at + 1) h.1)

tag_scan-close :
    (k : Kind) (at : ℕ) (rest : Bytes)
    → tag_scan (tag_open k) (tag_close k) 0 at 0 (tag_close k ++ rest)
      ≡ ok (at + length (tag_close k))
unfolding tag_scan agrees text
tag_scan-close tag_kind at rest = refl
tag_scan-close code_kind at rest = refl
tag_scan-close condition_kind at rest = refl

behind_open :
    (k : Kind) (at : ℕ) (body rest : Bytes)
    → Lacks b'<' body
    → tag_scan (tag_open k) (tag_close k) 0 at 0 (body ++ (tag_close k ++ rest))
      ≡ ok (at + length body + length (tag_close k))
unfolding text
behind_open tag_kind at body rest h =
    rw (tag_scan-Lacks _ _ body (tag_close tag_kind ++ rest) 0 at h)
      (tag_scan-close tag_kind (at + length body) rest)
behind_open code_kind at body rest h =
    rw (tag_scan-Lacks _ _ body (tag_close code_kind ++ rest) 0 at h)
      (tag_scan-close code_kind (at + length body) rest)
behind_open condition_kind at body rest h =
    rw (tag_scan-Lacks _ _ body (tag_close condition_kind ++ rest) 0 at h)
      (tag_scan-close condition_kind (at + length body) rest)

-- For each kind of tag: from an opening tag with any byte behind it, contents without '<', the
-- closing tag and any text after it, tagSearch gives the position behind that closing tag, and
-- neither an assertion nor the end of the range stops it.
pub tag_search-flat :
    (k : Kind) (c : ℕ) (body rest : Bytes)
    → Lacks b'<' body
    → tag_search (tag_open k) (tag_close k) (tag_open k ++ c ∷ (body ++ (tag_close k ++ rest)))
      ≡ ok (length (tag_open k) + 1 + length body + length (tag_close k))
unfolding tag_search agrees tag_scan text
tag_search-flat tag_kind c body rest h = behind_open tag_kind 7 body rest h
tag_search-flat code_kind c body rest h = behind_open code_kind 11 body rest h
tag_search-flat condition_kind c body rest h = behind_open condition_kind 11 body rest h
