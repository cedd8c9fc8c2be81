-- ===== src/Session/Draws.antt =====
-- The choice of an identifier for a new session.
use wfa.Base.{
  ℕ, suc, ◌≡◌, refl, ap, ◌≢◌, ◌<◌, ◌≤◌, none, some, List, [], ◌∷◌, ◌++◌, arith, length,
  Option-cases, inl, inr,
}
use wfa.Session.Table.{Session, Sessions, find_session, erase_session, draw_id}

abbrev pub Avoids : ℕ → List ℕ → Type 0
Avoids d [] = Unit
Avoids d (e ∷ ds) = (e ≢ d) × Avoids d ds

abbrev pub AllDiffer : List ℕ → Type 0
AllDiffer [] = Unit
AllDiffer (d ∷ ds) = Avoids d ds × AllDiffer ds

pub find_session-erase :
    (ss : Sessions) (d e : ℕ) → e ≢ d → find_session (erase_session ss d) e ≡ find_session ss e
unfolding find_session erase_session
find_session-erase [] d e h = refl
find_session-erase ((i, s) ∷ ss) d e h = ground (arith, find_session-erase ss d e)

length-erase :
    (ss : Sessions) (d : ℕ) (s : Session)
    → find_session ss d ≡ some s
    → length ss ≡ suc (length (erase_session ss d))
unfolding find_session erase_session
length-erase [] d s h = ground arith
length-erase ((i, r) ∷ ss) d s h = ground (arith, length-erase ss d s)

draw_id-erase :
    (ss : Sessions) (ds : List ℕ) (d : ℕ)
    → Avoids d ds
    → draw_id ss ds ≡ none
    → draw_id (erase_session ss d) ds ≡ none
unfolding draw_id
draw_id-erase ss [] d a h = refl
draw_id-erase ss (e ∷ ds) d a h = ground (arith, find_session-erase ss d e, draw_id-erase ss ds d)

length-draw_id :
    (ss : Sessions) (ds : List ℕ) → AllDiffer ds → draw_id ss ds ≡ none → length ds ≤ length ss
unfolding draw_id
length-draw_id ss [] a h = omega arith
length-draw_id ss (d ∷ ds) a h = elim (Option-cases (find_session ss d)) [
  | inl free ↦ ground arith
  | inr (s, found) ↦ ground (
    arith,
    length-erase ss d s found,
    draw_id-erase ss ds d,
    length-draw_id (erase_session ss d) ds,
  )
]

pub draw_id_free :
    (ss : Sessions) (ds : List ℕ) (r : ℕ × List ℕ)
    → draw_id ss ds ≡ some r
    → find_session ss r.0 ≡ none
unfolding draw_id
draw_id_free ss [] r h = ground arith
draw_id_free ss (d ∷ ds) r h = elim (Option-cases (find_session ss d)) [
  | inl free ↦ ground arith
  | inr (s, found) ↦ ground (arith, draw_id_free ss ds r)
]

-- Sessions with all of the identifiers.
abbrev pub AllUsed : Sessions → List ℕ → Type 0
AllUsed ss [] = Unit
AllUsed ss (d ∷ ds) = (find_session ss d ≢ none) × AllUsed ss ds

-- The draws before the one that is picked.
draw_id_taken :
    (ss : Sessions) (ds : List ℕ) (r : ℕ × List ℕ)
    → draw_id ss ds ≡ some r
    → (taken : List ℕ) × (ds ≡ taken ++ r.0 ∷ r.1) × AllUsed ss taken
unfolding draw_id
draw_id_taken ss [] r h = ground arith
draw_id_taken ss (d ∷ ds) r h = elim (Option-cases (find_session ss d)) [
  | inl free ↦ ([], ground arith, tt)
  | inr (s, found) ↦
      let (taken, parts, used) = draw_id_taken ss ds r (ground arith) in
      (d ∷ taken, ap (λ (ds : List ℕ). d ∷ ds) parts, (ground arith, used))
]

-- If the draws differ from one another and are more than the sessions, the do-while that picks an
-- identifier ends with one of the draws, which no session has; every draw before it is the
-- identifier of a session, and the draws behind it are left.
pub draw_id_lem :
    (ss : Sessions) (draws : List ℕ)
    → AllDiffer draws
    → length ss < length draws
    → (r : ℕ × List ℕ) × (draw_id ss draws ≡ some r)
      × (find_session ss r.0 ≡ none)
      × (taken : List ℕ) × (draws ≡ taken ++ r.0 ∷ r.1)
      × AllUsed ss taken
draw_id_lem ss draws a l = elim (Option-cases (draw_id ss draws)) [
  | inl stuck ↦ absurd (omega (arith, length-draw_id ss draws a stuck))
  | inr (r, drawn) ↦
      let (taken, parts, used) = draw_id_taken ss draws r drawn in
      (r, drawn, draw_id_free ss draws r drawn, taken, parts, used)
]
