-- ===== src/Session/Unique.antt =====
-- The session table has one session for an identifier, and its operations keep that.
use wfa.Base.{ℕ, ◌≡◌, refl, ◌≢◌, none, some, [], ◌∷◌, ◌==◌, arith, if◌then◌else◌}
use wfa.Session.Table.{Session, Sessions, find_session, erase_session, assign_session}

abbrev pub IsFree : ℕ → Sessions → Type 0
IsFree id [] = Unit
IsFree id ((i, s) ∷ ss) = (i ≢ id) × IsFree id ss

-- std::unordered_map: no identifier twice.
abbrev pub IsUnique : Sessions → Type 0
IsUnique [] = Unit
IsUnique ((i, s) ∷ ss) = IsFree i ss × IsUnique ss

IsFree-assign_session :
    (ss : Sessions) (i j : ℕ) (v : Session) → i ≢ j → IsFree i ss → IsFree i (assign_session ss j v)
unfolding assign_session
IsFree-assign_session [] i j v h g = ground arith
IsFree-assign_session ((k, s) ∷ ss) i j v h g = ground (arith, IsFree-assign_session ss i j v)

IsFree-erase_session : (ss : Sessions) (i j : ℕ) → IsFree i ss → IsFree i (erase_session ss j)
unfolding erase_session
IsFree-erase_session [] i j g = g
IsFree-erase_session ((k, s) ∷ ss) i j g = ground (arith, IsFree-erase_session ss i j)

pub assign_session-IsUnique :
    (ss : Sessions) (id : ℕ) (v : Session) → IsUnique ss → IsUnique (assign_session ss id v)
unfolding assign_session
assign_session-IsUnique [] id v h = ground arith
assign_session-IsUnique ((k, s) ∷ ss) id v h =
    ground (arith, assign_session-IsUnique ss id v, IsFree-assign_session ss k id v)

pub erase_session-IsUnique : (ss : Sessions) (id : ℕ) → IsUnique ss → IsUnique (erase_session ss id)
unfolding erase_session
erase_session-IsUnique [] id h = h
erase_session-IsUnique ((k, s) ∷ ss) id h =
    ground (arith, erase_session-IsUnique ss id, IsFree-erase_session ss k id)

pub find_session_free : (ss : Sessions) (id : ℕ) → IsFree id ss → find_session ss id ≡ none
unfolding find_session
find_session_free [] id h = refl
find_session_free ((k, s) ∷ ss) id h = ground (arith, find_session_free ss id)

pub find-assign :
    (ss : Sessions) (i j : ℕ) (v : Session)
    → find_session (assign_session ss i v) j ≡ (if i == j then some v else find_session ss j)
unfolding find_session assign_session
find-assign [] i j v = refl
find-assign ((k, s) ∷ ss) i j v = ground (arith, find-assign ss i j v)

pub find-erase :
    (ss : Sessions) (i j : ℕ)
    → IsUnique ss
    → find_session (erase_session ss i) j ≡ (if i == j then none else find_session ss j)
unfolding find_session erase_session
find-erase [] i j h = ground arith
find-erase ((k, s) ∷ ss) i j h = ground (arith, find-erase ss i j, find_session_free ss j)
