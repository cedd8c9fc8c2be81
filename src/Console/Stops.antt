-- ===== src/Console/Stops.antt =====
-- A file of statements runs up to the first one that fails.
use wfa.Base.{ℕ, ◌≡◌, refl, true, false, append-nil, List, [], ◌∷◌, ◌++◌, Bytes}
use wfa.Platform.{Platform, Reply}
use wfa.Console.{run_line, autoexec}

module _ (P : Platform) where
  -- The state behind lines of which none fails.
  pub data Runs : P.State → List Bytes → P.State → Type 0 where
    no_lines : {db : P.State} → Runs db [] db
    blank : {db d : P.State} {lines : List Bytes} → Runs db lines d → Runs db ([] ∷ lines) d
    statement :
        {db d e : P.State} {c : ℕ} {line : Bytes} {lines : List Bytes} {reply : Reply}
        → P.query db (c ∷ line) [] ≡ (d, reply)
        → reply.ok ≡ true
        → Runs d lines e
        → Runs db ((c ∷ line) ∷ lines) e

  autoexec-Runs :
      {db d : P.State} {lines : List Bytes} (others : List Bytes)
      → Runs db lines d
      → autoexec P db (lines ++ others) ≡ autoexec P d others
  unfolding autoexec run_line
  autoexec-Runs others no_lines = refl
  autoexec-Runs others (blank r) = autoexec-Runs others r
  autoexec-Runs others (statement e good r) = rw (e, good, autoexec-Runs others r) refl

  -- Where the statements of some lines all succeed, one after the other and with the empty lines
  -- left out, and the statement of the next line fails: autoexec of those lines alone ends in the
  -- state that they leave; with the failing line behind them and any lines after it, it ends in
  -- the state that the failing statement leaves, and no later line runs.
  pub autoexec-stops :
      (db d e : P.State) (lines others : List Bytes) (c : ℕ) (line : Bytes) (reply : Reply)
      → Runs db lines d
      → P.query d (c ∷ line) [] ≡ (e, reply)
      → reply.ok ≡ false
      → (autoexec P db lines ≡ (d, true))
        × (autoexec P db (lines ++ (c ∷ line) ∷ others) ≡ (e, false))
  unfolding autoexec run_line
  autoexec-stops db d e lines others c line reply r q bad = (
    rw append-nil at (autoexec-Runs [] r),
    rw (autoexec-Runs ((c ∷ line) ∷ others) r, q, bad) refl,
  )
