-- ===== src/Kept/Auth.antt =====
-- The routes of Server/include/WebRoutes/Auth.h change the session table only by
-- `set_sessions`: they follow a preorder that its two uses follow.
use wfa.Base.{
  get_elem?, ◌+◌, ◌*◌, ◌≡◌, refl, true, text, ℕ, Option-cases, inl, inr, false, Option, none, some,
  Bytes, Bool,
}
use wfa.Base.Decimal.{to_string}
use wfa.Base.Map.{Map}
use wfa.Handler.{
  Server, undefined, value_of, on_option, cell, log_element, pure, Act, Request, gets, ◌>>=◌,
}
use wfa.Handler.Steps.{
  Growth, sessions_after, Steps, steps_rules, Steps-fail, Steps-call, Steps-value, Steps-pure,
}
use wfa.Platform.{Platform, Reply, SqlResult}
use wfa.Session.Draws.{draw_id_free}
use wfa.Session.Table
use wfa.Authenticator.{
  set_cookie, clear_cookie, set_sessions, release, draw, if_converted, open_session, has_no_match,
  assert_single, log_in,
}
use wfa.Routes.Auth.{authenticate, register_user, deauthenticate, check_session}

module _ {P : Platform} {R : Growth} where
  pub set_cookie-Steps : (name val : Bytes) → Steps {P = P} R (set_cookie name val)
  unfolding set_cookie
  set_cookie-Steps name val = search (steps_rules, Steps-call) depth 20

  pub clear_cookie-Steps : (name : Bytes) → Steps {P = P} R (clear_cookie name)
  unfolding clear_cookie
  clear_cookie-Steps name = search (steps_rules, set_cookie-Steps) depth 20

  -- A change of the table that follows the preorder, and what comes behind it.
  set_sessions-Steps :
      {A : Type 0} (f : Table.Sessions → Table.Sessions) (m : Act P A)
      → ((ss : Table.Sessions) → R.leads ss (f ss))
      → Steps R m
      → Steps R (gets (λ s. s.sessions) >>= λ ss. set_sessions (f ss) >>= λ _. m)
  unfolding gets set_sessions ◌>>=◌
  set_sessions-Steps f m hf hm = record {
    at = λ s.
        R.joins s.sessions (f s.sessions) _ (hf s.sessions)
          (hm.at (record s { sessions = f s.sessions }));
  }

-- What both changes of the table follow: without the request's session, and with a new one whose
-- identifier no session has.
pub record Follows (R : Growth) (req : Request) : Type 0 where
  pub erases :
      (ss : Table.Sessions) (id : ℕ)
      → Table.get_session_id req.cookie ≡ some id
      → R.leads ss (Table.erase_session ss id)
  pub assigns :
      (ss : Table.Sessions) (id : ℕ) (v : Table.Session)
      → Table.find_session ss id ≡ none
      → R.leads ss (Table.assign_session ss id v)

-- An action that follows the preorder from a table without a session of the identifier.
record FreeSteps {P : Platform} {A : Type 0} (R : Growth) (id : ℕ) (m : Act P A) : Type 0 where
  pub at :
      (s : Server P)
      → Table.find_session s.sessions id ≡ none
      → R.leads s.sessions (sessions_after (m s))

module _ {P : Platform} {R : Growth} where
  draw-Steps :
      {A : Type 0} (f : ℕ → Act P A) → ((val : ℕ) → FreeSteps R val (f val)) → Steps R (draw >>= f)
  unfolding draw ◌>>=◌
  draw-Steps f h = record {
    at = λ s. elim (Option-cases (Table.draw_id s.sessions s.draws)) [
      | inl stuck ↦ rw (stuck, draw) (R.stays s.sessions)
      | inr (r, found) ↦
          rw (found, draw)
            ((h r.0).at (record s { draws = r.1 }) (draw_id_free s.sessions s.draws r found))
    ];
  }

  cell-FreeSteps :
      {A : Type 0} (id i j : ℕ) (r : SqlResult) (f : Bytes → Act P A)
      → ((c : Bytes) → FreeSteps R id (f c))
      → FreeSteps R id (cell r i j >>= f)
  cell-FreeSteps id i j r f h = unfold cell in by_cell (get_elem? r.cells (i * r.col_count + j))
    where
      by_cell : (o : Option Bytes) → FreeSteps R id (value_of undefined o >>= f)
      by_cell none = unfold value_of ◌>>=◌ in record { at = λ s free. R.stays s.sessions }
      by_cell (some c) = unfold value_of ◌>>=◌ in record { at = λ s free. (h c).at s free }

  if_converted-FreeSteps :
      (id : ℕ) (o : Option ℕ) (f : ℕ → Act P Bool)
      → ((n : ℕ) → FreeSteps R id (f n))
      → FreeSteps R id (if_converted o f)
  unfolding if_converted pure
  if_converted-FreeSteps id none f h = record { at = λ s free. R.stays s.sessions }
  if_converted-FreeSteps id (some n) f h = h n

-- The value of the option is known in its branch.
Steps-on_option_of :
    {P : Platform} {R : Growth} {A B : Type 0} (o : Option A) (m : Act P B) (f : A → Act P B)
    → Steps R m
    → ((a : A) → o ≡ some a → Steps R (f a))
    → Steps R (on_option o m f)
unfolding on_option
Steps-on_option_of none m f hm hf = hm
Steps-on_option_of (some a) m f hm hf = hf a refl

module _ {P : Platform} {R : Growth} (req : Request) (follows : Follows R req) where
  pub release-Steps : Steps {P = P} R (release req)
  unfolding release
  release-Steps = Steps-on_option_of _ _ _ (Steps-pure false) λ id held.
      set_sessions-Steps (λ ss. Table.erase_session ss id)
        (clear_cookie Table.auth_cookie >>= λ _. pure true) (λ ss. follows.erases ss id held)
        (search (steps_rules, clear_cookie-Steps) depth 30)

  open_session-FreeSteps :
      (val user_id level : ℕ) (b : Map) → FreeSteps {P = P} R val (open_session val user_id level b)
  open_session-FreeSteps val user_id level b = record {
    at = λ s free.
        let opened =
          Table.assign_session s.sessions val (record { level = level; user_id = user_id }) in
        let told : Steps {P = P} R (
            set_cookie Table.auth_cookie (to_string val) >>= λ _.
            log_element b (text "username") >>= λ _. pure true) =
          search (steps_rules, set_cookie-Steps) depth 30 in
        unfold open_session gets set_sessions ◌>>=◌ in
        R.joins s.sessions opened _ (follows.assigns s.sessions val _ free)
          (told.at (record s { sessions = opened }));
  }

  pub has_no_match-Steps : (r : Reply) → Steps {P = P} R (has_no_match r)
  unfolding has_no_match
  has_no_match-Steps r = search steps_rules depth 30

  assert_single-Steps : (r : SqlResult) → Steps {P = P} R (assert_single r)
  unfolding assert_single
  assert_single-Steps r = search (steps_rules, Steps-fail) depth 20

  pub log_in-Steps : (b : Map) → Steps {P = P} R (log_in req b)
  unfolding log_in
  log_in-Steps b =
      search
        (
          steps_rules, release-Steps, draw-Steps, cell-FreeSteps, if_converted-FreeSteps,
          open_session-FreeSteps, has_no_match-Steps, assert_single-Steps,
        )
        depth 40

  pub authenticate-Steps : (b q : Map) → Steps {P = P} R (authenticate req b q)
  unfolding authenticate
  authenticate-Steps b q = search (steps_rules, log_in-Steps) depth 40

  pub register_user-Steps : (b q : Map) → Steps {P = P} R (register_user req b q)
  unfolding register_user
  register_user-Steps b q = search (steps_rules, authenticate-Steps) depth 40

  pub deauthenticate-Steps : Steps {P = P} R (deauthenticate req)
  unfolding deauthenticate
  deauthenticate-Steps = search (steps_rules, release-Steps) depth 40

  pub check_session-Steps : Steps {P = P} R (check_session req)
  unfolding check_session
  check_session-Steps = search (steps_rules, release-Steps, Steps-value) depth 40
