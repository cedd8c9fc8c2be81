-- ===== src/Once/Auth.antt =====
-- The routes of Server/include/WebRoutes/Auth.h end their response once.
use wfa.Base.{ℕ, arith, Option-cases, inl, inr, false, Option, none, some, Bytes, Bool}
use wfa.Base.Map.{Map}
use wfa.Handler.{Act, Request}
use wfa.Handler.Rules.{Sends, sends_rules, Sends-fail, Sends-header, Sends-value, Sends-pure}
use wfa.Platform.{Platform, Reply, SqlResult}
use wfa.Session.Table
use wfa.Authenticator.{
  set_cookie, clear_cookie, set_sessions, release, draw, if_converted, open_session, has_no_match,
  assert_single, log_in,
}
use wfa.Routes.Auth.{authenticate, register_user, deauthenticate, check_session}

module _ {P : Platform} where
  pub set_cookie-Sends : (name val : Bytes) → Sends {P = P} 0 (set_cookie name val)
  unfolding set_cookie
  set_cookie-Sends name val = search (sends_rules, Sends-header) depth 20

  pub clear_cookie-Sends : (name : Bytes) → Sends {P = P} 0 (clear_cookie name)
  unfolding clear_cookie
  clear_cookie-Sends name = search (sends_rules, set_cookie-Sends) depth 20

  set_sessions-Sends : (ss : Table.Sessions) → Sends {P = P} 0 (set_sessions ss)
  unfolding set_sessions
  set_sessions-Sends ss = record { at = λ s. omega arith }

  draw-Sends : Sends {P = P} 0 draw
  unfolding draw
  draw-Sends = record {
    at = λ s. elim (Option-cases (Table.draw_id s.sessions s.draws)) [
      | inl stuck ↦ rw (stuck, draw) tt
      | inr (drawn, found) ↦ rw (found, draw) (omega arith)
    ];
  }

  pub release-Sends : (req : Request) → Sends {P = P} 0 (release req)
  unfolding release
  release-Sends req = search (sends_rules, set_sessions-Sends, clear_cookie-Sends) depth 30

  if_converted-Sends :
      (o : Option ℕ) (f : ℕ → Act P Bool) → ((n : ℕ) → Sends 0 (f n)) → Sends 0 (if_converted o f)
  unfolding if_converted
  if_converted-Sends none f h = Sends-pure false
  if_converted-Sends (some n) f h = h n

  pub open_session-Sends :
      (val user_id level : ℕ) (b : Map) → Sends {P = P} 0 (open_session val user_id level b)
  unfolding open_session
  open_session-Sends val user_id level b =
      search (sends_rules, set_sessions-Sends, set_cookie-Sends) depth 30

  pub has_no_match-Sends : (r : Reply) → Sends {P = P} 0 (has_no_match r)
  unfolding has_no_match
  has_no_match-Sends r = search sends_rules depth 30

  assert_single-Sends : (r : SqlResult) → Sends {P = P} 0 (assert_single r)
  unfolding assert_single
  assert_single-Sends r = search (sends_rules, Sends-fail) depth 20

  pub log_in-Sends : (req : Request) (b : Map) → Sends {P = P} 0 (log_in req b)
  unfolding log_in
  log_in-Sends req b =
      search
        (
          sends_rules, release-Sends, draw-Sends, if_converted-Sends, open_session-Sends,
          has_no_match-Sends, assert_single-Sends,
        )
        depth 40

  pub authenticate-Sends : (req : Request) (b q : Map) → Sends {P = P} 1 (authenticate req b q)
  unfolding authenticate
  authenticate-Sends req b q = search (sends_rules, log_in-Sends) depth 40

  pub register_user-Sends : (req : Request) (b q : Map) → Sends {P = P} 1 (register_user req b q)
  unfolding register_user
  register_user-Sends req b q = search (sends_rules, authenticate-Sends) depth 40

  pub deauthenticate-Sends : (req : Request) → Sends {P = P} 1 (deauthenticate req)
  unfolding deauthenticate
  deauthenticate-Sends req = search (sends_rules, release-Sends) depth 40

  pub check_session-Sends : (req : Request) → Sends {P = P} 1 (check_session req)
  unfolding check_session
  check_session-Sends req = search (sends_rules, release-Sends, Sends-value) depth 40
