-- ===== src/Handler/Refusal.antt =====
-- What happens to a request that is refused: a status, an empty body, and no other effect.
use wfa.Base.{
  ◌≡◌, refl, Bool, true, false, Option, none, some, List, [], ◌∷◌, ◌++◌, append_assoc, ◌⊎◌, inl,
  inr, Bytes, if◌then◌else◌,
}
use wfa.Base.Map.{Map, lookup}
use wfa.Handler.{
  status, finish, Fault, exception, Server, Outcome, next, returned, failed, Act, Request, continue,
  ◌>>=◌, pure, gets, return_early, call, write_status, end_with, stop, value_of, on_option,
  get_element, element_empty, element_or, verify, require, require_elements,
}
use wfa.Handler.Codes.{bad_request, forbidden}
use wfa.Platform.{Platform}
use wfa.Session.Levels.{Level}
use wfa.Session.Table

-- The codes of a refusal.
abbrev pub IsRefusal : Bytes → Type 0
IsRefusal c = (c ≡ bad_request) ⊎ (c ≡ forbidden)

module _ {P : Platform} where
  -- `t` is `s` after the two calls that refuse a request: the database, the sessions and the
  -- draws are those of `s`.
  abbrev pub Refused : Server P → Server P → Type 0
  Refused s t =
      (c : Bytes) × IsRefusal c × (t ≡ record s { calls = s.calls ++ status c ∷ finish [] ∷ [] })

  abbrev pub QuietAfter : {A : Type 0} → Server P → Outcome (Server P) A → Type 0
  QuietAfter s (next a t) = t ≡ s
  QuietAfter s (returned t) = Refused s t
  QuietAfter s (failed e t) = t ≡ s

  abbrev pub DeniedAfter : {A : Type 0} → Server P → Outcome (Server P) A → Type 0
  DeniedAfter s (next a t) = ⊥
  DeniedAfter s (returned t) = Refused s t
  DeniedAfter s (failed e t) = t ≡ s

-- The action changes nothing, or refuses the request.
pub record Quiet {P : Platform} {A : Type 0} (m : Act P A) : Type 0 where
  pub at : (s : Server P) → QuietAfter s (m s)

-- Where `D` holds of the sessions, the action does not go on.
pub record Denies {P : Platform} {A : Type 0} (D : Table.Sessions → Type 0) (m : Act P A)
    : Type 0 where
  pub at : (s : Server P) → D s.sessions → DeniedAfter s (m s)

module _ {P : Platform} {A : Type 0} where
  pub Quiet-pure : (a : A) → Quiet {P = P} (pure a)
  unfolding pure
  Quiet-pure a = record { at = λ s. refl }

  pub Quiet-gets : (f : Server P → A) → Quiet (gets f)
  unfolding gets
  Quiet-gets f = record { at = λ s. refl }

  pub Quiet-value_of : (e : Fault) (o : Option A) → Quiet {P = P} (value_of e o)
  unfolding value_of
  Quiet-value_of e none = record { at = λ s. refl }
  Quiet-value_of e (some a) = record { at = λ s. refl }

  pub Quiet-if : (b : Bool) (m n : Act P A) → Quiet m → Quiet n → Quiet (if b then m else n)
  Quiet-if true m n hm hn = hm
  Quiet-if false m n hm hn = hn

module _ {P : Platform} {A B : Type 0} where
  continue-Quiet :
      (s : Server P) (f : A → Act P B)
      → ((a : A) → Quiet (f a))
      → (o : Outcome (Server P) A) → QuietAfter s o
      → QuietAfter s (continue o f)
  continue-Quiet s f hf (next a t) h = rw (← h) ((hf a).at t)
  continue-Quiet s f hf (returned t) h = h
  continue-Quiet s f hf (failed e t) h = h

  continue-Denied :
      (D : Table.Sessions → Type 0) (s : Server P) (f : A → Act P B)
      → D s.sessions
      → ((a : A) → Denies D (f a))
      → (o : Outcome (Server P) A) → QuietAfter s o
      → DeniedAfter s (continue o f)
  continue-Denied D s f d hf (next a t) h = rw (← h) ((hf a).at t (rw h d))
  continue-Denied D s f d hf (returned t) h = h
  continue-Denied D s f d hf (failed e t) h = h

  continue-Refused :
      (s : Server P) (f : A → Act P B) (o : Outcome (Server P) A)
      → DeniedAfter s o
      → DeniedAfter s (continue o f)
  continue-Refused s f (next a t) h = absurd h
  continue-Refused s f (returned t) h = h
  continue-Refused s f (failed e t) h = h

  pub Quiet-bind :
      (m : Act P A) (f : A → Act P B) → Quiet m → ((a : A) → Quiet (f a)) → Quiet (m >>= f)
  unfolding ◌>>=◌
  Quiet-bind m f hm hf = record { at = λ s. continue-Quiet s f hf (m s) (hm.at s) }

  pub Denies-right :
      (D : Table.Sessions → Type 0) (m : Act P A) (f : A → Act P B)
      → Quiet m
      → ((a : A) → Denies D (f a))
      → Denies D (m >>= f)
  unfolding ◌>>=◌
  Denies-right D m f hm hf = record { at = λ s d. continue-Denied D s f d hf (m s) (hm.at s) }

  pub Denies-left :
      (D : Table.Sessions → Type 0) (m : Act P A) (f : A → Act P B)
      → Denies D m
      → Denies D (m >>= f)
  unfolding ◌>>=◌
  Denies-left D m f hm = record { at = λ s d. continue-Refused s f (m s) (hm.at s d) }

  pub Quiet-on_option :
      (o : Option A) (m : Act P B) (f : A → Act P B)
      → Quiet m
      → ((a : A) → Quiet (f a))
      → Quiet (on_option o m f)
  unfolding on_option
  Quiet-on_option none m f hm hf = hm
  Quiet-on_option (some a) m f hm hf = hf a

module _ {P : Platform} where
  DeniedAfter-QuietAfter :
      {A : Type 0} (s : Server P) (o : Outcome (Server P) A) → DeniedAfter s o → QuietAfter s o
  DeniedAfter-QuietAfter s (next a t) h = absurd h
  DeniedAfter-QuietAfter s (returned t) h = h
  DeniedAfter-QuietAfter s (failed e t) h = h

  stop-Refused : (s : Server P) (c : Bytes) → IsRefusal c → DeniedAfter s (stop c s)
  unfolding stop write_status end_with return_early call ◌>>=◌
  stop-Refused s c h = (c, h, rw append_assoc)

  pub Quiet-bad_request : Quiet {P = P} (stop bad_request)
  Quiet-bad_request = record {
    at = λ s. DeniedAfter-QuietAfter s (stop bad_request s) (stop-Refused s bad_request (inl refl));
  }

  pub Denies-forbidden : (D : Table.Sessions → Type 0) → Denies {P = P} D (stop forbidden)
  Denies-forbidden D = record { at = λ s d. stop-Refused s forbidden (inr refl) }

  pub Denies-bad_request : (D : Table.Sessions → Type 0) → Denies {P = P} D (stop bad_request)
  Denies-bad_request D = record { at = λ s d. stop-Refused s bad_request (inl refl) }

  pub Quiet-forbidden : Quiet {P = P} (stop forbidden)
  Quiet-forbidden = record {
    at = λ s. DeniedAfter-QuietAfter s (stop forbidden s) (stop-Refused s forbidden (inr refl));
  }

  pub Quiet-get_element : (m : Map) (n : Bytes) → Quiet {P = P} (get_element m n)
  unfolding get_element
  Quiet-get_element m n = Quiet-value_of exception (lookup m n)

pub ruleset quiet_core = (
  Quiet-pure, Quiet-gets, Quiet-value_of, Quiet-if, Quiet-bind, Quiet-on_option, Quiet-bad_request,
  Quiet-forbidden, Quiet-get_element,
)

module _ {P : Platform} where
  pub Quiet-element_empty : (m : Map) (n : Bytes) → Quiet {P = P} (element_empty m n)
  unfolding element_empty
  Quiet-element_empty m n = search quiet_core

  pub Quiet-element_or : (m : Map) (n o : Bytes) → Quiet {P = P} (element_or m n o)
  unfolding element_or
  Quiet-element_or m n o = search quiet_core

  pub Quiet-verify : (req : Request) (l : Level) → Quiet {P = P} (verify req l)
  unfolding verify
  Quiet-verify req l = search quiet_core

  pub Quiet-require : (req : Request) (l : Level) → Quiet {P = P} (require req l)
  unfolding require
  Quiet-require req l = search (quiet_core, Quiet-verify)

  pub Quiet-require_elements : (m : Map) (ns : List Bytes) → Quiet {P = P} (require_elements m ns)
  unfolding require_elements
  Quiet-require_elements m ns = search quiet_core

-- The sessions in which a request does not have a level.
abbrev pub LacksLevel : Request → Level → Table.Sessions → Type 0
LacksLevel req l ss = Table.verify ss req.cookie l ≡ false

module _ {P : Platform} where
  pub Denies-require :
      (req : Request) (l : Level) → Denies {P = P} (LacksLevel req l) (require req l)
  unfolding require verify gets ◌>>=◌ pure
  Denies-require req l = record { at = λ s d. rw d (stop-Refused s forbidden (inr refl)) }

pub ruleset denial_rules = (
  quiet_core, Quiet-element_empty, Quiet-element_or, Quiet-verify, Quiet-require,
  Quiet-require_elements, Denies-left, Denies-right, Denies-require,
)
