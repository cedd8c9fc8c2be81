-- ===== src/Posted.antt =====
-- How a posted body is collected: HttpCallWrapper::operator() of Server/include/Network.h, and
-- extractPostBody of Translator/include/Forwarding.h and Translator/src/Source.cpp, which do the same
-- calls.
use wfa.Base.{
  ℕ, ◌≡◌, refl, ◌≢◌, Bool, true, false, none, some, List, [], ◌∷◌, ◌++◌, Bytes, text, append_assoc,
  append-nil, length, length-append, leb, ◌≤◌, ◌<◌, ◌==◌, if◌then◌else◌, arith,
}
use wfa.Base.Result.{Result, ok, thrown, ◌>>=◌}
use wfa.Base.Decimal.{from_chars}

-- What uWebSockets calls the two callbacks with: a part of the body, which may be the last one, or
-- the end of the connection.
pub data Event : Type 0 where
  chunk : Bytes → Bool → Event
  aborted : Event

-- What the code does: it hands the body on, or answers itself.
pub data Effect : Type 0 where
  callback : Bytes → Effect
  write_status : Bytes → Effect
  finish : Effect

-- The lambda that reads the header; a size_t has 64 bits.
unfoldable pub content_length : Bytes → ℕ
unfolding from_chars
content_length header = elim (from_chars 64 header) [ none ↦ 0 | some val ↦ val ]

-- The callback of `onData`. `max_size` is that of std::string: `append` and `reserve` throw above it.
-- Memory that runs out before is left out.
unfoldable pub on_data : ℕ → Bytes → Bytes → Bool → Result (Bytes × List Effect)
on_data max_size buffer part is_last =
    if leb (length (buffer ++ part)) max_size
    then ok (buffer ++ part, if is_last then callback (buffer ++ part) ∷ [] else [])
    else thrown

abbrev pub on_aborted : List Effect
on_aborted = write_status (text "500") ∷ finish ∷ []

-- The callbacks in turn, over the buffer that they share.
unfoldable pub on_events : ℕ → Bytes → List Event → Result (List Effect)
unfolding on_data
on_events max_size buffer [] = ok []
on_events max_size buffer (chunk part is_last ∷ events) =
    on_data max_size buffer part is_last >>= λ (buffer', effects).
    on_events max_size buffer' events >>= λ more. ok (effects ++ more)
on_events max_size buffer (aborted ∷ events) =
    on_events max_size buffer events >>= λ more. ok (on_aborted ++ more)

-- `operator()`: without a length nothing is waited for, and `reserve` throws before a callback is
-- registered.
unfoldable pub receive : ℕ → Bytes → List Event → Result (List Effect)
unfolding content_length on_events
receive max_size header events =
    if content_length header == 0
    then ok (callback [] ∷ [])
    else if leb (content_length header) max_size
    then on_events max_size [] events
    else thrown

-- What uWebSockets promises: parts up to one last one, and nothing behind it or behind an abort.
pub data Delivery : Bytes → List Event → Type 0 where
  delivered : (part : Bytes) → Delivery part (chunk part true ∷ [])
  part_of :
      (part : Bytes) {others : Bytes} {events : List Event}
      → Delivery others events
      → Delivery (part ++ others) (chunk part false ∷ events)

-- Some parts before the end, with all their bytes.
pub data Abort : Bytes → List Event → Type 0 where
  cut : Abort [] (aborted ∷ [])
  part_before :
      (part : Bytes) {others : Bytes} {events : List Event}
      → Abort others events
      → Abort (part ++ others) (chunk part false ∷ events)

on_data-ok :
    (max_size : ℕ) (buffer part others : Bytes) (is_last : Bool)
    → length (buffer ++ (part ++ others)) ≤ max_size
    → on_data max_size buffer part is_last
      ≡ ok (buffer ++ part, if is_last then callback (buffer ++ part) ∷ [] else [])
unfolding on_data
on_data-ok max_size buffer part others is_last h =
    let fits : leb (length (buffer ++ part)) max_size ≡ true = ground (
      arith,
      length-append buffer part,
      length-append buffer (part ++ others),
      length-append part others,
    ) in
    rw fits refl

on_events-Delivery :
    {body : Bytes} {events : List Event} (max_size : ℕ) (buffer : Bytes)
    → Delivery body events
    → length (buffer ++ body) ≤ max_size
    → on_events max_size buffer events ≡ ok (callback (buffer ++ body) ∷ [])
unfolding on_events
on_events-Delivery max_size buffer (delivered part) h =
    rw (on_data-ok max_size buffer part [] true (rw append-nil h)) refl
on_events-Delivery max_size buffer (part_of part {others = others} d) h =
    rw
      (
        on_data-ok max_size buffer part others false h,
        on_events-Delivery max_size (buffer ++ part) d (rw append_assoc h),
        append_assoc buffer part others,
      )
      refl

on_events-Abort :
    {sent : Bytes} {events : List Event} (max_size : ℕ) (buffer : Bytes)
    → Abort sent events
    → length (buffer ++ sent) ≤ max_size
    → on_events max_size buffer events ≡ ok on_aborted
unfolding on_events
on_events-Abort max_size buffer cut h = refl
on_events-Abort max_size buffer (part_before part {others = others} a) h =
    rw
      (
        on_data-ok max_size buffer part others false h,
        on_events-Abort max_size (buffer ++ part) a (rw append_assoc h),
      )
      refl

-- Where the header content-length gives a number other than 0 that is not above max_size() of
-- std::string, and the bytes that arrive are not more than that either: a body that arrives in
-- parts up to one last one, however it is divided, is handed to the handler once, whole and at the
-- last part; and a connection that is cut behind any parts before the last one gets status 500 and
-- the end of the response, and no handler is called. Where the header gives a number above
-- max_size(), an exception is thrown and no handler is called, whatever arrives.
pub receive-Delivery :
    (max_size : ℕ) (header large body sent : Bytes) (events ended others : List Event)
    → content_length header ≢ 0
    → content_length header ≤ max_size
    → max_size < content_length large
    → length body ≤ max_size
    → length sent ≤ max_size
    → Delivery body events
    → Abort sent ended
    → (receive max_size header events ≡ ok (callback body ∷ []))
      × (receive max_size header ended ≡ ok (write_status (text "500") ∷ finish ∷ []))
      × (receive max_size large others ≡ thrown)
unfolding receive
receive-Delivery max_size header large body sent events ended others h fits l b s d a =
    let waits : (content_length header == 0) ≡ false = ground arith in
    let reserved : leb (content_length header) max_size ≡ true = ground arith in
    (
      rw (waits, reserved) (on_events-Delivery max_size [] d b),
      rw (waits, reserved) (on_events-Abort max_size [] a s),
      ground arith,
    )
