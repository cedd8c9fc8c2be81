-- ===== src/Session/Cookies.antt =====
-- Server/include/Network.h, class cookieManager: the values of the "cookie" header.
use wfa.Base.{ℕ, zero, suc, ◌||◌, none, some, [], Bytes, is_empty, length, if◌then◌else◌}
use wfa.Base.Spaces.{skip_spaces}
use wfa.Base.Scan.{before, from, skip}
use wfa.Base.Map.{Map, lookup, assign}

-- The loop of `getCookies`; each round takes a byte or stops at ';', so the length bounds them.
-- The spaces behind a ';' are skipped only where the cookie before it was kept.
unfoldable pub read_cookies : ℕ → Bytes → Map → Map
unfolding skip_spaces
read_cookies zero mixed values = values
read_cookies (suc fuel) mixed values =
    let cookie = before b';' mixed in
    let after = skip (from b';' mixed) in
    let name = before b'=' cookie in
    let div = from b'=' cookie in
    let ignored = read_cookies fuel after values in
    let kept = read_cookies fuel (skip_spaces after) (assign values name (skip div)) in
    if is_empty mixed then values else if is_empty name || is_empty div then ignored else kept

unfoldable pub get_cookies : Bytes → Map
unfolding read_cookies
get_cookies mixed = read_cookies (length mixed) mixed []

-- `get`: the empty text for a cookie that is not there.
unfoldable pub get_cookie : Map → Bytes → Bytes
get_cookie values name = elim (lookup values name) [ none ↦ [] | some v ↦ v ]
