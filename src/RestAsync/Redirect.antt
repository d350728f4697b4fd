-- ===== src/RestAsync/Redirect.antt =====
-- `extractRedirectPath`, `isRedirectStatus` and `resolveRedirect` of
-- rest_client_async/rest_client_async.cpp.
pub mod Target
pub mod Tests
use exchange_connectivity.Base.{
  ℕ, Bool, true, false, ◌||◌, [], ◌∷◌, ◌++◌, Option, none, some, Fallible, ok, err, map_err, ◌==◌,
  if◌then◌else◌, drop,
}
use exchange_connectivity.Base.Text.{Bytes, codes, beq, to_lower, starts_with}
use exchange_connectivity.RestAsync.{RestError, cross_host_redirect}

-- What follows the first "://".
pub after_scheme : Bytes → Option Bytes
after_scheme [] = none
after_scheme (c ∷ s) =
    let rest = after_scheme s in
    if starts_with (codes "://") (c ∷ s) then some (drop 3 (c ∷ s)) else rest

-- `s.substr(0, s.find(c))`, which is all of `s` where there is no `c`.
pub before : ℕ → Bytes → Bytes
before c [] = []
before c (d ∷ s) = if d == c then [] else d ∷ before c s

-- `s.substr(s.find(c))`, where there is a `c`.
pub from_character : ℕ → Bytes → Option Bytes
from_character c [] = none
from_character c (d ∷ s) = if d == c then some (d ∷ s) else from_character c s

abbrev or_root : Option Bytes → Bytes
or_root none = codes "/"
or_root (some path) = path

-- A location with no scheme.
pub rooted : Bytes → Bytes
rooted [] = codes "/"
rooted (c ∷ s) = if c == b'/' then c ∷ s else b'/' ∷ c ∷ s

-- The error is the text of the exception.
unfoldable pub extract_redirect_path : Bytes → Bytes → Fallible Bytes Bytes
unfolding after_scheme before from_character rooted
extract_redirect_path location expected_host = elim (after_scheme location) [
  | none ↦ ok (rooted location)
  | some rest ↦
      (if beq (to_lower (before b':' (before b'/' rest))) (to_lower expected_host)
        then ok (or_root (from_character b'/' rest))
        else err (codes "Cross-host redirect not allowed: " ++ location))
]

unfoldable pub is_redirect_status : ℕ → Bool
is_redirect_status status =
    status == 301 || status == 302 || status == 303 || status == 307 || status == 308

unfoldable pub resolve_redirect : Bytes → Bytes → Fallible RestError Bytes
unfolding extract_redirect_path
resolve_redirect location host =
    map_err (λ text. cross_host_redirect) (extract_redirect_path location host)
