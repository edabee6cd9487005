-- ===== src/Geo/UrlGuard.antt =====
-- modules/geo/url-guard.ts, `assertFetchableUrl`, over what it asks of Node: the URL parser, `isIP`
-- and the resolver, which may answer otherwise at another time.
pub mod Safety
use ai_search_api.Base.{
  ℕ, Bool, not, ◌||◌, Option, none, some, List, [], ◌∷◌, ◌==◌, if◌then◌else◌, any,
}
use ai_search_api.Base.Result.{Result, ok, err, failure}
use ai_search_api.Base.Text.{Text, codes, text_eq}
use ai_search_api.Geo.Address.{is_blocked_address}

pub record Url : Type 0 where
  pub protocol : Text
  pub hostname : Text
  pub origin : Text

pub record ValidatedAddress : Type 0 where
  pub address : Text
  pub family : ℕ

-- `lookup t host` is the answer at time `t`; `none` where the promise is rejected.
pub record Platform : Type 0 where
  pub parse_url : Text → Option Url
  pub is_ip : Text → ℕ
  pub lookup : ℕ → Text → Option (List ValidatedAddress)

strip_front : Text → Text
strip_front [] = []
strip_front (c ∷ s) = if c == b'[' then s else c ∷ s

strip_back : Text → Text
strip_back [] = []
strip_back (c ∷ []) = if c == b']' then [] else c ∷ []
strip_back (c ∷ d ∷ s) = c ∷ strip_back (d ∷ s)

-- `hostname.replace(/^\[|\]$/g, '')`
unfoldable pub host_of : Url → Text
unfolding strip_front strip_back
host_of url = strip_back (strip_front url.hostname)

abbrev pub is_http : Url → Bool
is_http url = text_eq url.protocol (codes "http:") || text_eq url.protocol (codes "https:")

-- The addresses of the host: itself if it is a literal, else what the resolver answers.
unfoldable pub addresses_of : Platform → ℕ → Url → Option (List ValidatedAddress)
unfolding host_of
addresses_of p now url =
    if p.is_ip (host_of url) == 0
    then p.lookup now (host_of url)
    else some (record { address = host_of url; family = p.is_ip (host_of url) } ∷ [])

-- The tests on the resolved addresses, and the address to pin.
unfoldable pub choose_address : Platform → List ValidatedAddress → Result (Option ValidatedAddress)
choose_address p [] = err (failure "URL host did not resolve")
choose_address p (a ∷ as') =
    if any (λ x. is_blocked_address p.is_ip (ValidatedAddress.address x)) (a ∷ as')
    then err (failure "URL resolves to a disallowed address")
    else ok (some a)

unfoldable pub assert_fetchable_url : Platform → ℕ → Text → Bool → Result (Option ValidatedAddress)
unfolding choose_address addresses_of
assert_fetchable_url p now target allow_private = elim (p.parse_url target) [
  | none ↦ err (failure "Invalid URL")
  | some url ↦
      if is_http url
      then (if allow_private then ok none else elim (addresses_of p now url) [
        | none ↦ err (failure "lookup failed")
        | some addresses ↦ choose_address p addresses
      ])
      else err (failure "Only http(s) URLs may be audited")
]
