-- ===== src/Geo/PageFetcher.antt =====
-- modules/geo/page-fetcher.ts. The web is a parameter: undici's `fetch`, URL resolution and UTF-8
-- decoding. Each hop takes one step of time, so that the resolver may change its answer between
-- hops. The trace records every request that is sent and the address it is pinned to.
pub mod Body
pub mod Requests
pub mod Production
use ai_search_api.Base.{
  ℕ, zero, suc, ◌+◌, ◌*◌, ◌/◌, Bool, true, false, not, ◌&&◌, Option, none, some, List, [], ◌∷◌,
  ◌++◌, ltb, leb, if◌then◌else◌, length,
}
use ai_search_api.Base.Result.{Result, ok, err, failure}
use ai_search_api.Base.Text.{Text, codes, includes}
use ai_search_api.Geo.UrlGuard.{Url, ValidatedAddress, Platform, assert_fetchable_url}

-- The reads of a body: a chunk, the end, or a failure (an abort at the timeout is one).
pub data Stream : Type 0 where
  done broken : Stream
  chunk : List ℕ → Stream → Stream

pub record Response : Type 0 where
  pub status : ℕ
  pub location : Option Text
  pub content_type : Option Text
  pub content_length : Option Text
  pub body : Option Stream

-- `request now url pin` is what the server at the pinned address answers; `none` where it throws.
-- `join location current` is `new URL(location, current).toString()`, and `exceeds text n` is
-- `Number(text) > n`.
pub record Web : Type 0 where
  pub platform : Platform
  pub join : Text → Text → Option Text
  pub request : ℕ → Text → Option ValidatedAddress → Option Response
  pub decode : List ℕ → Text
  pub exceeds : Text → ℕ → Bool

pub record Sent : Type 0 where
  pub time : ℕ
  pub url : Text
  pub pin : Option ValidatedAddress

pub record Trace : Type 0 where
  pub now : ℕ
  pub sent : List Sent

pub record FetchResult : Type 0 where
  pub final_url : Text
  pub body : Text

pub record FetchedPage : Type 0 where
  pub url : Text
  pub html : Text
  pub robots_txt : Option Text
  pub llms_txt : Option Text

abbrev pub max_bytes : ℕ
max_bytes = 2 * 1024 * 1024

-- The loop of `readCapped`. A read that fails throws, which `get` turns into null as well.
unfoldable pub read_chunks : ℕ → Stream → Option (List ℕ)
read_chunks total done = some []
read_chunks total broken = none
read_chunks total (chunk value rest) =
    let later = read_chunks (total + length value) rest in
    if ltb max_bytes (total + length value)
    then none
    else elim later [ none ↦ none | some bytes ↦ some (value ++ bytes) ]

-- `Number(header) > MAX_BYTES`, where the number of null is 0.
unfoldable pub declares_more : (Text → ℕ → Bool) → Option Text → Bool
declares_more exceeds none = false
declares_more exceeds (some header) = exceeds header max_bytes

unfoldable pub read_capped : (Text → ℕ → Bool) → Response → Option (List ℕ)
unfolding declares_more
read_capped exceeds res =
    if declares_more exceeds res.content_length
    then none
    else elim res.body [ none ↦ none | some stream ↦ read_chunks 0 stream ]

abbrev pub is_redirect : Response → Bool
is_redirect res = leb 300 res.status && ltb res.status 400

-- `res.ok`
abbrev pub is_ok : Response → Bool
is_ok res = leb 200 res.status && ltb res.status 300

unfoldable pub is_html : Response → Bool
is_html res = elim res.content_type [ none ↦ false | some t ↦ includes t (codes "text/html") ]

-- What a hop does with a response: follow, or answer.
pub data Hop : Type 0 where
  follow : Text → Hop
  answer : Option FetchResult → Hop

-- Return with the answer, or go round again.
abbrev pub proceed :
    (Text → Trace → Option FetchResult × Trace) → Hop → Trace → Option FetchResult × Trace
proceed again (answer r) t = (r, t)
proceed again (follow next) t = again next t

module _ (web : Web) where
  unfoldable pub redirect : Text → Option Text → Hop
  redirect current none = answer none
  redirect current (some []) = answer none
  redirect current (some (c ∷ s)) = elim (web.join (c ∷ s) current) [
    | none ↦ answer none
    | some next ↦ follow next
  ]

  unfoldable pub settle : Text → Bool → Response → Hop
  settle current require_html res =
      if is_redirect res
      then redirect current res.location
      else if not (is_ok res)
      then answer none
      else if require_html && not (is_html res)
      then answer none
      else elim (read_capped web.exceeds res) [
        | none ↦ answer none
        | some bytes ↦ answer (some (record { final_url = current; body = web.decode bytes }))
      ]

  -- One round of the loop of `get`: the guard, then one request pinned to the approved address.
  unfoldable pub hop : Bool → Text → Bool → Trace → Hop × Trace
  unfolding settle redirect
  hop allow_private current require_html t =
      elim (assert_fetchable_url web.platform t.now current allow_private) [
        | err e ↦ (answer none, record t { now = t.now + 1 })
        | ok pin ↦
            let t' : Trace = record {
              now = t.now + 1;
              sent = record { time = t.now; url = current; pin = pin } ∷ t.sent;
            } in
            elim (web.request t.now current pin) [
              | none ↦ (answer none, t')
              | some res ↦ (settle current require_html res, t')
            ]
      ]

  -- The loop, with the rounds that are left.
  pub get_from : ℕ → Bool → Text → Bool → Trace → Option FetchResult × Trace
  get_from zero allow_private current require_html t = (none, t)
  get_from (suc rounds) allow_private current require_html t =
      let (h, t') = hop allow_private current require_html t in
      proceed (λ next u. get_from rounds allow_private next require_html u) h t'

  -- MAX_REDIRECTS is 3, and the loop runs for hop 0 to 3.
  unfoldable pub get : Bool → Text → Bool → Trace → Option FetchResult × Trace
  get = get_from 4

  -- `null` for a body that could not be fetched
  abbrev pub body_of : Option FetchResult → Option Text
  body_of none = none
  body_of (some r) = some r.body

  -- The two side files come from the origin after redirects. They are fetched at once in the
  -- source; nothing passes between the two, and here one follows the other.
  pub fetch_side : Bool → FetchResult → Url → Trace → Result FetchedPage × Trace
  fetch_side allow_private homepage final t =
      let (robots, t1) = get allow_private (final.origin ++ codes "/robots.txt") false t in
      let (llms, t2) = get allow_private (final.origin ++ codes "/llms.txt") false t1 in
      (
        ok (record {
          url = homepage.final_url;
          html = homepage.body;
          robots_txt = body_of robots;
          llms_txt = body_of llms;
        }),
        t2,
      )

  pub fetch : Bool → Text → Trace → Result FetchedPage × Trace
  unfolding fetch_side
  fetch allow_private url t =
      let (homepage, t1) = get allow_private url true t in
      elim homepage [
        | none ↦ (err (failure "Could not fetch the URL as an HTML page"), t1)
        | some page ↦ elim (web.platform.parse_url page.final_url) [
          | none ↦ (err (failure "Invalid URL"), t1)
          | some final ↦ fetch_side allow_private page final t1
        ]
      ]
