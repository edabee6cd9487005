-- ===== src/Geo/PageFetcher/Requests.antt =====
-- What every request that the fetcher of modules/geo/page-fetcher.ts sends has been through, and
-- how many there are.
use ai_search_api.Base.{
  ℕ, zero, suc, ◌+◌, ◌≤◌, ◌≡◌, ◌⊎◌, inl, inr, Bool, true, false, Option, some, List, ◌∷◌, ◌++◌,
  arith, Option-cases, length, All,
}
use ai_search_api.Base.Result.{ok, Result-cases}
use ai_search_api.Base.Text.{Text, codes}
use ai_search_api.Geo.UrlGuard.{ValidatedAddress, assert_fetchable_url}
use ai_search_api.Geo.UrlGuard.Safety.{IsGuarded, assert_fetchable_url-IsGuarded}
use ai_search_api.Geo.PageFetcher.{
  Web, Sent, Trace, FetchResult, Hop, follow, answer, hop, proceed, get_from, get, fetch_side,
  fetch,
}

module _ (web : Web) where
  -- The request went to an address that the guard approved for this URL at that very time.
  abbrev pub IsPinned : Sent → Type 0
  IsPinned s = (a : ValidatedAddress) × (s.pin ≡ some a) × IsGuarded web.platform s.time s.url a

  abbrev pub AllPinned : Trace → Type 0
  AllPinned t = All IsPinned t.sent

  abbrev sent_after : Trace → Text → Option ValidatedAddress → List Sent
  sent_after t current pin = record { time = t.now; url = current; pin = pin } ∷ t.sent

  hop-sent :
      (guarded : Bool) (current : Text) (html : Bool) (t : Trace)
      → ((hop web guarded current html t).1.sent ≡ t.sent)
        ⊎ ((pin : Option ValidatedAddress) × (assert_fetchable_url web.platform t.now current
                guarded
              ≡ ok pin)
            × ((hop web guarded current html t).1.sent ≡ sent_after t current pin))
  unfolding hop
  hop-sent guarded current html t =
      elim (Result-cases (assert_fetchable_url web.platform t.now current guarded)) [
        | inr (e, he) ↦ inl (ground arith)
        | inl (pin, he) ↦ elim (Option-cases (web.request t.now current pin)) [
          | inl hr ↦ inr (pin, he, ground arith)
          | inr (res, hr) ↦ inr (pin, he, ground arith)
        ]
      ]

  hop-AllPinned :
      (current : Text) (html : Bool) (t : Trace)
      → AllPinned t
      → AllPinned (hop web false current html t).1
  hop-AllPinned current html t h = elim (hop-sent false current html t) [
    | inl same ↦ rw same h
    | inr (pin, passed, more) ↦
        rw more (assert_fetchable_url-IsGuarded web.platform t.now current pin passed, h)
  ]

  module _ {P Q : Trace → Type 0} where
    proceed_lem :
        (again : Text → Trace → Option FetchResult × Trace)
        → ((t : Trace) → P t → Q t)
        → ((next : Text) (t : Trace) → P t → Q (again next t).1)
        → (h : Hop) (t : Trace) → P t
        → Q (proceed again h t).1
    proceed_lem again stop more (answer r) t p = stop t p
    proceed_lem again stop more (follow next) t p = more next t p

  get_from-AllPinned :
      (rounds : ℕ) (current : Text) (html : Bool) (t : Trace)
      → AllPinned t
      → AllPinned (get_from web rounds false current html t).1
  unfolding get_from
  get_from-AllPinned zero current html t h = h
  get_from-AllPinned (suc rounds) current html t h =
      proceed_lem {P = AllPinned} {Q = AllPinned} _ (λ u p. p)
        (λ next u p. get_from-AllPinned rounds next html u p) (hop web false current html t).0
        (hop web false current html t).1 (hop-AllPinned current html t h)

  hop-length :
      (guarded : Bool) (current : Text) (html : Bool) (t : Trace)
      → length (hop web guarded current html t).1.sent ≤ length t.sent + 1
  hop-length guarded current html t = elim (hop-sent guarded current html t) [
    | inl same ↦ rw same (omega arith)
    | inr (pin, passed, more) ↦ rw more (omega arith)
  ]

  get_from-length :
      (rounds : ℕ) (guarded : Bool) (current : Text) (html : Bool) (t : Trace)
      → length (get_from web rounds guarded current html t).1.sent ≤ length t.sent + rounds
  unfolding get_from
  get_from-length zero guarded current html t = omega arith
  get_from-length (suc rounds) guarded current html t =
      proceed_lem {P = λ u. length u.sent ≤ length t.sent + 1}
        {Q = λ u. length u.sent ≤ length t.sent + suc rounds} _ (λ u p. omega arith)
        (λ next u p. omega (arith, get_from-length rounds guarded next html u))
        (hop web guarded current html t).0 (hop web guarded current html t).1
        (hop-length guarded current html t)

  pub fetch-AllPinned : (url : Text) (t : Trace) → AllPinned t → AllPinned (fetch web false url t).1
  unfolding fetch fetch_side get
  fetch-AllPinned url t h = elim (Option-cases (get web false url true t).0) [
    | inl e ↦ rw (e, fetch) (get_from-AllPinned 4 url true t h)
    | inr (page, e) ↦ elim (Option-cases (web.platform.parse_url page.final_url)) [
      | inl e' ↦ rw (e, e', fetch) (get_from-AllPinned 4 url true t h)
      | inr (final, e') ↦
          rw (e, e', fetch)
            (get_from-AllPinned 4 _ false _
              (get_from-AllPinned 4 _ false _ (get_from-AllPinned 4 url true t h)))
    ]
  ]

  -- A whole `fetch` sends at most twelve requests, with the guard on or off.
  pub fetch_bound :
      (guarded : Bool) (url : Text) (t : Trace)
      → length (fetch web guarded url t).1.sent ≤ length t.sent + 12
  unfolding fetch fetch_side get
  fetch_bound guarded url t = elim (Option-cases (get web guarded url true t).0) [
    | inl e ↦ rw (e, fetch) (omega (arith, first_get))
    | inr (page, e) ↦ elim (Option-cases (web.platform.parse_url page.final_url)) [
      | inl e' ↦ rw (e, e', fetch) (omega (arith, first_get))
      | inr (final, e') ↦
          rw (e, e', fetch)
            (omega (
              arith,
              get_from-length 4 guarded (final.origin ++ codes "/llms.txt") false,
              get_from-length 4 guarded (final.origin ++ codes "/robots.txt") false,
              first_get,
            ))
    ]
  ]
    where
      first_get : length (get web guarded url true t).1.sent ≤ length t.sent + 4
      first_get = get_from-length 4 guarded url true t
