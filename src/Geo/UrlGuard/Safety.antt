-- ===== src/Geo/UrlGuard/Safety.antt =====
-- What a target that `assertFetchableUrl` of modules/geo/url-guard.ts lets through has.
use ai_search_api.Base.{
  ℕ, ◌≡◌, refl, ap, ◌∙◌, inl, inr, true, false, Option, some, List, [], ◌∷◌, arith, Bool-cases,
  Option-cases, any, All,
}
use ai_search_api.Base.Result.{ok}
use ai_search_api.Base.Text.{Text}
use ai_search_api.Geo.Address.{is_blocked_address}
use ai_search_api.Geo.UrlGuard.{
  Url, ValidatedAddress, Platform, is_http, addresses_of, choose_address, assert_fetchable_url,
}

module _ (p : Platform) where
  abbrev pub IsUnblocked : ValidatedAddress → Type 0
  IsUnblocked a = is_blocked_address p.is_ip a.address ≡ false

  none_blocked :
      (as' : List ValidatedAddress)
      → any (λ x. is_blocked_address p.is_ip (ValidatedAddress.address x)) as' ≡ false
      → All IsUnblocked as'
  none_blocked [] h = tt
  none_blocked (a ∷ as') h = (ground arith, none_blocked as' (ground arith))

  -- The target is an http(s) URL whose host resolved to `addresses` at that time; the
  -- guard blocks none of them, and the pinned one is the first.
  pub record IsGuarded (now : ℕ) (target : Text) (pin : ValidatedAddress) : Type 0 where
    pub url : Url
    pub parsed : p.parse_url target ≡ some url
    pub http : is_http url ≡ true
    pub others : List ValidatedAddress
    pub resolved : addresses_of p now url ≡ some (pin ∷ others)
    pub unblocked : All IsUnblocked (pin ∷ others)

  choose-IsUnblocked :
      (as' : List ValidatedAddress) (pin : Option ValidatedAddress)
      → choose_address p as' ≡ ok pin
      → (first : ValidatedAddress) × (others : List ValidatedAddress) × (pin ≡ some first)
        × (as' ≡ first ∷ others)
        × All IsUnblocked as'
  unfolding choose_address
  choose-IsUnblocked [] pin h = cc
  choose-IsUnblocked (a ∷ as') pin h =
      (a, as', ground arith, refl, none_blocked (a ∷ as') (ground arith))

  pinned-IsGuarded :
      (now : ℕ) (target : Text) (pin : Option ValidatedAddress) (url : Url)
      → p.parse_url target ≡ some url
      → is_http url ≡ true
      → assert_fetchable_url p now target false ≡ ok pin
      → (a : ValidatedAddress) × (pin ≡ some a) × IsGuarded now target a
  unfolding assert_fetchable_url
  pinned-IsGuarded now target pin url parsed http h = elim (Option-cases (addresses_of p now url)) [
    | inl e ↦ ground arith
    | inr (as', e) ↦
        let (a, others, pinned, same, unblocked) = choose-IsUnblocked as' pin (ground arith) in
        (
          a,
          pinned,
          record {
            url = url;
            parsed = parsed;
            http = http;
            others = others;
            resolved = e ∙ ap some same;
            unblocked = rw same at unblocked;
          },
        )
  ]

  -- With the guard on, a target is let through only with an address to pin, and then the target is
  -- an http(s) URL, `isBlockedAddress` holds of no address its host resolved to, and the pin is the
  -- first of them. (Which addresses that function blocks, and that some special-purpose ones pass,
  -- are other theorems: Geo/Address/Ranges.)
  pub assert_fetchable_url-IsGuarded :
      (now : ℕ) (target : Text) (pin : Option ValidatedAddress)
      → assert_fetchable_url p now target false ≡ ok pin
      → (a : ValidatedAddress) × (pin ≡ some a) × IsGuarded now target a
  unfolding assert_fetchable_url
  assert_fetchable_url-IsGuarded now target pin h = elim (Option-cases (p.parse_url target)) [
    | inl e ↦ ground arith
    | inr (url, e) ↦ elim (Bool-cases (is_http url)) [
      | inl http ↦ pinned-IsGuarded now target pin url e http h
      | inr other ↦ ground arith
    ]
  ]
