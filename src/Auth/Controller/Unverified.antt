-- ===== src/Auth/Controller/Unverified.antt =====
-- modules/auth: what a Google account whose address is not verified can do.
use ai_search_api.Base.{
  ◌≡◌, refl, sym, ap, ◌∙◌, inl, inr, Bool, false, ◌||◌, Option, none, some, [], ◌∷◌, Option-cases,
}
use ai_search_api.Base.Result.{err}
use ai_search_api.Base.Text.{Text}
use ai_search_api.Auth.State.{State, Request, Platform}
use ai_search_api.Auth.Google.{
  ProfileEmail, GoogleProfile, is_true, first_email, not_verified, accept_email, validate_google,
}
use ai_search_api.Auth.Controller.{
  Urls, failed_redirect, shown, google_callback, sign_in_with_google,
}

-- Google vouches for the first address of the profile.
abbrev pub is_vouched : GoogleProfile → Option ProfileEmail → Bool
is_vouched profile none = false
is_vouched profile (some email) = is_true email.verified || is_true profile.email_verified

accept_email-unverified :
    (profile : GoogleProfile) (value : Text) (verified : Option Bool)
    → accept_email profile (record { value = value; verified = verified }) false ≡ err not_verified
accept_email-unverified profile [] verified = refl
accept_email-unverified profile (c ∷ s) verified = refl

validate_google-unverified :
    (profile : GoogleProfile)
    → is_vouched profile (first_email profile.emails) ≡ false
    → validate_google profile ≡ err not_verified
unfolding validate_google
validate_google-unverified profile h = elim (Option-cases (first_email profile.emails)) [
  | inl e ↦ rw (validate_google, e) refl
  | inr (email, e) ↦
      let unvouched : (is_true email.verified || is_true profile.email_verified) ≡ false =
        ap (is_vouched profile) (sym e) ∙ h in
      rw (validate_google, e, unvouched)
        (accept_email-unverified profile email.value email.verified)
]

-- A Google profile without an address, or whose first address is not verified, signs nobody in: the
-- browser is sent back with the error, and no account, login method, token or log entry changes.
pub sign_in_with_google-unverified :
    (p : Platform) (req : Request) (urls : Urls) (target : Option Text) (profile : GoogleProfile)
    (s : State)
    → is_vouched profile (first_email profile.emails) ≡ false
    → sign_in_with_google p req urls target profile s ≡ (failed_redirect (shown target), s)
unfolding sign_in_with_google google_callback
sign_in_with_google-unverified p req urls target profile s h =
    rw (validate_google-unverified profile h) refl
