-- ===== src/Auth/Conflict.antt =====
-- modules/auth/auth.service.ts, `register` of an email that is taken, through
-- core/common/filters/all-exceptions.filter.ts.
use ai_search_api.Base.{ℕ, String, ◌≡◌, refl, ◌⊎◌, inl, inr, Option, none, some}
use ai_search_api.Base.Result.{err}
use ai_search_api.Base.Text.{Text}
use ai_search_api.Core.Errors.{HttpRequest, catch_exception, describe}
use ai_search_api.Core.Pipeline.{Site, Route, Response, answered, refused, answer}
use ai_search_api.Auth.State.{User, State, Request, Platform}
use ai_search_api.Auth.Controller.{tokens_body}
use ai_search_api.Auth.Service.{account_exists, normalise_email, settle_register, register}
use ai_search_api.Users.{email_taken, find_by_email, create_user_with_tenant-taken}

-- The status that a client gets.
abbrev pub status_of : {A : Type 0} → Response A → Option ℕ
status_of (answered status body) = some status
status_of (refused caught) = elim caught.sent [ none ↦ none | some (status, body) ↦ some status ]

module _ (p : Platform) (req : Request) (others : State → State) (email : Text) (plain : String)
    (name : Option Text) (s : State) where
  -- The tables when the registration is refused: those that it read, or those that others left.
  abbrev pub tables_at_refusal : State
  tables_at_refusal = elim (find_by_email p (normalise_email email) s) [
    | none ↦ others s
    | some u ↦ s
  ]

  register-found :
      (u : User)
      → find_by_email p (normalise_email email) s ≡ some u
      → register p req others email plain name s ≡ (err account_exists, s)
  unfolding register
  register-found u h = rw (register, h) refl

  register-beaten :
      (u : User)
      → find_by_email p (normalise_email email) s ≡ none
      → find_by_email p (normalise_email email) (others s) ≡ some u
      → register p req others email plain name s ≡ (err email_taken, others s)
  unfolding register settle_register
  register-beaten u free taken =
      rw
        (
          register,
          free,
          create_user_with_tenant-taken p req (normalise_email email) name (others s) u taken,
        )
        refl

  -- A registration of an email that is taken, at the lookup or, where another registration won the
  -- race, at the transaction: the client gets the status 409, and the registration writes nothing.
  pub register-conflict :
      (u : User) (site : Site) (route : Route) (request : HttpRequest) (now : ℕ)
      → (find_by_email p (normalise_email email) s ≡ some u)
        ⊎ ((find_by_email p (normalise_email email) s ≡ none)
            × (find_by_email p (normalise_email email) (others s) ≡ some u))
      → (status_of (
            answer site route request now
              (tokens_body (register p req others email plain name s).0))
          ≡ some 409)
        × ((register p req others email plain name s).1 ≡ tables_at_refusal)
  unfolding catch_exception describe
  register-conflict u site route request now (inl h) =
      rw (register-found u h, tables_at_refusal, h) (refl, refl)
  register-conflict u site route request now (inr (free, taken)) =
      rw (register-beaten u free taken, tables_at_refusal, free) (refl, refl)
