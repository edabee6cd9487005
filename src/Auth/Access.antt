-- ===== src/Auth/Access.antt =====
-- modules/auth/jwt.strategy.ts, jwt-auth.guard.ts and current-user.decorator.ts: who is behind a
-- request, and the way of a request through a guarded route.
use ai_search_api.Base.{ℕ, String, ◌≡◌, refl, true, Option, none, some}
use ai_search_api.Base.Result.{Thrown, http, failure, Result, ok, err}
use ai_search_api.Base.Text.{Text}
use ai_search_api.Core.Errors.{HttpRequest}
use ai_search_api.Core.Interceptors.{
  Body, ends, AsyncStorage, enter_tenant, get_tenant_id, bind_tenant, is_truthy,
}
use ai_search_api.Core.Pipeline.{Site, Route, Response, answer, respond}
use ai_search_api.Auth.State.{JwtPayload}

pub record AuthenticatedUser : Type 0 where
  pub user_id : String
  pub tenant_id : String
  pub email : Text

-- `validate` of JwtStrategy
abbrev pub validate : JwtPayload → AuthenticatedUser
validate payload = record {
  user_id = payload.sub;
  tenant_id = payload.tenant_id;
  email = payload.email;
}

abbrev pub unauthorized : Thrown
unauthorized = http 401 "Unauthorized"

-- passport-jwt is a parameter: the claims of the bearer token in an `Authorization` header, where
-- it is there, signed with the secret under HS256, and not expired.
unfoldable pub authenticate :
    (Option Text → Option JwtPayload) → Option Text → Result AuthenticatedUser
authenticate verify_bearer authorization = elim (verify_bearer authorization) [
  | none ↦ err unauthorized
  | some payload ↦ ok (validate payload)
]

-- What the tenant client throws without a tenant.
abbrev pub no_tenant : Thrown
no_tenant = failure "Tenant context is required"

abbrev pub in_tenant :
    {A S : Type 0} → Option String → (String → S → Result A × S) → S → Result A × S
in_tenant none service s = (err no_tenant, s)
in_tenant (some tenant) service s = service tenant s

-- What the routes share: the pipeline, passport, and the storage of the tenant context.
pub record Server : Type 1 where
  pub site : Site
  pub verify_bearer : Option Text → Option JwtPayload
  pub storage : AsyncStorage

-- A request as it comes in: its `Authorization` header, the time of its response and how long its
-- handler takes.
pub record Arrival (server : Server) : Type 0 where
  pub request : HttpRequest
  pub authorization : Option Text
  pub now : ℕ
  pub took : ℕ
  pub execution : server.storage.Execution

-- A route behind JwtAuthGuard. The handler is given the user and the tenant of its context.
unfoldable pub serve :
    {A S : Type 0}
    → (server : Server) → Arrival server
    → Route
    → (AuthenticatedUser → Option String → S → Result (Body A) × S)
    → S
    → Response A × S
unfolding authenticate respond bind_tenant get_tenant_id
serve server arrival route handler s =
    elim (authenticate server.verify_bearer arrival.authorization) [
      | err e ↦ (answer server.site route arrival.request arrival.now (err e), s)
      | ok user ↦
          let tenant : Option String =
            get_tenant_id server.storage
              (bind_tenant server.storage (some user.tenant_id) arrival.execution) in
          let (r, s') = handler user tenant s in
          (respond server.site route arrival.request arrival.now (ends arrival.took r), s')
    ]

-- The handler runs for the user who is signed in, in the context of that user's tenant.
pub serve-signed_in :
    {A S : Type 0} (server : Server) (arrival : Arrival server) (route : Route)
    (handler : AuthenticatedUser → Option String → S → Result (Body A) × S) (s : S)
    (user : AuthenticatedUser)
    → authenticate server.verify_bearer arrival.authorization ≡ ok user
    → is_truthy user.tenant_id ≡ true
    → serve server arrival route handler s ≡ (
      respond server.site route arrival.request arrival.now
          (ends arrival.took (handler user (some user.tenant_id) s).0),
      (handler user (some user.tenant_id) s).1,
    )
unfolding serve bind_tenant
serve-signed_in server arrival route handler s user signed_in bound =
    rw (serve, signed_in, bind_tenant, bound, enter_tenant, get_tenant_id, server.storage.get-enter)
      refl
