-- ===== src/Auth/Module/Lifetime.antt =====
-- modules/auth: how long the access token of a login is taken.
use ai_search_api.Base.{
  ℕ, ◌+◌, ◌/◌, String, ◌≡◌, refl, Bool, true, false, ◌||◌, Option, none, some, ltb, if◌then◌else◌,
  any,
}
use ai_search_api.Base.Result.{ok, err}
use ai_search_api.Base.Text.{Text, text_eq, text_eq_refl, codes}
use ai_search_api.Base.Prisma.{Client}
use ai_search_api.Core.Config.{Env}
use ai_search_api.Auth.State.{User, State, AuthTokens, JwtPayload, Request, Crypto, Platform}
use ai_search_api.Auth.Access.{authenticate, unauthorized}
use ai_search_api.Auth.Registration.{claims_of}
use ai_search_api.Auth.Accepted.{bearer, signed_in_as, Accepted, login-Accepted}
use ai_search_api.Auth.Service.{normalise_email, login}
use ai_search_api.Auth.Module.{
  JwtOptions, jwt_options, JwtStrategyOptions, jwt_strategy, Jwt, platform_of,
}
use ai_search_api.Users.{find_by_email}

-- The seconds of a time in milliseconds.
abbrev pub seconds : ℕ → ℕ
seconds ms = ms / 1000

module _ (jwt : Jwt) (options : JwtOptions) (issued : ℕ) (payload : JwtPayload) where
  -- What is documented of a token: under its secret and HS256 it is taken until `expires_in`
  -- seconds after the second in which it was issued, and after that only where expiry is ignored.
  abbrev pub IsTakenInTime : Type 0
  IsTakenInTime =
      (strategy : JwtStrategyOptions) (now : ℕ)
      → text_eq strategy.secret_or_key options.secret ≡ true
      → any (text_eq (codes "HS256")) strategy.algorithms ≡ true
      → jwt.verify strategy now (some (bearer (jwt.sign options issued payload))) ≡ (
          if strategy.ignore_expiration || ltb (seconds now) (seconds issued + options.expires_in)
          then some payload
          else none)

authenticate-if :
    (verify : Option Text → Option JwtPayload) (header : Option Text) (b : Bool) (u : User)
    → verify header ≡ (if b then some (claims_of u) else none)
    → authenticate verify header ≡ (if b then ok (signed_in_as u) else err unauthorized)
unfolding authenticate
authenticate-if verify header true u h = rw (authenticate, h) refl
authenticate-if verify header false u h = rw (authenticate, h) refl

module _ (db : Client) (crypto : Crypto) (jwt : Jwt) (env : Env) (req : Request) (email : Text)
    (plain : String) (s : State) where
  abbrev pub platform : Platform
  platform = platform_of db crypto jwt env req.now

  -- Where the JWT library keeps to its documentation for the account with that email: a login hands
  -- out tokens only for an account with that email that is neither deleted nor locked, whose
  -- password argon2 confirmed and whose tenant is not deleted; and from then on the guard of the
  -- routes takes the access token, as that account in its tenant, for just as many seconds as
  -- `expiresIn` tells the client, and refuses it after that.
  pub login-lifetime :
      (tokens : AuthTokens)
      → ((u : User)
          → find_by_email platform (normalise_email email) s ≡ some u
          → IsTakenInTime jwt (jwt_options env) req.now (claims_of u))
      → (login platform req email plain s).0 ≡ ok tokens
      → (a : Accepted platform req email plain s tokens) × ((later : ℕ)
          → authenticate (jwt.verify (jwt_strategy env) later) (some (bearer tokens.access_token))
            ≡ (if ltb (seconds later) (seconds req.now + tokens.expires_in)
                then ok (signed_in_as a.user)
                else err unauthorized))
  login-lifetime tokens in_time h =
      let a = login-Accepted platform req email plain s tokens h in
      (
        a,
        λ later.
            authenticate-if (jwt.verify (jwt_strategy env) later)
              (some (bearer tokens.access_token))
              (ltb (seconds later) (seconds req.now + tokens.expires_in)) a.user
              (rw (a.token, a.expires)
                (in_time a.user a.found (jwt_strategy env) later
                  (text_eq_refl env.jwt_access_secret) refl)),
      )
