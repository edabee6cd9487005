-- ===== src/Core/Bootstrap.antt =====
-- src/main.ts and core/bootstrap: what a process does to its Nest application before it listens.
-- The hooks that Nest runs inside `listen` are those of Core/Jobs and Files/Storage.
pub mod Locked
use ai_search_api.Base.{
  ℕ, ◌+◌, inl, inr, Bool, true, false, ◌&&◌, Option, none, some, List, [], ◌∷◌, ◌++◌, map,
  if◌then◌else◌,
}
use ai_search_api.Base.Result.{Thrown, failure, Result, ok, err}
use ai_search_api.Base.Text.{Text, codes, text_eq, split, trim}
use ai_search_api.Core.Config.{Zod, Env, production, validate_env}

-- `Number(raw)`, where NaN is `none`.
pub record Numbers : Type 1 where
  pub Number : Type 0
  pub parse : Text → Option Number

pub data CorsOrigin : Type 0 where
  any_origin : CorsOrigin
  listed : List Text → CorsOrigin

pub data TrustProxy (Number : Type 0) : Type 0 where
  trusted : Bool → TrustProxy Number
  hops : Number → TrustProxy Number
  addresses : Text → TrustProxy Number

pub record ValidationOptions : Type 0 where
  pub whitelist : Bool
  pub forbid_non_whitelisted : Bool
  pub transform : Bool

pub data AppCall (Number : Type 0) : Type 0 where
  use_logger use_helmet enable_shutdown_hooks : AppCall Number
  set_trust_proxy : TrustProxy Number → AppCall Number
  use_json use_urlencoded : Text → AppCall Number
  enable_cors : CorsOrigin → Bool → AppCall Number
  enable_versioning : Text → AppCall Number
  use_validation : ValidationOptions → AppCall Number
  setup_docs : Text → AppCall Number
  listen : ℕ → AppCall Number

-- A step of the setup: it adds its calls, the latest last, and may throw.
abbrev pub Setup : Type 0 → Type 0
Setup Number = List (AppCall Number) → Result (Unit {0}) × List (AppCall Number)

module _ {Number : Type 0} where
  abbrev pub continue :
      Result (Unit {0}) × List (AppCall Number)
      → Setup Number
      → Result (Unit {0}) × List (AppCall Number)
  continue (err e, cs) k = (err e, cs)
  continue (ok _, cs) k = k cs

  infixl 5 ◌>>◌
  abbrev pub ◌>>◌ : Setup Number → Setup Number → Setup Number
  ◌>>◌ m k cs = continue (m cs) k

  abbrev pub done : Setup Number
  done cs = (ok tt, cs)

  abbrev pub call : AppCall Number → Setup Number
  call c cs = (ok tt, cs ++ c ∷ [])

  abbrev pub throw : Thrown → Setup Number
  throw e cs = (err e, cs)

-- `!origins`
abbrev pub is_empty_setting : Option Text → Bool
is_empty_setting none = true
is_empty_setting (some []) = true
is_empty_setting (some (c ∷ s)) = false

abbrev pub origin_of : Option Text → CorsOrigin
origin_of none = any_origin
origin_of (some []) = any_origin
origin_of (some (c ∷ s)) = listed (map trim (split b',' (c ∷ s)))

abbrev pub is_production : Env → Bool
is_production env = text_eq env.node_env production

abbrev pub cors_missing : Thrown
cors_missing = failure "CORS_ORIGINS must be set in production"

module _ (numbers : Numbers) where
  open numbers use {Number, parse}

  unfoldable pub parse_trust_proxy : Text → TrustProxy Number
  parse_trust_proxy raw =
      if text_eq raw (codes "true")
      then trusted true
      else if text_eq raw (codes "false")
      then trusted false
      else elim (parse raw) [ none ↦ addresses raw | some n ↦ hops n ]

  abbrev pub trust_proxy : Option Text → Setup Number
  unfolding parse_trust_proxy
  trust_proxy none = done
  trust_proxy (some raw) = call (set_trust_proxy (parse_trust_proxy raw))

  unfoldable pub configure_security : Env → Setup Number
  unfolding trust_proxy
  configure_security env =
      call use_helmet
      >> trust_proxy env.trust_proxy
      >> call (use_json env.body_limit)
      >> call (use_urlencoded env.body_limit)

  unfoldable pub configure_cors : Env → Setup Number
  unfolding split trim
  configure_cors env =
      if is_empty_setting env.cors_origins && is_production env
      then throw cors_missing
      else call (enable_cors (origin_of env.cors_origins) true)

  unfoldable pub configure_validation : Setup Number
  configure_validation = call (
      use_validation (record { whitelist = true; forbid_non_whitelisted = true; transform = true }))

  unfoldable pub configure_app : Env → Setup Number
  unfolding configure_security configure_cors configure_validation
  configure_app env =
      configure_security env
      >> configure_cors env
      >> call (enable_versioning (codes "1"))
      >> configure_validation

  unfoldable pub configure_swagger : Env → Setup Number
  configure_swagger env = if is_production env then done else call (setup_docs (codes "docs"))

  unfoldable pub bootstrap : Env → Setup Number
  unfolding configure_app configure_swagger
  bootstrap env =
      call use_logger
      >> configure_app env
      >> configure_swagger env
      >> call enable_shutdown_hooks
      >> call (listen env.port)

  -- The whole process: an invalid environment ends it while the application is created.
  pub data Process : Type 0 where
    rejected : Text → Process
    ran : Result (Unit {0}) → List (AppCall Number) → Process

  abbrev pub calls_of : Process → List (AppCall Number)
  calls_of (rejected summary) = []
  calls_of (ran r cs) = cs

  abbrev pub run_of : Result (Unit {0}) × List (AppCall Number) → Process
  run_of (r, cs) = ran r cs

  unfoldable pub start_process : Zod → (Text → Option Text) → Process
  unfolding bootstrap
  start_process zod raw = elim (validate_env zod raw) [
    | inl summary ↦ rejected summary
    | inr env ↦ run_of (bootstrap env [])
  ]
