-- ===== src/Core/Bootstrap/Locked.antt =====
-- src/main.ts in production.
use ai_search_api.Base.{
  ◌≡◌, ◌≢◌, Bool, true, false, ◌&&◌, none, some, List, [], ◌∷◌, map, if◌then◌else◌, any,
}
use ai_search_api.Base.Result.{Result}
use ai_search_api.Base.Text.{Text, split, trim}
use ai_search_api.Core.Config.{Env}
use ai_search_api.Core.Bootstrap.{
  any_origin, listed, AppCall, use_logger, use_helmet, enable_shutdown_hooks, set_trust_proxy,
  use_json, use_urlencoded, enable_cors, enable_versioning, use_validation, setup_docs, listen,
}

-- What a call may be in production.
abbrev pub IsLocked : {Number : Type 0} → Env → AppCall Number → Type 0
IsLocked env use_logger = Unit
IsLocked env use_helmet = Unit
IsLocked env enable_shutdown_hooks = Unit
IsLocked env (set_trust_proxy t) = env.trust_proxy ≢ none
IsLocked env (use_json limit) = limit ≡ env.body_limit
IsLocked env (use_urlencoded limit) = limit ≡ env.body_limit
IsLocked env (enable_cors any_origin credentials) = ⊥
IsLocked env (enable_cors (listed os) credentials) =
    (o : Text) × (env.cors_origins ≡ some o) × (os ≡ map trim (split b',' o))
IsLocked env (enable_versioning v) = Unit
IsLocked env (use_validation o) = (o.whitelist ≡ true) × (o.forbid_non_whitelisted ≡ true)
IsLocked env (setup_docs path) = ⊥
IsLocked env (listen port) = port ≡ env.port

module _ {Number : Type 0} where
  abbrev pub is_listen : AppCall Number → Bool
  is_listen (listen port) = true
  is_listen _ = false

  abbrev pub is_cors : AppCall Number → Bool
  is_cors (enable_cors o c) = true
  is_cors _ = false

  abbrev pub is_validation : AppCall Number → Bool
  is_validation (use_validation o) = true
  is_validation _ = false

  abbrev pub is_helmet : AppCall Number → Bool
  is_helmet use_helmet = true
  is_helmet _ = false

  -- The calls before the process listens.
  abbrev pub before_listen : List (AppCall Number) → List (AppCall Number)
  before_listen [] = []
  before_listen (c ∷ cs) = if is_listen c then [] else c ∷ before_listen cs

  abbrev pub is_protected : List (AppCall Number) → Bool
  is_protected cs = any is_helmet cs && any is_cors cs && any is_validation cs
