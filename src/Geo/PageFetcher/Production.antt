-- ===== src/Geo/PageFetcher/Production.antt =====
-- modules/geo/page-fetcher.ts as a production process builds it: from the environment that
-- core/config/env.validation.ts has validated.
use ai_search_api.Base.{◌≡◌, inr, true, Option}
use ai_search_api.Base.Text.{Text, text_eq}
use ai_search_api.Core.Config.{Zod, Env, production, validate_env, allow_private}
use ai_search_api.Core.Config.Production.{validate_env-production}
use ai_search_api.Geo.PageFetcher.{Web, Trace, fetch}
use ai_search_api.Geo.PageFetcher.Requests.{AllPinned, fetch-AllPinned}

-- In a process whose environment passed validation with NODE_ENV=production, every request that a
-- fetch sends goes to an address that the guard approved for its URL at that time, whatever the
-- pages, redirects and resolver answers are.
pub validate_env-fetch-AllPinned :
    (zod : Zod) (raw : Text → Option Text) (env : Env)
    → validate_env zod raw ≡ inr env
    → text_eq env.node_env production ≡ true
    → (web : Web) (url : Text) (t : Trace) → AllPinned web t
    → AllPinned web (fetch web (allow_private env) url t).1
validate_env-fetch-AllPinned zod raw env valid in_production web url t h =
    rw (validate_env-production zod raw env valid in_production) (fetch-AllPinned web url t h)
