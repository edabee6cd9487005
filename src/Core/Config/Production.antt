-- ===== src/Core/Config/Production.antt =====
-- core/config/env.validation.ts: no valid production environment turns the guard of fetches off.
use ai_search_api.Base.{
  ◌≡◌, refl, sym, ap, ◌∙◌, inr, Bool, true, false, Option, none, some, List, [], ◌∷◌, arith,
  if◌then◌else◌,
}
use ai_search_api.Base.Text.{Text, text_eq}
use ai_search_api.Core.Config.{
  Zod, Issue, Env, production, parse_fields, is_refused, refusal, refined, settled, validate_env,
  allow_private,
}

settled-fine :
    (refused : Bool) (e env : Env)
    → settled (record { result = some e; issues = if refused then refusal ∷ [] else [] }) ≡ inr env
    → (refused ≡ false) × (e ≡ env)
settled-fine true e env h = cc
settled-fine false e env h = (refl, cc)

settled-accepted :
    (r : Option Env) (issues : List Issue) (env : Env)
    → settled (refined (record { result = r; issues = issues })) ≡ inr env
    → is_refused env ≡ false
settled-accepted none [] env h = cc
settled-accepted none (i ∷ is) env h = cc
settled-accepted (some e) (i ∷ is) env h = cc
settled-accepted (some e) [] env h =
    let (fine, same) = settled-fine (is_refused e) e env h in ap is_refused (sym same) ∙ fine

-- An environment that passes validation in production leaves private addresses blocked.
pub validate_env-production :
    (zod : Zod) (raw : Text → Option Text) (env : Env)
    → validate_env zod raw ≡ inr env
    → text_eq env.node_env production ≡ true
    → allow_private env ≡ false
unfolding validate_env
validate_env-production zod raw env h prod =
    let accepted =
      settled-accepted (parse_fields zod raw).result (parse_fields zod raw).issues env h in
    ground (arith, accepted, prod)
