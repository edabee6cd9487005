-- ===== src/Core/Tests/Boot.antt =====
-- The theorem on the start of a process at a concrete environment.
use ai_search_api.Base.{ℕ, ◌≡◌, refl, none, some, [], if◌then◌else◌}
use ai_search_api.Base.Text.{codes, text_eq}
use ai_search_api.Base.Result.{ok}
use ai_search_api.Core.Config.Sample.{small_env}
use ai_search_api.Core.Bootstrap.{Numbers, bootstrap}

-- A `Number` that knows the numeral 1.
abbrev small_numbers : Numbers
small_numbers = record { Number = ℕ; parse = λ t. if text_eq t (codes "1") then some 1 else none }

boots : (bootstrap small_numbers small_env []).0 ≡ ok tt
unfolding bootstrap
boots = refl
