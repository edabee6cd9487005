-- ===== src/Core/Tests/Startup.antt =====
-- The theorem on the start of the jobs where no call of pg-boss throws.
use ai_search_api.Base.{◌≡◌, refl, none, length}
use ai_search_api.Core.Jobs.Lifecycle.{
  on_module_init, register_worker, register_schedule, bootstrap_cleanup, bootstrap_audits,
}
use ai_search_api.Core.Jobs.Startup.{start_up}

-- One start, five queues with their workers and three schedules.
started_calls : length (start_up (λ c. none)).1.calls ≡ 12
unfolding on_module_init register_worker register_schedule bootstrap_cleanup bootstrap_audits
started_calls = refl
