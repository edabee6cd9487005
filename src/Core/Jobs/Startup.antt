-- ===== src/Core/Jobs/Startup.antt =====
-- core/jobs: the order in which queues, workers and schedules are registered at startup.
use ai_search_api.Base.{◌≡◌, Bool, true, false, ◌&&◌, Option, List, [], ◌∷◌, ◌==◌, any}
use ai_search_api.Base.Result.{Thrown, Result, ok, err}
use ai_search_api.Base.Text.{Text, text_eq}
use ai_search_api.Core.Jobs.Lifecycle.{
  BossCall, start, stop, create_queue, work, schedule, Service, new_service, then_do,
  on_module_init, bootstrap_cleanup, bootstrap_audits,
}

abbrev is_start : BossCall → Bool
is_start start = true
is_start _ = false

abbrev creates : Text → BossCall → Bool
creates queue (create_queue other) = text_eq other queue
creates queue _ = false

-- A worker that takes one job at a time.
abbrev works : Text → BossCall → Bool
works queue (work other batch) = text_eq other queue && batch == 1
works queue _ = false

-- A call was made after those that it rests on, the latest first: a queue is created after the
-- start, gets a worker after it was created, and a schedule after it has a worker.
abbrev is_supported : BossCall → List BossCall → Bool
is_supported start earlier = true
is_supported stop earlier = true
is_supported (create_queue queue) earlier = any is_start earlier
is_supported (work queue batch) earlier = any (creates queue) earlier && batch == 1
is_supported (schedule queue cron) earlier = any (works queue) earlier

abbrev pub in_order : List BossCall → Bool
in_order [] = true
in_order (c ∷ earlier) = is_supported c earlier && in_order earlier

abbrev pub begun : List BossCall → Bool
begun = any is_start

abbrev is_ok : Result (Unit {0}) → Bool
is_ok (ok _) = true
is_ok (err e) = false

module _ (throws : BossCall → Option Thrown) where
  -- What every registration keeps.
  record Ordered (r : Result (Unit {0}) × Service) : Type 0 where
    ordered : in_order r.1.calls ≡ true
    after_start : begun r.1.calls ≡ true

  -- The start of the process: pg-boss, then the jobs, in either order.
  abbrev pub start_up : Result (Unit {0}) × Service
  start_up =
      then_do (on_module_init throws new_service)
        (λ s. then_do (bootstrap_cleanup throws s) (bootstrap_audits throws))

  abbrev pub start_up_audits_first : Result (Unit {0}) × Service
  start_up_audits_first =
      then_do (on_module_init throws new_service)
        (λ s. then_do (bootstrap_audits throws s) (bootstrap_cleanup throws))

  abbrev running : Service
  running = record { started = true; calls = start ∷ [] }
