-- ===== src/Core/Jobs/Lifecycle.antt =====
-- core/jobs/jobs.service.ts as it starts, registers and stops; core/health/jobs.health.ts and
-- prisma.health.ts; and the bootstrap of the jobs in core/jobs/refresh-token-cleanup.job.ts and
-- modules/geo/geo-audit.worker.ts. Which call of pg-boss throws is a parameter.
use ai_search_api.Base.{ℕ, Bool, true, false, Option, none, some, List, [], ◌∷◌, if◌then◌else◌}
use ai_search_api.Base.Result.{Thrown, Result, ok, err}
use ai_search_api.Base.Text.{Text, codes}

pub data BossCall : Type 0 where
  start stop : BossCall
  create_queue : Text → BossCall
  work : Text → ℕ → BossCall
  schedule : Text → Text → BossCall

-- `started`, and the calls of pg-boss that succeeded, the latest first.
pub record Service : Type 0 where
  pub started : Bool
  pub calls : List BossCall

abbrev pub new_service : Service
new_service = record { started = false; calls = [] }

-- A step after which an error ends the rest.
abbrev pub then_do :
    Result (Unit {0}) × Service
    → (Service → Result (Unit {0}) × Service)
    → Result (Unit {0}) × Service
then_do (err e, s) next = (err e, s)
then_do (ok _, s) next = next s

abbrev pub is_healthy : Service → Bool
is_healthy s = s.started

-- `indicator.up()`, and `indicator.down()` with its message.
pub data Indicator : Type 0 where
  up : Text → Indicator
  down : Text → Option Text → Indicator

abbrev pub jobs_check : Text → Service → Indicator
jobs_check key s = if is_healthy s then up key else down key none

-- What `SELECT 1` throws: nothing, an Error with a message, or another value.
pub data Ping : Type 0 where
  answered unknown : Ping
  failed : Text → Ping

abbrev pub ping_check : Text → Ping → Indicator
ping_check key answered = up key
ping_check key (failed message) = down key (some message)
ping_check key unknown = down key (some (codes "unknown error"))

-- The indicators of GET /health/ready.
abbrev pub ready : Ping → Service → List Indicator
ready ping s = ping_check (codes "database") ping ∷ jobs_check (codes "jobs") s ∷ []

module _ (throws : BossCall → Option Thrown) where
  abbrev pub call : BossCall → Service → Result (Unit {0}) × Service
  call c s = elim (throws c) [
    | none ↦ (ok tt, record s { calls = c ∷ s.calls })
    | some e ↦ (err e, s)
  ]

  abbrev pub mark_started : Service → Result (Unit {0}) × Service
  mark_started s = (ok tt, record s { started = true })

  unfoldable pub on_module_init : Service → Result (Unit {0}) × Service
  on_module_init s = then_do (call start s) mark_started

  unfoldable pub on_module_destroy : Service → Result (Unit {0}) × Service
  on_module_destroy s = call stop (record s { started = false })

  unfoldable pub register_worker : Text → Service → Result (Unit {0}) × Service
  register_worker queue s = then_do (call (create_queue queue) s) (call (work queue 1))

  unfoldable pub register_schedule : Text → Text → Service → Result (Unit {0}) × Service
  register_schedule queue cron = call (schedule queue cron)

  -- A worker, then its schedule.
  abbrev pub register_recurring : Text → Text → Service → Result (Unit {0}) × Service
  register_recurring queue cron s = then_do (register_worker queue s) (register_schedule queue cron)

  -- RefreshTokenCleanupJob
  unfoldable pub bootstrap_cleanup : Service → Result (Unit {0}) × Service
  unfolding register_worker register_schedule
  bootstrap_cleanup = register_recurring (codes "refresh-tokens.purge") (codes "0 3 * * *")

  -- GeoAuditWorker
  unfoldable pub bootstrap_audits : Service → Result (Unit {0}) × Service
  unfolding register_worker register_schedule
  bootstrap_audits s = then_do (register_worker (codes "geo.audit") s) (λ s.
      then_do (register_recurring (codes "geo.audit.reap") (codes "*/5 * * * *") s)
        (register_recurring (codes "geo.audit.purge") (codes "0 4 * * *")))
