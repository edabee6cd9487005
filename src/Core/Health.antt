-- ===== src/Core/Health.antt =====
-- core/health/health.controller.ts. Terminus (third party) is a parameter: a check is healthy, and
-- answered by 200, where every indicator is up, and else answered by 503.
use ai_search_api.Base.{
  ◌≡◌, refl, ◌∙◌, inl, inr, Bool, true, false, ◌&&◌, Option, List, [], arith, if◌then◌else◌,
  Bool-cases, all,
}
use ai_search_api.Base.Result.{Thrown, ok}
use ai_search_api.Core.Jobs.Lifecycle.{
  BossCall, Service, Indicator, up, down, Ping, answered, unknown, failed, ready, on_module_init,
  on_module_destroy,
}

pub data Probe : Type 0 where
  healthy unavailable : Probe

abbrev pub is_up : Indicator → Bool
is_up (up key) = true
is_up (down key message) = false

pub record Terminus : Type 0 where
  pub check : List Indicator → Probe
  pub check_up : (is : List Indicator) → all is_up is ≡ true → check is ≡ healthy
  pub check_down : (is : List Indicator) → all is_up is ≡ false → check is ≡ unavailable

abbrev pub has_answered : Ping → Bool
has_answered answered = true
has_answered unknown = false
has_answered (failed message) = false

module _ (terminus : Terminus) where
  unfoldable pub live_probe : Probe
  live_probe = terminus.check []

  unfoldable pub ready_probe : Ping → Service → Probe
  ready_probe ping s = terminus.check (ready ping s)

  ready-is_up :
      (ping : Ping) (s : Service) → all is_up (ready ping s) ≡ (has_answered ping && s.started)
  ready-is_up answered s = ground arith
  ready-is_up unknown s = refl
  ready-is_up (failed message) s = refl

  ready_probe_lem :
      (ping : Ping) (s : Service)
      → ready_probe ping s ≡ (if has_answered ping && s.started then healthy else unavailable)
  unfolding ready_probe
  ready_probe_lem ping s = elim (Bool-cases (has_answered ping && s.started)) [
    | inl h ↦ terminus.check_up (ready ping s) (ready-is_up ping s ∙ h) ∙ rw h refl
    | inr h ↦ terminus.check_down (ready ping s) (ready-is_up ping s ∙ h) ∙ rw h refl
  ]

  on_module_init-started :
      (throws : BossCall → Option Thrown) (s : Service)
      → (on_module_init throws s).0 ≡ ok tt
      → (on_module_init throws s).1.started ≡ true
  unfolding on_module_init
  on_module_init-started throws s h = ground (arith, h)

  on_module_destroy-stopped :
      (throws : BossCall → Option Thrown) (s : Service)
      → (on_module_destroy throws s).1.started ≡ false
  unfolding on_module_destroy
  on_module_destroy-stopped throws s = ground arith

  -- The readiness probe is healthy exactly where the database answers and the jobs are started: it
  -- follows the database once the jobs came up, and is unavailable from their shutdown on, also
  -- where pg-boss throws. The liveness probe is always healthy.
  pub probes_follow :
      (throws : BossCall → Option Thrown) (ping : Ping) (s : Service)
      → (on_module_init throws s).0 ≡ ok tt
      → (ready_probe ping (on_module_init throws s).1
          ≡ (if has_answered ping then healthy else unavailable))
        × (ready_probe ping (on_module_destroy throws s).1 ≡ unavailable)
        × (ready_probe ping s ≡ (if has_answered ping && s.started then healthy else unavailable))
        × (live_probe ≡ healthy)
  unfolding live_probe
  probes_follow throws ping s h = (
    ready_probe_lem ping (on_module_init throws s).1
        ∙ ground (arith, on_module_init-started throws s),
    ready_probe_lem ping (on_module_destroy throws s).1
        ∙ ground (arith, on_module_destroy-stopped throws s),
    ready_probe_lem ping s,
    terminus.check_up [] refl,
  )
