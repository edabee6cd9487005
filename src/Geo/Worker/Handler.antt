-- ===== src/Geo/Worker/Handler.antt =====
-- A whole run of `handle` of modules/geo/geo-audit.worker.ts.
use ai_search_api.Base.{
  ℕ, String, ◌≡◌, refl, ap, ◌∙◌, inl, inr, Bool, true, false, Option, some, List, [], ◌∷◌, ◌++◌,
  arith, str_eq, ltb, ◌==◌, if◌then◌else◌, Bool-cases, first, count, change, change-none,
  first-change, count-first, first-narrow,
}
use ai_search_api.Base.Result.{Result, ok, err}
use ai_search_api.Base.Prisma.{Client}
use ai_search_api.Core.Tenancy.{scoped}
use ai_search_api.Geo.Finding.{Finding}
use ai_search_api.Geo.SiteAudit.{SiteAudit, World}
use ai_search_api.Geo.Worker.{
  Surroundings, claim, finish, settle, announce, handle, notify_audit, notify_input, row_of,
  is_claimable, is_running, as_processing, as_completed, as_failed, error_text,
}

abbrev pub the_audit : String → List SiteAudit → Option SiteAudit
the_audit i = first (λ r. str_eq r.id i)

abbrev pub is_success : Result (List Finding) → Bool
is_success (ok _) = true
is_success (err _) = false

module _ (now : ℕ) where
  abbrev pub ended : Result (List Finding) → SiteAudit → SiteAudit
  ended (ok findings) b = as_completed now findings b
  ended (err e) b = as_failed now (error_text e) b

module _ (db : Client) (env : Surroundings) where
  finish-lost :
      (audit : SiteAudit) (r : Result (List Finding)) (w : World)
      → count (is_running audit.id audit.tenant_id) w.audits ≡ 0
      → finish db env audit r w ≡ w
  unfolding finish settle announce
  finish-lost audit (ok findings) w h =
      rw (db.update_many_lem, h, change-none _ (as_completed env.now findings) w.audits h) refl
  finish-lost audit (err e) w h =
      rw (db.update_many_lem, h, change-none _ (as_failed env.now (error_text e)) w.audits h) refl

  pub notify-audits :
      (audit : SiteAudit) (success : Bool) (w : World)
      → (notify_audit db env audit success w).audits ≡ w.audits
  unfolding notify_audit
  notify-audits audit success w = ground arith

  pub finish-audits :
      (audit : SiteAudit) (r : Result (List Finding)) (w : World)
      → (finish db env audit r w).audits
        ≡ change (is_running audit.id audit.tenant_id) (ended env.now r) w.audits
  unfolding finish settle announce
  finish-audits audit (ok findings) w =
      elim (Bool-cases (ltb 0 (count (is_running audit.id audit.tenant_id) w.audits))) [
        | inl e ↦ rw (finish, db.update_many_lem, e, notify-audits) refl
        | inr e ↦ rw (finish, db.update_many_lem, e) refl
      ]
  finish-audits audit (err t) w =
      elim (Bool-cases (ltb 0 (count (is_running audit.id audit.tenant_id) w.audits))) [
        | inl e ↦ rw (finish, db.update_many_lem, e, notify-audits) refl
        | inr e ↦ rw (finish, db.update_many_lem, e) refl
      ]

  pub notify-notifications :
      (audit : SiteAudit) (success : Bool) (w : World)
      → (notify_audit db env audit success w).notifications ≡ (
          if env.notify_succeeds audit
          then w.notifications ++ row_of env audit (notify_input audit success) ∷ []
          else w.notifications)
  unfolding notify_audit
  notify-notifications audit success w = elim (Bool-cases (env.notify_succeeds audit)) [
    | inl e ↦ rw (e, db.create_lem) refl
    | inr e ↦ rw e refl
  ]

  finish-ends :
      (audit b : SiteAudit) (r : Result (List Finding)) (w : World)
      → the_audit audit.id w.audits ≡ some b
      → is_running audit.id audit.tenant_id b ≡ true
      → (the_audit audit.id (finish db env audit r w).audits ≡ some (ended env.now r b))
        × ((finish db env audit r w).notifications ≡ (
            if env.notify_succeeds audit
            then w.notifications ++ row_of env audit (notify_input audit (is_success r)) ∷ []
            else w.notifications))
  unfolding finish settle announce
  finish-ends audit b (ok findings) w listed running =
      rw
        (
          db.update_many_lem,
          count-first _ (is_running audit.id audit.tenant_id) w.audits b listed running,
          notify-audits,
          notify-notifications,
        )
        (
          first-change _ (is_running audit.id audit.tenant_id) (as_completed env.now findings)
                (λ r. refl) w.audits b listed
              ∙ ap (λ t. some (if t then as_completed env.now findings b else b)) running,
          refl,
        )
  finish-ends audit b (err e) w listed running =
      rw
        (
          db.update_many_lem,
          count-first _ (is_running audit.id audit.tenant_id) w.audits b listed running,
          notify-audits,
          notify-notifications,
        )
        (
          first-change _ (is_running audit.id audit.tenant_id) (as_failed env.now (error_text e))
                (λ r. refl) w.audits b listed
              ∙ ap (λ t. some (if t then as_failed env.now (error_text e) b else b)) running,
          refl,
        )

module _ (db : Client) (run : SiteAudit → Result (List Finding)) (env : Surroundings)
    (id tenant : String) (w : World) where
  -- The tables once the job is claimed.
  abbrev pub claimed_world : World
  claimed_world = record w {
    audits = change (is_claimable id tenant) (as_processing env.now) w.audits;
  }

  -- A job for an audit that is not PENDING in the job's tenant (a redelivery, or an audit that the
  -- reaper ended) changes no table, whatever else would happen while an audit runs.
  pub handle-unclaimed :
      (others : World → World)
      → count (is_claimable id tenant) w.audits ≡ 0
      → handle db run others env id tenant w ≡ w
  unfolding handle
  handle-unclaimed others h =
      rw
        (
          db.update_many_lem,
          h,
          change-none (is_claimable id tenant) (as_processing env.now) w.audits h,
        )
        refl

  module _ (others : World → World) (a : SiteAudit) (listed : the_audit id w.audits ≡ some a)
      (mine : is_claimable id tenant a ≡ true) where
    claimed-listed : the_audit id claimed_world.audits ≡ some (as_processing env.now a)
    claimed-listed =
        first-change (λ r. str_eq r.id id) (is_claimable id tenant) (as_processing env.now)
          (λ r. refl) w.audits a listed
        ∙ ap (λ b. some (if b then as_processing env.now a else a)) mine

    claimed-found :
        first
          (scoped (λ (r : SiteAudit). r.tenant_id) tenant (λ r. str_eq r.id id))
          claimed_world.audits
        ≡ some (as_processing env.now a)
    unfolding scoped
    claimed-found =
        first-narrow _ (λ r. str_eq r.id id) (λ r e. ground arith) claimed_world.audits
          (as_processing env.now a) claimed-listed (ground arith)

    claimed-some : (count (is_claimable id tenant) w.audits == 0) ≡ false
    claimed-some =
        ground
          (arith, count-first (λ r. str_eq r.id id) (is_claimable id tenant) w.audits a listed mine)

    pub handle-finish :
        handle db run others env id tenant w
        ≡ finish db env
            (as_processing env.now a)
            (run (as_processing env.now a))
            (others claimed_world)
    unfolding handle claim
    handle-finish =
        rw
          (
            db.update_many_lem, claimed-some, db.find_first_lem, claimed-found, handle,
            db.update_many_lem,
          )
          refl

    -- The job of an audit that is PENDING in its tenant, whose row is not PROCESSING any more when
    -- the run ends (the reaper failed it, or it was purged): the handler leaves the tables exactly
    -- as the others left them, whether the run succeeded or failed.
    pub handle-lost :
        count (is_running a.id a.tenant_id) (others claimed_world).audits ≡ 0
        → handle db run others env id tenant w ≡ others claimed_world
    handle-lost lost =
        handle-finish
        ∙ finish-lost db env (as_processing env.now a) (run _) (others claimed_world) lost

    -- The job of an audit that is PENDING in its tenant and still PROCESSING when its run ends,
    -- whatever the others did meanwhile: the row has the run's outcome, COMPLETED with the
    -- findings and no error, or FAILED with the message, and one notification of that outcome to
    -- the audit's owner is added, unless its write fails.
    pub handle-ends :
        (b : SiteAudit)
        → the_audit a.id (others claimed_world).audits ≡ some b
        → is_running a.id a.tenant_id b ≡ true
        → (the_audit a.id (handle db run others env id tenant w).audits
            ≡ some (ended env.now (run (as_processing env.now a)) b))
          × ((handle db run others env id tenant w).notifications ≡ (
              if env.notify_succeeds (as_processing env.now a)
              then (others claimed_world).notifications
                ++ row_of env (as_processing env.now a) (
                    notify_input
                      (as_processing env.now a)
                      (is_success (run (as_processing env.now a))))
                  ∷ []
              else (others claimed_world).notifications))
    handle-ends b still running = rw handle-finish (
        finish-ends db env (as_processing env.now a) b (run _) (others claimed_world) still running)
