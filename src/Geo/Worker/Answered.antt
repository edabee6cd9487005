-- ===== src/Geo/Worker/Answered.antt =====
-- From `create` of modules/geo/audits.service.ts through the queue to `handle` of
-- modules/geo/geo-audit.worker.ts and back to `findOne`.
use ai_search_api.Base.{
  ℕ, ◌+◌, String, ◌≡◌, refl, sym, ap, ◌∙◌, inl, inr, Bool, true, false, Option, some, List, [], ◌∷◌,
  ◌++◌, arith, eq_refl, if◌then◌else◌, Bool-cases, first, keep, count, change, count-append,
  first-narrow,
}
use ai_search_api.Base.Within.{keep-change, count-within}
use ai_search_api.Base.Result.{Thrown, Result, ok, err}
use ai_search_api.Base.Text.{Text, codes}
use ai_search_api.Base.Prisma.{Client}
use ai_search_api.Core.Jobs.{Job, job_of}
use ai_search_api.Core.Tenancy.{scoped}
use ai_search_api.Geo.Finding.{Finding}
use ai_search_api.Geo.SiteAudit.{SiteAudit, World, GeoAuditJobData, new_audit}
use ai_search_api.Geo.Audits.{has_id, audit_options, payload_of, create, find_one}
use ai_search_api.Geo.Audits.Cap.{create-accepted}
use ai_search_api.Notifications.Row.{Notification}
use ai_search_api.Notifications.{unread_of, unread_count}
use ai_search_api.Geo.Worker.{
  Surroundings, finish, handle, notify_input, row_of, is_claimable, is_running, as_processing,
}
use ai_search_api.Geo.Worker.Rows.{is_named}
use ai_search_api.Geo.Worker.Handler.{
  ended, is_success, claimed_world, handle-finish, finish-audits, handle-unclaimed, handle-ends,
}

module _ {Row : Type 0} (p : Row → Bool) where
  -- The rows that meet a test, of a table.
  first-kept : (a : Row) (rows : List Row) → keep p rows ≡ a ∷ [] → first p rows ≡ some a
  first-kept a [] h = cc
  first-kept a (r ∷ rows) h = ground (arith, first-kept a rows)

  keep-created :
      (a : Row) (rows : List Row) → count p rows ≡ 0 → p a ≡ true → keep p (rows ++ a ∷ []) ≡ a ∷ []
  keep-created a [] h e = rw e refl
  keep-created a (r ∷ rows) h e = ground (arith, keep-created a rows)

module _ (db : Client) (run : SiteAudit → Result (List Finding)) (env : Surroundings) (id : String)
    (now : ℕ) (url : Text) (user tenant : String) (w : World) where
  -- The row once a worker took it up, and once its run ended.
  abbrev pub taken : SiteAudit
  taken = as_processing env.now (new_audit id url user tenant now)

  abbrev pub outcome : SiteAudit
  outcome = ended env.now (run taken) taken

  abbrev pub job : Job GeoAuditJobData
  job = job_of (codes "geo.audit") (payload_of (new_audit id url user tenant now)) audit_options

  abbrev sent : World
  sent = record w {
    audits = w.audits ++ new_audit id url user tenant now ∷ [];
    jobs = w.jobs ++ job ∷ [];
  }

  claimable : is_claimable id tenant (new_audit id url user tenant now) ≡ true
  unfolding scoped
  claimable = ground (arith, eq_refl id, eq_refl tenant)

  running : is_running id tenant taken ≡ true
  unfolding scoped
  running = ground (arith, eq_refl id, eq_refl tenant)

  ended-claimable :
      (r : Result (List Finding)) → is_claimable id tenant (ended env.now r taken) ≡ false
  unfolding scoped
  ended-claimable (ok findings) = ground arith
  ended-claimable (err e) = ground arith

  ended-owned : (r : Result (List Finding)) → has_id tenant id (ended env.now r taken) ≡ true
  unfolding scoped
  ended-owned (ok findings) = ground (arith, eq_refl id, eq_refl tenant)
  ended-owned (err e) = ground (arith, eq_refl id, eq_refl tenant)

  ended-named :
      (r : Result (List Finding)) (a : SiteAudit) → is_named id (ended env.now r a) ≡ is_named id a
  ended-named (ok findings) a = refl
  ended-named (err e) a = refl

  within-named : (r : SiteAudit) → has_id tenant id r ≡ true → is_named id r ≡ true
  unfolding scoped
  within-named r e = ground arith

  running-named : (r : SiteAudit) → is_running id tenant r ≡ true → is_named id r ≡ true
  unfolding scoped
  running-named r e = ground arith

  claimable-named : (r : SiteAudit) → is_claimable id tenant r ≡ true → is_named id r ≡ true
  unfolding scoped
  claimable-named r e = ground arith

  module _ (others : World → World) (fresh : count (is_named id) w.audits ≡ 0)
      (apart : (v : World)
        → keep (is_named id) (others v).audits ≡ keep (is_named id) v.audits) where
    abbrev meanwhile : World
    meanwhile = others (claimed_world db run env id tenant sent)

    created-kept : keep (is_named id) sent.audits ≡ new_audit id url user tenant now ∷ []
    created-kept =
        keep-created (is_named id) (new_audit id url user tenant now) w.audits fresh (eq_refl id)

    taken-kept : keep (is_named id) meanwhile.audits ≡ taken ∷ []
    taken-kept =
        apart (claimed_world db run env id tenant sent)
        ∙ keep-change (is_named id) (is_claimable id tenant) claimable-named (as_processing env.now)
            (λ r. refl) sent.audits
        ∙ ap (change (is_claimable id tenant) (as_processing env.now)) created-kept
        ∙ ap (λ b. (if b then taken else new_audit id url user tenant now) ∷ []) claimable

    handle-sent :
        handle db run others env id tenant sent ≡ finish db env taken (run taken) meanwhile
    handle-sent =
        handle-finish db run env id tenant sent others (new_audit id url user tenant now)
          (first-kept (is_named id) (new_audit id url user tenant now) sent.audits created-kept)
          claimable

    outcome-kept :
        keep (is_named id) (handle db run others env id tenant sent).audits ≡ outcome ∷ []
    outcome-kept =
        ap (λ (v : World). keep (is_named id) v.audits) handle-sent
        ∙ ap (keep (is_named id)) (finish-audits db env taken (run taken) meanwhile)
        ∙ keep-change (is_named id) (is_running id tenant) running-named (ended env.now (run taken))
            (ended-named (run taken)) meanwhile.audits
        ∙ ap (change (is_running id tenant) (ended env.now (run taken))) taken-kept
        ∙ ap (λ b. (if b then outcome else taken) ∷ []) running

    outcome-found : find_one db tenant id (handle db run others env id tenant sent) ≡ ok outcome
    unfolding find_one
    outcome-found =
        let table : List SiteAudit = (handle db run others env id tenant sent).audits in
        let found : first (has_id tenant id) table ≡ some outcome =
          first-narrow (has_id tenant id) (is_named id) within-named table outcome
            (first-kept (is_named id) outcome table outcome-kept) (ended-owned (run taken)) in
        rw (find_one, db.find_first_lem, found) refl

    outcome-announced :
        unread_count db tenant user (handle db run others env id tenant sent).notifications
        ≡ (if env.notify_succeeds taken then 1 else 0)
          + unread_count db tenant user meanwhile.notifications
    unfolding unread_count notify_input scoped
    outcome-announced =
        let announced =
          (handle-ends db run env id tenant sent others (new_audit id url user tenant now)
            (first-kept (is_named id) (new_audit id url user tenant now) sent.audits created-kept)
            claimable taken (first-kept (is_named id) taken meanwhile.audits taken-kept)
            running).1 in
        let row : Notification = row_of env taken (notify_input taken (is_success (run taken))) in
        elim (Bool-cases (env.notify_succeeds taken)) [
          | inl e ↦
              rw (announced, e, unread_count, db.count_rows_lem, db.count_rows_lem)
                (ground (
                  arith,
                  eq_refl tenant,
                  eq_refl user,
                  count-append (unread_of tenant user) meanwhile.notifications (row ∷ []),
                ))
          | inr e ↦ rw (announced, e) (omega arith)
        ]

    redelivered :
        (run' : SiteAudit → Result (List Finding)) (env' : Surroundings) (others' : World → World)
        → handle db run' others' env' id tenant (handle db run others env id tenant sent)
          ≡ handle db run others env id tenant sent
    redelivered run' env' others' =
        let table : List SiteAudit = (handle db run others env id tenant sent).audits in
        handle-unclaimed db run' env' id tenant (handle db run others env id tenant sent) others' (
          sym (count-within (is_named id) (is_claimable id tenant) claimable-named table)
          ∙ ap (count (is_claimable id tenant)) outcome-kept
          ∙ ap (λ b. if b then 1 else 0) (ended-claimable (run taken)))

    -- The delivery of the job, to a worker in some surroundings.
    abbrev pub delivered :
        (SiteAudit → Result (List Finding)) → Surroundings → (World → World) → World → World
    delivered run' env' others' =
        handle db run' others' env' job.payload.audit_id job.payload.tenant_id

    -- A submission that is accepted, under an id that no audit has, whose job is delivered while
    -- nobody else writes the audits with this id: the job in the queue names the audit and its
    -- tenant; after its delivery a lookup in the tenant finds the audit with the outcome of the
    -- run; the unread count of its owner is one above what it was when the run ended, unless the
    -- write of the notification failed; and another delivery of the job, by any worker, changes
    -- nothing.
    pub submission-answered :
        (send_error : Option Thrown) (audit : SiteAudit) (w1 : World)
        → create db id now send_error url user tenant w ≡ (ok audit, w1)
        → (w1.jobs ≡ w.jobs ++ job ∷ [])
          × (find_one db tenant id (delivered run env others w1) ≡ ok outcome)
          × (unread_count db tenant user (delivered run env others w1).notifications
              ≡ (if env.notify_succeeds taken then 1 else 0)
                + unread_count db tenant user
                    (others (claimed_world db run env id tenant w1)).notifications)
          × ((run' : SiteAudit → Result (List Finding)) (env' : Surroundings)
                (others' : World → World)
              → delivered run' env' others' (delivered run env others w1)
                ≡ delivered run env others w1)
    submission-answered send_error audit w1 accepted =
        let same : w1 ≡ sent =
          sym (ap (λ x. x.1) accepted)
          ∙ ap (λ x. x.1)
              (create-accepted db id now url user tenant w send_error audit
                (ap (λ x. x.0) accepted)) in
        rw same (refl, outcome-found, outcome-announced, redelivered)
