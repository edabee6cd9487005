-- ===== src/Geo/Audits/Controller/Rows.antt =====
-- modules/geo/audits.service.ts on the whole table, next to the same on one tenant's audits.
use ai_search_api.Base.{
  ℕ, String, ◌≡◌, refl, sym, ap, ◌∙◌, inl, inr, Bool, Option, none, some, List, [], ◌∷◌, ◌++◌,
  str_eq, leb, Bool-cases, change,
}
use ai_search_api.Base.Result.{Thrown, err}
use ai_search_api.Base.Text.{Text}
use ai_search_api.Base.Prisma.{Client}
use ai_search_api.Core.Jobs.{enqueue}
use ai_search_api.Core.TenantRows.{
  own, others, own-own, find_first-own, count_rows-own, own-change, others-change, own-append,
  others-append,
}
use ai_search_api.Geo.SiteAudit.{SiteAudit, World, in_flight, new_audit}
use ai_search_api.Geo.Audits.{
  max_inflight_per_tenant, tenant_of, is_in_flight, has_id, as_unqueued, too_many, queue_audit,
  create, find_one,
}

module _ (tenant : String) where
  abbrev pub rows_of : List SiteAudit → List SiteAudit
  rows_of = own tenant_of tenant

  -- The table with the audits of the tenant only.
  abbrev pub alone : World → World
  alone w = record w { audits = rows_of w.audits }

  -- An outcome on the whole table, next to that on the rows of the tenant only.
  pub record Apart {A : Type 0} (w : World) (r a : A × World) : Type 0 where
    pub same : r.0 ≡ a.0
    pub own_rows : rows_of r.1.audits ≡ rows_of a.1.audits
    pub jobs : r.1.jobs ≡ a.1.jobs
    pub notifications : r.1.notifications ≡ w.notifications
    pub other_rows : others tenant_of tenant r.1.audits ≡ others tenant_of tenant w.audits

  pub untouched : {A : Type 0} (w : World) (r : A) → Apart w (r, w) (r, alone w)
  untouched w r = record {
    same = refl;
    own_rows = sym (own-own tenant_of tenant w.audits);
    jobs = refl;
    notifications = refl;
    other_rows = refl;
  }

module _ (db : Client) (tenant : String) where
  pub find_one-alone :
      (id : String) (w : World) → find_one db tenant id w ≡ find_one db tenant id (alone tenant w)
  unfolding find_one
  find_one-alone id w =
      rw (find_one, find_first-own tenant_of tenant (λ r. str_eq r.id id) w.audits db) refl

  -- The rows after a submission, and after its compensation.
  added-alone :
      (rows : List SiteAudit) (a : SiteAudit)
      → a.tenant_id ≡ tenant
      → rows_of tenant (rows ++ a ∷ []) ≡ rows_of tenant (rows_of tenant rows ++ a ∷ [])
  added-alone rows a mine =
      own-append tenant_of tenant rows a mine
      ∙ ap (λ xs. xs ++ a ∷ []) (sym (own-own tenant_of tenant rows))
      ∙ sym (own-append tenant_of tenant (rows_of tenant rows) a mine)

  changed-alone :
      (id : String) (now : ℕ) (rows rows' : List SiteAudit)
      → rows_of tenant rows ≡ rows_of tenant rows'
      → rows_of tenant (change (has_id tenant id) (as_unqueued now) rows)
        ≡ rows_of tenant (change (has_id tenant id) (as_unqueued now) rows')
  changed-alone id now rows rows' same =
      let p : SiteAudit → Bool = λ r. str_eq r.id id in
      own-change tenant_of tenant p (as_unqueued now) (λ r. refl) rows
      ∙ ap (change p (as_unqueued now)) same
      ∙ sym (own-change tenant_of tenant p (as_unqueued now) (λ r. refl) rows')

  queue_audit-Apart :
      (send_error : Option Thrown) (now : ℕ) (a : SiteAudit) (w : World) (rows : List SiteAudit)
      → a.tenant_id ≡ tenant
      → rows_of tenant w.audits ≡ rows_of tenant rows
      → ((queue_audit db send_error now a w).0
          ≡ (queue_audit db send_error now a (record w { audits = rows })).0)
        × (rows_of tenant (queue_audit db send_error now a w).1.audits
            ≡ rows_of tenant
                (queue_audit db send_error now a (record w { audits = rows })).1.audits)
        × ((queue_audit db send_error now a w).1.jobs
            ≡ (queue_audit db send_error now a (record w { audits = rows })).1.jobs)
        × ((queue_audit db send_error now a w).1.notifications ≡ w.notifications)
        × (others tenant_of tenant (queue_audit db send_error now a w).1.audits
            ≡ others tenant_of tenant w.audits)
  unfolding queue_audit enqueue
  queue_audit-Apart none now a w rows mine same = (refl, same, refl, refl, refl)
  queue_audit-Apart (some e) now a w rows mine same =
      rw
        (
          mine,
          db.update_many_lem (has_id tenant a.id) (as_unqueued now) w.audits,
          db.update_many_lem (has_id tenant a.id) (as_unqueued now) rows,
        )
        (
          refl,
          changed-alone a.id now w.audits rows same,
          refl,
          refl,
          others-change tenant_of tenant (λ r. str_eq r.id a.id) (as_unqueued now) (λ r. refl)
              w.audits,
        )

  pub create-Apart :
      (id : String) (now : ℕ) (send_error : Option Thrown) (url : Text) (user : String) (w : World)
      → Apart tenant w
          (create db id now send_error url user tenant w)
          (create db id now send_error url user tenant (alone tenant w))
  unfolding create
  create-Apart id now send_error url user w =
      let a = new_audit id url user tenant now in
      let mine = rows_of tenant w.audits in
      let same =
        ap (leb max_inflight_per_tenant)
          (sym (count_rows-own tenant_of tenant (λ r. in_flight r.status) w.audits db)) in
      elim (Bool-cases
        (leb max_inflight_per_tenant (db.count_rows (is_in_flight tenant) w.audits))) [
          | inl full ↦ rw (create, full, same ∙ full) (untouched tenant w (err too_many))
          | inr free ↦
              let (answer, own_rows, jobs, notifications, other_rows) =
                queue_audit-Apart send_error now a (record w { audits = w.audits ++ a ∷ [] })
                  (mine ++ a ∷ []) refl (added-alone w.audits a refl) in
              rw (create, free, same ∙ free, db.create_lem a w.audits, db.create_lem a mine)
                (record {
                  same = answer;
                  own_rows = own_rows;
                  jobs = jobs;
                  notifications = notifications;
                  other_rows = other_rows ∙ others-append tenant_of tenant w.audits a refl;
                })
        ]
