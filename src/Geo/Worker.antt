-- ===== src/Geo/Worker.antt =====
-- modules/geo/geo-audit.worker.ts: the handler of an audit job, the reaper and the purge. `db` is
-- the Prisma client; a write also bumps `updatedAt` (schema.prisma). Times are milliseconds.
-- What others do while an audit runs is a parameter of `handle`.
pub mod Rows
pub mod Interleaving
pub mod Notices
pub mod Tracking
pub mod Handler
pub mod Answered
pub mod Reaper
mod Tests
use ai_search_api.Base.{
  ℕ, ◌+◌, ◌-◌, ◌*◌, String, Bool, true, false, ◌&&◌, Option, none, some, List, [], ◌∷◌, ◌++◌,
  str_eq, ltb, ◌==◌, if◌then◌else◌,
}
use ai_search_api.Base.Result.{Thrown, http, failure, Result, ok, err}
use ai_search_api.Base.Text.{Text, codes}
use ai_search_api.Base.Prisma.{Client}
use ai_search_api.Core.Tenancy.{scoped}
use ai_search_api.Geo.Finding.{Finding}
use ai_search_api.Geo.SiteAudit.{
  processing, completed, failed, SiteAudit, World, is_pending, is_processing, in_flight,
}
use ai_search_api.Notifications.Row.{Notification, NotifyInput}

abbrev pub stale_processing_ms : ℕ
stale_processing_ms = 15 * 60 * 1000

abbrev pub retention_ms : ℕ
retention_ms = 90 * 24 * 60 * 60 * 1000

-- How a run of the handler or the reaper finds its surroundings: whether the write of a
-- notification succeeds, the id that it gets, and the clock.
pub record Surroundings : Type 0 where
  pub notify_succeeds : SiteAudit → Bool
  pub notification_id : SiteAudit → String
  pub now : ℕ

abbrev tenant_of : SiteAudit → String
tenant_of r = r.tenant_id

-- What is written of an error.
abbrev pub error_text : Thrown → Text
error_text (http code message) = codes message
error_text (failure message) = codes message

abbrev pub outcome_type : Bool → Text
outcome_type success = if success then codes "audit.completed" else codes "audit.failed"

abbrev pub outcome_title : Bool → Text
outcome_title success = if success then codes "Audit complete" else codes "Audit failed"

abbrev pub outcome_body : Text → Bool → Text
outcome_body url success =
    codes "Your audit of "
    ++ (url ++ (if success then codes " is ready." else codes " could not be completed."))

unfoldable pub notify_input : SiteAudit → Bool → NotifyInput
notify_input audit success = record {
  user_id = audit.requested_by_id;
  tenant_id = audit.tenant_id;
  type = outcome_type success;
  title = outcome_title success;
  body = outcome_body audit.url success;
  payload = some audit.id;
}

abbrev pub row_of : Surroundings → SiteAudit → NotifyInput → Notification
row_of env audit input = record {
  id = env.notification_id audit;
  tenant_id = input.tenant_id;
  user_id = input.user_id;
  type = input.type;
  title = input.title;
  body = input.body;
  payload = input.payload;
  created_at = env.now;
  read_at = none;
}

-- An audit that ended, and whether it succeeded.
abbrev pub Announcement : Type 0
Announcement = SiteAudit × Bool

-- The rows that each guarded write selects, and what it makes of them.
abbrev pub is_claimable : String → String → SiteAudit → Bool
is_claimable audit_id tenant =
    scoped tenant_of tenant (λ r. str_eq r.id audit_id && is_pending r.status)

abbrev pub is_running : String → String → SiteAudit → Bool
is_running audit_id tenant =
    scoped tenant_of tenant (λ r. str_eq r.id audit_id && is_processing r.status)

abbrev pub is_stale : ℕ → SiteAudit → Bool
is_stale cutoff r = in_flight r.status && ltb r.updated_at cutoff

abbrev pub is_stale_row : ℕ → String → SiteAudit → Bool
is_stale_row cutoff audit_id r = str_eq r.id audit_id && is_stale cutoff r

abbrev pub as_processing : ℕ → SiteAudit → SiteAudit
as_processing now r = record r { status = processing; updated_at = now }

abbrev pub as_completed : ℕ → List Finding → SiteAudit → SiteAudit
as_completed now findings r = record r {
  status = completed;
  findings = some findings;
  error = none;
  fetched_at = some now;
  updated_at = now;
}

abbrev pub as_failed : ℕ → Text → SiteAudit → SiteAudit
as_failed now message r = record r {
  status = failed;
  error = some message;
  fetched_at = some now;
  updated_at = now;
}

abbrev pub as_timed_out : ℕ → SiteAudit → SiteAudit
as_timed_out now r = record r {
  status = failed;
  error = some (codes "Audit timed out");
  updated_at = now;
}

module _ (db : Client) where
  -- `updateMany` on PENDING -> PROCESSING
  unfoldable pub claim : String → String → ℕ → List SiteAudit → List SiteAudit × ℕ
  claim audit_id tenant now = db.update_many (is_claimable audit_id tenant) (as_processing now)

  unfoldable pub complete : String → String → ℕ → List Finding → List SiteAudit → List SiteAudit × ℕ
  complete audit_id tenant now findings =
      db.update_many (is_running audit_id tenant) (as_completed now findings)

  unfoldable pub mark_failed : String → String → ℕ → Text → List SiteAudit → List SiteAudit × ℕ
  mark_failed audit_id tenant now message =
      db.update_many (is_running audit_id tenant) (as_failed now message)

  -- Best effort: a failed write of the notification is swallowed.
  unfoldable pub notify_audit : Surroundings → SiteAudit → Bool → World → World
  unfolding notify_input
  notify_audit env audit success w =
      if env.notify_succeeds audit
      then record w {
        notifications = db.create (row_of env audit (notify_input audit success)) w.notifications;
      }
      else w

  -- The write of the outcome, and what is to be announced: the audit and whether it succeeded, if a
  -- row was changed.
  unfoldable pub settle :
      ℕ → SiteAudit → Result (List Finding) → List SiteAudit → List SiteAudit × Option Announcement
  unfolding complete mark_failed
  settle now audit (ok findings) rows =
      let (rows', changed) = complete audit.id audit.tenant_id now findings rows in
      (rows', if ltb 0 changed then some (audit, true) else none)
  settle now audit (err e) rows =
      let (rows', changed) = mark_failed audit.id audit.tenant_id now (error_text e) rows in
      (rows', if ltb 0 changed then some (audit, false) else none)

  unfoldable pub announce : Surroundings → Option Announcement → World → World
  unfolding notify_audit
  announce env none w = w
  announce env (some (audit, success)) w = notify_audit env audit success w

  unfoldable pub finish : Surroundings → SiteAudit → Result (List Finding) → World → World
  unfolding settle announce
  finish env audit result w =
      let (rows, due) = settle env.now audit result w.audits in
      announce env due (record w { audits = rows })

  -- The body of the job, in the tenant's context. `run` is the audit runner, `others` what the
  -- reaper, the purge and other workers do to the tables while it runs.
  unfoldable pub handle :
      (SiteAudit → Result (List Finding))
      → (World → World)
      → Surroundings
      → String
      → String
      → World
      → World
  unfolding claim finish
  handle run others env audit_id tenant w =
      let (rows, claimed) = claim audit_id tenant env.now w.audits in
      let w' : World = record w { audits = rows } in
      if claimed == 0
      then w'
      else elim (db.find_first (scoped tenant_of tenant (λ r. str_eq r.id audit_id)) rows) [
        | none ↦ w'
        | some audit ↦ finish env audit (run audit) (others w')
      ]

  -- The guarded transition of one candidate, by the plain client: the tenant is not constrained.
  -- Where it changed no row, the candidate is skipped.
  unfoldable pub reap_row :
      ℕ → ℕ → SiteAudit → List SiteAudit → List SiteAudit × Option Announcement
  reap_row cutoff now row rows =
      let (rows', changed) = db.update_many (is_stale_row cutoff row.id) (as_timed_out now) rows in
      (rows', if changed == 0 then none else some (row, false))

  -- The rest of the loop's body: the row is counted where it is announced.
  unfoldable pub after_reap :
      Surroundings → List SiteAudit × Option Announcement → World × ℕ → World × ℕ
  unfolding announce
  after_reap env (rows, none) (w, reaped) = (record w { audits = rows }, reaped)
  after_reap env (rows, some due) (w, reaped) =
      (announce env (some due) (record w { audits = rows }), reaped + 1)

  unfoldable pub reap_rows : Surroundings → ℕ → List SiteAudit → World × ℕ → World × ℕ
  unfolding after_reap reap_row
  reap_rows env cutoff [] s = s
  reap_rows env cutoff (row ∷ rest) s =
      reap_rows env cutoff rest (after_reap env (reap_row cutoff env.now row s.0.audits) s)

  -- The second component is the number in the log line.
  unfoldable pub reap_stale : Surroundings → World → World × ℕ
  unfolding reap_rows reap_row
  reap_stale env w =
      let cutoff : ℕ = env.now - stale_processing_ms in
      reap_rows env cutoff (db.find_many (is_stale cutoff) w.audits) (w, 0)

  unfoldable pub purge_old : ℕ → World → World × ℕ
  purge_old now w =
      let (rows, removed) = db.delete_many (λ r. ltb r.created_at (now - retention_ms)) w.audits in
      (record w { audits = rows }, removed)
