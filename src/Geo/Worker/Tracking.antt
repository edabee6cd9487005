-- ===== src/Geo/Worker/Tracking.antt =====
-- One audit through any interleaving of the writes of modules/geo/geo-audit.worker.ts and
-- audits.service.ts.
use ai_search_api.Base.{
  ℕ, ◌<◌, String, ◌≡◌, ap, ◌∙◌, ◌⊎◌, inl, inr, true, none, some, List, arith, eq_iff, Option-cases,
  first, count-first, first_sound,
}
use ai_search_api.Base.Prisma.{Client}
use ai_search_api.Base.Result.{ok, err}
use ai_search_api.Core.Tenancy.{scoped}
use ai_search_api.Base.Text.{Text}
use ai_search_api.Geo.Finding.{Finding}
use ai_search_api.Geo.SiteAudit.{SiteAudit, new_audit}
use ai_search_api.Geo.Audits.{has_id, as_unqueued}
use ai_search_api.Geo.Worker.{
  claim, complete, mark_failed, settle, reap_row, is_claimable, is_running, is_stale_row,
  as_processing, as_completed, as_failed, as_timed_out, error_text,
}
use ai_search_api.Geo.Worker.Rows.{
  Follows, is_named, Tracks, Tracks-only, Tracks-change, Tracks-keep, Tracks-append, Tracks-first,
}
use ai_search_api.Geo.Worker.Interleaving.{
  System, start, mentions, Step, submit, unqueue, take_up, end_run, reap, purge, deliver, lose,
  Reach, here, next,
}
use ai_search_api.Geo.Worker.Notices.{Reach-IsTallied, announce-audits}

unqueued-Follows : (now : ℕ) (q : SiteAudit) → Follows q (as_unqueued now q)
unqueued-Follows now q = ground arith

claimed-Follows :
    (id tenant : String) (now : ℕ) (q : SiteAudit)
    → is_claimable id tenant q ≡ true
    → Follows q (as_processing now q)
unfolding scoped
claimed-Follows id tenant now q h = ground arith

completed-Follows :
    (id tenant : String) (now : ℕ) (findings : List Finding) (q : SiteAudit)
    → is_running id tenant q ≡ true
    → Follows q (as_completed now findings q)
unfolding scoped
completed-Follows id tenant now findings q h = ground arith

failed-Follows :
    (id tenant : String) (now : ℕ) (message : Text) (q : SiteAudit)
    → is_running id tenant q ≡ true
    → Follows q (as_failed now message q)
unfolding scoped
failed-Follows id tenant now message q h = ground arith

timed_out-Follows :
    (cutoff now : ℕ) (id : String) (q : SiteAudit)
    → is_stale_row cutoff id q ≡ true
    → Follows q (as_timed_out now q)
timed_out-Follows cutoff now id q h = ground arith

module _ (db : Client) (r : SiteAudit) where
  -- The audit's id was given, so that no other audit gets it.
  abbrev pub IsTracked : System → Type 0
  IsTracked s = Tracks r s.world.audits × (0 < mentions r.id s.used)

  Step-IsTracked : {s t : System} → Step db s t → IsTracked s → IsTracked t
  unfolding claim complete mark_failed settle reap_row
  Step-IsTracked {s} (submit id url owner tenant now unused) (h, given) = rw db.create_lem (
    Tracks-append r (new_audit id url owner tenant now)
        (ground (arith, unused, given, eq_iff id r.id)) s.world.audits h,
    ground (arith, given),
  )
  Step-IsTracked {s} (unqueue id tenant now) (h, given) = rw db.update_many_lem (
    Tracks-change r (has_id tenant id) (as_unqueued now) (λ q e. unqueued-Follows now q)
        s.world.audits h,
    given,
  )
  Step-IsTracked {s} (take_up id tenant now) (h, given) = rw db.update_many_lem (
    Tracks-change r (is_claimable id tenant) (as_processing now) (claimed-Follows id tenant now)
        s.world.audits h,
    given,
  )
  Step-IsTracked {s} (end_run audit now (ok findings)) (h, given) = rw db.update_many_lem (
    Tracks-change r (is_running audit.id audit.tenant_id) (as_completed now findings)
        (completed-Follows audit.id audit.tenant_id now findings) s.world.audits h,
    given,
  )
  Step-IsTracked {s} (end_run audit now (err e)) (h, given) = rw db.update_many_lem (
    Tracks-change r (is_running audit.id audit.tenant_id) (as_failed now (error_text e))
        (failed-Follows audit.id audit.tenant_id now (error_text e)) s.world.audits h,
    given,
  )
  Step-IsTracked {s} (reap cutoff now row) (h, given) = rw db.update_many_lem (
    Tracks-change r (is_stale_row cutoff row.id) (as_timed_out now)
        (timed_out-Follows cutoff now row.id) s.world.audits h,
    given,
  )
  Step-IsTracked {s} (purge cutoff) (h, given) =
      rw db.delete_many_lem (Tracks-keep r _ s.world.audits h, given)
  Step-IsTracked {s} (deliver env before rest due e) (h, given) =
      rw (announce-audits db env due s) (h, given)
  Step-IsTracked (lose before rest due e) h = h

  Reach-IsTracked : {s t : System} → IsTracked s → Reach db s t → IsTracked t
  Reach-IsTracked h here = h
  Reach-IsTracked h (next run st) = Step-IsTracked st (Reach-IsTracked h run)

-- A table that was reached from empty tables has the audit `r` under the id `i`. Whatever workers,
-- reaper, purge, submissions and failed sends do then, in any order: under that id the table has
-- later no row, or the same audit (id, tenant, owner, URL, creation) with a status that only moved
-- forward (PENDING, PROCESSING, then COMPLETED or FAILED), and if `r` was COMPLETED or FAILED, that
-- row still is one of them, with the findings and the time of fetching of `r`.
pub Reach-Follows :
    (db : Client) {s t : System} (i : String) (r : SiteAudit)
    → Reach db start s
    → first (is_named i) s.world.audits ≡ some r
    → Reach db s t
    → (first (is_named i) t.world.audits ≡ none)
      ⊎ ((q : SiteAudit) × (first (is_named i) t.world.audits ≡ some q) × Follows r q)
Reach-Follows db {s} {t} i r before found after =
    let named : r.id ≡ i = (eq_iff r.id i).0 (first_sound (is_named i) s.world.audits r found) in
    let found' : first (is_named r.id) s.world.audits ≡ some r =
      ap (λ j. first (is_named j) s.world.audits) named ∙ found in
    let tally = Reach-IsTallied db before r.id in
    let tracked : IsTracked db r s = (
      Tracks-only r s.world.audits found' (omega (arith, tally)),
      ground (
        arith,
        tally,
        count-first (is_named r.id) (is_named r.id) s.world.audits r found'
            (first_sound (is_named r.id) s.world.audits r found'),
      ),
    ) in
    let later : Tracks r t.world.audits = (Reach-IsTracked db r tracked after).0 in
    elim (Option-cases (first (is_named i) t.world.audits)) [
      | inl e ↦ inl e
      | inr (q, e) ↦ inr (
        q,
        e,
        Tracks-first r q t.world.audits (ap (λ j. first (is_named j) t.world.audits) named ∙ e)
            later,
      )
    ]
