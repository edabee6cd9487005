-- ===== src/Geo/Audits/Cap.antt =====
-- modules/geo/audits.service.ts: the cap on audits in flight, and what a submission leaves behind.
use ai_search_api.Base.{
  ℕ, ◌+◌, ◌≤◌, ◌<◌, String, ◌≡◌, refl, ap, inl, inr, Bool, true, false, Option, none, some, List,
  [], ◌∷◌, ◌++◌, arith, eq_refl, leb, if◌then◌else◌, Bool-cases, length, count, change,
  length-append, count-append,
}
use Prim.Native.Nat.{max}
use ai_search_api.Base.Result.{Thrown, Result, ok, err}
use ai_search_api.Base.Text.{Text, codes}
use ai_search_api.Base.Prisma.{Client}
use ai_search_api.Core.Jobs.{job_of, enqueue}
use ai_search_api.Core.Tenancy.{scoped}
use ai_search_api.Geo.SiteAudit.{SiteAudit, World, new_audit}
use ai_search_api.Geo.Audits.{
  is_in_flight, has_id, as_unqueued, too_many, audit_options, payload_of, queue_audit, create,
}

-- A row that is added, and taken out of a count by a write that meets no other row.
count-undone :
    {A : Type 0} (p q : A → Bool) (f : A → A) (xs : List A) (a : A)
    → count q xs ≡ 0
    → p (if q a then f a else a) ≡ false
    → count p (change q f (xs ++ a ∷ [])) ≡ count p xs
count-undone p q f [] a other out = ground (arith, out)
count-undone p q f (x ∷ xs) a other out = ground (arith, count-undone p q f xs a)

-- One for an accepted submission.
abbrev pub accepted : {A : Type 0} → Result A → ℕ
accepted (ok a) = 1
accepted (err e) = 0

new-in_flight :
    (id : String) (url : Text) (user tenant : String) (now : ℕ)
    → is_in_flight tenant (new_audit id url user tenant now) ≡ true
unfolding scoped
new-in_flight id url user tenant now = ground (arith, eq_refl tenant)

new-unqueued :
    (id : String) (url : Text) (user tenant : String) (now : ℕ)
    → is_in_flight tenant (
        if has_id tenant id (new_audit id url user tenant now)
        then as_unqueued now (new_audit id url user tenant now)
        else new_audit id url user tenant now)
      ≡ false
unfolding scoped
new-unqueued id url user tenant now = ground (arith, eq_refl tenant, eq_refl id)

module _ (db : Client) (id : String) (now : ℕ) (url : Text) (user tenant : String) (w : World) where
  create-full :
      (send_error : Option Thrown)
      → leb 5 (count (is_in_flight tenant) w.audits) ≡ true
      → create db id now send_error url user tenant w ≡ (err too_many, w)
  unfolding create
  create-full send_error full = rw (create, db.count_rows_lem, full) refl

  create-sent :
      leb 5 (count (is_in_flight tenant) w.audits) ≡ false
      → create db id now none url user tenant w ≡ (
        ok (new_audit id url user tenant now),
        record w {
          audits = w.audits ++ new_audit id url user tenant now ∷ [];
          jobs =
              w.jobs
              ++ job_of
                  (codes "geo.audit")
                  (payload_of (new_audit id url user tenant now))
                  audit_options
                ∷ [];
        },
      )
  unfolding create queue_audit enqueue
  create-sent room = rw (create, db.count_rows_lem, room, db.create_lem) refl

  create-unsent :
      (e : Thrown)
      → leb 5 (count (is_in_flight tenant) w.audits) ≡ false
      → create db id now (some e) url user tenant w ≡ (
        err e,
        record w {
          audits =
              change
                (has_id tenant id)
                (as_unqueued now)
                (w.audits ++ new_audit id url user tenant now ∷ []);
        },
      )
  unfolding create queue_audit enqueue
  create-unsent e room =
      rw (create, db.count_rows_lem, room, db.create_lem, db.update_many_lem) refl

  -- What a submission that is accepted leaves: the row, and the job for it.
  pub create-accepted :
      (send_error : Option Thrown) (audit : SiteAudit)
      → (create db id now send_error url user tenant w).0 ≡ ok audit
      → create db id now send_error url user tenant w ≡ (
        ok (new_audit id url user tenant now),
        record w {
          audits = w.audits ++ new_audit id url user tenant now ∷ [];
          jobs =
              w.jobs
              ++ job_of
                  (codes "geo.audit")
                  (payload_of (new_audit id url user tenant now))
                  audit_options
                ∷ [];
        },
      )
  create-accepted none audit accept =
      elim (Bool-cases (leb 5 (count (is_in_flight tenant) w.audits))) [
        | inl full ↦ (let refused = ap (λ x. x.0) (create-full none full) in cc)
        | inr room ↦ create-sent room
      ]
  create-accepted (some e) audit accept =
      elim (Bool-cases (leb 5 (count (is_in_flight tenant) w.audits))) [
        | inl full ↦ (let refused = ap (λ x. x.0) (create-full (some e) full) in cc)
        | inr room ↦ (let refused = ap (λ x. x.0) (create-unsent e room) in cc)
      ]

  after_room :
      (send_error : Option Thrown)
      → count (has_id tenant id) w.audits ≡ 0
      → leb 5 (count (is_in_flight tenant) w.audits) ≡ false
      → (count (is_in_flight tenant) (create db id now send_error url user tenant w).1.audits
          ≡ accepted (create db id now send_error url user tenant w).0
            + count (is_in_flight tenant) w.audits)
        × (length (create db id now send_error url user tenant w).1.jobs
            ≡ accepted (create db id now send_error url user tenant w).0 + length w.jobs)
        × (count (is_in_flight tenant) (create db id now send_error url user tenant w).1.audits
            ≤ max 5 (count (is_in_flight tenant) w.audits))
  after_room none fresh room =
      let a : SiteAudit = new_audit id url user tenant now in
      let job = job_of (codes "geo.audit") (payload_of a) audit_options in
      let added : count (is_in_flight tenant) (w.audits ++ a ∷ [])
          ≡ 1 + count (is_in_flight tenant) w.audits =
        ground (
          arith,
          count-append (is_in_flight tenant) w.audits (a ∷ []),
          new-in_flight id url user tenant now,
        ) in
      let few : count (is_in_flight tenant) w.audits < 5 = ground (arith, room) in
      rw (create-sent room, added)
        (refl, omega (arith, length-append w.jobs (job ∷ [])), omega (arith, few))
  after_room (some e) fresh room =
      let undone =
        count-undone (is_in_flight tenant) (has_id tenant id) (as_unqueued now) w.audits
          (new_audit id url user tenant now) fresh (new-unqueued id url user tenant now) in
      rw (create-unsent e room, undone) (omega arith, omega arith, omega arith)

  -- Where the id of the new row is new to the tenant: a submission that is accepted adds one audit
  -- in flight and one job, one that is refused or whose send fails adds neither, and no submission
  -- that runs alone takes the tenant above five audits in flight.
  pub create_capped :
      (send_error : Option Thrown)
      → count (has_id tenant id) w.audits ≡ 0
      → (count (is_in_flight tenant) (create db id now send_error url user tenant w).1.audits
          ≡ accepted (create db id now send_error url user tenant w).0
            + count (is_in_flight tenant) w.audits)
        × (length (create db id now send_error url user tenant w).1.jobs
            ≡ accepted (create db id now send_error url user tenant w).0 + length w.jobs)
        × (count (is_in_flight tenant) (create db id now send_error url user tenant w).1.audits
            ≤ max 5 (count (is_in_flight tenant) w.audits))
  create_capped send_error fresh =
      elim (Bool-cases (leb 5 (count (is_in_flight tenant) w.audits))) [
        | inl full ↦ rw (create-full send_error full) (omega arith, omega arith, omega arith)
        | inr room ↦ after_room send_error fresh room
      ]
