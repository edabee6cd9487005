-- ===== src/Geo/Worker/Notices.antt =====
-- modules/geo/geo-audit.worker.ts: an audit is announced at most once, however workers and the
-- reaper race, because only the write that ends it leads to a notification.
use ai_search_api.Base.{
  ℕ, ◌+◌, ◌≤◌, ◌<◌, String, ◌≡◌, refl, Bool, true, false, ◌&&◌, Option, none, some, List, [], ◌∷◌,
  ◌++◌, arith, str_eq, eq_iff, if◌then◌else◌, keep, count, change, count-append,
}
use ai_search_api.Base.Prisma.{Client}
use ai_search_api.Base.Result.{ok, err}
use ai_search_api.Base.Text.{Text}
use ai_search_api.Core.Tenancy.{scoped}
use ai_search_api.Notifications.Row.{Notification}
use ai_search_api.Geo.SiteAudit.{SiteAudit, new_audit, in_flight}
use ai_search_api.Geo.Audits.{has_id, as_unqueued}
use ai_search_api.Geo.Worker.{
  Announcement, Surroundings, announce, notify_input, row_of, claim, complete, mark_failed, settle,
  reap_row, is_claimable, is_running, is_stale_row, as_processing, as_completed, as_failed,
  as_timed_out, error_text,
}
use ai_search_api.Geo.Worker.Handler.{notify-notifications, notify-audits}
use ai_search_api.Geo.Worker.Rows.{is_named}
use ai_search_api.Geo.Worker.Interleaving.{
  System, start, mentions, with_due, put_due, Step, submit, unqueue, take_up, end_run, reap, purge,
  deliver, lose, Reach, here, next,
}

-- The rows with this id that are not finished, and the notifications and announcements of it.
abbrev pub live : String → List SiteAudit → ℕ
live i = count (λ r. str_eq r.id i && in_flight r.status)

abbrev pub is_about : String → Option String → Bool
is_about i none = false
is_about i (some j) = str_eq j i

abbrev pub told : String → List Notification → ℕ
told i = count (λ n. is_about i n.payload)

abbrev pub pledged : String → List Announcement → ℕ
pledged i = count (λ a. is_named i a.0)

-- Of an id that was given, one audit: still in flight, or its announcement is due, or made, or
-- lost.
abbrev pub IsTallied : System → Type 0
IsTallied s =
    (i : String)
    → (pledged i s.owed + told i s.world.notifications + live i s.world.audits ≤ mentions i s.used)
      × (count (is_named i) s.world.audits ≤ mentions i s.used)
      × (mentions i s.used ≤ 1)

live-append :
    (i id : String) (url : Text) (owner tenant : String) (now : ℕ) (xs : List SiteAudit)
    → live i (xs ++ new_audit id url owner tenant now ∷ [])
      ≡ live i xs + (if str_eq id i then 1 else 0)
live-append i id url owner tenant now xs = ground (
  arith,
  count-append (λ (r : SiteAudit). str_eq r.id i && in_flight r.status) xs
      (new_audit id url owner tenant now ∷ []),
)

named-append :
    (i id : String) (url : Text) (owner tenant : String) (now : ℕ) (xs : List SiteAudit)
    → count (is_named i) (xs ++ new_audit id url owner tenant now ∷ [])
      ≡ count (is_named i) xs + (if str_eq id i then 1 else 0)
named-append i id url owner tenant now xs =
    ground (arith, count-append (is_named i) xs (new_audit id url owner tenant now ∷ []))

named-change :
    (i : String) (p : SiteAudit → Bool) (f : SiteAudit → SiteAudit)
    → ((r : SiteAudit) → (f r).id ≡ r.id)
    → (xs : List SiteAudit) → count (is_named i) (change p f xs) ≡ count (is_named i) xs
named-change i p f same [] = refl
named-change i p f same (r ∷ xs) = ground (arith, same r, named-change i p f same xs)

named-keep :
    (i : String) (p : SiteAudit → Bool) (xs : List SiteAudit)
    → count (is_named i) (keep p xs) ≤ count (is_named i) xs
named-keep i p [] = omega arith
named-keep i p (r ∷ xs) = ground (arith, named-keep i p xs)

live-claim :
    (i id tenant : String) (now : ℕ) (xs : List SiteAudit)
    → live i (change (is_claimable id tenant) (as_processing now) xs) ≡ live i xs
unfolding scoped
live-claim i id tenant now [] = refl
live-claim i id tenant now (r ∷ xs) = ground (arith, live-claim i id tenant now xs)

live-keep :
    (i : String) (p : SiteAudit → Bool) (xs : List SiteAudit) → live i (keep p xs) ≤ live i xs
live-keep i p [] = omega arith
live-keep i p (r ∷ xs) = ground (arith, live-keep i p xs)

live-unqueue :
    (i tenant id : String) (now : ℕ) (xs : List SiteAudit)
    → live i (change (has_id tenant id) (as_unqueued now) xs) ≤ live i xs
unfolding scoped
live-unqueue i tenant id now [] = omega arith
live-unqueue i tenant id now (r ∷ xs) = ground (arith, live-unqueue i tenant id now xs)

owed_by : String → Option Announcement → ℕ
owed_by i none = 0
owed_by i (some a) = if is_named i a.0 then 1 else 0

pledged-with_due :
    (i : String) (due : Option Announcement) (owed : List Announcement)
    → pledged i (with_due due owed) ≡ owed_by i due + pledged i owed
unfolding owed_by
pledged-with_due i none owed = omega arith
pledged-with_due i (some a) owed = ground arith

pledged-remove :
    (i : String) (due : Announcement) (before rest : List Announcement)
    → pledged i (before ++ due ∷ rest)
      ≡ (if is_named i due.0 then 1 else 0) + pledged i (before ++ rest)
pledged-remove i due before rest = ground (
  arith,
  count-append (λ (a : Announcement). is_named i a.0) before (due ∷ rest),
  count-append (λ (a : Announcement). is_named i a.0) before rest,
)

-- A write that ends rows with this id.
module _ (id : String) (p : SiteAudit → Bool) (f : SiteAudit → SiteAudit)
    (selects : (r : SiteAudit) → p r ≡ true → (str_eq r.id id ≡ true) × (in_flight r.status ≡ true))
    (ends : (r : SiteAudit) → ((f r).id ≡ r.id) × (in_flight (f r).status ≡ false)) where
  live-end :
      (i : String) (xs : List SiteAudit)
      → live i (change p f xs) + (if str_eq id i then count p xs else 0) ≡ live i xs
  live-end i [] = ground arith
  live-end i (r ∷ xs) =
      ground (arith, selects r, ends r, eq_iff r.id id, eq_iff r.id i, eq_iff id i, live-end i xs)

  end-IsTallied :
      (due : Option Announcement) (s : System)
      → ((i : String) → owed_by i due ≤ (if str_eq id i then count p s.world.audits else 0))
      → IsTallied s
      → IsTallied (put_due (change p f s.world.audits, due) s)
  end-IsTallied due s only h i = omega (
    arith,
    h i,
    only i,
    pledged-with_due i due s.owed,
    live-end i s.world.audits,
    named-change i p f (λ r. (ends r).0) s.world.audits,
  )

module _ (db : Client) where
  told-announce :
      (i : String) (env : Surroundings) (due : Announcement) (s : System)
      → told i (announce db env (some due) s.world).notifications
        ≤ told i s.world.notifications + (if is_named i due.0 then 1 else 0)
  unfolding announce notify_input
  told-announce i env (audit, success) s = rw (notify-notifications db env audit success s.world) (
      ground (
        arith,
        count-append (λ (n : Notification). is_about i n.payload) s.world.notifications
            (row_of env audit (notify_input audit success) ∷ []),
      ))

  pub announce-audits :
      (env : Surroundings) (due : Announcement) (s : System)
      → (announce db env (some due) s.world).audits ≡ s.world.audits
  unfolding announce
  announce-audits env (audit, success) s = notify-audits db env audit success s.world

  Step-IsTallied : {s t : System} → Step db s t → IsTallied s → IsTallied t
  unfolding claim complete mark_failed settle reap_row scoped owed_by
  Step-IsTallied {s} (submit id url owner tenant now unused) h i = rw db.create_lem (
      ground (
        arith,
        h i,
        unused,
        live-append i id url owner tenant now s.world.audits,
        named-append i id url owner tenant now s.world.audits,
        eq_iff id i,
      ))
  Step-IsTallied {s} (unqueue id tenant now) h i = rw db.update_many_lem (
      omega (
        arith,
        h i,
        live-unqueue i tenant id now s.world.audits,
        named-change i (has_id tenant id) (as_unqueued now) (λ r. refl) s.world.audits,
      ))
  Step-IsTallied {s} (take_up id tenant now) h i = rw db.update_many_lem (
      omega (
        arith,
        h i,
        live-claim i id tenant now s.world.audits,
        named-change i (is_claimable id tenant) (as_processing now) (λ r. refl) s.world.audits,
      ))
  Step-IsTallied {s} (end_run audit now (ok findings)) h i = rw db.update_many_lem (
      end-IsTallied audit.id (is_running audit.id audit.tenant_id) (as_completed now findings)
        (λ r e. ground arith) (λ r. (refl, refl)) _ s (λ j. ground arith) h i)
  Step-IsTallied {s} (end_run audit now (err e)) h i = rw db.update_many_lem (
      end-IsTallied audit.id (is_running audit.id audit.tenant_id) (as_failed now (error_text e))
        (λ r e. ground arith) (λ r. (refl, refl)) _ s (λ j. ground arith) h i)
  Step-IsTallied {s} (reap cutoff now row) h i = rw db.update_many_lem (
      end-IsTallied row.id (is_stale_row cutoff row.id) (as_timed_out now) (λ r e. ground arith)
        (λ r. (refl, refl)) _ s (λ j. ground arith) h i)
  Step-IsTallied {s} (purge cutoff) h i =
      rw db.delete_many_lem
        (omega (arith, h i, live-keep i _ s.world.audits, named-keep i _ s.world.audits))
  Step-IsTallied {s} (deliver env before rest due e) h i =
      let fewer : pledged i s.owed
          ≡ (if is_named i due.0 then 1 else 0) + pledged i (before ++ rest) =
        rw e (pledged-remove i due before rest) in
      rw (announce-audits env due s) (omega (arith, h i, fewer, told-announce i env due s))
  Step-IsTallied {s} (lose before rest due e) h i =
      let fewer : pledged i s.owed
          ≡ (if is_named i due.0 then 1 else 0) + pledged i (before ++ rest) =
        rw e (pledged-remove i due before rest) in
      omega (arith, h i, fewer)

  pub Reach-IsTallied : {t : System} → Reach db start t → IsTallied t
  Reach-IsTallied here i = omega arith
  Reach-IsTallied (next r st) i = Step-IsTallied st (Reach-IsTallied r) i

  -- From empty tables, whatever workers, reaper, purge and submissions do and in any order, each
  -- submission with an id that was never given before: the notifications table has at most one
  -- notification about each audit, and none while the audit is PENDING or PROCESSING.
  pub notified_at_most_once :
      {t : System}
      → Reach db start t
      → (i : String)
      → (told i t.world.notifications ≤ 1)
        × (0 < live i t.world.audits → told i t.world.notifications ≡ 0)
  notified_at_most_once {t} r i = omega (arith, Reach-IsTallied r i)
