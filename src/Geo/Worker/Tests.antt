-- ===== src/Geo/Worker/Tests.antt =====
-- The theorems on the worker of modules/geo at concrete inputs.
use ai_search_api.Base.{
  ◌-◌, ◌≤◌, ◌<◌, ◌≡◌, refl, ◌⊎◌, true, false, none, some, List, [], ◌∷◌, ◌++◌, arith, str_eq, first,
  keep, count,
}
use ai_search_api.Base.Result.{Result, ok}
use ai_search_api.Base.Text.{codes}
use ai_search_api.Base.Prisma.{list_client}
use ai_search_api.Core.Tenancy.{scoped}
use ai_search_api.Geo.Finding.{Finding}
use ai_search_api.Geo.SiteAudit.{SiteAudit, World, new_audit}
use ai_search_api.Geo.Worker.{
  Surroundings, handle, claim, settle, complete, announce, reap_row, as_processing, reap_stale,
  is_stale, as_timed_out, stale_processing_ms,
}
use ai_search_api.Geo.Worker.Rows.{is_named, Follows}
use ai_search_api.Geo.Worker.Interleaving.{
  System, start, put_due, Step, submit, take_up, end_run, reap, deliver, Reach, here, next,
}
use ai_search_api.Geo.Worker.Notices.{live, told, notified_at_most_once}
use ai_search_api.Geo.Worker.Tracking.{Reach-Follows}
use ai_search_api.Core.Jobs.{job_of, enqueue}
use ai_search_api.Notifications.{unread_count}
use ai_search_api.Geo.Audits.{payload_of, audit_options, queue_audit, create, find_one}
use ai_search_api.Geo.Worker.Answered.{submission-answered}
use ai_search_api.Geo.Worker.Handler.{ended}
use ai_search_api.Geo.Worker.Reaper.{reap_stale-settles}

abbrev first_audit : SiteAudit
first_audit = new_audit "a1" (codes "https://site.test") "u1" "t1" 1000

abbrev tables : World
tables = record { audits = first_audit ∷ []; notifications = []; jobs = [] }

abbrev calm : Surroundings
calm = record { notify_succeeds = λ _. true; notification_id = λ _. "n1"; now = 2000 }

abbrev no_findings : SiteAudit → Result (List Finding)
no_findings _ = ok []

-- Meanwhile somebody else submits another audit.
abbrev submits_another : World → World
submits_another w = record w { audits = w.audits ++ first_audit ∷ [] }

submits_another-apart :
    (rows : List SiteAudit)
    → keep (is_named "a2") (rows ++ first_audit ∷ []) ≡ keep (is_named "a2") rows
submits_another-apart [] = refl
submits_another-apart (r ∷ rows) = ground (arith, submits_another-apart rows)

abbrev second_audit : SiteAudit
second_audit = new_audit "a2" (codes "https://two.test") "u1" "t1" 1500

abbrev with_second : World
with_second = (create list_client "a2" 1500 none (codes "https://two.test") "u1" "t1" tables).1

abbrev answered : World
answered = handle list_client no_findings submits_another calm "a2" "t1" with_second

submission-answered_example :
    (with_second.jobs ≡ job_of (codes "geo.audit") (payload_of second_audit) audit_options ∷ [])
    × (find_one list_client "t1" "a2" answered
        ≡ ok (ended 2000 (ok []) (as_processing 2000 second_audit)))
    × (unread_count list_client "t1" "u1" answered.notifications ≡ 1)
    × ((run' : SiteAudit → Result (List Finding)) (env' : Surroundings) (others' : World → World)
        → handle list_client run' others' env' "a2" "t1" answered ≡ answered)
unfolding create queue_audit enqueue unread_count scoped
submission-answered_example =
    submission-answered list_client no_findings calm "a2" 1500 (codes "https://two.test") "u1" "t1"
      tables submits_another refl (λ v. submits_another-apart v.audits) none second_audit
      with_second refl

abbrev late : Surroundings
late = record calm { now = 9000000 }

reap_stale-settles_example :
    (first (λ (a : SiteAudit). str_eq a.id "a1") (reap_stale list_client late tables).0.audits
      ≡ some (as_timed_out 9000000 first_audit))
    × (count
          (is_stale (9000000 - stale_processing_ms))
          (reap_stale list_client late tables).0.audits
        ≡ 0)
reap_stale-settles_example =
    reap_stale-settles list_client late tables "a1" first_audit refl refl (omega arith)

abbrev submitted : System
submitted = record { world = record tables { jobs = [] }; owed = []; used = "a1" ∷ [] }

abbrev taken : System
taken = record submitted {
  world = record submitted.world { audits = as_processing 2000 first_audit ∷ [] };
}

abbrev timed_out : SiteAudit
timed_out = as_timed_out 9000000 (as_processing 2000 first_audit)

abbrev reaped : System
reaped = record taken {
  world = record taken.world { audits = timed_out ∷ [] };
  owed = (first_audit, false) ∷ [];
}

-- The run ends after the reaper gave the audit up.
abbrev late_run : System
late_run = put_due (settle list_client 9000001 first_audit (ok []) reaped.world.audits) reaped

abbrev told_once : System
told_once = record late_run {
  world = announce list_client calm (some (first_audit, false)) late_run.world;
  owed = [];
}

submission : Step list_client start submitted
submission = submit "a1" (codes "https://site.test") "u1" "t1" 1000 refl

take_up_first : Step list_client submitted taken
unfolding claim scoped
take_up_first = take_up "a1" "t1" 2000

reap_first : Step list_client taken reaped
unfolding reap_row
reap_first = reap 8000000 9000000 first_audit

late_end : Step list_client reaped late_run
late_end = end_run first_audit 9000001 (ok [])

telling : Step list_client late_run told_once
unfolding settle complete scoped
telling = deliver calm [] [] (first_audit, false) refl

run_to_told : Reach list_client start told_once
run_to_told =
    next (next (next (next (next here submission) take_up_first) reap_first) late_end) telling

Reach-Follows_example :
    (first (is_named "a1") told_once.world.audits ≡ none)
    ⊎ ((q : SiteAudit) × (first (is_named "a1") told_once.world.audits ≡ some q)
        × Follows timed_out q)
Reach-Follows_example =
    Reach-Follows list_client {s = reaped} {t = told_once} "a1" timed_out
      (next (next (next here submission) take_up_first) reap_first) refl
      (next (next here late_end) telling)

notified_at_most_once_example :
    (told "a1" told_once.world.notifications ≤ 1)
    × (0 < live "a1" told_once.world.audits → told "a1" told_once.world.notifications ≡ 0)
notified_at_most_once_example = notified_at_most_once list_client run_to_told "a1"
