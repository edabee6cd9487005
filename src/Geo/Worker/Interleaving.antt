-- ===== src/Geo/Worker/Interleaving.antt =====
-- Many workers, the reaper, the purge and the submissions, one database operation at a time in any
-- order: the writes of modules/geo/geo-audit.worker.ts and audits.service.ts as steps.
use ai_search_api.Base.{ℕ, String, ◌≡◌, Option, none, some, List, [], ◌∷◌, ◌++◌, str_eq, ltb, count}
use ai_search_api.Base.Result.{Result}
use ai_search_api.Base.Text.{Text}
use ai_search_api.Base.Prisma.{Client}
use ai_search_api.Geo.Finding.{Finding}
use ai_search_api.Geo.SiteAudit.{SiteAudit, World, new_audit}
use ai_search_api.Geo.Audits.{has_id, as_unqueued}
use ai_search_api.Geo.Worker.{Announcement, Surroundings, claim, settle, reap_row, announce}

-- The tables, the announcements that a worker or the reaper is about to make, and the ids that were
-- ever given to an audit.
pub record System : Type 0 where
  pub world : World
  pub owed : List Announcement
  pub used : List String

abbrev pub start : System
start = record {
  world = record { audits = []; notifications = []; jobs = [] };
  owed = [];
  used = [];
}

abbrev pub mentions : String → List String → ℕ
mentions i = count (λ j. str_eq j i)

abbrev pub with_due : Option Announcement → List Announcement → List Announcement
with_due none owed = owed
with_due (some due) owed = due ∷ owed

-- The tables with a write of the audits.
abbrev pub put_audits : List SiteAudit → System → System
put_audits rows s = record s { world = record s.world { audits = rows } }

-- A write of the audits, and what it leaves to announce.
abbrev pub put_due : List SiteAudit × Option Announcement → System → System
put_due (rows, due) s = record (put_audits rows s) { owed = with_due due s.owed }

module _ (db : Client) where
  -- One operation, by anyone, at any time, with any arguments. A new row has an id that was never
  -- given before. `unqueue` is the write after a failed send. An announcement that is due is made
  -- in any order, or is never made (the process stops).
  pub data Step (s : System) : System → Type 0 where
    submit :
        (id : String) (url : Text) (owner tenant : String) (now : ℕ)
        → mentions id s.used ≡ 0
        → Step s
            (record (put_audits (db.create (new_audit id url owner tenant now) s.world.audits) s) {
              used = id ∷ s.used;
            })
    unqueue :
        (id tenant : String) (now : ℕ)
        → Step s
            (put_audits (db.update_many (has_id tenant id) (as_unqueued now) s.world.audits).0 s)
    take_up :
        (id tenant : String) (now : ℕ)
        → Step s (put_audits (claim db id tenant now s.world.audits).0 s)
    end_run :
        (audit : SiteAudit) (now : ℕ) (result : Result (List Finding))
        → Step s (put_due (settle db now audit result s.world.audits) s)
    reap :
        (cutoff now : ℕ) (row : SiteAudit)
        → Step s (put_due (reap_row db cutoff now row s.world.audits) s)
    purge :
        (cutoff : ℕ)
        → Step s (put_audits (db.delete_many (λ r. ltb r.created_at cutoff) s.world.audits).0 s)
    deliver :
        (env : Surroundings) (before rest : List Announcement) (due : Announcement)
        → s.owed ≡ before ++ due ∷ rest
        → Step s (record s { world = announce db env (some due) s.world; owed = before ++ rest })
    lose :
        (before rest : List Announcement) (due : Announcement)
        → s.owed ≡ before ++ due ∷ rest
        → Step s (record s { owed = before ++ rest })

  pub data Reach (s : System) : System → Type 0 where
    here : Reach s s
    next : {t u : System} → Reach s t → Step t u → Reach s u
