-- ===== src/Geo/Worker/Reaper.antt =====
-- `reapStale` of modules/geo/geo-audit.worker.ts, and `purgeOld`.
use ai_search_api.Base.{
  ℕ, ◌+◌, ◌-◌, ◌<◌, String, ◌≡◌, refl, sym, ◌∙◌, Bool, true, false, Option, none, some, ◌&&◌, List,
  [], ◌∷◌, arith, str_eq, eq_refl, any, first, first-change, keep, count, change, All, count-change,
}
use ai_search_api.Base.Prisma.{Client}
use ai_search_api.Geo.SiteAudit.{SiteAudit, World, in_flight}
use ai_search_api.Geo.Worker.{
  Surroundings, Announcement, announce, reap_row, after_reap, reap_rows, reap_stale, is_stale,
  is_stale_row, as_timed_out, stale_processing_ms,
}
use ai_search_api.Geo.Worker.Handler.{notify-audits}

module _ (cutoff now : ℕ) where
  -- Stale, and one of the candidates.
  abbrev among : List SiteAudit → SiteAudit → Bool
  among candidates r = any (λ (c : SiteAudit). str_eq r.id c.id) candidates && is_stale cutoff r

  among-cons :
      (c : SiteAudit) (cs xs : List SiteAudit)
      → change
          (among cs)
          (as_timed_out now)
          (change (is_stale_row cutoff c.id) (as_timed_out now) xs)
        ≡ change (among (c ∷ cs)) (as_timed_out now) xs
  among-cons c cs [] = refl
  among-cons c cs (r ∷ xs) = ground (arith, among-cons c cs xs)

  change-congr :
      (p q : SiteAudit → Bool) (xs : List SiteAudit)
      → All (λ r. p r ≡ q r) xs
      → change p (as_timed_out now) xs ≡ change q (as_timed_out now) xs
  change-congr p q [] h = refl
  change-congr p q (r ∷ xs) h = ground (arith, change-congr p q xs h.1, h.0)

change-never : (f : SiteAudit → SiteAudit) (xs : List SiteAudit) → change (λ _. false) f xs ≡ xs
change-never f [] = refl
change-never f (r ∷ xs) = ground (arith, change-never f xs)

abbrev listed : List SiteAudit → SiteAudit → Bool
listed candidates r = any (λ (c : SiteAudit). str_eq r.id c.id) candidates

module _ (cutoff : ℕ) (cs : List SiteAudit) where
  among-is_stale :
      (xs : List SiteAudit)
      → ((r : SiteAudit) → listed (keep (is_stale cutoff) xs) r ≡ true → listed cs r ≡ true)
      → All (λ r. (listed cs r && is_stale cutoff r) ≡ is_stale cutoff r) xs
  among-is_stale [] h = tt
  among-is_stale (r ∷ xs) h =
      (ground (arith, h r, eq_refl r.id), among-is_stale xs (λ r' e. ground (arith, h r')))

module _ (db : Client) (env : Surroundings) where
  after_reap-audits :
      (written : List SiteAudit × Option Announcement) (s : World × ℕ)
      → (after_reap db env written s).0.audits ≡ written.0
  unfolding after_reap announce
  after_reap-audits (rows, none) s = refl
  after_reap-audits (rows, some (row, success)) s =
      notify-audits db env row success (record s.0 { audits = rows })

  reap_rows-audits :
      (cutoff : ℕ) (cs : List SiteAudit) (s : World × ℕ)
      → (reap_rows db env cutoff cs s).0.audits
        ≡ change (among cutoff env.now cs) (as_timed_out env.now) s.0.audits
  unfolding reap_rows
  reap_rows-audits cutoff [] s = sym (change-never (as_timed_out env.now) s.0.audits)
  reap_rows-audits cutoff (c ∷ cs) s =
      reap_rows-audits cutoff cs (after_reap db env (reap_row db cutoff env.now c s.0.audits) s)
      ∙ rw (after_reap-audits, db.update_many_lem) (among-cons cutoff env.now c cs s.0.audits)

  -- One run of the reaper with nobody in between fails exactly the audits that are PENDING or
  -- PROCESSING and were not written for fifteen minutes, of every tenant, with "Audit timed out",
  -- and leaves every other row as it is.
  pub reap_stale_exact :
      (w : World)
      → (reap_stale db env w).0.audits
        ≡ change (is_stale (env.now - stale_processing_ms)) (as_timed_out env.now) w.audits
  unfolding reap_stale
  reap_stale_exact w = rw db.find_many_lem (
      reap_rows-audits _ (keep (is_stale (env.now - stale_processing_ms)) w.audits) (w, 0)
      ∙ change-congr (env.now - stale_processing_ms) env.now _ _ w.audits
          (among-is_stale _ _ w.audits (λ r e. e)))

  -- An audit that is PENDING or PROCESSING, and that nobody has written for more than fifteen
  -- minutes when the reaper runs with nobody in between, is FAILED after that run with "Audit timed
  -- out", and no such audit of any tenant is left.
  pub reap_stale-settles :
      (w : World) (id : String) (r : SiteAudit)
      → first (λ (a : SiteAudit). str_eq a.id id) w.audits ≡ some r
      → in_flight r.status ≡ true
      → r.updated_at + stale_processing_ms < env.now
      → (first (λ (a : SiteAudit). str_eq a.id id) (reap_stale db env w).0.audits
          ≡ some (as_timed_out env.now r))
        × (count (is_stale (env.now - stale_processing_ms)) (reap_stale db env w).0.audits ≡ 0)
  reap_stale-settles w id r found waiting late =
      let cutoff = env.now - stale_processing_ms in
      let stale : is_stale cutoff r ≡ true = ground (arith, waiting, late) in
      rw (reap_stale_exact w) (
        first-change (λ a. str_eq a.id id) (is_stale cutoff) (as_timed_out env.now) (λ a. refl)
              w.audits r found
            ∙ rw stale refl,
        count-change (is_stale cutoff) (as_timed_out env.now) (λ a h. refl) w.audits,
      )
