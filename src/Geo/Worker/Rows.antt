-- ===== src/Geo/Worker/Rows.antt =====
-- How the rows of the audit table may change under modules/geo/geo-audit.worker.ts.
use ai_search_api.Base.{
  ℕ, ◌≤◌, String, ◌≡◌, refl, ◌∙◌, inl, inr, Bool, true, false, some, List, [], ◌∷◌, ◌++◌, arith,
  str_eq, Bool-cases, first, keep, count, change, All,
}
use native.Mathlib.Nat.{le_trans, le_refl}
use ai_search_api.Geo.SiteAudit.{
  AuditStatus, pending, processing, completed, failed, SiteAudit, in_flight,
}

abbrev pub rank : AuditStatus → ℕ
rank pending = 0
rank processing = 1
rank completed = 2
rank failed = 2

-- One audit at two moments: what it is of never changes, its status only moves forward, and once
-- it is finished it stays so, with the same findings and the same time of fetching.
pub record Follows (r r' : SiteAudit) : Type 0 where
  pub id : r'.id ≡ r.id
  pub tenant : r'.tenant_id ≡ r.tenant_id
  pub owner : r'.requested_by_id ≡ r.requested_by_id
  pub url : r'.url ≡ r.url
  pub created : r'.created_at ≡ r.created_at
  pub forward : rank r.status ≤ rank r'.status
  pub frozen :
      in_flight r.status ≡ false
      → (in_flight r'.status ≡ false) × (r'.findings ≡ r.findings) × (r'.fetched_at ≡ r.fetched_at)

pub Follows-refl : (r : SiteAudit) → Follows r r
Follows-refl r = record {
  id = refl;
  tenant = refl;
  owner = refl;
  url = refl;
  created = refl;
  forward = le_refl _;
  frozen = λ h. (h, refl, refl);
}

pub Follows-trans : {a b c : SiteAudit} → Follows a b → Follows b c → Follows a c
Follows-trans {a} {b} {c} f g = record {
  id = g.id ∙ f.id;
  tenant = g.tenant ∙ f.tenant;
  owner = g.owner ∙ f.owner;
  url = g.url ∙ f.url;
  created = g.created ∙ f.created;
  forward = le_trans f.forward g.forward;
  frozen = λ h.
      let (over, found, fetched) = f.frozen h in
      let (over', found', fetched') = g.frozen over in (over', found' ∙ found, fetched' ∙ fetched);
}

abbrev pub is_named : String → SiteAudit → Bool
is_named i r = str_eq r.id i

-- Every row of the table with the audit's id is that audit later.
module _ (r : SiteAudit) where
  abbrev pub Tracks : List SiteAudit → Type 0
  Tracks xs = All (λ q. is_named r.id q ≡ true → Follows r q) xs

  pub Tracks-none : (xs : List SiteAudit) → count (is_named r.id) xs ≡ 0 → Tracks xs
  Tracks-none [] h = tt
  Tracks-none (q ∷ xs) h = (λ e. absurd (ground (arith, h, e)), Tracks-none xs (ground (arith, h)))

  pub Tracks-only :
      (xs : List SiteAudit)
      → first (is_named r.id) xs ≡ some r
      → count (is_named r.id) xs ≤ 1
      → Tracks xs
  Tracks-only [] found single = cc
  Tracks-only (q ∷ xs) found single = elim (Bool-cases (is_named r.id q)) [
    | inl e ↦
        let same : q ≡ r = ground (arith, e, found) in
        (λ _. rw same (Follows-refl r), Tracks-none xs (ground (arith, e, single)))
    | inr e ↦ (
      λ e'. absurd (ground (arith, e, e')),
      Tracks-only xs (ground (arith, e, found)) (ground (arith, e, single)),
    )
  ]

  pub Tracks-change :
      (p : SiteAudit → Bool) (f : SiteAudit → SiteAudit)
      → ((q : SiteAudit) → p q ≡ true → Follows q (f q))
      → (xs : List SiteAudit) → Tracks xs
      → Tracks (change p f xs)
  Tracks-change p f moves [] h = tt
  Tracks-change p f moves (q ∷ xs) h = elim (Bool-cases (p q)) [
    | inl e ↦ rw e (
      λ n. Follows-trans (h.0 (ground (arith, n, (moves q e).id))) (moves q e),
      Tracks-change p f moves xs h.1,
    )
    | inr e ↦ rw e (h.0, Tracks-change p f moves xs h.1)
  ]

  pub Tracks-keep : (p : SiteAudit → Bool) (xs : List SiteAudit) → Tracks xs → Tracks (keep p xs)
  Tracks-keep p [] h = tt
  Tracks-keep p (q ∷ xs) h = elim (Bool-cases (p q)) [
    | inl e ↦ rw e (h.0, Tracks-keep p xs h.1)
    | inr e ↦ rw e (Tracks-keep p xs h.1)
  ]

  pub Tracks-append :
      (new : SiteAudit)
      → is_named r.id new ≡ false
      → (xs : List SiteAudit) → Tracks xs
      → Tracks (xs ++ new ∷ [])
  Tracks-append new other [] h = (λ e. absurd (ground (arith, other, e)), tt)
  Tracks-append new other (q ∷ xs) h = (h.0, Tracks-append new other xs h.1)

  pub Tracks-first :
      (q : SiteAudit) (xs : List SiteAudit)
      → first (is_named r.id) xs ≡ some q
      → Tracks xs
      → Follows r q
  Tracks-first q [] found h = cc
  Tracks-first q (x ∷ xs) found h = elim (Bool-cases (is_named r.id x)) [
    | inl e ↦ let same : x ≡ q = ground (arith, e, found) in rw same at (h.0 e)
    | inr e ↦ Tracks-first q xs (ground (arith, e, found)) h.1
  ]
