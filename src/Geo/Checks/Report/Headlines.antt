-- ===== src/Geo/Checks/Report/Headlines.antt =====
-- modules/geo/audit-runner.ts: what the report of an audit says.
use ai_search_api.Base.{
  ℕ, ◌≤◌, ◌≡◌, refl, sym, ap, ◌⊎◌, inl, inr, Bool, true, false, not, ◌&&◌, Option, List, [], ◌∷◌,
  map, arith, ltb, leb, Bool-cases, length, all, All,
}
use ai_search_api.Base.Result.{Result, ok, err, Result-cases}
use ai_search_api.Base.Text.{Text, codes, trim}
use ai_search_api.Geo.PlainText.{plain_text}
use ai_search_api.Geo.PlainText.Markup.{is_no_ascii_control, has_no_tag, plain_text_safe}
use ai_search_api.Geo.PageFetcher.{Web, Trace, fetch}
use ai_search_api.Geo.Finding.{FindingStatus, good, needs_work, Finding}
use ai_search_api.Geo.Checks.Page.{
  Document, PageContext, or_empty, basic_authority_check, client_rendering_check, looks_client_side,
  body_text, scripts_of, metadata_problems, core_metadata_check, llms_txt_check, has_author,
  has_date,
}
use ai_search_api.Geo.Checks.CrawlerAccess.{crawler_access_check, blocked_bots}
use ai_search_api.Geo.Checks.StructuredData.{
  Json, extract_types, structured_data_check, collect_scripts,
}
use ai_search_api.Geo.Checks.Report.{all_checks, context_of, run_audit}

abbrev pub is_good : FindingStatus → Bool
is_good good = true
is_good needs_work = false

abbrev pub within : ℕ → ℕ → ℕ → Bool
within low high n = leb low n && leb n high

abbrev pub is_empty : {A : Type 0} → List A → Bool
is_empty [] = true
is_empty (x ∷ xs) = false

-- What a finding is about, and whether it is good.
abbrev pub headline : Finding → Text × Bool
headline f = (f.dimension, is_good f.status)

List-cases : {A : Type 0} (xs : List A) → (xs ≡ []) ⊎ ((a : A) × (rest : List A) × (xs ≡ a ∷ rest))
List-cases [] = inl refl
List-cases (x ∷ xs) = inr (x, xs, refl)

access-headline :
    (ctx : PageContext)
    → headline (crawler_access_check ctx) ≡ (codes "ai-crawler-access", is_empty (blocked_bots ctx))
unfolding crawler_access_check
access-headline ctx = elim (List-cases (blocked_bots ctx)) [
  | inl h ↦ rw (crawler_access_check, h) refl
  | inr (b, bs, h) ↦ rw (crawler_access_check, h) refl
]

structured-headline :
    (parse : Text → Option Json) (ctx : PageContext)
    → headline (structured_data_check parse ctx)
      ≡ (codes "structured-data", not (is_empty (extract_types parse ctx)))
unfolding structured_data_check
structured-headline parse ctx = elim (List-cases (extract_types parse ctx)) [
  | inl h ↦ rw (structured_data_check, h) refl
  | inr (b, bs, h) ↦ rw (structured_data_check, h) refl
]

rendering-headline :
    (ctx : PageContext)
    → headline (client_rendering_check ctx) ≡ (
      codes "client-rendering",
      not (looks_client_side (length (body_text ctx.dom)) (scripts_of ctx.dom)),
    )
unfolding client_rendering_check
rendering-headline ctx =
    elim (Bool-cases (looks_client_side (length (body_text ctx.dom)) (scripts_of ctx.dom))) [
      | inl h ↦ rw (h) refl
      | inr h ↦ rw (h) refl
    ]

authority-headline :
    (ctx : PageContext)
    → headline (basic_authority_check ctx)
      ≡ (codes "basic-authority", has_author ctx.dom && has_date ctx.dom)
unfolding basic_authority_check
authority-headline ctx = elim (Bool-cases (has_author ctx.dom && has_date ctx.dom)) [
  | inl h ↦ rw (h) refl
  | inr h ↦ rw (h) refl
]

llms-headline :
    (ctx : PageContext)
    → headline (llms_txt_check ctx)
      ≡ (codes "llms-txt", ltb 0 (length (trim (or_empty ctx.llms_txt))))
unfolding llms_txt_check
llms-headline ctx = elim (Bool-cases (ltb 0 (length (trim (or_empty ctx.llms_txt))))) [
  | inl h ↦ rw (h) refl
  | inr h ↦ rw (h) refl
]

-- The title of 10 to 70 units, the description of 50 to 160, and Open Graph.
abbrev pub has_metadata : Document → Bool
has_metadata d =
    within 10 70 (length (trim (d.first_text (codes "title"))))
    && within 50 160
        (length (trim (or_empty (d.attr (codes "meta[name=\"description\"]") (codes "content")))))
    && ltb 0 (d.matched (codes "meta[property^=\"og:\"]"))

is_empty-metadata_problems :
    (title description : ℕ) (og : Bool)
    → is_empty (metadata_problems title description og)
      ≡ (within 10 70 title && within 50 160 description && og)
unfolding metadata_problems
is_empty-metadata_problems title description og = ground arith

metadata-headline :
    (ctx : PageContext)
    → headline (core_metadata_check ctx) ≡ (codes "core-metadata", has_metadata ctx.dom)
unfolding core_metadata_check
metadata-headline ctx =
    let title = length (trim (ctx.dom.first_text (codes "title"))) in
    let description =
      length
        (trim (or_empty (ctx.dom.attr (codes "meta[name=\"description\"]") (codes "content")))) in
    let og = ltb 0 (ctx.dom.matched (codes "meta[property^=\"og:\"]")) in
    let problems = metadata_problems title description og in
    rw (sym (is_empty-metadata_problems title description og)) elim (List-cases problems) [
      | inl h ↦ rw (core_metadata_check, h) refl
      | inr (p, ps, h) ↦ rw (core_metadata_check, h) refl
    ]

-- What each check is about, and whether it is good.
abbrev pub headlines : List Finding → List (Text × Bool)
headlines = map headline

abbrev pub expected_headlines : (Text → Option Json) → PageContext → List (Text × Bool)
expected_headlines parse ctx =
    (codes "ai-crawler-access", is_empty (blocked_bots ctx))
    ∷ (
      codes "client-rendering",
      not (looks_client_side (length (body_text ctx.dom)) (scripts_of ctx.dom)),
    )
    ∷ (codes "structured-data", not (is_empty (extract_types parse ctx)))
    ∷ (codes "core-metadata", has_metadata ctx.dom)
    ∷ (codes "basic-authority", has_author ctx.dom && has_date ctx.dom)
    ∷ (codes "llms-txt", ltb 0 (length (trim (or_empty ctx.llms_txt))))
    ∷ []

abbrev pub on_ok : {A B : Type 0} → (A → B) → Result A → Result B
on_ok f (ok a) = ok (f a)
on_ok f (err e) = err e

all_checks-headlines :
    (parse : Text → Option Json) (ctx : PageContext)
    → headlines (map (λ check. check ctx) (all_checks parse)) ≡ expected_headlines parse ctx
unfolding all_checks
all_checks-headlines parse ctx =
    rw
      (
        access-headline ctx,
        rendering-headline ctx,
        structured-headline parse ctx,
        metadata-headline ctx,
        authority-headline ctx,
        llms-headline ctx,
      )
      refl

-- The audit fails with the fetcher's error, or gives exactly six findings in the report's order,
-- each good exactly when: no AI bot is blocked; the page does not look client-rendered; some
-- schema.org type is found; title and description have a sensible length and Open Graph is there;
-- author and date are there; llms.txt is not blank. It sends what the fetcher sends.
pub run_audit-headlines :
    (web : Web) (load : Text → Document) (parse : Text → Option Json) (allow : Bool) (url : Text)
    (t : Trace)
    → on_ok headlines (run_audit web load parse allow url t).0
        ≡ on_ok (λ page. expected_headlines parse (context_of load page)) (fetch web allow url t).0
      × (run_audit web load parse allow url t).1 ≡ (fetch web allow url t).1
unfolding run_audit
run_audit-headlines web load parse allow url t = elim (Result-cases (fetch web allow url t).0) [
  | inl (page, h) ↦
      rw (run_audit, h) (ap ok (all_checks-headlines parse (context_of load page)), refl)
  | inr (e, h) ↦ rw (run_audit, h) (refl, refl)
]

types_safe :
    (ts : List Text)
    → All
        (λ t. length t ≤ 60 × all is_no_ascii_control t ≡ true × has_no_tag t ≡ true)
        (map (λ t. plain_text t 60) ts)
types_safe [] = tt
types_safe (t ∷ ts) = (plain_text_safe t 60, types_safe ts)

-- Every type name that is taken from the page is at most 60 units long, without ASCII
-- control characters, and without a tag.
pub extract_types_safe :
    (parse : Text → Option Json) (ctx : PageContext)
    → All
        (λ t. length t ≤ 60 × all is_no_ascii_control t ≡ true × has_no_tag t ≡ true)
        (extract_types parse ctx)
unfolding extract_types
extract_types_safe parse ctx =
    types_safe
      (collect_scripts parse (ctx.dom.texts (codes "script[type=\"application/ld+json\"]")) [])
