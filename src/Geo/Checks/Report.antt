-- ===== src/Geo/Checks/Report.antt =====
-- modules/geo/checks/index.ts and modules/geo/audit-runner.ts.
pub mod Headlines
use ai_search_api.Base.{Bool, Option, List, [], ◌∷◌, map}
use ai_search_api.Base.Result.{Result, ok, err}
use ai_search_api.Base.Text.{Text}
use ai_search_api.Geo.PageFetcher.{Web, Trace, FetchedPage, fetch}
use ai_search_api.Geo.Finding.{Finding}
use ai_search_api.Geo.Checks.Page.{
  Document, PageContext, basic_authority_check, client_rendering_check, core_metadata_check,
  llms_txt_check,
}
use ai_search_api.Geo.Checks.CrawlerAccess.{crawler_access_check}
use ai_search_api.Geo.Checks.StructuredData.{Json, structured_data_check}

-- In the order of the report.
unfoldable pub all_checks : (Text → Option Json) → List (PageContext → Finding)
unfolding crawler_access_check client_rendering_check structured_data_check core_metadata_check
    basic_authority_check llms_txt_check
all_checks parse =
    crawler_access_check
    ∷ client_rendering_check
    ∷ structured_data_check parse
    ∷ core_metadata_check
    ∷ basic_authority_check
    ∷ llms_txt_check
    ∷ []

abbrev pub context_of : (Text → Document) → FetchedPage → PageContext
context_of load page = record {
  url = page.url;
  html = page.html;
  dom = load page.html;
  robots_txt = page.robots_txt;
  llms_txt = page.llms_txt;
}

-- `AuditRunner.run`; `load` is cheerio's, `parse` is `JSON.parse`.
unfoldable pub run_audit :
    Web
    → (Text → Document)
    → (Text → Option Json)
    → Bool
    → Text
    → Trace
    → Result (List Finding) × Trace
unfolding all_checks
run_audit web load parse allow_private url t =
    let (fetched, t') = fetch web allow_private url t in
    elim fetched [
      | err e ↦ (err e, t')
      | ok page ↦ (ok (map (λ check. check (context_of load page)) (all_checks parse)), t')
    ]
