-- ===== src/Geo/Checks/Page.antt =====
-- modules/geo/checks: the checks that ask what the page has. cheerio's answers are parameters.
use ai_search_api.Base.{
  ℕ, Bool, ◌&&◌, ◌||◌, Option, none, some, List, [], ◌∷◌, ◌++◌, ltb, leb, if◌then◌else◌, length,
  count,
}
use ai_search_api.Base.Text.{join, Text, codes, text_eq, trim, to_lower_case}
use ai_search_api.Geo.Numeral.{show}
use ai_search_api.Geo.PlainText.{collapse, plain_text}
use ai_search_api.Geo.Finding.{FindingStatus, good, needs_work, hard, advisory, Finding}

-- What the checks ask of `$`, for a selector: how many elements it selects, the text of them all
-- and of the first, the text of each, and an attribute of the first and of each.
pub record Document : Type 0 where
  pub matched : Text → ℕ
  pub text_of : Text → Text
  pub first_text : Text → Text
  pub texts : Text → List Text
  pub attr : Text → Text → Option Text
  pub attrs : Text → Text → List (Option Text)

pub record PageContext : Type 0 where
  pub url : Text
  pub html : Text
  pub dom : Document
  pub robots_txt : Option Text
  pub llms_txt : Option Text

abbrev pub or_empty : Option Text → Text
or_empty none = []
or_empty (some s) = s

unfoldable pub has_author : Document → Bool
has_author d =
    ltb 0 (d.matched (codes "meta[name=\"author\"]"))
    || ltb 0 (d.matched (codes "[rel=\"author\"]"))

unfoldable pub has_date : Document → Bool
has_date d =
    ltb 0 (d.matched (codes "meta[property=\"article:published_time\"]"))
    || ltb 0 (d.matched (codes "time[datetime]"))

abbrev authority_finding : FindingStatus → Text → Text → Text → Finding
authority_finding status summary detail recommendation = record {
  dimension = codes "basic-authority";
  title = codes "Authority & freshness signals";
  status = status;
  summary = summary;
  detail = detail;
  recommendation = recommendation;
  basis = codes "Google's E-E-A-T guidance (authorship, freshness).";
  strength = advisory;
}

unfoldable pub basic_authority_check : PageContext → Finding
unfolding has_author has_date
basic_authority_check ctx =
    if has_author ctx.dom && has_date ctx.dom
    then authority_finding good (codes "Author and date signals are present.")
        (codes "The page exposes authorship and a publish/update date.")
        (codes "Keep dates current and authorship attributable.")
    else authority_finding needs_work
        (codes "Missing "
          ++ join (codes " and ") (
              (if has_author ctx.dom then [] else codes "author" ∷ [])
              ++ (if has_date ctx.dom then [] else codes "published/updated date" ∷ []))
          ++ codes " signal(s).")
        (codes
          "Engines prefer content that is attributable and fresh; these signals are weak or absent.")
        (codes
          "Add a <meta name=\"author\"> and a visible/marked-up date (<time datetime> or article:published_time). Cite sources where you make claims.")

-- A script that renders: the type is absent, or one of three.
unfoldable pub is_executable : Option Text → Bool
is_executable given =
    let type = to_lower_case (trim (or_empty given)) in
    text_eq type []
    || text_eq type (codes "text/javascript")
    || text_eq type (codes "application/javascript")
    || text_eq type (codes "module")

unfoldable pub body_text : Document → Text
body_text d = trim (collapse (d.text_of (codes "body")))

unfoldable pub scripts_of : Document → ℕ
unfolding is_executable
scripts_of d = count is_executable (d.attrs (codes "script") (codes "type"))

unfoldable pub looks_client_side : ℕ → ℕ → Bool
looks_client_side size scripts = ltb size 30 || (ltb size 200 && leb 1 scripts)

abbrev rendering_finding : FindingStatus → Text → Text → Text → Finding
rendering_finding status summary detail recommendation = record {
  dimension = codes "client-rendering";
  title = codes "Server-rendered content";
  status = status;
  summary = summary;
  detail = detail;
  recommendation = recommendation;
  basis = codes "AI crawlers generally do not execute JavaScript.";
  strength = hard;
}

unfoldable pub client_rendering_check : PageContext → Finding
unfolding body_text scripts_of looks_client_side
client_rendering_check ctx =
    let size = length (body_text ctx.dom) in
    let scripts = scripts_of ctx.dom in
    if looks_client_side size scripts
    then rendering_finding needs_work
        (codes "The page appears to render its content with JavaScript.")
        (codes "The initial HTML has only ~"
          ++ show size
          ++ codes " characters of text with "
          ++ show scripts
          ++ codes
              " script(s) — typical of a client-rendered app. Crawlers that skip JS see almost nothing.")
        (codes
          "Server-render or pre-render the homepage so the main content is in the initial HTML (SSR/SSG, or a prerender step for crawlers).")
    else rendering_finding good (codes "Main content is present in the server HTML.")
        (codes "Found ~" ++ show size ++ codes " characters of text in the initial HTML.")
        (codes "No change needed.")

unfoldable pub metadata_problems : ℕ → ℕ → Bool → List Text
metadata_problems title description has_og =
    (if ltb title 10 || ltb 70 title
      then codes "title missing or an unusual length (aim ~10–70 chars)" ∷ []
      else [])
    ++ (if ltb description 50 || ltb 160 description
        then codes "meta description missing or an unusual length (aim ~50–160 chars)" ∷ []
        else [])
    ++ (if has_og then [] else codes "no Open Graph tags" ∷ [])

abbrev metadata_finding : FindingStatus → Text → Text → Text → Finding
metadata_finding status summary detail recommendation = record {
  dimension = codes "core-metadata";
  title = codes "Core metadata";
  status = status;
  summary = summary;
  detail = detail;
  recommendation = recommendation;
  basis = codes "Standard HTML metadata and Open Graph, consumed by search and AI engines.";
  strength = hard;
}

unfoldable pub core_metadata_check : PageContext → Finding
unfolding metadata_problems plain_text
core_metadata_check ctx =
    let title = trim (ctx.dom.first_text (codes "title")) in
    let description =
      trim (or_empty (ctx.dom.attr (codes "meta[name=\"description\"]") (codes "content"))) in
    let has_og = ltb 0 (ctx.dom.matched (codes "meta[property^=\"og:\"]")) in
    elim (metadata_problems (length title) (length description) has_og) [
      | [] ↦
          metadata_finding good
            (codes "Title, description and Open Graph tags are present and sensible.")
            (codes "Title: \""
              ++ plain_text title 80
              ++ codes "\". Description length: "
              ++ show (length description)
              ++ codes " chars.")
            (codes "No change needed.")
      | p ∷ ps ↦
          metadata_finding needs_work (codes "Core metadata needs attention.")
            (codes "Issues: " ++ join (codes "; ") (p ∷ ps) ++ codes ".")
            (codes
              "Set a descriptive <title> (~10–70 chars), a <meta name=\"description\"> (~50–160 chars) that says who you are and what you do, and Open Graph tags (og:title, og:description, og:url).")
    ]

abbrev llms_finding : FindingStatus → Text → Text → Text → Finding
llms_finding status summary detail recommendation = record {
  dimension = codes "llms-txt";
  title = codes "llms.txt";
  status = status;
  summary = summary;
  detail = detail;
  recommendation = recommendation;
  basis = codes "The llmstxt.org proposal (emerging; not yet adopted by major engines).";
  strength = advisory;
}

unfoldable pub llms_txt_check : PageContext → Finding
llms_txt_check ctx =
    if ltb 0 (length (trim (or_empty ctx.llms_txt)))
    then llms_finding good (codes "An llms.txt file is present.")
        (codes "The site publishes an llms.txt at its root.") (codes "Keep it concise and current.")
    else llms_finding needs_work (codes "No llms.txt found (optional, emerging standard).")
        (codes
          "llms.txt is a proposed plain-text summary aimed at AI. Support is early, so this is a nice-to-have.")
        (codes
          "Optionally add /llms.txt, e.g.:\n# Your Brand\n> One-line description.\n## Key pages\n- https://you.com/about: what you do")
