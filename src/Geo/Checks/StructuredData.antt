-- ===== src/Geo/Checks/StructuredData.antt =====
-- modules/geo/checks/structured-data.check.ts. `JSON.parse` is a parameter: no value where it
-- throws.
use ai_search_api.Base.{
  true, false, Option, none, some, List, [], ◌∷◌, ◌++◌, map, if◌then◌else◌, any,
}
use ai_search_api.Base.Text.{join, Text, codes, text_eq}
use ai_search_api.Geo.PlainText.{plain_text}
use ai_search_api.Geo.Finding.{FindingStatus, good, needs_work, hard, Finding}
use ai_search_api.Geo.Checks.Page.{PageContext}

-- A JSON value, its elements and its members; each key of an object once.
mutual
  pub data Json : Type 0 where
    scalar : Json
    string : Text → Json
    array : Items → Json
    object : Members → Json

  pub data Items : Type 0 where
    no_items : Items
    item : Json → Items → Items

  pub data Members : Type 0 where
    no_members : Members
    member : Text → Json → Members → Members

-- `types.add(t)` on the `Set`, kept in the order of insertion
unfoldable pub add_type : Text → List Text → List Text
add_type t ts = if any (text_eq t) ts then ts else ts ++ t ∷ []

-- The elements of `@type` that are strings.
unfoldable pub add_items : Items → List Text → List Text
unfolding add_type
add_items no_items ts = ts
add_items (item (string t) xs) ts = add_items xs (add_type t ts)
add_items (item x xs) ts = add_items xs ts

-- What `obj['@type']` adds.
unfoldable pub add_named : Members → List Text → List Text
unfolding add_type add_items
add_named no_members ts = ts
add_named (member k v ms) ts = elim (text_eq k (codes "@type")) [
  | false ↦ add_named ms ts
  | true ↦ elim v [
    | string t ↦ add_type t ts
    | array xs ↦ add_items xs ts
    | scalar ↦ ts
    | object ms' ↦ ts
  ]
]

unfoldable mutual
  unfolding add_named

  pub collect_types : Json → List Text → List Text
  collect_types scalar ts = ts
  collect_types (string t) ts = ts
  collect_types (array xs) ts = collect_items xs ts
  collect_types (object ms) ts = collect_graph ms (add_named ms ts)

  pub collect_items : Items → List Text → List Text
  collect_items no_items ts = ts
  collect_items (item x xs) ts = collect_items xs (collect_types x ts)

  -- What `obj['@graph']` adds, where it is an array.
  pub collect_graph : Members → List Text → List Text
  collect_graph no_members ts = ts
  collect_graph (member k (array xs) ms) ts = elim (text_eq k (codes "@graph")) [
    | true ↦ collect_items xs ts
    | false ↦ collect_graph ms ts
  ]
  collect_graph (member k v ms) ts = elim (text_eq k (codes "@graph")) [
    | true ↦ ts
    | false ↦ collect_graph ms ts
  ]

unfoldable pub collect_scripts : (Text → Option Json) → List Text → List Text → List Text
unfolding collect_types
collect_scripts parse [] ts = ts
collect_scripts parse (s ∷ ss) ts = elim (parse s) [
  | none ↦ collect_scripts parse ss ts
  | some j ↦ collect_scripts parse ss (collect_types j ts)
]

unfoldable pub extract_types : (Text → Option Json) → PageContext → List Text
unfolding collect_scripts plain_text
extract_types parse ctx =
    map (λ t. plain_text t 60)
      (collect_scripts parse (ctx.dom.texts (codes "script[type=\"application/ld+json\"]")) [])

abbrev structured_finding : FindingStatus → Text → Text → Text → Finding
structured_finding status summary detail recommendation = record {
  dimension = codes "structured-data";
  title = codes "Structured data (schema.org)";
  status = status;
  summary = summary;
  detail = detail;
  recommendation = recommendation;
  basis = codes "Schema.org vocabulary and Google structured-data guidelines.";
  strength = hard;
}

unfoldable pub structured_data_check : (Text → Option Json) → PageContext → Finding
unfolding extract_types
structured_data_check parse ctx = elim (extract_types parse ctx) [
  | t ∷ ts ↦
      structured_finding good
        (codes "Found schema.org markup: " ++ join (codes ", ") (t ∷ ts) ++ codes ".")
        (codes "The homepage exposes JSON-LD of type(s): "
          ++ join (codes ", ") (t ∷ ts)
          ++ codes ", which helps engines understand the entity unambiguously.")
        (codes "No change needed; keep the markup accurate and current.")
  | [] ↦
      structured_finding needs_work (codes "No schema.org structured data found.")
        (codes "The homepage has no JSON-LD, so engines must infer who you are from prose alone.")
        (codes "Add an Organization JSON-LD block in <head>, e.g.:\n"
          ++ codes
              "<script type=\"application/ld+json\">{\"@context\":\"https://schema.org\",\"@type\":\"Organization\",\"name\":\"YOUR NAME\",\"url\":\"YOUR URL\",\"description\":\"WHAT YOU DO\"}</script>\n"
          ++ codes "Add FAQ or Product types where relevant.")
]
