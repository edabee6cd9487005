-- ===== src/Core/Config.antt =====
-- core/config/env.validation.ts. Zod is a parameter: what each of its parsers makes of a value, and
-- its issues. The raw environment is a function from names; a name that is not set is `none`.
pub mod Settings
pub mod Production
pub mod Sample
use ai_search_api.Base.{
  ℕ, ◌+◌, ◌-◌, ◌*◌, String, ◌⊎◌, inl, inr, Bool, false, not, ◌&&◌, Option, none, some, List, [],
  ◌∷◌, ◌++◌, map, if◌then◌else◌,
}
pub use ai_search_api.Core.Config.Settings.{Env, new_env}
use ai_search_api.Base.Text.{Text, codes, text_eq, join}

-- What zod makes of a value: none where it aborts, and the messages of the issues.
pub record Checked (A : Type 0) : Type 0 where
  pub value : Option A
  pub messages : List Text

pub record Zod : Type 0 where
  pub required : Text
  pub one_of : List Text → Text → Checked Text
  pub url : Text → Checked Text
  pub min_length : ℕ → Text → Checked Text
  pub positive_int : Text → Checked ℕ

pub record Issue : Type 0 where
  pub path : List Text
  pub message : Text

-- The object so far: its value, if no field aborted, and its issues, in the order of the fields.
pub record Parsed (A : Type 0) : Type 0 where
  pub result : Option A
  pub issues : List Issue

abbrev valid : {A : Type 0} → A → Checked A
valid a = record { value = some a; messages = [] }

-- `value === 'true'`, where undefined is not
abbrev pub equals_text : Option Text → Text → Bool
equals_text none t = false
equals_text (some s) t = text_eq s t

-- `.default(d)`
abbrev or_default : {A : Type 0} → A → (Text → Checked A) → Option Text → Checked A
or_default d parse none = valid d
or_default d parse (some t) = parse t

-- `.optional()`
abbrev optional : (Text → Checked Text) → Option Text → Checked (Option Text)
optional parse none = valid none
optional parse (some t) =
    let c = parse t in
    record { value = elim c.value [ none ↦ none | some v ↦ some (some v) ]; messages = c.messages }

abbrev field_issues : Text → List Text → List Issue
field_issues name = map (λ m. record { path = name ∷ []; message = m })

-- One field more of the object.
abbrev field : {A B : Type 0} → Text → Checked A → Parsed (A → B) → Parsed B
field name c o = record {
  result = elim o.result [
    | none ↦ none
    | some f ↦ elim c.value [ none ↦ none | some v ↦ some (f v) ]
  ];
  issues = o.issues ++ field_issues name c.messages;
}

abbrev pub production : Text
production = codes "production"

abbrev ◌▸◌ : {A B : Type 0} → A → (A → B) → B
x ▸ f = f x

infixl 5 ◌▸◌
module _ (zod : Zod) (raw : Text → Option Text) where
  abbrev read : String → Option Text
  read name = raw (codes name)

  -- A field of the schema, by its name.
  abbrev text_field : {B : Type 0} → String → Text → Parsed (Text → B) → Parsed B
  text_field name d = field (codes name) (or_default d valid (read name))

  abbrev required_field :
      {B : Type 0} → String → (Text → Checked Text) → Parsed (Text → B) → Parsed B
  required_field name parse = field (codes name) (elim (read name) [
    | none ↦ record { value = none; messages = zod.required ∷ [] }
    | some t ↦ parse t
  ])

  abbrev choice_field : {B : Type 0} → String → List Text → Text → Parsed (Text → B) → Parsed B
  choice_field name options d = field (codes name) (or_default d (zod.one_of options) (read name))

  abbrev positive_field : {B : Type 0} → String → ℕ → Parsed (ℕ → B) → Parsed B
  positive_field name d = field (codes name) (or_default d zod.positive_int (read name))

  abbrev optional_field : {B : Type 0} → String → Parsed (Option Text → B) → Parsed B
  optional_field name = field (codes name) (optional valid (read name))

  abbrev url_field : {B : Type 0} → String → Parsed (Option Text → B) → Parsed B
  url_field name = field (codes name) (optional zod.url (read name))

  -- `.optional().transform(test)`
  abbrev flag_field : {B : Type 0} → String → (Option Text → Bool) → Parsed (Bool → B) → Parsed B
  flag_field name test = field (codes name) (valid (test (read name)))

  unfoldable pub parse_fields : Parsed Env
  parse_fields =
      record { result = some new_env; issues = [] }
      ▸ choice_field "NODE_ENV" (codes "development" ∷ codes "test" ∷ production ∷ [])
          (codes "development")
      ▸ positive_field "PORT" 3000
      ▸ choice_field "LOG_LEVEL"
          (codes "fatal"
            ∷ codes "error"
            ∷ codes "warn"
            ∷ codes "info"
            ∷ codes "debug"
            ∷ codes "trace"
            ∷ [])
          (codes "info")
      ▸ required_field "DATABASE_URL" zod.url
      ▸ required_field "JWT_ACCESS_SECRET" (zod.min_length 32)
      ▸ positive_field "JWT_ACCESS_TTL_SECONDS" 900
      ▸ positive_field "REFRESH_TOKEN_TTL_DAYS" 30
      ▸ optional_field "CORS_ORIGINS"
      ▸ optional_field "GEO_ALLOW_PRIVATE_URLS"
      ▸ optional_field "TRUST_PROXY"
      ▸ positive_field "LOGIN_MAX_ATTEMPTS" 5
      ▸ positive_field "LOGIN_LOCK_MINUTES" 15
      ▸ positive_field "REQUEST_TIMEOUT_MS" 30000
      ▸ text_field "BODY_LIMIT" (codes "1mb")
      ▸ positive_field "MAX_UPLOAD_BYTES" (10 * 1024 * 1024)
      ▸ flag_field "OTEL_ENABLED" (λ value. equals_text value (codes "true"))
      ▸ text_field "OTEL_SERVICE_NAME" (codes "saas-api")
      ▸ url_field "OTEL_EXPORTER_OTLP_ENDPOINT"
      ▸ flag_field "OTEL_CONSOLE" (λ value. equals_text value (codes "true"))
      ▸ optional_field "SENTRY_DSN"
      ▸ optional_field "GOOGLE_CLIENT_ID"
      ▸ optional_field "GOOGLE_CLIENT_SECRET"
      ▸ url_field "GOOGLE_CALLBACK_URL"
      ▸ url_field "GOOGLE_POST_LOGIN_REDIRECT"
      ▸ url_field "STORAGE_ENDPOINT"
      ▸ text_field "STORAGE_REGION" (codes "auto")
      ▸ optional_field "STORAGE_BUCKET"
      ▸ optional_field "STORAGE_ACCESS_KEY_ID"
      ▸ optional_field "STORAGE_SECRET_ACCESS_KEY"
      ▸ flag_field "STORAGE_FORCE_PATH_STYLE" (λ value. not (equals_text value (codes "false")))

-- `superRefine`
abbrev pub is_refused : Env → Bool
is_refused env =
    text_eq env.node_env production && equals_text env.geo_allow_private_urls (codes "true")

abbrev pub refusal : Issue
refusal = record {
  path = codes "GEO_ALLOW_PRIVATE_URLS" ∷ [];
  message = codes "must not be enabled in production (it disables the SSRF guard)";
}

abbrev pub refine : Env → List Issue
refine env = if is_refused env then refusal ∷ [] else []

-- The refinement runs where the object has a value.
abbrev pub refined : Parsed Env → Parsed Env
refined o = elim o.result [
  | none ↦ o
  | some env ↦ record { result = some env; issues = o.issues ++ refine env }
]

abbrev path_text : Text → Text
path_text [] = codes "(root)"
path_text (c ∷ s) = c ∷ s

abbrev pub issue_line : Issue → Text
issue_line issue =
    codes "  - " ++ path_text (join (codes ".") issue.path) ++ codes ": " ++ issue.message

-- The error that is thrown, with one line for each issue.
abbrev pub summary : List Issue → Text
summary issues =
    codes "Invalid environment configuration:" ++ 10 ∷ join (10 ∷ []) (map issue_line issues)

abbrev pub Validated : Type 0
Validated = Text ⊎ Env

abbrev pub settled : Parsed Env → Validated
settled o = elim o.issues [
  | i ∷ is ↦ inl (summary (i ∷ is))
  | [] ↦ elim o.result [ none ↦ inl (summary []) | some env ↦ inr env ]
]

-- `safeParse` succeeds where there is no issue, and then has a value.
unfoldable pub validate_env : Zod → (Text → Option Text) → Validated
unfolding parse_fields
validate_env zod raw = settled (refined (parse_fields zod raw))

-- Whether the page fetcher is built without its guard (modules/geo/page-fetcher.ts).
abbrev pub allow_private : Env → Bool
allow_private env = equals_text env.geo_allow_private_urls (codes "true")
