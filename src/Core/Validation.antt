-- ===== src/Core/Validation.antt =====
-- The decorators of class-validator and class-transformer on the DTOs, and Nest's ValidationPipe
-- (third party), which is a parameter with what is documented of the decorators and of `whitelist`
-- and `forbidNonWhitelisted`. The DTOs of the program are in Validation/Dto.
pub mod Dto
pub mod Bounds
use ai_search_api.Base.{
  ℕ, ◌≤◌, ◌<◌, ◌≡◌, ◌≢◌, ◌⊎◌, Bool, true, Option, none, some, List, [], ◌∷◌, map, if◌then◌else◌,
  any, all, All,
}
use ai_search_api.Base.Text.{Text, text_eq}

-- A value of a property. A number is an integer, lies between an integer and the next, lies below
-- zero (an integer or not), or is infinite; `other` is any other value, NaN included.
pub data Value : Type 0 where
  string : Text → Value
  integer between : ℕ → Value
  below_zero : Bool → Value
  infinity null other : Value
  boolean : Bool → Value

pub data Rule : Type 0 where
  is_email is_string is_not_empty is_int is_boolean is_uuid : Rule
  min_length max_length min max : ℕ → Rule
  is_url : Bool → List Text → Rule

-- `optional` is @IsOptional: the rules are for a value that is neither undefined nor null.
pub record Property : Type 0 where
  pub name : Text
  pub optional : Bool
  pub rules : List Rule

abbrev pub Dto : Type 0
Dto = List Property

abbrev pub Payload : Type 0
Payload = List (Text × Value)

abbrev pub property : Text → Payload → Option Value
property name [] = none
property name ((n, v) ∷ ps) = if text_eq n name then some v else property name ps

abbrev pub declares : Dto → Text × Value → Bool
declares dto (name, v) = any (λ (p : Property). text_eq p.name name) dto

-- `size` is the length that class-validator counts, `email`, `url` and `uuid` are its tests.
pub record Formats : Type 0 where
  pub size : Text → ℕ
  pub email : Text → Bool
  pub url : Bool → List Text → Text → Bool
  pub uuid : Text → Bool

abbrev pub IsText : (Text → Type 0) → Value → Type 0
IsText P (string t) = P t
IsText P _ = ⊥

abbrev pub IsAtLeast : ℕ → Value → Type 0
IsAtLeast n (integer m) = n ≤ m
IsAtLeast n (between m) = n ≤ m
IsAtLeast n infinity = Unit
IsAtLeast n _ = ⊥

abbrev pub IsAtMost : ℕ → Value → Type 0
IsAtMost n (integer m) = m ≤ n
IsAtMost n (between m) = m < n
IsAtMost n (below_zero whole) = Unit
IsAtMost n _ = ⊥

abbrev pub IsInteger : Value → Type 0
IsInteger (integer m) = Unit
IsInteger (below_zero whole) = whole ≡ true
IsInteger _ = ⊥

abbrev pub IsBoolean : Value → Type 0
IsBoolean (boolean b) = Unit
IsBoolean _ = ⊥

module _ (formats : Formats) where
  -- What each decorator lets through.
  abbrev pub Meets : Value → Rule → Type 0
  Meets v is_email = IsText (λ t. formats.email t ≡ true) v
  Meets v is_string = IsText (λ t. Unit) v
  Meets v is_not_empty = (v ≢ string []) × (v ≢ null)
  Meets v is_int = IsInteger v
  Meets v is_boolean = IsBoolean v
  Meets v is_uuid = IsText (λ t. formats.uuid t ≡ true) v
  Meets v (min_length n) = IsText (λ t. n ≤ formats.size t) v
  Meets v (max_length n) = IsText (λ t. formats.size t ≤ n) v
  Meets v (min n) = IsAtLeast n v
  Meets v (max n) = IsAtMost n v
  Meets v (is_url protocol protocols) = IsText (λ t. formats.url protocol protocols t ≡ true) v

  abbrev pub MeetsAll : Property → Option Value → Type 0
  MeetsAll p none = p.optional ≡ true
  MeetsAll p (some null) = (p.optional ≡ true) ⊎ All (Meets null) p.rules
  MeetsAll p (some v) = All (Meets v) p.rules

  abbrev pub Conforms : Dto → Payload → Type 0
  Conforms dto ps = All (λ (p : Property). MeetsAll p (property p.name ps)) dto

-- The pipe with the options of core/bootstrap/validation.setup.ts: `none` is a 400. What it accepts
-- meets the decorators; it refuses what the DTO does not declare, and makes no null of another
-- value.
pub record ValidationPipe : Type 0 where
  pub formats : Formats
  pub transform : Dto → Payload → Option Payload
  pub accepted :
      (dto : Dto) (raw ps : Payload) → transform dto raw ≡ some ps → Conforms formats dto ps
  pub forbidden :
      (dto : Dto) (raw ps : Payload) → transform dto raw ≡ some ps → all (declares dto) raw ≡ true
  pub no_null :
      (dto : Dto) (raw ps : Payload) (name : Text)
      → transform dto raw ≡ some ps
      → property name raw ≢ some null
      → property name ps ≢ some null

-- A query string: a parameter that is given once is a text, any other is not.
abbrev pub query_value : Option Text → Value
query_value none = other
query_value (some t) = string t

abbrev pub from_query : List (Text × Option Text) → Payload
from_query = map (λ (q : Text × Option Text). (q.0, query_value q.1))
