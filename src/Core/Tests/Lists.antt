-- ===== src/Core/Tests/Lists.antt =====
-- The theorem on validated list requests at a concrete request.
use ai_search_api.Base.{
  ◌≤◌, String, ◌≡◌, refl, ◌≢◌, Bool, true, false, not, ◌&&◌, Option, none, some, List, [], ◌∷◌,
  arith, leb, if◌then◌else◌, and-eq_true, length, all, All,
}
use ai_search_api.Base.Text.{Text, codes}
use ai_search_api.Base.Result.{ok}
use ai_search_api.Core.Validation.{
  Value, string, null, Rule, is_string, max_length, Property, Dto, Payload, property, declares,
  Formats, Meets, MeetsAll, Conforms, ValidationPipe, from_query,
}
use ai_search_api.Core.Validation.Dto.{list_query}
use ai_search_api.Core.Validation.Bounds.{list_query_of, list_page-served}
use ai_search_api.Core.Pagination.{descending, Page, list_page}
use ai_search_api.Core.Pagination.Sample.{plain_pages}

abbrev small_formats : Formats
small_formats = record {
  size = length;
  email = λ t. false;
  url = λ p ps t. false;
  uuid = λ t. false;
}

-- A pipe that converts nothing and knows two decorators.
abbrev follows : Value → Rule → Bool
follows (string t) is_string = true
follows (string t) (max_length n) = leb (length t) n
follows _ _ = false

abbrev fits : Option Value → Property → Bool
fits none p = p.optional
fits (some v) p = all (follows v) p.rules && not (elim v [ null ↦ true | _ ↦ false ])

abbrev small_transform : Dto → Payload → Option Payload
small_transform dto ps =
    if all (λ (p : Property). fits (property p.name ps) p) dto && all (declares dto) ps
    then some ps
    else none

follows_sound : (v : Value) (r : Rule) → follows v r ≡ true → Meets small_formats v r
follows_sound (string t) is_string h = tt
follows_sound (string t) (max_length n) h = ground (arith, h)
follows_sound _ _ h = absurd (ground (arith, h))

all-follows :
    (v : Value) (rs : List Rule) → all (follows v) rs ≡ true → All (Meets small_formats v) rs
all-follows v [] h = tt
all-follows v (r ∷ rs) h =
    let (here, later) = and-eq_true (follows v r) (all (follows v) rs) h in
    (follows_sound v r here, all-follows v rs later)

fits_sound : (o : Option Value) (p : Property) → fits o p ≡ true → MeetsAll small_formats p o
fits_sound none p h = h
fits_sound (some null) p h = absurd (ground (arith, h))
fits_sound (some v) p h = all-follows v p.rules (ground (arith, h))

all-fits :
    (ps : Payload) (dto : Dto)
    → all (λ (p : Property). fits (property p.name ps) p) dto ≡ true
    → Conforms small_formats dto ps
all-fits ps [] h = tt
all-fits ps (p ∷ dto) h =
    let (here, later) = and-eq_true (fits (property p.name ps) p) _ h in
    (fits_sound (property p.name ps) p here, all-fits ps dto later)

transformed :
    (dto : Dto) (raw ps : Payload)
    → small_transform dto raw ≡ some ps
    → (raw ≡ ps)
      × (all (λ (p : Property). fits (property p.name raw) p) dto ≡ true)
      × (all (declares dto) raw ≡ true)
transformed dto raw ps h = (ground (arith, h), ground (arith, h), ground (arith, h))

transform-Conforms :
    (dto : Dto) (raw ps : Payload)
    → small_transform dto raw ≡ some ps
    → Conforms small_formats dto ps
transform-Conforms dto raw ps h =
    let (same, fine, declared) = transformed dto raw ps h in all-fits ps dto (rw (← same) fine)

transform-no_null :
    (dto : Dto) (raw ps : Payload) (name : Text)
    → small_transform dto raw ≡ some ps
    → property name raw ≢ some null
    → property name ps ≢ some null
transform-no_null dto raw ps name h present =
    let (same, fine, declared) = transformed dto raw ps h in rw (← same) present

abbrev small_pipe : ValidationPipe
small_pipe = record {
  formats = small_formats;
  transform = small_transform;
  accepted = transform-Conforms;
  forbidden = λ dto raw ps h. (transformed dto raw ps h).2;
  no_null = transform-no_null;
}

abbrev small_query : List (Text × Option Text)
small_query = (codes "search", some (codes "report")) ∷ []

query_accepted :
    small_pipe.transform list_query (from_query small_query) ≡ some (from_query small_query)
query_accepted = refl

list_page-served_example :
    (page : Page String) × (list_page
        (λ s. s)
        (plain_pages (λ s. s))
        (codes "id" ∷ [])
        (record { field = codes "id"; order = descending })
        (λ s. true)
        (list_query_of (λ t. "a") (from_query small_query))
        ("a" ∷ "b" ∷ [])
      ≡ ok page)
    × (length page.items ≤ 100)
list_page-served_example =
    list_page-served (λ s. s) small_pipe small_query (from_query small_query) (λ t. "a")
      (plain_pages (λ s. s)) (codes "id" ∷ []) (record { field = codes "id"; order = descending })
      (λ s. true) ("a" ∷ "b" ∷ []) query_accepted
