-- ===== src/Core/Validation/Dto.antt =====
-- core/common/pagination.ts and the dto folders of the modules: what the decorators say.
use ai_search_api.Base.{String, true, false, List, [], ◌∷◌, ◌++◌}
use ai_search_api.Base.Text.{codes}
use ai_search_api.Core.Validation.{
  Rule, is_email, is_string, is_not_empty, is_int, is_boolean, is_uuid, min_length, max_length, min,
  max, is_url, Property, Dto,
}

abbrev required : String → List Rule → Property
required name rules = record { name = codes name; optional = false; rules = rules }

abbrev optional : String → List Rule → Property
optional name rules = record { name = codes name; optional = true; rules = rules }

abbrev pub register_dto : Dto
register_dto =
    required "email" (is_email ∷ [])
    ∷ required "password" (is_string ∷ min_length 8 ∷ max_length 128 ∷ [])
    ∷ optional "displayName" (is_string ∷ max_length 100 ∷ [])
    ∷ []

abbrev pub login_dto : Dto
login_dto =
    required "email" (is_email ∷ []) ∷ required "password" (is_string ∷ is_not_empty ∷ []) ∷ []

abbrev pub refresh_token_dto : Dto
refresh_token_dto = required "refreshToken" (is_string ∷ is_not_empty ∷ []) ∷ []

abbrev pub update_user_dto : Dto
update_user_dto = optional "displayName" (is_string ∷ max_length 100 ∷ []) ∷ []

abbrev pub create_audit_dto : Dto
create_audit_dto =
    required "url" (max_length 2048 ∷ is_url true (codes "http" ∷ codes "https" ∷ []) ∷ []) ∷ []

abbrev pub pagination_query : Dto
pagination_query =
    optional "limit" (is_int ∷ min 1 ∷ max 100 ∷ []) ∷ optional "cursor" (is_uuid ∷ []) ∷ []

abbrev pub list_query : Dto
list_query =
    pagination_query
    ++ optional "sort" (is_string ∷ []) ∷ optional "search" (is_string ∷ max_length 100 ∷ []) ∷ []

abbrev pub list_notifications_query : Dto
list_notifications_query = list_query ++ optional "unread" (is_boolean ∷ []) ∷ []
