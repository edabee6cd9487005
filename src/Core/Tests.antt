-- ===== src/Core/Tests.antt =====
-- The theorems on tenant scoping and on paging at concrete inputs.
mod Failures
mod Startup
mod Boot
mod Lists
use ai_search_api.Base.{String, ◌⊎◌, ◌≡◌, refl, ◌≢◌, true, Option, none, some, List, [], ◌∷◌}
use ai_search_api.Base.Result.{ok}
use ai_search_api.Base.Text.{codes}
use ai_search_api.Core.TenantScope.{
  text, one, Args, contains, property, put, tenant_matches, scope_args, all_operations,
}
use ai_search_api.Core.TenantScope.Operations.{
  create, create_many_and_return, update, update_many_and_return, find_unique, find_unique_or_throw,
}
use ai_search_api.Core.TenantScope.Confined.{AllHaveTenant, IsConfined, WritesInTenant}
use ai_search_api.Core.TenantScope.Isolation.{
  selection_confined, written_confined, reached_in_tenant,
}
use ai_search_api.Core.Pagination.{Sort, descending, ListQuery, list_page}
use ai_search_api.Core.Pagination.Sample.{plain_pages}
use ai_search_api.Core.Pagination.Walk.{walk_with, list_page_complete}

abbrev spoofed : Args
spoofed = record {
  selection = some (("tenantId", text "t2") ∷ ("id", text "f1") ∷ []);
  payload = one (("filename", text "a") ∷ []);
  create = none;
  update = none;
}

abbrev confined : Args
confined = record spoofed { selection = some (("tenantId", text "t1") ∷ ("id", text "f1") ∷ []) }

updates : all_operations (some "File") "update" spoofed (some "t1") ≡ ok confined
unfolding all_operations scope_args contains put tenant_matches property
updates = refl

selection_confined_example : IsConfined "t1" spoofed confined
unfolding contains
selection_confined_example =
    selection_confined "t1" (some "File") spoofed confined refl update refl (λ e. cc) updates

abbrev created : Args
created = record spoofed { payload = one (("filename", text "a") ∷ ("tenantId", text "t1") ∷ []) }

creates : all_operations (some "File") "create" spoofed (some "t1") ≡ ok created
unfolding all_operations scope_args contains put tenant_matches property
creates = refl

written_confined_example : WritesInTenant "t1" create created
unfolding contains
written_confined_example = written_confined "t1" (some "File") spoofed created refl create creates

reached_in_tenant_example :
    (tenant : String) × (◌≡◌ {A = Option String} (some "t1") (some tenant))
    × (tenant ≢ "")
    × ((update ≢ find_unique) × (update ≢ find_unique_or_throw))
    × ((IsConfined tenant spoofed confined ⊎ AllHaveTenant tenant confined.payload)
        ⊎ (((update ≡ create_many_and_return) ⊎ (update ≡ update_many_and_return))
            × (confined ≡ spoofed)))
unfolding contains
reached_in_tenant_example =
    reached_in_tenant (some "File") update spoofed confined (some "t1") refl updates

abbrev three : List String
three = "a" ∷ "b" ∷ "c" ∷ []

abbrev newest_first : Sort
newest_first = record { field = codes "createdAt"; order = descending }

abbrev two_by_two : ListQuery
two_by_two = record { limit = 2; cursor = none; sort = none; search = none }

list_page_complete_example :
    walk_with
      (λ (r : String). r)
      (λ c.
        list_page
          (λ (r : String). r)
          (plain_pages (λ (r : String). r))
          []
          newest_first
          (λ _. true)
          (record two_by_two { cursor = c })
          three)
      4
      none
    ≡ three
list_page_complete_example =
    list_page_complete (λ (r : String). r) (plain_pages (λ (r : String). r)) [] newest_first
      (λ _. true) two_by_two 1 three refl refl
