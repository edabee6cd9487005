-- ===== src/Core/TenantScope.antt =====
-- core/prisma/tenant-scope.extension.ts on the arguments of a Prisma call. An object is the list of
-- its keys with their values; a value that is neither undefined nor a text is opaque.
pub mod Isolation
pub mod Operations
pub mod Confined
use ai_search_api.Base.{
  ℕ, String, Bool, true, false, not, ◌&&◌, ◌||◌, Option, none, some, List, [], ◌∷◌, map, str_eq,
  if◌then◌else◌, any, all,
}
use ai_search_api.Base.Result.{Result, ok, err, failure}

pub data Value : Type 0 where
  undefined : Value
  text : String → Value
  opaque : ℕ → Value

abbrev pub Obj : Type 0
Obj = List (String × Value)

-- `data`: left out, one object, or an array of them.
pub data Payload : Type 0 where
  absent : Payload
  one : Obj → Payload
  many : List Obj → Payload

pub record Args : Type 0 where
  pub selection : Option Obj
  pub payload : Payload
  pub create : Option Obj
  pub update : Option Obj

unfoldable pub contains : String → List String → Bool
contains x = any (λ y. str_eq x y)

abbrev pub tenant_models : List String
tenant_models = "File" ∷ "SiteAudit" ∷ "Notification" ∷ []

abbrev pub where_operations : List String
where_operations =
    "findFirst" ∷ "findFirstOrThrow" ∷ "findMany" ∷ "count" ∷ "aggregate" ∷ "groupBy" ∷ "update"
    ∷ "updateMany" ∷ "delete" ∷ "deleteMany" ∷ []

abbrev pub unscopable_operations : List String
unscopable_operations = "findUnique" ∷ "findUniqueOrThrow" ∷ []

-- `o[key]`, undefined where the key is missing.
unfoldable pub property : String → Obj → Value
property key [] = undefined
property key ((k, v) ∷ o) = if str_eq k key then v else property key o

-- `{ ...o, [key]: v }`
unfoldable pub put : String → Value → Obj → Obj
put key v [] = (key, v) ∷ []
put key v ((k, w) ∷ o) = if str_eq k key then (k, v) ∷ o else (k, w) ∷ put key v o

abbrev pub or_empty : Option Obj → Obj
or_empty none = []
or_empty (some o) = o

abbrev pub with_tenant : String → Obj → Obj
with_tenant tenant o = put "tenantId" (text tenant) o

abbrev pub matches : String → Value → Bool
matches tenant undefined = true
matches tenant (text t) = str_eq t tenant
matches tenant (opaque _) = false

-- `assertTenantMatches` does not throw.
unfoldable pub tenant_matches : String → Option Obj → Bool
tenant_matches tenant none = true
tenant_matches tenant (some row) = matches tenant (property "tenantId" row)

-- An array has no property `tenantId`.
abbrev pub single : Payload → Option Obj
single absent = none
single (one o) = some o
single (many _) = none

abbrev pub rows_of : Payload → List (Option Obj)
rows_of absent = none ∷ []
rows_of (one o) = some o ∷ []
rows_of (many os) = map some os

abbrev pub each_with_tenant : String → Payload → Payload
each_with_tenant tenant absent = one (with_tenant tenant [])
each_with_tenant tenant (one o) = one (with_tenant tenant o)
each_with_tenant tenant (many os) = many (map (with_tenant tenant) os)

abbrev pub mismatch : {A : Type 0} → Result A
mismatch = err (failure "Explicit tenantId does not match the tenant context")

unfoldable pub scope_args : String → Args → String → Result Args
unfolding tenant_matches
scope_args operation args tenant =
    let scoped : Args = record args {
      selection = some (with_tenant tenant (or_empty args.selection));
    } in
    if contains operation where_operations
    then (if (str_eq operation "update" || str_eq operation "updateMany")
          && not (tenant_matches tenant (single args.payload))
        then mismatch
        else ok scoped)
    else if str_eq operation "create"
    then (if tenant_matches tenant (single args.payload)
        then ok
            (record args { payload = one (with_tenant tenant (or_empty (single args.payload))) })
        else mismatch)
    else if str_eq operation "createMany"
    then (if all (tenant_matches tenant) (rows_of args.payload)
        then ok (record args { payload = each_with_tenant tenant args.payload })
        else mismatch)
    else if str_eq operation "upsert"
    then (if tenant_matches tenant args.create && tenant_matches tenant args.update
        then ok (record scoped { create = some (with_tenant tenant (or_empty args.create)) })
        else mismatch)
    else ok args

abbrev pub is_tenant_model : Option String → Bool
is_tenant_model none = false
is_tenant_model (some m) = contains m tenant_models

-- The arguments that reach the query, or the error that is thrown instead. `context` is the tenant
-- of TenantContext; the empty text counts as none.
unfoldable pub all_operations : Option String → String → Args → Option String → Result Args
unfolding scope_args
all_operations model operation args context =
    if not (is_tenant_model model) then ok args else elim context [
      | none ↦ err (failure "Tenant context is required")
      | some tenant ↦
          if str_eq tenant ""
          then err (failure "Tenant context is required")
          else if contains operation unscopable_operations
          then err (failure "bypasses tenant scoping; use findFirst instead")
          else scope_args operation args tenant
    ]
