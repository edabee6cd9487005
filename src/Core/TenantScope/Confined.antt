-- ===== src/Core/TenantScope/Confined.antt =====
-- When a call of core/prisma/tenant-scope.extension.ts keeps to a tenant, and what the tests and
-- the writes of `tenantId` in its arguments lead to.
use ai_search_api.Base.{
  String, ◌≡◌, refl, ap, ◌≢◌, ◌⊎◌, inl, inr, true, false, Option, none, some, List, [], ◌∷◌, map,
  arith, str_eq, eq_iff, eq_refl, if◌then◌else◌, All,
}
use ai_search_api.Base.Result.{ok}
use ai_search_api.Core.TenantScope.Operations.{
  PrismaOperation, create, create_many, update, update_many, upsert,
}
use ai_search_api.Core.TenantScope.{
  Value, undefined, text, opaque, Obj, Payload, absent, one, many, Args, property, put, or_empty,
  with_tenant, tenant_matches, matches, single, each_with_tenant, is_tenant_model, all_operations,
}

pub property-put :
    (k j : String) (v : Value) (o : Obj)
    → property j (put k v o) ≡ (if str_eq k j then v else property j o)
unfolding property put
property-put k j v [] = refl
property-put k j v ((i, w) ∷ o) =
    ground (arith, eq_iff k j, eq_iff i k, eq_iff i j, property-put k j v o)

pub no_tenant :
    (model : Option String) (operation : String) (args : Args)
    → is_tenant_model model ≡ true
    → (args' : Args) → all_operations model operation args none ≢ ok args'
unfolding all_operations
no_tenant model operation args scoped args' h = ground arith

pub empty_tenant :
    (model : Option String) (operation : String) (args : Args)
    → is_tenant_model model ≡ true
    → (args' : Args) → all_operations model operation args (some "") ≢ ok args'
unfolding all_operations
empty_tenant model operation args scoped args' h = ground (arith, eq_refl "")

module _ (tenant : String) where
  abbrev pub HasTenant : Obj → Type 0
  HasTenant o = property "tenantId" o ≡ text tenant

  -- A write does not move a row to another tenant.
  abbrev pub StaysInTenant : Option Obj → Type 0
  StaysInTenant none = Unit
  StaysInTenant (some o) = (property "tenantId" o ≡ undefined) ⊎ HasTenant o

  abbrev pub AllHaveTenant : Payload → Type 0
  AllHaveTenant absent = ⊥
  AllHaveTenant (one o) = HasTenant o
  AllHaveTenant (many os) = All HasTenant os

  -- The `where` of the second is that of the first with the tenant's id put in.
  abbrev pub IsConfined : Args → Args → Type 0
  IsConfined args args' =
      (w : Obj) × (args'.selection ≡ some w)
      × HasTenant w
      × ((key : String)
          → str_eq "tenantId" key ≡ false
          → property key w ≡ property key (or_empty args.selection))

  abbrev pub WritesInTenant : PrismaOperation → Args → Type 0
  WritesInTenant create args = AllHaveTenant args.payload
  WritesInTenant create_many args = AllHaveTenant args.payload
  WritesInTenant update args = StaysInTenant (single args.payload)
  WritesInTenant update_many args = StaysInTenant (single args.payload)
  WritesInTenant upsert args =
      ((o : Obj) × (args.create ≡ some o) × HasTenant o) × StaysInTenant args.update
  WritesInTenant _ args = Unit

  pub other_key :
      (key : String)
      → str_eq "tenantId" key ≡ false
      → (o : Obj) → property key (with_tenant tenant o) ≡ property key o
  other_key key other o = ground (arith, property-put "tenantId" key (text tenant) o)

  pub with_tenant-HasTenant : (o : Obj) → HasTenant (with_tenant tenant o)
  with_tenant-HasTenant o =
      ground (arith, property-put "tenantId" "tenantId" (text tenant) o, eq_refl "tenantId")

  pub each_with_tenant-AllHaveTenant : (d : Payload) → AllHaveTenant (each_with_tenant tenant d)
  each_with_tenant-AllHaveTenant absent = with_tenant-HasTenant []
  each_with_tenant-AllHaveTenant (one o) = with_tenant-HasTenant o
  each_with_tenant-AllHaveTenant (many os) = go os
    where
      go : (l : List Obj) → All HasTenant (map (with_tenant tenant) l)
      go [] = tt
      go (o ∷ l) = (with_tenant-HasTenant o, go l)

  matches-cases : (v : Value) → matches tenant v ≡ true → (v ≡ undefined) ⊎ (v ≡ text tenant)
  matches-cases undefined h = inl refl
  matches-cases (text t) h = inr (ap text ((eq_iff t tenant).0 h))
  matches-cases (opaque n) h = cc

  pub tenant_matches-StaysInTenant :
      (o : Option Obj) → tenant_matches tenant o ≡ true → StaysInTenant o
  unfolding tenant_matches
  tenant_matches-StaysInTenant none h = tt
  tenant_matches-StaysInTenant (some o) h = matches-cases (property "tenantId" o) h
