-- ===== src/Core/TenantScope/Isolation.antt =====
-- What core/prisma/tenant-scope.extension.ts guarantees of a call that reaches the database.
use ai_search_api.Base.{String, ◌≡◌, refl, ◌≢◌, ◌⊎◌, inl, inr, true, Option, none, some, arith}
use ai_search_api.Base.Result.{ok}
use ai_search_api.Core.TenantScope.Operations.{
  PrismaOperation, find_unique, find_unique_or_throw, find_first, find_first_or_throw, find_many,
  create, create_many, create_many_and_return, update, update_many, update_many_and_return, upsert,
  delete, delete_many, count, aggregate, group_by, name_of, has_where, IsUnlisted, unique, filtered,
  upserting, creating, passed_on, listing,
}
use ai_search_api.Core.TenantScope.{
  Obj, one, Args, contains, where_operations, unscopable_operations, or_empty, with_tenant,
  tenant_matches, single, each_with_tenant, scope_args, is_tenant_model, all_operations,
}
use ai_search_api.Core.TenantScope.Confined.{
  no_tenant, empty_tenant, HasTenant, StaysInTenant, AllHaveTenant, IsConfined, WritesInTenant,
  other_key, with_tenant-HasTenant, each_with_tenant-AllHaveTenant, tenant_matches-StaysInTenant,
}

module _ (tenant : String) where
  module _ (model : Option String) (args args' : Args) (scoped : is_tenant_model model ≡ true) where
    reached :
        (operation : String)
        → all_operations model operation args (some tenant) ≡ ok args'
        → scope_args operation args tenant ≡ ok args'
    unfolding all_operations
    reached operation h = ground arith

    upsert-ok :
        scope_args "upsert" args tenant ≡ ok args'
        → (args'.selection ≡ some (with_tenant tenant (or_empty args.selection)))
          × (args'.create ≡ some (with_tenant tenant (or_empty args.create)))
          × (args'.update ≡ args.update)
          × (tenant_matches tenant args.update ≡ true)
    unfolding scope_args contains
    upsert-ok h = ground arith

    where-ok :
        (operation : String)
        → contains operation where_operations ≡ true
        → scope_args operation args tenant ≡ ok args'
        → (args'.selection ≡ some (with_tenant tenant (or_empty args.selection)))
          × (args'.payload ≡ args.payload)
    unfolding scope_args
    where-ok operation listed h = ground arith

    update-ok :
        (operation : String)
        → (operation ≡ "update") ⊎ (operation ≡ "updateMany")
        → scope_args operation args tenant ≡ ok args'
        → (args'.payload ≡ args.payload) × (tenant_matches tenant (single args.payload) ≡ true)
    unfolding scope_args contains
    update-ok operation (inl e) h =
        let h' : scope_args "update" args tenant ≡ ok args' = rw e at h in ground arith
    update-ok operation (inr e) h =
        let h' : scope_args "updateMany" args tenant ≡ ok args' = rw e at h in ground arith

    unscopable-refused :
        (operation : String)
        → contains operation unscopable_operations ≡ true
        → all_operations model operation args (some tenant) ≢ ok args'
    unfolding all_operations
    unscopable-refused operation listed h = ground arith

    confined :
        args'.selection ≡ some (with_tenant tenant (or_empty args.selection))
        → IsConfined tenant args args'
    confined e = (
      with_tenant tenant (or_empty args.selection),
      e,
      with_tenant-HasTenant tenant (or_empty args.selection),
      λ key other. other_key tenant key other (or_empty args.selection),
    )

    -- A call on a tenant model that works on existing rows and reaches the database has a `where`
    -- with the tenant of the context, whatever tenant the caller's `where` named, and with the
    -- caller's value for every other key. That is: every operation of Prisma that has a `where`,
    -- but updateManyAndReturn.
    pub selection_confined :
        (operation : PrismaOperation)
        → has_where operation ≡ true
        → operation ≢ update_many_and_return
        → all_operations model (name_of operation) args (some tenant) ≡ ok args'
        → IsConfined tenant args args'
    selection_confined operation selects scoped_one h = elim (listing operation) [
      | unique listed ↦ absurd (unscopable-refused (name_of operation) listed h)
      | filtered listed ↦
          confined (where-ok (name_of operation) listed (reached (name_of operation) h)).0
      | upserting e ↦ confined (upsert-ok (reached "upsert" (rw e at h))).0
      | creating no_where _ ↦ cc
      | passed_on (inl e) _ ↦ cc
      | passed_on (inr e) _ ↦ absurd (scoped_one e)
    ]

    unlisted-same :
        (operation : String)
        → IsUnlisted operation
        → scope_args operation args tenant ≡ ok args'
        → args' ≡ args
    unfolding scope_args
    unlisted-same operation unlisted h = ground arith

    create-ok :
        (operation : String)
        → (operation ≡ "create") ⊎ (operation ≡ "createMany")
        → scope_args operation args tenant ≡ ok args'
        → (args'.payload ≡ one (with_tenant tenant (or_empty (single args.payload))))
          ⊎ (args'.payload ≡ each_with_tenant tenant args.payload)
    unfolding scope_args contains
    create-ok operation (inl e) h =
        let h' : scope_args "create" args tenant ≡ ok args' = rw e at h in inl (ground arith)
    create-ok operation (inr e) h =
        let h' : scope_args "createMany" args tenant ≡ ok args' = rw e at h in inr (ground arith)

    -- A row that is created carries the tenant of the context.
    created_confined :
        (operation : String)
        → (operation ≡ "create") ⊎ (operation ≡ "createMany")
        → all_operations model operation args (some tenant) ≡ ok args'
        → AllHaveTenant tenant args'.payload
    created_confined operation which h = elim (create-ok operation which (reached operation h)) [
      | inl e ↦ rw e (with_tenant-HasTenant tenant (or_empty (single args.payload)))
      | inr e ↦ rw e (each_with_tenant-AllHaveTenant tenant args.payload)
    ]

    -- No row moves to another tenant.
    update_confined :
        (operation : String)
        → (operation ≡ "update") ⊎ (operation ≡ "updateMany")
        → all_operations model operation args (some tenant) ≡ ok args'
        → StaysInTenant tenant (single args'.payload)
    update_confined operation which h =
        let (same, matched) = update-ok operation which (reached operation h) in
        rw same (tenant_matches-StaysInTenant tenant (single args.payload) matched)

    upserted :
        all_operations model "upsert" args (some tenant) ≡ ok args'
        → ((o : Obj) × (args'.create ≡ some o) × HasTenant tenant o)
          × StaysInTenant tenant args'.update
    upserted h =
        let (_, made, same, matched) = upsert-ok (reached "upsert" h) in
        (
          (
            with_tenant tenant (or_empty args.create),
            made,
            with_tenant-HasTenant tenant (or_empty args.create),
          ),
          rw same (tenant_matches-StaysInTenant tenant args.update matched),
        )

    -- What create, createMany, update, updateMany and upsert write to a tenant model stays in the
    -- tenant of the context. Of such a call that reaches the database: every row that create,
    -- createMany and the create branch of upsert write carries that tenant, also where the caller
    -- gave none; the data of update, updateMany and of the update branch of upsert leave the tenant
    -- of a row out, or name that tenant. Nothing is stated of createManyAndReturn and
    -- updateManyAndReturn.
    pub written_confined :
        (operation : PrismaOperation)
        → all_operations model (name_of operation) args (some tenant) ≡ ok args'
        → WritesInTenant tenant operation args'
    written_confined create h = created_confined "create" (inl refl) h
    written_confined create_many h = created_confined "createMany" (inr refl) h
    written_confined update h = update_confined "update" (inl refl) h
    written_confined update_many h = update_confined "updateMany" (inr refl) h
    written_confined upsert h = upserted h
    written_confined find_unique h = tt
    written_confined find_unique_or_throw h = tt
    written_confined find_first h = tt
    written_confined find_first_or_throw h = tt
    written_confined find_many h = tt
    written_confined create_many_and_return h = tt
    written_confined update_many_and_return h = tt
    written_confined delete h = tt
    written_confined delete_many h = tt
    written_confined count h = tt
    written_confined aggregate h = tt
    written_confined group_by h = tt

    unique_refused :
        {operation : PrismaOperation}
        → (operation ≡ find_unique) ⊎ (operation ≡ find_unique_or_throw)
        → all_operations model (name_of operation) args (some tenant) ≢ ok args'
    unfolding contains
    unique_refused (inl e) h = unscopable-refused "findUnique" refl (rw e at h)
    unique_refused (inr e) h = unscopable-refused "findUniqueOrThrow" refl (rw e at h)

    reached_kind :
        (operation : PrismaOperation)
        → all_operations model (name_of operation) args (some tenant) ≡ ok args'
        → (IsConfined tenant args args' ⊎ AllHaveTenant tenant args'.payload)
          ⊎ (((operation ≡ create_many_and_return) ⊎ (operation ≡ update_many_and_return))
              × (args' ≡ args))
    reached_kind operation h = elim (listing operation) [
      | unique listed ↦ absurd (unscopable-refused (name_of operation) listed h)
      | filtered listed ↦
          inl
            (inl (confined (where-ok (name_of operation) listed (reached (name_of operation) h)).0))
      | upserting e ↦ inl (inl (confined (upsert-ok (reached "upsert" (rw e at h))).0))
      | creating _ which ↦ inl (inr (created_confined (name_of operation) which h))
      | passed_on which unlisted ↦
          inr (which, unlisted-same (name_of operation) unlisted (reached (name_of operation) h))
    ]

-- No operation of Prisma on a tenant model reaches the database without a non-empty tenant in the
-- context, and neither findUnique nor findUniqueOrThrow does at all. One that does is confined by
-- its `where` to that tenant, or writes rows of that tenant only, or is createManyAndReturn or
-- updateManyAndReturn, which reach it with the arguments of the caller unchanged.
pub reached_in_tenant :
    (model : Option String) (operation : PrismaOperation) (args args' : Args)
    (context : Option String)
    → is_tenant_model model ≡ true
    → all_operations model (name_of operation) args context ≡ ok args'
    → (tenant : String) × (context ≡ some tenant)
      × (tenant ≢ "")
      × ((operation ≢ find_unique) × (operation ≢ find_unique_or_throw))
      × ((IsConfined tenant args args' ⊎ AllHaveTenant tenant args'.payload)
          ⊎ (((operation ≡ create_many_and_return) ⊎ (operation ≡ update_many_and_return))
              × (args' ≡ args)))
reached_in_tenant model operation args args' none scoped h =
    absurd (no_tenant model (name_of operation) args scoped args' h)
reached_in_tenant model operation args args' (some tenant) scoped h = (
  tenant,
  refl,
  λ empty. empty_tenant model (name_of operation) args scoped args' (rw empty at h),
  (
    λ e. unique_refused tenant model args args' scoped (inl e) h,
    λ e. unique_refused tenant model args args' scoped (inr e) h,
  ),
  reached_kind tenant model args args' scoped operation h,
)
