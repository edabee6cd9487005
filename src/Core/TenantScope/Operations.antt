-- ===== src/Core/TenantScope/Operations.antt =====
-- The operations of Prisma's client on a model, by their names, for
-- core/prisma/tenant-scope.extension.ts: which of them the extension's lists and tests name.
use ai_search_api.Base.{String, ◌≡◌, refl, ◌⊎◌, inl, inr, Bool, true, false, str_eq}
use ai_search_api.Core.TenantScope.{contains, where_operations, unscopable_operations}

pub data PrismaOperation : Type 0 where
  find_unique : PrismaOperation
  find_unique_or_throw : PrismaOperation
  find_first : PrismaOperation
  find_first_or_throw : PrismaOperation
  find_many : PrismaOperation
  create : PrismaOperation
  create_many : PrismaOperation
  create_many_and_return : PrismaOperation
  update : PrismaOperation
  update_many : PrismaOperation
  update_many_and_return : PrismaOperation
  upsert : PrismaOperation
  delete : PrismaOperation
  delete_many : PrismaOperation
  count : PrismaOperation
  aggregate : PrismaOperation
  group_by : PrismaOperation

abbrev pub name_of : PrismaOperation → String
name_of find_unique = "findUnique"
name_of find_unique_or_throw = "findUniqueOrThrow"
name_of find_first = "findFirst"
name_of find_first_or_throw = "findFirstOrThrow"
name_of find_many = "findMany"
name_of create = "create"
name_of create_many = "createMany"
name_of create_many_and_return = "createManyAndReturn"
name_of update = "update"
name_of update_many = "updateMany"
name_of update_many_and_return = "updateManyAndReturn"
name_of upsert = "upsert"
name_of delete = "delete"
name_of delete_many = "deleteMany"
name_of count = "count"
name_of aggregate = "aggregate"
name_of group_by = "groupBy"

-- It works on existing rows, which its `where` selects.
abbrev pub has_where : PrismaOperation → Bool
has_where create = false
has_where create_many = false
has_where create_many_and_return = false
has_where _ = true

-- No list and no test of the extension names it.
abbrev pub IsUnlisted : String → Type 0
IsUnlisted operation =
    (contains operation where_operations ≡ false)
    × (contains operation unscopable_operations ≡ false)
    × (str_eq operation "create" ≡ false)
    × (str_eq operation "createMany" ≡ false)
    × (str_eq operation "upsert" ≡ false)

-- Where the extension names an operation.
pub data Listing (operation : PrismaOperation) : Type 0 where
  unique : contains (name_of operation) unscopable_operations ≡ true → Listing operation
  filtered : contains (name_of operation) where_operations ≡ true → Listing operation
  upserting : name_of operation ≡ "upsert" → Listing operation
  creating :
      has_where operation ≡ false
      → (name_of operation ≡ "create") ⊎ (name_of operation ≡ "createMany")
      → Listing operation
  passed_on :
      (operation ≡ create_many_and_return) ⊎ (operation ≡ update_many_and_return)
      → IsUnlisted (name_of operation)
      → Listing operation

pub listing : (operation : PrismaOperation) → Listing operation
unfolding contains
listing find_unique = unique refl
listing find_unique_or_throw = unique refl
listing find_first = filtered refl
listing find_first_or_throw = filtered refl
listing find_many = filtered refl
listing create = creating refl (inl refl)
listing create_many = creating refl (inr refl)
listing create_many_and_return = passed_on (inl refl) (refl, refl, refl, refl, refl)
listing update = filtered refl
listing update_many = filtered refl
listing update_many_and_return = passed_on (inr refl) (refl, refl, refl, refl, refl)
listing upsert = upserting refl
listing delete = filtered refl
listing delete_many = filtered refl
listing count = filtered refl
listing aggregate = filtered refl
listing group_by = filtered refl
