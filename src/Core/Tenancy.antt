-- ===== src/Core/Tenancy.antt =====
-- core/tenancy and core/prisma/tenant-scope.extension.ts, as the services see them: a query through
-- the tenant client has the context's tenant added to its `where`.
use ai_search_api.Base.{String, Bool, ◌&&◌, str_eq}

unfoldable pub scoped : {Row : Type 0} → (Row → String) → String → (Row → Bool) → Row → Bool
scoped tenant_of tenant p r = str_eq (tenant_of r) tenant && p r
