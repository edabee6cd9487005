-- ===== src/Core/AuditLog.antt =====
-- core/audit/audit.service.ts: the append-only audit log.
use ai_search_api.Base.{String, Bool, Option, none, some, List, if◌then◌else◌}
use ai_search_api.Base.Prisma.{Client}

pub record AuditEntry : Type 0 where
  pub action : String
  pub tenant_id : Option String
  pub actor_user_id : Option String
  pub target_type : Option String
  pub target_id : Option String
  pub metadata : Option String
  pub ip : Option String
  pub request_id : Option String

-- An entry with an action of a user of a tenant, and what the callers leave out.
abbrev pub entry_of : String → String → String → AuditEntry
entry_of action tenant_id actor_user_id = record {
  action = action;
  tenant_id = some tenant_id;
  actor_user_id = some actor_user_id;
  target_type = none;
  target_id = none;
  metadata = none;
  ip = none;
  request_id = none;
}

abbrev pub on_user : String → AuditEntry → AuditEntry
on_user id e = record e { target_type = some "user"; target_id = some id }

abbrev pub by_method : String → AuditEntry → AuditEntry
by_method name e = record e { metadata = some name }

-- `record` never throws: if the write fails, the failure is logged and the caller goes on.
unfoldable pub record_entry : Client → Bool → AuditEntry → List AuditEntry → List AuditEntry
record_entry db succeeds entry log = if succeeds then db.create entry log else log
