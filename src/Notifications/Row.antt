-- ===== src/Notifications/Row.antt =====
-- The `Notification` model of prisma/schema.prisma, and `NotifyInput` of
-- modules/notifications/notifications.service.ts. `data` carries the id of an audit.
use ai_search_api.Base.{ℕ, String, Option}
use ai_search_api.Base.Text.{Text}

pub record Notification : Type 0 where
  pub id : String
  pub tenant_id : String
  pub user_id : String
  pub type : Text
  pub title : Text
  pub body : Text
  pub payload : Option String
  pub created_at : ℕ
  pub read_at : Option ℕ

pub record NotifyInput : Type 0 where
  pub user_id : String
  pub tenant_id : String
  pub type : Text
  pub title : Text
  pub body : Text
  pub payload : Option String
