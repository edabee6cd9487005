-- ===== src/Users.antt =====
-- modules/users/users.service.ts. Every method is given the caller's own id by its controller.
pub mod Controller
use ai_search_api.Base.{ℕ, String, ◌≡◌, refl, sym, ◌∙◌, Bool, ◌&&◌, Option, none, some, str_eq}
use ai_search_api.Base.Result.{Thrown, http, failure, Result, ok, err}
use ai_search_api.Base.Text.{Text, text_eq}
use ai_search_api.Core.AuditLog.{entry_of, on_user}
use ai_search_api.Auth.State.{User, State, Request, Platform, is_null, audited}

abbrev pub has_email : Text → User → Bool
has_email email u = text_eq u.email email

abbrev pub has_user_id : String → User → Bool
has_user_id id u = str_eq u.id id

abbrev pub is_active_user : String → User → Bool
is_active_user id u = str_eq u.id id && is_null u.deleted_at

abbrev pub user_not_found : Thrown
user_not_found = http 404 "User not found"

-- What Prisma throws for an email that is taken (P2002).
abbrev pub email_taken : Thrown
email_taken = failure "Unique constraint failed"

abbrev pub new_user : Request → Text → Option Text → User
new_user req email display_name = record {
  id = req.user_id;
  tenant_id = req.tenant_id;
  email = email;
  display_name = display_name;
  failed_login_attempts = 0;
  created_at = req.now;
  locked_until = none;
  deleted_at = none;
}

module _ (p : Platform) where
  -- The tenant and its first user, in one transaction.
  unfoldable pub create_user_with_tenant :
      Request → Text → Option Text → State → Result (User × State)
  create_user_with_tenant req email display_name s =
      elim (p.db.create_unique (has_email email) (new_user req email display_name) s.users) [
        | none ↦ err email_taken
        | some users ↦ ok (
          new_user req email display_name,
          record s {
            tenants = p.db.create (record { id = req.tenant_id; deleted_at = none }) s.tenants;
            users = users;
          },
        )
      ]

  -- Soft-deleted rows are included.
  unfoldable pub find_by_email : Text → State → Option User
  find_by_email email s = p.db.find_first (has_email email) s.users

  -- The transaction where the email is free, and where it is taken.
  abbrev pub with_new_account : Request → Text → Option Text → State → State
  with_new_account req email display_name s = record s {
    tenants = p.db.create (record { id = req.tenant_id; deleted_at = none }) s.tenants;
    users = p.db.create (new_user req email display_name) s.users;
  }

  pub create_user_with_tenant-free :
      (req : Request) (email : Text) (name : Option Text) (s : State)
      → find_by_email email s ≡ none
      → create_user_with_tenant req email name s
        ≡ ok (new_user req email name, with_new_account req email name s)
  unfolding create_user_with_tenant find_by_email
  create_user_with_tenant-free req email name s h =
      rw
        (
          create_user_with_tenant,
          p.db.create_unique_lem,
          sym (p.db.find_first_lem (has_email email) s.users) ∙ h,
        )
        refl

  pub create_user_with_tenant-taken :
      (req : Request) (email : Text) (name : Option Text) (s : State) (u : User)
      → find_by_email email s ≡ some u
      → create_user_with_tenant req email name s ≡ err email_taken
  unfolding create_user_with_tenant find_by_email
  create_user_with_tenant-taken req email name s u h =
      rw
        (
          create_user_with_tenant,
          p.db.create_unique_lem,
          sym (p.db.find_first_lem (has_email email) s.users) ∙ h,
        )
        refl

  unfoldable pub get_active_by_id : String → State → Result User
  get_active_by_id id s = elim (p.db.find_first (is_active_user id) s.users) [
    | none ↦ err user_not_found
    | some u ↦ ok u
  ]

  -- `data: { displayName }`, where `none` is undefined, for which Prisma leaves the column alone,
  -- and `some none` is null.
  abbrev pub with_name : Option (Option Text) → User → User
  with_name none u = u
  with_name (some display_name) u = record u { display_name = display_name }

  unfoldable pub update_profile :
      Request → String → Option (Option Text) → State → Result User × State
  unfolding get_active_by_id
  update_profile req id display_name s = elim (get_active_by_id id s) [
    | err e ↦ (err e, s)
    | ok existing ↦ (
      ok (with_name display_name existing),
      audited p req (on_user id (entry_of "user.updated" existing.tenant_id id)) (record s {
        users = (p.db.update_many (has_user_id id) (with_name display_name) s.users).0;
      }),
    )
  ]

  -- The name is all that is written.
  pub with_name-keeps :
      (name : Option (Option Text)) (u : User)
      → ((with_name name u).id ≡ u.id)
        × ((with_name name u).tenant_id ≡ u.tenant_id)
        × ((with_name name u).email ≡ u.email)
  with_name-keeps none u = (refl, refl, refl)
  with_name-keeps (some name) u = (refl, refl, refl)

  abbrev pub as_deleted : ℕ → User → User
  as_deleted now u = record u { deleted_at = some now }

  unfoldable pub soft_delete : Request → String → State → Result (Unit {0}) × State
  unfolding get_active_by_id
  soft_delete req id s = elim (get_active_by_id id s) [
    | err e ↦ (err e, s)
    | ok existing ↦ (
      ok tt,
      audited p req (on_user id (entry_of "user.deleted" existing.tenant_id id))
          (record s { users = (p.db.update_many (has_user_id id) (as_deleted req.now) s.users).0 }),
    )
  ]
