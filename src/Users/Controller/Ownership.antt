-- ===== src/Users/Controller/Ownership.antt =====
-- modules/users: whose account a request can read or change.
use ai_search_api.Base.{
  ℕ, String, ◌≡◌, refl, sym, ap, ◌∙◌, inl, inr, Bool, true, not, Option, some, List, arith, str_eq,
  eq_iff, Option-cases, first, keep, first_sound,
}
use ai_search_api.Base.Result.{Result, ok, err, Result-cases}
use ai_search_api.Base.Keys.{others-change_apart}
use ai_search_api.Base.Text.{Text}
use ai_search_api.Core.Interceptors.{Body, value, stream, nothing, is_truthy, ends}
use ai_search_api.Core.Pipeline.{respond}
use ai_search_api.Base.Within.{first-within}
use ai_search_api.Auth.State.{User, State, Request, Platform}
use ai_search_api.Auth.Access.{AuthenticatedUser, authenticate, serve-signed_in, Server, Arrival}
use ai_search_api.Users.{
  has_user_id, is_active_user, with_name, with_name-keeps, as_deleted, get_active_by_id,
  update_profile, soft_delete,
}
use ai_search_api.Users.Controller.{
  UserResponse, UsersCall, me_call, remove_call, update_call, route, profile, removed, handle_users,
  serve_users,
}

abbrev pub other_accounts : String → List User → List User
other_accounts id = keep (λ u. not (has_user_id id u))

-- The tables with the account of the caller only.
abbrev pub own_account : String → State → State
own_account id s = record s { users = keep (has_user_id id) s.users }

-- What a request leaves alone: the accounts of others, tenants, login methods and refresh tokens.
pub record LeavesOthers (id : String) (s s' : State) : Type 0 where
  pub accounts : other_accounts id s'.users ≡ other_accounts id s.users
  pub tenants : s'.tenants ≡ s.tenants
  pub login_methods : s'.login_methods ≡ s.login_methods
  pub refresh_tokens : s'.refresh_tokens ≡ s.refresh_tokens

-- A value that is returned is the account with the id.
abbrev pub returns_own : String → Result (Body UserResponse) → Bool
returns_own id (ok (value r)) = str_eq r.id id
returns_own id (ok (stream type disposition content)) = true
returns_own id (ok nothing) = true
returns_own id (err e) = true

profile-returns_own :
    (id : String) (x : Result User)
    → ((u : User) → x ≡ ok u → u.id ≡ id)
    → returns_own id (profile x) ≡ true
profile-returns_own id (err e) h = refl
profile-returns_own id (ok u) h = ground (arith, h u refl, eq_iff u.id id)

removed-returns_own : (id : String) (x : Result (Unit {0})) → returns_own id (removed x) ≡ true
removed-returns_own id (err e) = refl
removed-returns_own id (ok u) = refl

module _ (p : Platform) (req : Request) where
  unchanged : (id : String) (s : State) → LeavesOthers id s s
  unchanged id s = record {
    accounts = refl;
    tenants = refl;
    login_methods = refl;
    refresh_tokens = refl;
  }

  module _ (id : String) (f : User → User) (same : (u : User) → (f u).id ≡ u.id) where
    written :
        (users : List User)
        → other_accounts id (p.db.update_many (has_user_id id) f users).0 ≡ other_accounts id users
    written users =
        ap (λ (w : List User × ℕ). other_accounts id w.0)
          (p.db.update_many_lem (has_user_id id) f users)
        ∙ others-change_apart (has_user_id id) (has_user_id id) f (λ u h. h)
            (λ u. ap (λ (i : String). str_eq i id) (same u)) users

  update_profile-LeavesOthers :
      (id : String) (display_name : Option (Option Text)) (s : State)
      → LeavesOthers id s (update_profile p req id display_name s).1
  unfolding update_profile
  update_profile-LeavesOthers id display_name s = elim (Result-cases (get_active_by_id p id s)) [
    | inl (u, e) ↦
        rw (update_profile, e)
          (record {
            accounts =
                written id (with_name p display_name) (λ u. (with_name-keeps p display_name u).0)
                  s.users;
            tenants = refl;
            login_methods = refl;
            refresh_tokens = refl;
          })
    | inr (x, e) ↦ rw (update_profile, e) (unchanged id s)
  ]

  soft_delete-LeavesOthers :
      (id : String) (s : State) → LeavesOthers id s (soft_delete p req id s).1
  unfolding soft_delete
  soft_delete-LeavesOthers id s = elim (Result-cases (get_active_by_id p id s)) [
    | inl (u, e) ↦
        rw (soft_delete, e)
          (record {
            accounts = written id (as_deleted p req.now) (λ u. refl) s.users;
            tenants = refl;
            login_methods = refl;
            refresh_tokens = refl;
          })
    | inr (x, e) ↦ rw (soft_delete, e) (unchanged id s)
  ]

  handle_users-LeavesOthers :
      (call : UsersCall) (user : AuthenticatedUser) (tenant : Option String) (s : State)
      → LeavesOthers user.user_id s (handle_users p req call user tenant s).1
  unfolding handle_users
  handle_users-LeavesOthers me_call user tenant s = unchanged user.user_id s
  handle_users-LeavesOthers (update_call display_name) user tenant s =
      update_profile-LeavesOthers user.user_id display_name s
  handle_users-LeavesOthers remove_call user tenant s = soft_delete-LeavesOthers user.user_id s

  get_active-own : (id : String) (s : State) (u : User) → get_active_by_id p id s ≡ ok u → u.id ≡ id
  unfolding get_active_by_id
  get_active-own id s u h =
      let found = p.db.find_first_lem (is_active_user id) s.users in
      elim (Option-cases (first (is_active_user id) s.users)) [
        | inl e ↦ ground (arith, h, found, e)
        | inr (v, e) ↦
            ground (arith, h, found, e, first_sound (is_active_user id) s.users v, eq_iff v.id id)
      ]

  update_profile-own :
      (id : String) (display_name : Option (Option Text)) (s : State) (u : User)
      → (update_profile p req id display_name s).0 ≡ ok u
      → u.id ≡ id
  unfolding update_profile
  update_profile-own id display_name s u h = elim (Result-cases (get_active_by_id p id s)) [
    | inl (v, e) ↦ ground (arith, h, e, get_active-own id s v e)
    | inr (x, e) ↦ ground (arith, h, e)
  ]

  handle_users-own :
      (call : UsersCall) (user : AuthenticatedUser) (tenant : Option String) (s : State)
      → returns_own user.user_id (handle_users p req call user tenant s).0 ≡ true
  unfolding handle_users
  handle_users-own me_call user tenant s =
      profile-returns_own user.user_id (get_active_by_id p user.user_id s)
        (get_active-own user.user_id s)
  handle_users-own (update_call display_name) user tenant s =
      profile-returns_own user.user_id (update_profile p req user.user_id display_name s).0
        (update_profile-own user.user_id display_name s)
  handle_users-own remove_call user tenant s =
      removed-returns_own user.user_id (soft_delete p req user.user_id s).0

  get_active-alone :
      (id : String) (s : State) → get_active_by_id p id s ≡ get_active_by_id p id (own_account id s)
  unfolding get_active_by_id
  get_active-alone id s =
      let found : p.db.find_first (is_active_user id) s.users
          ≡ p.db.find_first (is_active_user id) (keep (has_user_id id) s.users) =
        p.db.find_first_lem (is_active_user id) s.users
        ∙ sym (first-within (has_user_id id) (is_active_user id) (λ u h. ground arith) s.users)
        ∙ sym (p.db.find_first_lem (is_active_user id) (keep (has_user_id id) s.users)) in
      rw (get_active_by_id, found) refl

  update_profile-alone :
      (id : String) (display_name : Option (Option Text)) (s : State)
      → (update_profile p req id display_name s).0
        ≡ (update_profile p req id display_name (own_account id s)).0
  unfolding update_profile
  update_profile-alone id display_name s = elim (Result-cases (get_active_by_id p id s)) [
    | inl (u, e) ↦ rw (update_profile, e, sym (get_active-alone id s) ∙ e) refl
    | inr (x, e) ↦ rw (update_profile, e, sym (get_active-alone id s) ∙ e) refl
  ]

  soft_delete-alone :
      (id : String) (s : State)
      → (soft_delete p req id s).0 ≡ (soft_delete p req id (own_account id s)).0
  unfolding soft_delete
  soft_delete-alone id s = elim (Result-cases (get_active_by_id p id s)) [
    | inl (u, e) ↦ rw (soft_delete, e, sym (get_active-alone id s) ∙ e) refl
    | inr (x, e) ↦ rw (soft_delete, e, sym (get_active-alone id s) ∙ e) refl
  ]

  handle_users-alone :
      (call : UsersCall) (user : AuthenticatedUser) (tenant : Option String) (s : State)
      → (handle_users p req call user tenant s).0
        ≡ (handle_users p req call user tenant (own_account user.user_id s)).0
  unfolding handle_users
  handle_users-alone me_call user tenant s = ap profile (get_active-alone user.user_id s)
  handle_users-alone (update_call display_name) user tenant s =
      ap profile (update_profile-alone user.user_id display_name s)
  handle_users-alone remove_call user tenant s = ap removed (soft_delete-alone user.user_id s)

  -- A request of a signed-in user to one of the users routes reads and changes the user's own
  -- account only: it is answered as it is where the table has no other account, an account that the
  -- handler returns is the caller's, and other accounts, tenants, login methods and refresh tokens
  -- are as before.
  pub serve_users-own :
      (server : Server) (arrival : Arrival server) (call : UsersCall) (user : AuthenticatedUser)
      (s : State)
      → authenticate server.verify_bearer arrival.authorization ≡ ok user
      → is_truthy user.tenant_id ≡ true
      → LeavesOthers user.user_id s (serve_users p req server arrival call s).1
        × (returns_own user.user_id (handle_users p req call user (some user.tenant_id) s).0 ≡ true)
        × ((serve_users p req server arrival call s).0
            ≡ (serve_users p req server arrival call (own_account user.user_id s)).0)
  unfolding serve_users
  serve_users-own server arrival call user s signed_in bound =
      let alone : State = own_account user.user_id s in
      let handler = handle_users p req call in
      (
        rw (serve-signed_in server arrival (route call) handler s user signed_in bound)
            (handle_users-LeavesOthers call user (some user.tenant_id) s),
        handle_users-own call user (some user.tenant_id) s,
        rw
            (
              serve-signed_in server arrival (route call) handler s user signed_in bound,
              serve-signed_in server arrival (route call) handler alone user signed_in bound,
            )
            (ap
              (λ r.
                respond server.site (route call) arrival.request arrival.now (ends arrival.took r))
              (handle_users-alone call user (some user.tenant_id) s)),
      )
