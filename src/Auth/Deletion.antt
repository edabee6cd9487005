-- ===== src/Auth/Deletion.antt =====
-- modules/users/users.service.ts, `softDelete`, and the sessions of modules/auth: what is left to
-- an account that was deleted.
use ai_search_api.Base.{
  ℕ, String, ◌≡◌, refl, sym, ap, ◌∙◌, ◌≢◌, inl, inr, Bool, false, none, some, List, arith, str_eq,
  eq_refl, if◌then◌else◌, Option-cases, first, change, first-change, first_sound,
}
use ai_search_api.Base.Keys.{first-change_all}
use ai_search_api.Base.Result.{ok, err, Result-cases}
use ai_search_api.Base.Text.{Text}
use ai_search_api.Auth.State.{Tenant, User, RefreshToken, State, AuthTokens, Request, Platform}
use ai_search_api.Auth.Ledger.{account_of, is_active_pair, with_tenant_in}
use ai_search_api.Auth.Ledger.Steps.{owner_of-account_of}
use ai_search_api.Auth.Tokens.{rotate}
use ai_search_api.Auth.Tokens.Rotation.{presented_row, rotate-Rotated}
use ai_search_api.Auth.Service.{
  if_not_deleted, normalise_email, invalid_credentials, settle_login, login,
}
use ai_search_api.Users.{
  has_email, has_user_id, as_deleted, find_by_email, get_active_by_id, soft_delete,
}

module _ (p : Platform) where
  soft_delete-users :
      (req : Request) (id : String) (s : State)
      → (soft_delete p req id s).0 ≡ ok tt
      → (soft_delete p req id s).1.users ≡ change (has_user_id id) (as_deleted p req.now) s.users
  unfolding soft_delete
  soft_delete-users req id s h = elim (Result-cases (get_active_by_id p id s)) [
    | inl (u, e) ↦ rw (soft_delete, e, p.db.update_many_lem) refl
    | inr (x, e) ↦ ground (arith, e, h)
  ]

  login-missing :
      (req : Request) (email : Text) (plain : String) (s : State)
      → if_not_deleted (find_by_email p (normalise_email email) s) ≡ none
      → (login p req email plain s).0 ≡ err invalid_credentials
  unfolding login settle_login
  login-missing req email plain s h = rw (login, h) refl

  login-deleted :
      (req again : Request) (email : Text) (plain : String) (s : State) (u : User)
      → first (has_email (normalise_email email)) s.users ≡ some u
      → (soft_delete p req u.id s).0 ≡ ok tt
      → (login p again email plain (soft_delete p req u.id s).1).0 ≡ err invalid_credentials
  unfolding find_by_email
  login-deleted req again email plain s u found deleted =
      let e = normalise_email email in
      let s' = (soft_delete p req u.id s).1 in
      let now_deleted =
        first-change (has_email e) (has_user_id u.id) (as_deleted p req.now) (λ v. refl) s.users u
          found in
      let read : find_by_email p e s' ≡ some (as_deleted p req.now u) =
        p.db.find_first_lem (has_email e) s'.users
        ∙ ap (first (has_email e)) (soft_delete-users req u.id s deleted)
        ∙ now_deleted
        ∙ ap (λ (b : Bool). some (if b then as_deleted p req.now u else u)) (eq_refl u.id) in
      login-missing again email plain s' (ap if_not_deleted read)

  inactive :
      (tenants : List Tenant) (now : ℕ) (v : User)
      → is_active_pair (with_tenant_in tenants (some (as_deleted p now v))) ≡ false
  inactive tenants now v =
      elim (Option-cases (first (λ (n : Tenant). str_eq n.id v.tenant_id) tenants)) [
        | inl e ↦ rw e refl
        | inr (n, e) ↦ rw e refl
      ]

  account_of-deleted :
      (req : Request) (id : String) (s : State)
      → (soft_delete p req id s).0 ≡ ok tt
      → is_active_pair (account_of (soft_delete p req id s).1 id) ≡ false
  account_of-deleted req id s deleted =
      let s' = (soft_delete p req id s).1 in
      let changed =
        ap
          (λ (users : List User).
            is_active_pair (with_tenant_in s'.tenants (first (has_user_id id) users)))
          (soft_delete-users req id s deleted) in
      elim (Option-cases (first (has_user_id id) s.users)) [
        | inl e ↦
            changed
            ∙ rw
                (
                  first-change_all (has_user_id id) (has_user_id id) (as_deleted p req.now)
                      (λ v. refl) s.users,
                  e,
                )
                refl
        | inr (v, e) ↦
            changed
            ∙ rw
                (
                  first-change (has_user_id id) (has_user_id id) (as_deleted p req.now) (λ v. refl)
                      s.users v e,
                  (first_sound (has_user_id id) s.users v e),
                )
                (inactive s'.tenants req.now v)
      ]

  rotate-deleted :
      (req again : Request) (others : State → State) (presented : String) (s s'' : State)
      (id : String) (tokens : AuthTokens) (t : RefreshToken)
      → (soft_delete p req id s).0 ≡ ok tt
      → presented_row p presented (soft_delete p req id s).1 ≡ some t
      → t.user_id ≡ id
      → rotate p again others presented (soft_delete p req id s).1 ≢ (ok tokens, s'')
  rotate-deleted req again others presented s s'' id tokens t deleted found owner h =
      let s' = (soft_delete p req id s).1 in
      let r = rotate-Rotated p again others presented s' tokens s'' h in
      let both : some r.row ≡ some t = sym r.found ∙ found in
      let same : r.row ≡ t = cc in
      let owned_by : r.row.user_id ≡ id = ap (λ (x : RefreshToken). x.user_id) same ∙ owner in
      let account : account_of s' id ≡ some (r.user, r.tenant) =
        ap (account_of s') (sym owned_by) ∙ sym (owner_of-account_of p r.row s') ∙ r.owned in
      let inactive_now = account_of-deleted req id s deleted in
      let active_now = ap is_active_pair account ∙ r.active in cc

  -- In the state that a successful deletion leaves of the account that an email is looked up by, no
  -- login with that email is accepted, whatever the password, and no refresh token of the account
  -- is, whatever other requests do during the refresh.
  pub soft_delete-locks_out :
      (req again : Request) (others : State → State) (email : Text) (plain presented : String)
      (s s'' : State) (u : User) (tokens : AuthTokens) (t : RefreshToken)
      → first (has_email (normalise_email email)) s.users ≡ some u
      → (soft_delete p req u.id s).0 ≡ ok tt
      → presented_row p presented (soft_delete p req u.id s).1 ≡ some t
      → t.user_id ≡ u.id
      → ((login p again email plain (soft_delete p req u.id s).1).0 ≡ err invalid_credentials)
        × (rotate p again others presented (soft_delete p req u.id s).1 ≢ (ok tokens, s''))
  soft_delete-locks_out req again others email plain presented s s'' u tokens t found deleted row
        owner =
      (
        login-deleted req again email plain s u found deleted,
        rotate-deleted req again others presented s s'' u.id tokens t deleted row owner,
      )
