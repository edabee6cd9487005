-- ===== src/Auth/Accounts/Openings.antt =====
-- modules/auth: the operations that open an account or add a login method keep the accounts
-- well-formed.
use ai_search_api.Base.{
  String, ◌≡◌, refl, sym, ◌∙◌, inl, inr, Bool, true, false, not, Option, none, some, List, [], ◌∷◌,
  map, arith, eq_refl, ◌==◌, Bool-cases, Option-cases, first,
}
use mathlib.Core.List.{map-append}
use ai_search_api.Base.Text.{Text}
use ai_search_api.Auth.State.{User, LoginMethod, State, Request, Platform, is_null}
use ai_search_api.Auth.Service.{
  normalise_email, register, settle_register, tenant_active, password_method,
}
use ai_search_api.Auth.Service.Google.{
  GoogleAuthUser, google_method, google_unlinked, google_linked, google_existing, google_new,
  google_opened, link_google, issue_session_for_google_user, is_google_account, is_google_of,
  with_account,
}
use ai_search_api.Users.{
  has_email, has_user_id, find_by_email, create_user_with_tenant, create_user_with_tenant-free,
  create_user_with_tenant-taken, with_new_account,
}
use ai_search_api.Auth.Accounts.{
  accounts_of, holds, registers, IsWellFormed, opened, opened-IsWellFormed, linked-IsWellFormed,
}
use ai_search_api.Auth.Accounts.Operations.{map-change}

first-none-registers :
    (e : Text) (us : List User)
    → first (has_email e) us ≡ none
    → registers (map (λ (u : User). u.email) us) e ≡ false
first-none-registers e [] h = refl
first-none-registers e (u ∷ us) h = ground (arith, first-none-registers e us)

first-holds :
    (q : User → Bool) (us : List User) (u : User)
    → first q us ≡ some u
    → holds (map (λ (v : User). v.id) us) u.id ≡ true
first-holds q [] u h = cc
first-holds q (v ∷ us) u h = ground (arith, first-holds q us u, eq_refl u.id)

module _ (p : Platform) where
  created-accounts :
      (req : Request) (email : Text) (name : Option Text) (m : LoginMethod) (s : State)
      → m.user_id ≡ req.user_id
      → accounts_of (record (with_new_account p req email name s) {
        login_methods = p.db.create m (with_new_account p req email name s).login_methods;
      })
        ≡ opened req.user_id req.tenant_id email (accounts_of s)
  created-accounts req email name m s same =
      rw
        (
          p.db.create_lem, p.db.create_lem, p.db.create_lem, map-append, map-append, map-append,
          map-append, map-append, same,
        )
        refl

  fresh-registers :
      (email : Text) (s : State)
      → find_by_email p email s ≡ none
      → registers (accounts_of s).emails email ≡ false
  unfolding find_by_email
  fresh-registers email s h =
      first-none-registers email s.users (sym (p.db.find_first_lem (has_email email) s.users) ∙ h)

  -- The transaction and what follows, whatever came before it.
  settle_register-IsWellFormed :
      (req : Request) (email : Text) (plain : String) (name : Option Text) (s : State)
      → IsWellFormed (accounts_of s)
      → IsWellFormed (
          accounts_of
            (settle_register p req plain s
              (create_user_with_tenant p req (normalise_email email) name s)).1)
  unfolding settle_register
  settle_register-IsWellFormed req email plain name s v =
      let e = normalise_email email in
      elim (Option-cases (find_by_email p e s)) [
        | inl h ↦
            let o =
              opened-IsWellFormed req.user_id req.tenant_id email (accounts_of s) v
                (fresh-registers e s h) in
            rw (create_user_with_tenant-free p req e name s h) (
              rw
                (created-accounts req e name (password_method req.user_id (p.crypto.hash plain)) s
                  refl)
                o)
        | inr (u, h) ↦ rw (create_user_with_tenant-taken p req e name s u h) v
      ]

  pub register-IsWellFormed :
      (req : Request) (others : State → State) (email : Text) (plain : String) (name : Option Text)
      (s : State)
      → IsWellFormed (accounts_of s)
      → IsWellFormed (accounts_of (others s))
      → IsWellFormed (accounts_of (register p req others email plain name s).1)
  unfolding register
  register-IsWellFormed req others email plain name s v after =
      elim (Option-cases (find_by_email p (normalise_email email) s)) [
        | inl h ↦
            rw (register, h) (settle_register-IsWellFormed req email plain name (others s) after)
        | inr (u, h) ↦ rw (register, h) v
      ]

  google_linked-accounts :
      (req : Request) (u : User) (s : State)
      → accounts_of (google_linked p req u s).1 ≡ accounts_of s
  unfolding google_linked
  google_linked-accounts req u s = elim (Bool-cases (not (is_null u.deleted_at))) [
    | inl d ↦ rw (google_linked, d) refl
    | inr d ↦ elim (Bool-cases (tenant_active p u.tenant_id s)) [
      | inl a ↦ rw (google_linked, d, a) refl
      | inr a ↦ rw (google_linked, d, a) refl
    ]
  ]

  -- The upsert adds at most a method of that user.
  link_google-IsWellFormed :
      (id google_id : String) (s : State)
      → IsWellFormed (accounts_of s)
      → holds (accounts_of s).user_ids id ≡ true
      → IsWellFormed
          (accounts_of (record s { login_methods = link_google p id google_id s.login_methods }))
  unfolding link_google
  link_google-IsWellFormed id google_id s v known =
      let update = p.db.update_many (is_google_of id) (with_account google_id) s.login_methods in
      elim (Bool-cases (update.1 == 0)) [
        | inl none_changed ↦
            rw (link_google, none_changed, p.db.create_lem, map-append)
              (linked-IsWellFormed id (accounts_of s) v known)
        | inr some_changed ↦
            rw
              (
                link_google,
                some_changed,
                p.db.update_many_lem,
                map-change (λ (m : LoginMethod). m.user_id) (is_google_of id)
                    (with_account google_id) (λ m. refl) s.login_methods,
              )
              v
      ]

  google_existing-IsWellFormed :
      (req : Request) (google_id : String) (u : User) (s : State)
      → IsWellFormed (accounts_of s)
      → holds (accounts_of s).user_ids u.id ≡ true
      → IsWellFormed (accounts_of (google_existing p req google_id u s).1)
  unfolding google_existing
  google_existing-IsWellFormed req google_id u s v known =
      elim (Bool-cases (not (is_null u.deleted_at))) [
        | inl d ↦ rw (google_existing, d) v
        | inr d ↦ elim (Bool-cases (tenant_active p u.tenant_id s)) [
          | inl a ↦ rw (google_existing, d, a) (link_google-IsWellFormed u.id google_id s v known)
          | inr a ↦ rw (google_existing, d, a) v
        ]
      ]

  google_unlinked-IsWellFormed :
      (req : Request) (profile : GoogleAuthUser) (s : State)
      → IsWellFormed (accounts_of s)
      → IsWellFormed (accounts_of (google_unlinked p req profile s).1)
  unfolding google_unlinked google_new google_opened
  google_unlinked-IsWellFormed req profile s v =
      let e = normalise_email profile.email in
      elim (Option-cases (find_by_email p e s)) [
        | inl h ↦
            rw
              (
                google_unlinked,
                h,
                google_new,
                create_user_with_tenant-free p req e profile.display_name s h,
                google_opened,
                created-accounts req e profile.display_name
                    (google_method req.user_id profile.google_id) s refl,
              )
              (opened-IsWellFormed req.user_id req.tenant_id profile.email (accounts_of s) v
                (fresh-registers e s h))
        | inr (u, h) ↦
            let known =
              first-holds (has_email e) s.users u
                (sym (p.db.find_first_lem (has_email e) s.users) ∙ h) in
            rw (google_unlinked, h) (google_existing-IsWellFormed req profile.google_id u s v known)
      ]

  pub google-IsWellFormed :
      (req : Request) (profile : GoogleAuthUser) (s : State)
      → IsWellFormed (accounts_of s)
      → IsWellFormed (accounts_of (issue_session_for_google_user p req profile s).1)
  unfolding issue_session_for_google_user
  google-IsWellFormed req profile s v =
      let unlinked = google_unlinked-IsWellFormed req profile s v in
      elim (Option-cases (p.db.find_first (is_google_account profile.google_id) s.login_methods)) [
        | inl e ↦ rw (issue_session_for_google_user, e) unlinked
        | inr (m, e) ↦ elim (Option-cases (p.db.find_first (has_user_id m.user_id) s.users)) [
          | inl h ↦ rw (issue_session_for_google_user, e, h) unlinked
          | inr (u, h) ↦ rw (issue_session_for_google_user, e, h, google_linked-accounts req u s) v
        ]
      ]
