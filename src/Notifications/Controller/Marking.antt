-- ===== src/Notifications/Controller/Marking.antt =====
-- modules/notifications: what a user's request does to the notifications of others and to the own
-- ones.
use ai_search_api.Base.{
  ℕ, String, ◌≡◌, refl, sym, ap, ◌∙◌, inl, inr, Bool, not, ◌&&◌, Option, List, arith, str_eq, ◌==◌,
  Bool-cases, Option-cases, keep, count, change,
}
use ai_search_api.Base.Keys.{others-change_apart}
use ai_search_api.Base.Within.{Within, first-within, count-within, keep-change, keep-keep}
use ai_search_api.Base.Text.{Text}
use ai_search_api.Base.Prisma.{Client}
use ai_search_api.Core.Tenancy.{scoped}
use ai_search_api.Auth.Access.{AuthenticatedUser}
use ai_search_api.Notifications.Row.{Notification}
use ai_search_api.Notifications.{
  unread_of, owned_by, unread_by, as_read, mark_read, mark_all_read, unread_count,
  notification_filter,
}

-- The notification is addressed to the user, in the user's tenant.
abbrev pub is_addressed : AuthenticatedUser → Notification → Bool
is_addressed user n = str_eq n.tenant_id user.tenant_id && str_eq n.user_id user.user_id

abbrev pub own_of : AuthenticatedUser → List Notification → List Notification
own_of user = keep (is_addressed user)

abbrev pub of_others : AuthenticatedUser → List Notification → List Notification
of_others user = keep (λ n. not (is_addressed user n))

-- An outcome on the whole table, next to that on the notifications of the user only.
pub record Apart {A : Type 0} (user : AuthenticatedUser) (rows : List Notification)
    (r a : A × List Notification) : Type 0 where
  pub same : r.0 ≡ a.0
  pub own_rows : own_of user r.1 ≡ own_of user a.1
  pub other_rows : of_others user r.1 ≡ of_others user rows

module _ (db : Client) (user : AuthenticatedUser) (now : ℕ) where
  pub unchanged :
      {A : Type 0} (rows : List Notification) (x y : A)
      → x ≡ y
      → Apart user rows (x, rows) (y, own_of user rows)
  unchanged rows x y e = record {
    same = e;
    own_rows = sym (keep-keep (is_addressed user) rows);
    other_rows = refl;
  }

  -- An update of notifications of the user.
  pub updated :
      {A : Type 0} (p : Notification → Bool) (rows : List Notification) (x y : A)
      → Within (is_addressed user) p
      → x ≡ y
      → Apart user rows
          (x, change p (as_read now) rows)
          (y, change p (as_read now) (own_of user rows))
  updated p rows x y within e = record {
    same = e;
    own_rows =
        keep-change (is_addressed user) p within (as_read now) (λ n. refl) rows
        ∙ ap (change p (as_read now)) (sym (keep-keep (is_addressed user) rows))
        ∙ sym
            (keep-change (is_addressed user) p within (as_read now) (λ n. refl) (own_of user rows));
    other_rows = others-change_apart (is_addressed user) p (as_read now) within (λ n. refl) rows;
  }

  pub unread_of-Within : Within (is_addressed user) (unread_of user.tenant_id user.user_id)
  unfolding scoped
  unread_of-Within n h = ground (arith, h)

  pub owned_by-Within :
      (id : String) → Within (is_addressed user) (owned_by user.tenant_id user.user_id id)
  unfolding scoped
  owned_by-Within id n h = ground (arith, h)

  pub unread_by-Within :
      (id : String) → Within (is_addressed user) (unread_by user.tenant_id user.user_id id)
  unfolding scoped
  unread_by-Within id n h = ground (arith, h)

  pub filter-Within :
      (contains : Text → Text → Bool) (unread_only : Bool) (search : Option Text)
      → Within
          (is_addressed user)
          (notification_filter contains user.tenant_id user.user_id unread_only search)
  unfolding scoped
  filter-Within contains unread_only search n h = ground (arith, h)

  pub found-own :
      (p : Notification → Bool) (rows : List Notification)
      → Within (is_addressed user) p
      → db.find_first p (own_of user rows) ≡ db.find_first p rows
  found-own p rows within =
      db.find_first_lem p (own_of user rows)
      ∙ first-within (is_addressed user) p within rows
      ∙ sym (db.find_first_lem p rows)

  pub counted :
      (rows : List Notification)
      → unread_count db user.tenant_id user.user_id rows
        ≡ unread_count db user.tenant_id user.user_id (own_of user rows)
  unfolding unread_count
  counted rows =
      let p = unread_of user.tenant_id user.user_id in
      db.count_rows_lem p rows
      ∙ sym (count-within (is_addressed user) p unread_of-Within rows)
      ∙ sym (db.count_rows_lem p (own_of user rows))

  pub read_all-Apart :
      (rows : List Notification)
      → Apart user rows
          (mark_all_read db user.tenant_id now user.user_id rows)
          (mark_all_read db user.tenant_id now user.user_id (own_of user rows))
  unfolding mark_all_read
  read_all-Apart rows =
      let p = unread_of user.tenant_id user.user_id in
      rw
        (
          db.update_many_lem p (as_read now) rows,
          db.update_many_lem p (as_read now) (own_of user rows),
        )
        (updated p rows _ _ unread_of-Within
          (sym (count-within (is_addressed user) p unread_of-Within rows)))

  pub mark_read-Apart :
      (id : String) (rows : List Notification)
      → Apart user rows
          (mark_read db user.tenant_id now (λ xs. xs) user.user_id id rows)
          (mark_read db user.tenant_id now (λ xs. xs) user.user_id id (own_of user rows))
  unfolding mark_read
  mark_read-Apart id rows =
      let owned = owned_by user.tenant_id user.user_id id in
      let p = unread_by user.tenant_id user.user_id id in
      let f = as_read now in
      let here = found-own owned rows (owned_by-Within id) in
      let all_rows = db.update_many_lem p f rows in
      let own_rows = db.update_many_lem p f (own_of user rows) in
      let size = count-within (is_addressed user) p (unread_by-Within id) rows in
      let later : db.find_first owned (change p f (own_of user rows))
          ≡ db.find_first owned (change p f rows) =
        ap (db.find_first owned)
          (sym (keep-change (is_addressed user) p (unread_by-Within id) f (λ n. refl) rows))
        ∙ found-own owned (change p f rows) (owned_by-Within id) in
      elim (Option-cases (db.find_first owned rows)) [
        | inl e ↦ rw (mark_read, e, here ∙ e) (unchanged rows _ _ refl)
        | inr (existing, e) ↦ elim (Bool-cases (count p rows == 0)) [
          | inl settled ↦
              rw (mark_read, e, here ∙ e, all_rows, own_rows, size, settled)
                (updated p rows _ _ (unread_by-Within id) refl)
          | inr changed ↦ elim (Option-cases (db.find_first owned (change p f rows))) [
            | inl gone ↦
                rw
                  (
                    mark_read,
                    e,
                    here ∙ e,
                    all_rows,
                    own_rows,
                    size,
                    changed,
                    gone,
                    later ∙ gone,
                    all_rows,
                    own_rows,
                  )
                  (updated p rows _ _ (unread_by-Within id) refl)
            | inr (now_read, there) ↦
                rw
                  (
                    mark_read,
                    e,
                    here ∙ e,
                    all_rows,
                    own_rows,
                    size,
                    changed,
                    there,
                    later ∙ there,
                    all_rows,
                    own_rows,
                  )
                  (updated p rows _ _ (unread_by-Within id) refl)
          ]
        ]
      ]
