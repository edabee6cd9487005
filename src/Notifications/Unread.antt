-- ===== src/Notifications/Unread.antt =====
-- modules/notifications/notifications.service.ts: what each operation does to the unread counts.
use ai_search_api.Base.{
  ℕ, ◌+◌, String, ◌≡◌, refl, ap, Bool, true, false, ◌&&◌, List, [], ◌∷◌, arith, str_eq, eq_iff,
  if◌then◌else◌, count, change, count-append, change-none, count-change,
}
use ai_search_api.Base.Prisma.{Client}
use ai_search_api.Core.Tenancy.{scoped}
use ai_search_api.Notifications.Row.{Notification, NotifyInput}
use ai_search_api.Notifications.{
  unread_of, as_read, new_notification, notify, unread_count, mark_all_read,
}

-- A write to rows that a count does not see.
count-change_apart :
    {A : Type 0} (q p : A → Bool) (f : A → A)
    → ((x : A) → p x ≡ true → q (f x) ≡ q x)
    → (xs : List A) → count q (change p f xs) ≡ count q xs
count-change_apart q p f same [] = refl
count-change_apart q p f same (x ∷ xs) = ground (arith, same x, count-change_apart q p f same xs)

mark-read :
    (tenant user : String) (now : ℕ) (n : Notification)
    → unread_of tenant user n ≡ true
    → unread_of tenant user (as_read now n) ≡ false
unfolding scoped
mark-read tenant user now n h = ground arith

mark-other :
    (tenant user other_tenant other : String) (now : ℕ) (n : Notification)
    → str_eq other user ≡ false
    → unread_of tenant user n ≡ true
    → unread_of other_tenant other (as_read now n) ≡ unread_of other_tenant other n
unfolding scoped
mark-other tenant user other_tenant other now n apart h =
    ground (arith, eq_iff n.user_id user, eq_iff n.user_id other, eq_iff other user)

module _ (db : Client) where
  -- Marking all as read reports how many were unread and leaves the user none; the count of any
  -- other user of any tenant is left alone; and doing it again changes nothing.
  pub mark_all_read-unread_count :
      (tenant user other_tenant other : String) (now later : ℕ) (t : List Notification)
      → str_eq other user ≡ false
      → ((mark_all_read db tenant now user t).0 ≡ unread_count db tenant user t)
        × (unread_count db tenant user (mark_all_read db tenant now user t).1 ≡ 0)
        × (unread_count db other_tenant other (mark_all_read db tenant now user t).1
            ≡ unread_count db other_tenant other t)
        × (mark_all_read db tenant later user (mark_all_read db tenant now user t).1
            ≡ (0, (mark_all_read db tenant now user t).1))
  unfolding mark_all_read unread_count
  mark_all_read-unread_count tenant user other_tenant other now later t apart =
      let p : Notification → Bool = unread_of tenant user in
      let none_left : count p (change p (as_read now) t) ≡ 0 =
        count-change p (as_read now) (mark-read tenant user now) t in
      (
        rw (db.update_many_lem, db.count_rows_lem) refl,
        rw (db.update_many_lem, db.count_rows_lem) none_left,
        rw (db.update_many_lem, db.count_rows_lem, db.count_rows_lem)
            (count-change_apart (unread_of other_tenant other) p (as_read now)
              (λ n. mark-other tenant user other_tenant other now n apart) t),
        rw
            (
              mark_all_read,
              db.update_many_lem p (as_read now) t,
              db.update_many_lem p (as_read later) (change p (as_read now) t),
              none_left,
            )
            (ap (λ xs. (0, xs))
              (change-none p (as_read later) (change p (as_read now) t) none_left)),
      )

  -- A notification adds one to its user's unread count in its tenant, and nothing to another's.
  pub notify-unread_count :
      (id : String) (now : ℕ) (input : NotifyInput) (tenant user : String) (t : List Notification)
      → unread_count db tenant user (notify db id now input t).1
        ≡ (if str_eq input.tenant_id tenant && str_eq input.user_id user then 1 else 0)
          + unread_count db tenant user t
  unfolding notify unread_count scoped
  notify-unread_count id now input tenant user t =
      rw (db.create_lem, db.count_rows_lem, db.count_rows_lem)
        (ground
          (arith, count-append (unread_of tenant user) t (new_notification id now input ∷ [])))
