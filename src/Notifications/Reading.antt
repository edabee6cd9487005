-- ===== src/Notifications/Reading.antt =====
-- modules/notifications/notifications.service.ts: `markRead`, with other requests between its
-- calls.
use ai_search_api.Base.{
  ℕ, String, ◌≡◌, refl, sym, ap, ◌∙◌, inl, inr, Bool, true, false, not, Option, none, some, List,
  [], ◌∷◌, arith, ◌==◌, if◌then◌else◌, Bool-cases, Option-cases, first, keep, count, change,
  change-none, first-change, first_sound, count-change,
}
use ai_search_api.Base.Result.{http, Result, ok, err}
use ai_search_api.Base.Prisma.{Client}
use ai_search_api.Base.Keys.{on_some, first-change_all, others-change_apart}
use ai_search_api.Core.Tenancy.{scoped}
use ai_search_api.Notifications.Row.{Notification}
use ai_search_api.Notifications.{owned_by, unread_by, as_read, mark_read}

-- A notification that is read by some time: an earlier reading stays.
abbrev pub read_by : ℕ → Notification → Notification
read_by now n = elim n.read_at [ none ↦ as_read now n | some t ↦ n ]

abbrev answer_of : {A : Type 0} → Result A → Option A
answer_of (ok a) = some a
answer_of (err e) = none

first-none :
    {A : Type 0} (p q : A → Bool)
    → ((x : A) → q x ≡ true → p x ≡ true)
    → (xs : List A) → first p xs ≡ none
    → count q xs ≡ 0
first-none p q within [] h = refl
first-none p q within (x ∷ xs) h = ground (arith, within x, first-none p q within xs)

module _ (tenant user id : String) where
  unread-owned :
      (n : Notification) → unread_by tenant user id n ≡ true → owned_by tenant user id n ≡ true
  unfolding scoped
  unread-owned n h = ground arith

  as_read-unread : (now : ℕ) (n : Notification) → unread_by tenant user id (as_read now n) ≡ false
  unfolding scoped
  as_read-unread now n = ground arith

  read-eq :
      (now : ℕ) (n : Notification)
      → owned_by tenant user id n ≡ true
      → (if unread_by tenant user id n then as_read now n else n) ≡ read_by now n
  unfolding scoped
  read-eq now n own = elim (Option-cases n.read_at) [
    | inl e ↦ rw e (ground arith)
    | inr (t, e) ↦ rw e (ground arith)
  ]

  module _ (db : Client) (now : ℕ) (others : List Notification → List Notification)
      (t : List Notification) where
    abbrev table : List Notification
    table = change (unread_by tenant user id) (as_read now) (others t)

    owned-same :
        (n : Notification) → owned_by tenant user id (as_read now n) ≡ owned_by tenant user id n
    unfolding scoped
    owned-same n = refl

    module _ (existing : Notification)
        (found : first (owned_by tenant user id) t ≡ some existing) where
      mark_read-late :
          (count (unread_by tenant user id) (others t) == 0) ≡ true
          → mark_read db tenant now others user id t ≡ (ok existing, table)
      unfolding mark_read
      mark_read-late e = rw (mark_read, db.find_first_lem, found, db.update_many_lem, e) refl

      mark_read-first :
          (count (unread_by tenant user id) (others t) == 0) ≡ false
          → (a : Notification) × (first (owned_by tenant user id) table ≡ some a)
            × (mark_read db tenant now others user id t ≡ (ok a, table))
      unfolding mark_read
      mark_read-first e = elim (Option-cases (first (owned_by tenant user id) (others t))) [
        | inl gone ↦
            (let none_left =
                first-none (owned_by tenant user id) (unread_by tenant user id) unread-owned
                  (others t) gone in
              ground arith)
        | inr (b, here) ↦
            (let a : Notification = if unread_by tenant user id b then as_read now b else b in
              let listed : first (owned_by tenant user id) table ≡ some a =
                first-change (owned_by tenant user id) (unread_by tenant user id) (as_read now)
                  owned-same (others t) b here in
              (
                a,
                listed,
                rw
                    (
                      mark_read,
                      db.find_first_lem (owned_by tenant user id) t,
                      found,
                      db.update_many_lem,
                      e,
                      db.find_first_lem (owned_by tenant user id) table,
                      listed,
                    )
                    (ap (λ v. (ok a, v.0))
                      (db.update_many_lem (unread_by tenant user id) (as_read now) (others t))),
              ))
      ]

      -- What the call answers with, and the table after it.
      mark_read-settled :
          (a : Notification) × (first
              (owned_by tenant user id)
              (if count (unread_by tenant user id) (others t) == 0 then t else table)
            ≡ some a)
          × (mark_read db tenant now others user id t ≡ (ok a, table))
      mark_read-settled = elim (Bool-cases (count (unread_by tenant user id) (others t) == 0)) [
        | inl e ↦ (existing, rw e found, mark_read-late e)
        | inr e ↦ rw e (mark_read-first e)
      ]

    table-first :
        first (owned_by tenant user id) table
        ≡ on_some (read_by now) (first (owned_by tenant user id) (others t))
    table-first = elim (Option-cases (first (owned_by tenant user id) (others t))) [
      | inl gone ↦
          rw
            (
              first-change_all (owned_by tenant user id) (unread_by tenant user id) (as_read now)
                  owned-same (others t),
              gone,
            )
            refl
      | inr (b, here) ↦ rw here (
          first-change (owned_by tenant user id) (unread_by tenant user id) (as_read now) owned-same
            (others t) b here
          ∙ ap some (read-eq now b (first_sound (owned_by tenant user id) (others t) b here)))
    ]

    repeated : (later : ℕ) → (mark_read db tenant later (λ x. x) user id table).1 ≡ table
    unfolding mark_read
    repeated later =
        let none_left : count (unread_by tenant user id) table ≡ 0 =
          count-change (unread_by tenant user id) (as_read now) (λ n h. as_read-unread now n)
            (others t) in
        elim (Option-cases (first (owned_by tenant user id) table)) [
          | inl gone ↦ rw (mark_read, db.find_first_lem, gone) refl
          | inr (a, here) ↦
              rw
                (
                  mark_read,
                  db.find_first_lem,
                  here,
                  db.update_many_lem,
                  none_left,
                  change-none (unread_by tenant user id) (as_read later) table none_left,
                )
                refl
        ]

    missing :
        first (owned_by tenant user id) t ≡ none
        → mark_read db tenant now others user id t ≡ (err (http 404 "Notification not found"), t)
    unfolding mark_read
    missing gone = rw (mark_read, db.find_first_lem, gone) refl

    -- A call that succeeds, whatever other requests do between its read and its write: the
    -- notification is read, at the time of the call unless it was read before, and nothing else of
    -- the table is changed; the answer is the row as it then is, or, where the call met no unread
    -- row any more, the row as it was read at first; and a repetition changes nothing.
    pub mark_read-once :
        (answer : Notification) (t1 : List Notification)
        → mark_read db tenant now others user id t ≡ (ok answer, t1)
        → (first (owned_by tenant user id) t1
            ≡ on_some (read_by now) (first (owned_by tenant user id) (others t)))
          × (keep (λ n. not (owned_by tenant user id n)) t1
              ≡ keep (λ n. not (owned_by tenant user id n)) (others t))
          × (first
                (owned_by tenant user id)
                (if count (unread_by tenant user id) (others t) == 0 then t else t1)
              ≡ some answer)
          × ((later : ℕ) → (mark_read db tenant later (λ x. x) user id t1).1 ≡ t1)
    mark_read-once answer t1 accepted = elim (Option-cases (first (owned_by tenant user id) t)) [
      | inl gone ↦ (let refused = sym (ap (λ x. x.0) (missing gone)) ∙ ap (λ x. x.0) accepted in cc)
      | inr (existing, found) ↦
          (let (a, listed, same) = mark_read-settled existing found in
            let table_after : t1 ≡ table = sym (ap (λ x. x.1) (sym same ∙ accepted)) in
            let answered : some a ≡ some answer = ap (λ x. answer_of x.0) (sym same ∙ accepted) in
            rw table_after (
              table-first,
              others-change_apart (owned_by tenant user id) (unread_by tenant user id) (as_read now)
                  unread-owned owned-same (others t),
              listed ∙ answered,
              repeated,
            ))
    ]
