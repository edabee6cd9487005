-- ===== src/Auth/Accounts.antt =====
-- What the tables of modules/auth and modules/users say of accounts: the specification of the
-- operations on them.
pub mod Operations
pub mod Openings
pub mod Histories
use ai_search_api.Base.{
  ◌+◌, ◌-◌, String, ◌≡◌, refl, ◌∙◌, Bool, true, false, ◌&&◌, ◌||◌, List, [], ◌∷◌, ◌++◌, map, arith,
  str_eq, eq_refl, any, all, All,
}
use ai_search_api.Base.Text.{Text, text_eq}
use ai_search_api.Auth.State.{Tenant, User, LoginMethod, State}
use ai_search_api.Auth.Service.{normalise_email}

-- The keys of the rows, in the order of the tables.
pub record Accounts : Type 0 where
  pub tenants : List String
  pub user_ids : List String
  pub homes : List String
  pub emails : List Text
  pub owners : List String

abbrev pub accounts_of : State → Accounts
accounts_of s = record {
  tenants = map (λ (n : Tenant). n.id) s.tenants;
  user_ids = map (λ (u : User). u.id) s.users;
  homes = map (λ (u : User). u.tenant_id) s.users;
  emails = map (λ (u : User). u.email) s.users;
  owners = map (λ (m : LoginMethod). m.user_id) s.login_methods;
}

abbrev pub holds : List String → String → Bool
holds xs x = any (λ y. str_eq y x) xs

abbrev pub registers : List Text → Text → Bool
registers emails email = any (λ e. text_eq e email) emails

abbrev pub AreDistinct : List Text → Type 0
AreDistinct [] = Unit
AreDistinct (e ∷ es) = (registers es e ≡ false) × AreDistinct es

-- An email in the form that a lookup uses.
abbrev pub IsNormal : Text → Type 0
IsNormal email = (raw : Text) × (email ≡ normalise_email raw)

-- No two accounts have one email; every email can be looked up; every account has its tenant, and
-- every login method its account.
pub record IsWellFormed (a : Accounts) : Type 0 where
  pub distinct : AreDistinct a.emails
  pub normal : All IsNormal a.emails
  pub housed : all (holds a.tenants) a.homes ≡ true
  pub owned : all (holds a.user_ids) a.owners ≡ true

abbrev pub opened : String → String → Text → Accounts → Accounts
opened id tenant email a = record {
  tenants = a.tenants ++ tenant ∷ [];
  user_ids = a.user_ids ++ id ∷ [];
  homes = a.homes ++ tenant ∷ [];
  emails = a.emails ++ email ∷ [];
  owners = a.owners ++ id ∷ [];
}

abbrev pub linked : String → Accounts → Accounts
linked id a = record a { owners = a.owners ++ id ∷ [] }

pub text_eq_sym : (s t : Text) → text_eq s t ≡ text_eq t s
text_eq_sym [] [] = refl
text_eq_sym [] (b ∷ t) = refl
text_eq_sym (a ∷ s) [] = refl
text_eq_sym (a ∷ s) (b ∷ t) = ground (arith, text_eq_sym s t)

any-append :
    {A : Type 0} (p : A → Bool) (xs ys : List A) → any p (xs ++ ys) ≡ (any p xs || any p ys)
any-append p [] ys = refl
any-append p (x ∷ xs) ys = ground (arith, any-append p xs ys)

all-append :
    {A : Type 0} (p : A → Bool) (xs ys : List A) → all p (xs ++ ys) ≡ (all p xs && all p ys)
all-append p [] ys = refl
all-append p (x ∷ xs) ys = ground (arith, all-append p xs ys)

all-widen :
    {A : Type 0} (p q : A → Bool)
    → ((x : A) → p x ≡ true → q x ≡ true)
    → (xs : List A) → all p xs ≡ true
    → all q xs ≡ true
all-widen p q wider [] h = refl
all-widen p q wider (x ∷ xs) h = ground (arith, wider x, all-widen p q wider xs)

holds-append : (xs : List String) (y x : String) → holds xs x ≡ true → holds (xs ++ y ∷ []) x ≡ true
holds-append xs y x h = ground (arith, any-append (λ z. str_eq z x) xs (y ∷ []), h)

holds-last : (xs : List String) (x : String) → holds (xs ++ x ∷ []) x ≡ true
holds-last xs x = ground (arith, any-append (λ z. str_eq z x) xs (x ∷ []), eq_refl x)

-- Every key that was there still is, and so is the new one.
all-holds :
    (xs : List String) (x : String) (ks : List String)
    → all (holds xs) ks ≡ true
    → all (holds (xs ++ x ∷ [])) (ks ++ x ∷ []) ≡ true
all-holds xs x ks h =
    let kept = all-widen (holds xs) (holds (xs ++ x ∷ [])) (holds-append xs x) ks h in
    all-append (holds (xs ++ x ∷ [])) ks (x ∷ []) ∙ rw (kept, holds-last xs x) refl

distinct-append :
    (es : List Text) (e : Text)
    → AreDistinct es
    → registers es e ≡ false
    → AreDistinct (es ++ e ∷ [])
distinct-append [] e h k = (refl, tt)
distinct-append (x ∷ es) e h k = (
  ground (arith, h.0, k, any-append (λ y. text_eq y x) es (e ∷ []), text_eq_sym x e),
  distinct-append es e h.1 (ground (arith, k)),
)

All-append {ℓ κ} :
    {A : Type ℓ} (P : A → Type κ) (xs : List A) (x : A) → All P xs → P x → All P (xs ++ x ∷ [])
All-append P [] x h k = (k, tt)
All-append P (y ∷ xs) x h k = (h.0, All-append P xs x h.1 k)

pub opened-IsWellFormed :
    (id tenant : String) (raw : Text) (a : Accounts)
    → IsWellFormed a
    → registers a.emails (normalise_email raw) ≡ false
    → IsWellFormed (opened id tenant (normalise_email raw) a)
opened-IsWellFormed id tenant raw a v fresh = record {
  distinct = distinct-append a.emails (normalise_email raw) v.distinct fresh;
  normal = All-append IsNormal a.emails (normalise_email raw) v.normal (raw, refl);
  housed = all-holds a.tenants tenant a.homes v.housed;
  owned = all-holds a.user_ids id a.owners v.owned;
}

pub linked-IsWellFormed :
    (id : String) (a : Accounts)
    → IsWellFormed a
    → holds a.user_ids id ≡ true
    → IsWellFormed (linked id a)
linked-IsWellFormed id a v known = record {
  distinct = v.distinct;
  normal = v.normal;
  housed = v.housed;
  owned = all-append (holds a.user_ids) a.owners (id ∷ []) ∙ rw (v.owned, known) refl;
}
