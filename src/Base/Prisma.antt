-- ===== src/Base/Prisma.antt =====
-- What the services use of the generated Prisma client (`@prisma/client`, third party): a table is
-- the list of its rows, a `where` is a test on a row, `data` is a change of a row. The operations
-- are parameters; the laws are what the client documents of them.
use Prim.Native.Nat.{ℕ}
use mathlib.Core.Path.{◌≡◌, refl}
use mathlib.Core.Bool.{Bool, not}
use mathlib.Core.Option.{Option, none, some}
use mathlib.Core.List.{List, [], ◌∷◌, ◌++◌}
use ai_search_api.Base.Lists.{first, keep, count, change}

abbrev pub if_absent : {A B : Type 0} → Option A → B → Option B
if_absent none b = some b
if_absent (some a) b = none

-- `create_unique` writes to a table with a unique key, whose rows with the new row's key are given
-- as a test; `none` is the error P2002, after which a transaction leaves every table as it was.
pub record Client : Type 1 where
  pub find_first : {Row : Type 0} → (Row → Bool) → List Row → Option Row
  pub find_many : {Row : Type 0} → (Row → Bool) → List Row → List Row
  pub count_rows : {Row : Type 0} → (Row → Bool) → List Row → ℕ
  pub create : {Row : Type 0} → Row → List Row → List Row
  pub create_unique : {Row : Type 0} → (Row → Bool) → Row → List Row → Option (List Row)
  pub update_many : {Row : Type 0} → (Row → Bool) → (Row → Row) → List Row → List Row × ℕ
  pub delete_many : {Row : Type 0} → (Row → Bool) → List Row → List Row × ℕ
  pub find_first_lem : {Row : Type 0} (p : Row → Bool) (t : List Row) → find_first p t ≡ first p t
  pub find_many_lem : {Row : Type 0} (p : Row → Bool) (t : List Row) → find_many p t ≡ keep p t
  pub count_rows_lem : {Row : Type 0} (p : Row → Bool) (t : List Row) → count_rows p t ≡ count p t
  pub create_lem : {Row : Type 0} (r : Row) (t : List Row) → create r t ≡ t ++ r ∷ []
  pub create_unique_lem :
      {Row : Type 0} (p : Row → Bool) (r : Row) (t : List Row)
      → create_unique p r t ≡ if_absent (first p t) (create r t)
  pub update_many_lem :
      {Row : Type 0} (p : Row → Bool) (f : Row → Row) (t : List Row)
      → update_many p f t ≡ (change p f t, count p t)
  pub delete_many_lem :
      {Row : Type 0} (p : Row → Bool) (t : List Row)
      → delete_many p t ≡ (keep (λ r. not (p r)) t, count p t)

-- A client whose tables are plain lists.
abbrev pub list_client : Client
list_client = record {
  find_first = first;
  find_many = keep;
  count_rows = count;
  create = λ r t. t ++ r ∷ [];
  create_unique = λ p r t. if_absent (first p t) (t ++ r ∷ []);
  update_many = λ p f t. (change p f t, count p t);
  delete_many = λ p t. (keep (λ r. not (p r)) t, count p t);
  find_first_lem = λ p t. refl;
  find_many_lem = λ p t. refl;
  count_rows_lem = λ p t. refl;
  create_lem = λ r t. refl;
  create_unique_lem = λ p r t. refl;
  update_many_lem = λ p f t. refl;
  delete_many_lem = λ p t. refl;
}
