-- ===== src/Base/Keys.antt =====
-- Rows with a key that no two of them share.
use Prim.Native.String.{String}
use mathlib.Core.Path.{◌≡◌, refl, ap}
use mathlib.Core.Logic.{inl, inr}
use mathlib.Core.Bool.{not, Bool, true, ◌&&◌}
use mathlib.Core.List.{List, [], ◌∷◌, ◌++◌}
use mathlib.Core.Option.{Option, none, some}
use native.Mathlib.Omega.{arith}
use text.Mathlib.Text.{◌==◌ as str_eq}
use text.Mathlib.TextEquality.{eq_iff}
use ai_search_api.Base.Tests.{if◌then◌else◌, ◌==◌, ltb, Bool-cases}
use ai_search_api.Base.Lists.{
  keep, first, count, change, count-first, count-append, count-change_same,
}

pub str_eq_sym : (a b : String) → str_eq a b ≡ str_eq b a
str_eq_sym a b = ground (arith, eq_iff a b, eq_iff b a)

abbrev pub on_some : {A B : Type 0} → (A → B) → Option A → Option B
on_some f none = none
on_some f (some a) = some (f a)

module _ {Row : Type 0} (id_of : Row → String) where
  abbrev pub has_distinct_ids : List Row → Bool
  has_distinct_ids [] = true
  has_distinct_ids (r ∷ rs) = count (λ q. str_eq (id_of q) (id_of r)) rs == 0 && has_distinct_ids rs

  count-key :
      (q : Row → Bool) (rs : List Row) (r : Row) (k : String)
      → first q rs ≡ some r
      → str_eq (id_of r) k ≡ true
      → ltb 0 (count (λ x. str_eq (id_of x) k) rs) ≡ true
  count-key q rs r k found same = count-first q (λ x. str_eq (id_of x) k) rs r found same

  -- Two searches that find rows of one key find one row.
  pub first-same :
      (q p : Row → Bool) (rs : List Row) (r s : Row)
      → has_distinct_ids rs ≡ true
      → first q rs ≡ some r
      → first p rs ≡ some s
      → str_eq (id_of r) (id_of s) ≡ true
      → r ≡ s
  first-same q p [] r s distinct fq fp same = cc
  first-same q p (x ∷ rs) r s distinct fq fp same = ground (
    arith,
    first-same q p rs r s,
    count-key q rs r (id_of x),
    count-key p rs s (id_of x),
    str_eq_sym (id_of r) (id_of s),
  )

  pub distinct-change :
      (p : Row → Bool) (f : Row → Row)
      → ((x : Row) → id_of (f x) ≡ id_of x)
      → (rs : List Row) → has_distinct_ids (change p f rs) ≡ has_distinct_ids rs
  distinct-change p f same [] = refl
  distinct-change p f same (x ∷ rs) =
      let key : id_of (if p x then f x else x) ≡ id_of x = elim (Bool-cases (p x)) [
        | inl h ↦ rw (h) (same x)
        | inr h ↦ rw (h) refl
      ] in
      let kept =
        count-change_same (λ q. str_eq (id_of q) (id_of x)) p f
          (λ y. ap (λ k. str_eq k (id_of x)) (same y)) rs in
      rw (key, kept, distinct-change p f same rs) refl

  pub distinct-append :
      (rs : List Row) (r : Row)
      → has_distinct_ids rs ≡ true
      → count (λ q. str_eq (id_of q) (id_of r)) rs ≡ 0
      → has_distinct_ids (rs ++ r ∷ []) ≡ true
  distinct-append [] r distinct fresh = refl
  distinct-append (x ∷ rs) r distinct fresh = ground (
    arith,
    distinct-append rs r,
    count-append (λ q. str_eq (id_of q) (id_of x)) rs (r ∷ []),
    str_eq_sym (id_of x) (id_of r),
  )

module _ {Row : Type 0} where
  pub first-change_all :
      (q p : Row → Bool) (f : Row → Row)
      → ((x : Row) → q (f x) ≡ q x)
      → (rs : List Row)
      → first q (change p f rs) ≡ on_some (λ a. if p a then f a else a) (first q rs)
  first-change_all q p f same [] = refl
  first-change_all q p f same (x ∷ rs) = ground (arith, same x, first-change_all q p f same rs)

  pub first-append_all :
      (p : Row → Bool) (rs : List Row) (r : Row)
      → first p (rs ++ r ∷ [])
        ≡ elim (first p rs) [ none ↦ if p r then some r else none | some x ↦ some x ]
  first-append_all p [] r = refl
  first-append_all p (x ∷ rs) r = ground (arith, first-append_all p rs r)

-- A change of rows that are among some leaves all others as they are.
pub others-change_apart :
    {Row : Type 0} (q p : Row → Bool) (f : Row → Row)
    → ((r : Row) → p r ≡ true → q r ≡ true)
    → ((r : Row) → q (f r) ≡ q r)
    → (rows : List Row) → keep (λ r. not (q r)) (change p f rows) ≡ keep (λ r. not (q r)) rows
others-change_apart q p f within same [] = refl
others-change_apart q p f within same (r ∷ rows) =
    ground (arith, within r, same r, others-change_apart q p f within same rows)
