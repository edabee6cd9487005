-- ===== src/Base/Within.antt =====
-- Queries on rows whose test implies another: they read, and change, the rows of the other only.
use ai_search_api.Base.{◌≡◌, refl, Bool, true, List, [], ◌∷◌, arith, first, keep, count, change}

abbrev pub Within : {Row : Type 0} → (Row → Bool) → (Row → Bool) → Type 0
Within {Row} q p = (r : Row) → p r ≡ true → q r ≡ true

module _ {Row : Type 0} (q p : Row → Bool) (within : Within q p) where
  pub first-within : (rows : List Row) → first p (keep q rows) ≡ first p rows
  first-within [] = refl
  first-within (r ∷ rows) = ground (arith, within r, first-within rows)

  pub keep-within : (rows : List Row) → keep p (keep q rows) ≡ keep p rows
  keep-within [] = refl
  keep-within (r ∷ rows) = ground (arith, within r, keep-within rows)

  pub count-within : (rows : List Row) → count p (keep q rows) ≡ count p rows
  count-within [] = refl
  count-within (r ∷ rows) = ground (arith, within r, count-within rows)

  module _ (f : Row → Row) (same : (r : Row) → q (f r) ≡ q r) where
    pub keep-change : (rows : List Row) → keep q (change p f rows) ≡ change p f (keep q rows)
    keep-change [] = refl
    keep-change (r ∷ rows) = ground (arith, within r, same r, keep-change rows)

pub keep-keep :
    {Row : Type 0} (q : Row → Bool) (rows : List Row) → keep q (keep q rows) ≡ keep q rows
keep-keep q rows = keep-within q q (λ r h. h) rows
