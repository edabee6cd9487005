-- ===== src/Core/TenantRows.antt =====
-- core/tenancy: what a query through the tenant client can tell of a table, and what a write
-- through it can do to the rows of others.
use ai_search_api.Base.{
  String, ◌≡◌, refl, sym, ap, ◌∙◌, Bool, false, not, List, [], ◌∷◌, ◌++◌, arith, str_eq, eq_iff,
  first, keep, count, change,
}
use ai_search_api.Base.Text.{Text}
use ai_search_api.Base.Prisma.{Client}
use ai_search_api.Core.Pagination.{
  Sort, ListQuery, Pages, list_page, list_page-same, names_one_of, cursor_row-own,
}
use ai_search_api.Core.Tenancy.{scoped}

module _ {Row : Type 0} (tenant_of : Row → String) (tenant : String) where
  abbrev pub owns : Row → Bool
  owns r = str_eq (tenant_of r) tenant

  abbrev pub own : List Row → List Row
  own = keep owns

  abbrev pub others : List Row → List Row
  others = keep (λ r. not (owns r))

  module _ (p : Row → Bool) where
    pub first-scoped :
        (rows : List Row) → first (scoped tenant_of tenant p) rows ≡ first p (own rows)
    unfolding scoped
    first-scoped [] = refl
    first-scoped (r ∷ rows) = ground (arith, first-scoped rows)

    pub keep-scoped : (rows : List Row) → keep (scoped tenant_of tenant p) rows ≡ keep p (own rows)
    unfolding scoped
    keep-scoped [] = refl
    keep-scoped (r ∷ rows) = ground (arith, keep-scoped rows)

    pub count-scoped :
        (rows : List Row) → count (scoped tenant_of tenant p) rows ≡ count p (own rows)
    unfolding scoped
    count-scoped [] = refl
    count-scoped (r ∷ rows) = ground (arith, count-scoped rows)

    -- A delete.
    pub own-delete :
        (rows : List Row)
        → own (keep (λ r. not (scoped tenant_of tenant p r)) rows)
          ≡ keep (λ r. not (p r)) (own rows)
    unfolding scoped
    own-delete [] = refl
    own-delete (r ∷ rows) = ground (arith, own-delete rows)

    pub others-delete :
        (rows : List Row)
        → others (keep (λ r. not (scoped tenant_of tenant p r)) rows) ≡ others rows
    unfolding scoped
    others-delete [] = refl
    others-delete (r ∷ rows) = ground (arith, others-delete rows)

    -- A change that leaves the tenant of a row.
    module _ (f : Row → Row) (same : (r : Row) → tenant_of (f r) ≡ tenant_of r) where
      pub own-change :
          (rows : List Row)
          → own (change (scoped tenant_of tenant p) f rows) ≡ change p f (own rows)
      unfolding scoped
      own-change [] = refl
      own-change (r ∷ rows) = ground (arith, own-change rows, same r)

      pub others-change :
          (rows : List Row) → others (change (scoped tenant_of tenant p) f rows) ≡ others rows
      unfolding scoped
      others-change [] = refl
      others-change (r ∷ rows) = ground (arith, others-change rows, same r)

  pub own-own : (rows : List Row) → own (own rows) ≡ own rows
  own-own [] = refl
  own-own (r ∷ rows) = ground (arith, own-own rows)

  -- A scoped query reads the rows of the tenant alone.
  module _ (p : Row → Bool) (rows : List Row) where
    pub first-own :
        first (scoped tenant_of tenant p) rows ≡ first (scoped tenant_of tenant p) (own rows)
    first-own =
        first-scoped p rows ∙ ap (first p) (sym (own-own rows)) ∙ sym (first-scoped p (own rows))

    pub keep-own :
        keep (scoped tenant_of tenant p) rows ≡ keep (scoped tenant_of tenant p) (own rows)
    keep-own =
        keep-scoped p rows ∙ ap (keep p) (sym (own-own rows)) ∙ sym (keep-scoped p (own rows))

    pub count-own :
        count (scoped tenant_of tenant p) rows ≡ count (scoped tenant_of tenant p) (own rows)
    count-own =
        count-scoped p rows ∙ ap (count p) (sym (own-own rows)) ∙ sym (count-scoped p (own rows))

    pub find_first-own :
        (db : Client)
        → db.find_first (scoped tenant_of tenant p) rows
          ≡ db.find_first (scoped tenant_of tenant p) (own rows)
    find_first-own db = rw (db.find_first_lem, db.find_first_lem) first-own

    pub count_rows-own :
        (db : Client)
        → db.count_rows (scoped tenant_of tenant p) rows
          ≡ db.count_rows (scoped tenant_of tenant p) (own rows)
    count_rows-own db = rw (db.count_rows_lem, db.count_rows_lem) count-own

  -- A row of the tenant that is added.
  pub own-append :
      (rows : List Row) (r : Row) → tenant_of r ≡ tenant → own (rows ++ r ∷ []) ≡ own rows ++ r ∷ []
  own-append [] r h = ground (arith, eq_iff (tenant_of r) tenant, h)
  own-append (q ∷ rows) r h = ground (arith, own-append rows r h)

  pub others-append :
      (rows : List Row) (r : Row) → tenant_of r ≡ tenant → others (rows ++ r ∷ []) ≡ others rows
  others-append [] r h = ground (arith, eq_iff (tenant_of r) tenant, h)
  others-append (q ∷ rows) r h = ground (arith, others-append rows r h)

  -- A page of the rows of the tenant is a page of its rows alone, where the cursor names no other
  -- row.
  pub list_page-own :
      (id_of : Row → String) (pages : Pages id_of) (allowed : List Text) (fallback : Sort)
      (p : Row → Bool) (q : ListQuery) (rows : List Row)
      → names_one_of id_of q.cursor (others rows) ≡ false
      → list_page id_of pages allowed fallback (scoped tenant_of tenant p) q rows
        ≡ list_page id_of pages allowed fallback (scoped tenant_of tenant p) q (own rows)
  list_page-own id_of pages allowed fallback p q rows apart =
      list_page-same id_of pages allowed fallback (scoped tenant_of tenant p) q rows (own rows)
        (keep-own p rows) (cursor_row-own id_of owns q.cursor rows apart)
