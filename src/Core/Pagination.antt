-- ===== src/Core/Pagination.antt =====
-- core/common/pagination.ts, and the paging that the `list` methods of the audits, files and
-- notifications services have in common.
pub mod Walk
pub mod Sample
use ai_search_api.Base.{
  ℕ, ◌+◌, ◌-◌, String, ◌≡◌, refl, ap, ◌∙◌, Bool, false, not, Option, none, some, List, [], ◌∷◌,
  ◌++◌, arith, str_eq, ltb, ◌==◌, if◌then◌else◌, length, take, drop, any, first, keep, count,
}
use ai_search_api.Base.Text.{Text, codes, text_eq}
use ai_search_api.Base.Result.{failure, Result, ok, err}

pub data SortOrder : Type 0 where
  ascending descending : SortOrder

pub record Sort : Type 0 where
  pub field : Text
  pub order : SortOrder

pub record ListQuery : Type 0 where
  pub limit : ℕ
  pub cursor : Option String
  pub sort : Option Text
  pub search : Option Text

pub record Page (Row : Type 0) : Type 0 where
  pub items : List Row
  pub next_cursor : Option String

-- `sort.startsWith('-')`, and what follows it.
abbrev pub requested_sort : Text → Sort
requested_sort [] = record { field = []; order = ascending }
requested_sort (c ∷ s) =
    if c == 45
    then record { field = s; order = descending }
    else record { field = c ∷ s; order = ascending }

abbrev choose_sort : Option Text → List Text → Sort → Sort
choose_sort none allowed fallback = fallback
choose_sort (some s) allowed fallback =
    if any (text_eq (requested_sort s).field) allowed then requested_sort s else fallback

abbrev pub with_tiebreak : Sort → List Sort
with_tiebreak s =
    if text_eq s.field (codes "id")
    then s ∷ []
    else s ∷ record { field = codes "id"; order = descending } ∷ []

-- An empty `sort` is no sort; the allow-lists have no empty name.
unfoldable pub parse_sort : Option Text → List Text → Sort → List Sort
parse_sort (some []) allowed fallback = with_tiebreak fallback
parse_sort none allowed fallback = with_tiebreak (choose_sort none allowed fallback)
parse_sort (some (c ∷ s)) allowed fallback =
    with_tiebreak (choose_sort (some (c ∷ s)) allowed fallback)

module _ {Row : Type 0} (id_of : Row → String) where
  -- `items[items.length - 1].id`, which throws where there is none
  unfoldable pub last_id : List Row → Option String
  last_id [] = none
  last_id (r ∷ []) = some (id_of r)
  last_id (r ∷ q ∷ rs) = last_id (q ∷ rs)

  -- What `list` makes of the rows that it asked for, one more than the limit.
  unfoldable pub page_of : ℕ → List Row → Result (Page Row)
  unfolding last_id
  page_of limit rows =
      if ltb limit (length rows)
      then elim (last_id (take limit rows)) [
        | none ↦ err (failure "Cannot read properties of undefined (reading 'id')")
        | some c ↦ ok (record { items = take limit rows; next_cursor = some c })
      ]
      else ok (record { items = rows; next_cursor = none })

-- `findMany` with `orderBy` and `cursor`: a parameter, with what Prisma documents of it. `sorted`
-- is the database's order of the selected rows. `from_row` is what it keeps of them for a cursor;
-- the cursor is looked up in the whole table, by its id alone, and the selected rows are compared
-- with the row that is found. Only where one of the selected rows has its id is it said what is
-- kept.
pub record Pages {Row : Type 0} (id_of : Row → String) : Type 0 where
  pub sorted : List Sort → List Row → List Row
  pub from_row : List Sort → Option Row → List Row → List Row
  pub sorted_count :
      (sorts : List Sort) (p : Row → Bool) (rows : List Row)
      → count p (sorted sorts rows) ≡ count p rows
  pub from_listed :
      (sorts : List Sort) (rows earlier : List Row) (r : Row) (later : List Row) (c : Row)
      → sorted sorts rows ≡ earlier ++ r ∷ later
      → count (λ q. str_eq (id_of q) (id_of r)) earlier ≡ 0
      → id_of c ≡ id_of r
      → from_row sorts (some c) (sorted sorts rows) ≡ r ∷ later

module _ {Row : Type 0} (id_of : Row → String) where
  -- The row that a cursor names.
  abbrev pub cursor_row : Option String → List Row → Option Row
  cursor_row none table = none
  cursor_row (some c) table = first (λ r. str_eq (id_of r) c) table

  -- A cursor names one of these rows.
  abbrev pub names_one_of : Option String → List Row → Bool
  names_one_of none rows = false
  names_one_of (some c) rows = any (λ r. str_eq (id_of r) c) rows

module _ {Row : Type 0} (id_of : Row → String) (pages : Pages id_of) where
  -- `query.cursor ? { cursor: { id: query.cursor }, skip: 1 } : {}`
  abbrev pub after_cursor : List Sort → Option String → Option Row → List Row → List Row
  after_cursor sorts none row selected = pages.sorted sorts selected
  after_cursor sorts (some c) row selected =
      drop 1 (pages.from_row sorts row (pages.sorted sorts selected))

  unfoldable pub list_page :
      List Text → Sort → (Row → Bool) → ListQuery → List Row → Result (Page Row)
  unfolding page_of parse_sort
  list_page allowed fallback matching q rows = page_of id_of q.limit (
      take (q.limit + 1) (
        after_cursor (parse_sort q.sort allowed fallback) q.cursor (cursor_row id_of q.cursor rows)
          (keep matching rows)))

  -- A page depends on the selected rows and on the row of the cursor only.
  pub list_page-same :
      (allowed : List Text) (fallback : Sort) (p : Row → Bool) (q : ListQuery)
      (rows rows' : List Row)
      → keep p rows ≡ keep p rows'
      → cursor_row id_of q.cursor rows ≡ cursor_row id_of q.cursor rows'
      → list_page allowed fallback p q rows ≡ list_page allowed fallback p q rows'
  unfolding list_page
  list_page-same allowed fallback p q rows rows' same cursor =
      let page : Option Row → List Row → Result (Page Row) = λ row selected. page_of id_of q.limit (
        take (q.limit + 1)
          (after_cursor (parse_sort q.sort allowed fallback) q.cursor row selected)) in
      ap (λ row. page row (keep p rows)) cursor ∙ ap (page (cursor_row id_of q.cursor rows')) same

module _ {Row : Type 0} (id_of : Row → String) (own : Row → Bool) where
  first-apart :
      (p : Row → Bool) (rows : List Row)
      → any p (keep (λ r. not (own r)) rows) ≡ false
      → first p rows ≡ first p (keep own rows)
  first-apart p [] h = refl
  first-apart p (r ∷ rows) h = ground (arith, first-apart p rows)

  -- A cursor that names no other row is found among the own ones.
  pub cursor_row-own :
      (cursor : Option String) (rows : List Row)
      → names_one_of id_of cursor (keep (λ r. not (own r)) rows) ≡ false
      → cursor_row id_of cursor rows ≡ cursor_row id_of cursor (keep own rows)
  cursor_row-own none rows h = refl
  cursor_row-own (some c) rows h = first-apart (λ r. str_eq (id_of r) c) rows h
