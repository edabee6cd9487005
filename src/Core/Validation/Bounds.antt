-- ===== src/Core/Validation/Bounds.antt =====
-- core/common/pagination.ts: a list request that passes validation.
use ai_search_api.Base.{
  ℕ, zero, suc, ◌≤◌, String, ◌≡◌, refl, ◌≢◌, inl, inr, Bool, true, Option, none, some, List, [],
  ◌∷◌, arith, ltb, Bool-cases, length, take, length-take,
}
use ai_search_api.Base.Text.{Text, codes}
use ai_search_api.Base.Result.{ok}
use ai_search_api.Core.Validation.{
  is_int, min, max, Value, string, integer, between, below_zero, infinity, null, other, boolean,
  Property, Payload, property, Formats, MeetsAll, ValidationPipe, from_query,
}
use ai_search_api.Core.Validation.Dto.{list_query}
use ai_search_api.Core.Pagination.{Sort, ListQuery, Page, Pages, last_id, page_of, list_page}

-- `limit = 20` where it is not given.
abbrev pub limit_of : Option Value → ℕ
limit_of none = 20
limit_of (some (integer n)) = n
limit_of (some _) = 0

abbrev pub text_of : Option Value → Option Text
text_of (some (string t)) = some t
text_of _ = none

abbrev on_text : (Text → String) → Option Text → Option String
on_text f none = none
on_text f (some t) = some (f t)

-- The query that a handler gets; `id_of` reads the text of a UUID as an id.
abbrev pub list_query_of : (Text → String) → Payload → ListQuery
list_query_of id_of ps = record {
  limit = limit_of (property (codes "limit") ps);
  cursor = on_text id_of (text_of (property (codes "cursor") ps));
  sort = text_of (property (codes "sort") ps);
  search = text_of (property (codes "search") ps);
}

query-no_null :
    (name : Text) (query : List (Text × Option Text)) → property name (from_query query) ≢ some null
query-no_null name [] h = cc
query-no_null name ((n, none) ∷ q) h = ground (arith, h, query-no_null name q)
query-no_null name ((n, some t) ∷ q) h = ground (arith, h, query-no_null name q)

module _ (formats : Formats) where
  abbrev limit_property : Property
  limit_property = record {
    name = codes "limit";
    optional = true;
    rules = is_int ∷ min 1 ∷ max 100 ∷ [];
  }

  limit_bounds :
      (v : Option Value)
      → MeetsAll formats limit_property v
      → v ≢ some null
      → (1 ≤ limit_of v) × (limit_of v ≤ 100)
  limit_bounds none h present = (omega arith, omega arith)
  limit_bounds (some (integer n)) h present = (h.1.0, h.1.1.0)
  limit_bounds (some null) h present = absurd (present refl)
  limit_bounds (some (string t)) h present = absurd h.0
  limit_bounds (some (between n)) h present = absurd h.0
  limit_bounds (some (below_zero whole)) h present = absurd h.1.0
  limit_bounds (some infinity) h present = absurd h.0
  limit_bounds (some other) h present = absurd h.0
  limit_bounds (some (boolean b)) h present = absurd h.0

module _ {Row : Type 0} (id_of : Row → String) where
  last_id-take :
      (n : ℕ) (rows : List Row)
      → 1 ≤ n
      → ltb n (length rows) ≡ true
      → (c : String) × (last_id id_of (take n rows) ≡ some c)
  unfolding last_id
  last_id-take zero rows h k = absurd (omega arith)
  last_id-take (suc n) [] h k = absurd (ground (arith, k))
  last_id-take (suc zero) (r ∷ rows) h k = (id_of r, refl)
  last_id-take (suc (suc n)) (r ∷ []) h k = absurd (ground (arith, k))
  last_id-take (suc (suc n)) (r ∷ q ∷ rows) h k =
      last_id-take (suc n) (q ∷ rows) (omega arith) (ground (arith, k))

  page_of_total :
      (limit : ℕ) (rows : List Row)
      → 1 ≤ limit
      → (page : Page Row) × (page_of id_of limit rows ≡ ok page) × (length page.items ≤ limit)
  unfolding page_of
  page_of_total limit rows h = elim (Bool-cases (ltb limit (length rows))) [
    | inl more ↦
        let (c, e) = last_id-take limit rows h more in
        (
          record { items = take limit rows; next_cursor = some c },
          rw (page_of, more, e) refl,
          omega (arith, length-take limit rows),
        )
    | inr all_of_them ↦ (
      record { items = rows; next_cursor = none },
      rw (page_of, all_of_them) refl,
      ground (arith, all_of_them),
    )
  ]

  -- Whatever the query string, a list request that the validation pipe accepts is answered with a
  -- page, of at most a hundred rows, and not with an error.
  pub list_page-served :
      (pipe : ValidationPipe) (query : List (Text × Option Text)) (ps : Payload)
      (id_of_text : Text → String) (pages : Pages id_of) (allowed : List Text) (fallback : Sort)
      (matching : Row → Bool) (rows : List Row)
      → pipe.transform list_query (from_query query) ≡ some ps
      → (page : Page Row) × (list_page id_of pages allowed fallback matching
            (list_query_of id_of_text ps)
            rows
          ≡ ok page)
        × (length page.items ≤ 100)
  unfolding list_page
  list_page-served pipe query ps id_of_text pages allowed fallback matching rows h =
      let met = pipe.accepted list_query (from_query query) ps h in
      let present =
        pipe.no_null list_query (from_query query) ps (codes "limit") h
          (query-no_null (codes "limit") query) in
      let (low, high) = limit_bounds pipe.formats (property (codes "limit") ps) met.0 present in
      let (page, e, size) = page_of_total (limit_of (property (codes "limit") ps)) _ low in
      (page, e, omega arith)
