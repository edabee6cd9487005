-- ===== src/Core/Pagination/Sample.antt =====
-- A database for the tests of the lists: it returns the rows in the order of the table.
use ai_search_api.Base.{
  String, ◌≡◌, refl, ap, ◌∙◌, Option, none, some, List, [], ◌∷◌, ◌++◌, arith, str_eq, eq_refl,
  if◌then◌else◌, count,
}
use ai_search_api.Core.Pagination.{Pages}

module _ {Row : Type 0} (id_of : Row → String) where
  abbrev pub from_id : String → List Row → List Row
  from_id c [] = []
  from_id c (r ∷ rows) = if str_eq (id_of r) c then r ∷ rows else from_id c rows

  abbrev pub from_found : Option Row → List Row → List Row
  from_found none rows = []
  from_found (some c) rows = from_id (id_of c) rows

  pub from_id-listed :
      (earlier : List Row) (r : Row) (later : List Row)
      → count (λ q. str_eq (id_of q) (id_of r)) earlier ≡ 0
      → from_id (id_of r) (earlier ++ r ∷ later) ≡ r ∷ later
  from_id-listed [] r later h = ground (arith, eq_refl (id_of r))
  from_id-listed (q ∷ earlier) r later h = ground (arith, from_id-listed earlier r later)

  abbrev pub plain_pages : Pages id_of
  plain_pages = record {
    sorted = λ _ rows. rows;
    from_row = λ _. from_found;
    sorted_count = λ _ p rows. refl;
    from_listed = λ _ rows earlier r later c split new same.
        ap (λ i. from_id i rows) same
        ∙ ap (from_id (id_of r)) split
        ∙ from_id-listed earlier r later new;
  }
