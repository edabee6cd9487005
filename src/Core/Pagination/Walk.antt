-- ===== src/Core/Pagination/Walk.antt =====
-- core/common/pagination.ts: following `nextCursor` from page to page.
use ai_search_api.Base.{
  ℕ, zero, suc, ◌+◌, ◌≤◌, String, ◌≡◌, refl, sym, ap, ◌∙◌, ◌⊎◌, inl, inr, Bool, true, false, Option,
  none, some, List, [], ◌∷◌, ◌++◌, arith, str_eq, eq_iff, eq_refl, ltb, Bool-cases, length, take,
  drop, first, keep, count, length-append, length-take, count-append, first_sound,
}
use mathlib.Core.List.{append-nil, append_assoc}
use native.Mathlib.Numerals.{add-one}
use ai_search_api.Base.Keys.{str_eq_sym, has_distinct_ids}
use ai_search_api.Base.Text.{Text}
use ai_search_api.Base.Result.{Result, ok, err}
use ai_search_api.Core.Pagination.{
  Sort, ListQuery, Page, parse_sort, last_id, page_of, cursor_row, Pages, after_cursor, list_page,
}

module _ {Row : Type 0} (id_of : Row → String) where
  -- The pages that a caller sees who starts at a cursor and follows `nextCursor`, at most so many.
  abbrev pub walk_with : (Option String → Result (Page Row)) → ℕ → Option String → List Row
  walk_with fetch_page zero cursor = []
  walk_with fetch_page (suc n) cursor = elim (fetch_page cursor) [
    | err e ↦ []
    | ok page ↦
        page.items ++ elim page.next_cursor [ none ↦ [] | some c ↦ walk_with fetch_page n (some c) ]
  ]

  split_last :
      (n : ℕ) (rs : List Row)
      → ltb (suc n) (length rs) ≡ true
      → (before : List Row) × (r : Row) × (take (suc n) rs ≡ before ++ r ∷ [])
        × (rs ≡ before ++ r ∷ drop (suc n) rs)
        × (last_id id_of (take (suc n) rs) ≡ some (id_of r))
  unfolding last_id
  split_last n [] h = absurd (ground arith)
  split_last zero (r ∷ rs) h = ([], r, refl, refl, refl)
  split_last (suc n) (r ∷ []) h = absurd (ground arith)
  split_last (suc n) (r ∷ q ∷ rs) h =
      let (before, x, e, d, l) = split_last n (q ∷ rs) (ground arith) in
      (r ∷ before, x, ap (λ xs. r ∷ xs) e, ap (λ xs. r ∷ xs) d, l)

  earlier_distinct :
      (earlier : List Row) (r : Row) (later : List Row)
      → has_distinct_ids id_of (earlier ++ r ∷ later) ≡ true
      → count (λ q. str_eq (id_of q) (id_of r)) earlier ≡ 0
  earlier_distinct [] r later h = refl
  earlier_distinct (q ∷ earlier) r later h = ground (
    arith,
    earlier_distinct earlier r later,
    str_eq_sym (id_of q) (id_of r),
    count-append (λ x. str_eq (id_of x) (id_of q)) earlier (r ∷ later),
  )

  -- What follows of the rows after the first ones.
  later_distinct :
      (earlier later : List Row)
      → has_distinct_ids id_of (earlier ++ later) ≡ true
      → has_distinct_ids id_of later ≡ true
  later_distinct [] later h = h
  later_distinct (q ∷ earlier) later h = ground (arith, later_distinct earlier later)

take_all : {A : Type 0} (n : ℕ) (xs : List A) → ltb n (length xs) ≡ false → take n xs ≡ xs
take_all zero [] h = refl
take_all zero (x ∷ xs) h = absurd (ground arith)
take_all (suc n) [] h = refl
take_all (suc n) (x ∷ xs) h = ap (λ ys. x ∷ ys) (take_all n xs (ground arith))

take-take : {A : Type 0} (n : ℕ) (xs : List A) → take n (take (suc n) xs) ≡ take n xs
take-take zero xs = refl
take-take (suc n) [] = refl
take-take (suc n) (x ∷ xs) = ap (λ ys. x ∷ ys) (take-take n xs)

count-kept : {A : Type 0} (q p : A → Bool) (xs : List A) → count q (keep p xs) ≤ count q xs
count-kept q p [] = omega arith
count-kept q p (x ∷ xs) = ground (arith, count-kept q p xs)

first-counted :
    {A : Type 0} (q : A → Bool) (xs : List A)
    → ltb 0 (count q xs) ≡ true
    → (a : A) × (first q xs ≡ some a)
first-counted q [] h = absurd (ground arith)
first-counted q (x ∷ xs) h = elim (Bool-cases (q x)) [
  | inl e ↦ (x, rw e refl)
  | inr e ↦ (let (a, found) = first-counted q xs (ground (arith, e)) in (a, rw e found))
]

module _ {Row : Type 0} (id_of : Row → String) (pages : Pages id_of) where
  enough :
      (n : ℕ) (rs : List Row) → ltb n (length rs) ≡ true → ltb n (length (take (suc n) rs)) ≡ true
  enough n rs h = ground (arith, length-take (suc n) rs)

  -- The page at a point of the list: the rest, or as many rows as the limit and the cursor of the
  -- last.
  page_at :
      (n : ℕ) (rs : List Row)
      → (ltb (suc n) (length rs) ≡ false)
          × (page_of id_of (suc n) (take (suc (suc n)) rs)
              ≡ ok (record { items = rs; next_cursor = none }))
        ⊎ (ltb (suc n) (length rs) ≡ true)
          × (before : List Row) × (r : Row) × (rs ≡ before ++ r ∷ drop (suc n) rs)
          × (page_of id_of (suc n) (take (suc (suc n)) rs)
              ≡ ok (record { items = before ++ r ∷ []; next_cursor = some (id_of r) }))
  unfolding page_of
  page_at n rs = elim (Bool-cases (ltb (suc n) (length rs))) [
    | inr h ↦ inl (h, rw (page_of, take_all (suc (suc n)) rs (ground arith), h) refl)
    | inl h ↦
        let (before, r, e, d, l) = split_last id_of n rs h in
        inr (
          h,
          before,
          r,
          d,
          rw (page_of, enough (suc n) rs h, take-take (suc n) rs)
              (rw (l) (
                ap (λ xs. ok (record { items = xs; next_cursor = some (id_of r) }))
                  (take-take (suc n) rs ∙ e))),
        )
  ]

  walk-last :
      (fetch_page : Option String → Result (Page Row)) (f : ℕ) (c : Option String) (xs : List Row)
      → fetch_page c ≡ ok (record { items = xs; next_cursor = none })
      → walk_with id_of fetch_page (suc f) c ≡ xs
  walk-last fetch_page f c xs h = rw (walk_with, h) (append-nil xs)

  walk-next :
      (fetch_page : Option String → Result (Page Row)) (f : ℕ) (c : Option String) (xs : List Row)
      (d : String)
      → fetch_page c ≡ ok (record { items = xs; next_cursor = some d })
      → walk_with id_of fetch_page (suc f) c ≡ xs ++ walk_with id_of fetch_page f (some d)
  walk-next fetch_page f c xs d h = rw (walk_with, h) refl

  module _ (sorts : List Sort) (matching : Row → Bool) (table : List Row) where
    abbrev listing : List Row
    listing = pages.sorted sorts (keep matching table)

    -- The rows that a cursor leaves.
    abbrev rest_of : Option String → List Row
    rest_of c = after_cursor id_of pages sorts c (cursor_row id_of c table) (keep matching table)

    listed-found :
        (k : String)
        → ltb 0 (count (λ q. str_eq (id_of q) k) listing) ≡ true
        → (c : Row) × (first (λ q. str_eq (id_of q) k) table ≡ some c) × (id_of c ≡ k)
    listed-found k h =
        let q : Row → Bool = λ r. str_eq (id_of r) k in
        let in_table : ltb 0 (count q table) ≡ true =
          ground (
            arith,
            pages.sorted_count sorts q (keep matching table),
            count-kept q matching table,
          ) in
        let (c, found) = first-counted q table in_table in
        (c, found, (eq_iff (id_of c) k).0 (first_sound q table c found))

    rest-after :
        (earlier : List Row) (r : Row) (later : List Row)
        → listing ≡ earlier ++ r ∷ later
        → count (λ q. str_eq (id_of q) (id_of r)) earlier ≡ 0
        → rest_of (some (id_of r)) ≡ later
    rest-after earlier r later split unique =
        let present : ltb 0 (count (λ q. str_eq (id_of q) (id_of r)) listing) ≡ true =
          ap (λ xs. ltb 0 (count (λ q. str_eq (id_of q) (id_of r)) xs)) split
          ∙ ground (
            arith,
            count-append (λ q. str_eq (id_of q) (id_of r)) earlier (r ∷ later),
            eq_refl (id_of r),
          ) in
        let (c, found, same) = listed-found (id_of r) present in
        rw found (
          ap (drop 1)
            (pages.from_listed sorts (keep matching table) earlier r later c split unique same))

    walk_rest :
        (n fuel : ℕ) (cursor : Option String) (earlier rs : List Row)
        → listing ≡ earlier ++ rs
        → has_distinct_ids id_of listing ≡ true
        → rest_of cursor ≡ rs
        → ltb (length rs) fuel ≡ true
        → walk_with id_of (λ c. page_of id_of (suc n) (take (suc (suc n)) (rest_of c))) fuel cursor
          ≡ rs
    walk_rest n zero cursor earlier rs split distinct here fuel = absurd (ground arith)
    walk_rest n (suc f) cursor earlier rs split distinct here fuel =
        let fetch_page : Option String → Result (Page Row) =
          λ c. page_of id_of (suc n) (take (suc (suc n)) (rest_of c)) in
        let fetched : fetch_page cursor ≡ page_of id_of (suc n) (take (suc (suc n)) rs) =
          ap (λ xs. page_of id_of (suc n) (take (suc (suc n)) xs)) here in
        elim (page_at n rs) [
          | inl (_, page) ↦ walk-last fetch_page f cursor rs (fetched ∙ page)
          | inr (h, before, r, d, page) ↦
              let later : List Row = drop (suc n) rs in
              let split' : listing ≡ (earlier ++ before) ++ r ∷ later =
                split
                ∙ ap (λ xs. earlier ++ xs) d
                ∙ sym (append_assoc earlier before (r ∷ later)) in
              let unique : count (λ q. str_eq (id_of q) (id_of r)) (earlier ++ before) ≡ 0 =
                earlier_distinct id_of (earlier ++ before) r later
                  (ap (has_distinct_ids id_of) (sym split') ∙ distinct) in
              walk-next fetch_page f cursor (before ++ r ∷ []) (id_of r) (fetched ∙ page)
              ∙ ap (λ xs. (before ++ r ∷ []) ++ xs)
                  (walk_rest n f (some (id_of r)) ((earlier ++ before) ++ r ∷ []) later
                    (split' ∙ sym (append_assoc (earlier ++ before) (r ∷ []) later)) distinct
                    (rest-after (earlier ++ before) r later split' unique)
                    (ground (arith, ap length d, length-append before (r ∷ later))))
              ∙ append_assoc before (r ∷ []) later
              ∙ sym d
        ]

  abbrev pub listed_rows : List Text → Sort → (Row → Bool) → ListQuery → List Row → List Row
  listed_rows allowed fallback matching q table =
      pages.sorted (parse_sort q.sort allowed fallback) (keep matching table)

  -- For a limit of at least one and selected rows of distinct ids: a caller who starts without a
  -- cursor and follows `nextCursor` sees the selected rows in the database's order, every one
  -- exactly once.
  pub list_page_complete :
      (allowed : List Text) (fallback : Sort) (matching : Row → Bool) (q : ListQuery) (n : ℕ)
      (table : List Row)
      → q.limit ≡ suc n
      → has_distinct_ids id_of (listed_rows allowed fallback matching q table) ≡ true
      → walk_with id_of
          (λ c. list_page id_of pages allowed fallback matching (record q { cursor = c }) table)
          (suc (length (listed_rows allowed fallback matching q table)))
          none
        ≡ listed_rows allowed fallback matching q table
  unfolding list_page
  list_page_complete allowed fallback matching q n table limit distinct =
      let sorts : List Sort = parse_sort q.sort allowed fallback in
      let listed : List Row = listed_rows allowed fallback matching q table in
      let walk : ℕ → ℕ → List Row = λ m k.
        walk_with id_of (λ c. page_of id_of m (take k (rest_of sorts matching table c)))
          (suc (length listed)) none in
      ap (λ m. walk m (m + 1)) limit
      ∙ ap (walk (suc n)) (add-one (suc n))
      ∙ walk_rest sorts matching table n (suc (length listed)) none [] listed refl distinct refl
          (ground arith)
