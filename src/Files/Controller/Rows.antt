-- ===== src/Files/Controller/Rows.antt =====
-- modules/files/files.service.ts on the whole table, next to the same on one tenant's rows.
use ai_search_api.Base.{
  ℕ, String, ◌≡◌, refl, sym, ap, ◌∙◌, inl, inr, Bool, not, List, [], ◌∷◌, ◌++◌, str_eq, ◌==◌,
  Bool-cases, keep, count,
}
use ai_search_api.Core.Tenancy.{scoped}
use ai_search_api.Base.Result.{err, Result-cases}
use ai_search_api.Base.Prisma.{Client}
use ai_search_api.Core.TenantRows.{
  own, others, own-own, find_first-own, count-own, own-delete, others-delete, own-append,
  others-append,
}
use ai_search_api.Files.{
  File, UploadInput, ObjectStore, Files, tenant_of_file, key_of, file_of, has_file_id, put, upload,
  download, remove, get_owned,
}

module _ (s3 : ObjectStore) (tenant : String) where
  abbrev pub rows_of : List File → List File
  rows_of = own tenant_of_file tenant

  -- The table with the rows of the tenant only.
  abbrev pub alone : Files s3 → Files s3
  alone w = record w { rows = rows_of w.rows }

  -- An outcome on the whole table, next to that on the rows of the tenant only.
  pub record Apart {A : Type 0} (w : Files s3) (r a : A × Files s3) : Type 0 where
    pub same : r.0 ≡ a.0
    pub own_rows : rows_of r.1.rows ≡ rows_of a.1.rows
    pub bucket : r.1.bucket ≡ a.1.bucket
    pub other_rows : others tenant_of_file tenant r.1.rows ≡ others tenant_of_file tenant w.rows

module _ (db : Client) (s3 : ObjectStore) (configured : Bool) (tenant : String) where
  pub untouched :
      {A : Type 0} (w : Files s3) (r : A) → Apart s3 tenant w (r, w) (r, alone s3 tenant w)
  untouched w r = record {
    same = refl;
    own_rows = sym (own-own tenant_of_file tenant w.rows);
    bucket = refl;
    other_rows = refl;
  }

  get_owned-alone :
      (id : String) (w : Files s3)
      → get_owned db s3 configured tenant id w
        ≡ get_owned db s3 configured tenant id (alone s3 tenant w)
  unfolding get_owned
  get_owned-alone id w =
      rw (get_owned, find_first-own tenant_of_file tenant (λ f. str_eq f.id id) w.rows db) refl

  pub download-alone :
      (id : String) (w : Files s3)
      → download db s3 configured tenant id w
        ≡ download db s3 configured tenant id (alone s3 tenant w)
  unfolding download
  download-alone id w = rw (download, get_owned-alone id w) refl

  pub upload-Apart :
      (id uuid : String) (now : ℕ) (user : String) (input : UploadInput) (w : Files s3)
      → Apart s3 tenant w
          (upload db s3 configured id uuid now tenant user input w)
          (upload db s3 configured id uuid now tenant user input (alone s3 tenant w))
  unfolding upload
  upload-Apart id uuid now user input w =
      let file = file_of id uuid now tenant user input in
      elim (Result-cases
        (put db s3 configured (key_of tenant uuid) input.buffer input.mimetype w.bucket).0) [
          | inl (u, e) ↦
              rw (upload, e, db.create_lem file w.rows, db.create_lem file (alone s3 tenant w).rows)
                (record {
                  same = refl;
                  own_rows =
                      own-append tenant_of_file tenant w.rows file refl
                      ∙ sym (
                          own-append tenant_of_file tenant (rows_of s3 tenant w.rows) file refl
                          ∙ ap (λ rows. rows ++ file ∷ []) (own-own tenant_of_file tenant w.rows));
                  bucket = refl;
                  other_rows = others-append tenant_of_file tenant w.rows file refl;
                })
          | inr (x, e) ↦
              rw (upload, e)
                (record {
                  same = refl;
                  own_rows = sym (own-own tenant_of_file tenant w.rows);
                  bucket = refl;
                  other_rows = refl;
                })
        ]

  deleted-alone :
      (p : File → Bool) (rows : List File)
      → rows_of s3 tenant (keep (λ r. not (scoped tenant_of_file tenant p r)) rows)
        ≡ rows_of s3 tenant
            (keep (λ r. not (scoped tenant_of_file tenant p r)) (rows_of s3 tenant rows))
  deleted-alone p rows =
      own-delete tenant_of_file tenant p rows
      ∙ sym (
          own-delete tenant_of_file tenant p (rows_of s3 tenant rows)
          ∙ ap (keep (λ r. not (p r))) (own-own tenant_of_file tenant rows))

  pub remove-Apart :
      (id : String) (w : Files s3)
      → Apart s3 tenant w
          (remove db s3 configured tenant (λ rows. rows) id w)
          (remove db s3 configured tenant (λ rows. rows) id (alone s3 tenant w))
  unfolding remove
  remove-Apart id w = elim (Result-cases (get_owned db s3 configured tenant id w)) [
    | inl (f, e) ↦
        let e' = sym (get_owned-alone id w) ∙ e in
        let p : File → Bool = λ g. str_eq g.id f.id in
        let all_rows = db.delete_many_lem (has_file_id tenant f.id) w.rows in
        let own_rows = db.delete_many_lem (has_file_id tenant f.id) (rows_of s3 tenant w.rows) in
        elim (Bool-cases (count (has_file_id tenant f.id) w.rows == 0)) [
          | inl gone ↦
              rw
                (
                  remove,
                  e,
                  e',
                  all_rows,
                  own_rows,
                  sym (count-own tenant_of_file tenant p w.rows),
                  gone,
                )
                (record {
                  same = refl;
                  own_rows = deleted-alone p w.rows;
                  bucket = refl;
                  other_rows = others-delete tenant_of_file tenant p w.rows;
                })
          | inr there ↦
              rw
                (
                  remove,
                  e,
                  e',
                  all_rows,
                  own_rows,
                  sym (count-own tenant_of_file tenant p w.rows),
                  there,
                )
                (record {
                  same = refl;
                  own_rows = deleted-alone p w.rows;
                  bucket = refl;
                  other_rows = others-delete tenant_of_file tenant p w.rows;
                })
        ]
    | inr (x, e) ↦
        let e' = sym (get_owned-alone id w) ∙ e in rw (remove, e, e') (untouched w (err x))
  ]
