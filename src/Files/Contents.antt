-- ===== src/Files/Contents.antt =====
-- modules/files/files.service.ts: rows and the objects that they point at.
use ai_search_api.Base.{
  ℕ, String, ◌≡◌, refl, sym, ap, ◌∙◌, ◌≢◌, inl, inr, Bool, true, false, not, none, some, List, [],
  ◌∷◌, ◌++◌, arith, str_eq, eq_refl, ◌==◌, if◌then◌else◌, Bool-cases, first, keep, count, All,
}
use mathlib.Core.Path.{subst}
use ai_search_api.Base.Result.{Thrown, ok, err, Result-cases}
use ai_search_api.Base.Text.{Text}
use ai_search_api.Base.Prisma.{Client}
use ai_search_api.Core.Tenancy.{scoped}
use ai_search_api.Files.{
  File, UploadInput, ObjectStore, Files, upload, download, remove, get_owned, get, put, delete,
  key_of, file_of, has_file_id, file_not_found,
}

module _ (db : Client) (s3 : ObjectStore) where
  -- Every row points at a stored object.
  abbrev pub IsIntact : Files s3 → Type 0
  IsIntact w = All (λ (f : File). (body : List ℕ) × (s3.get_object f.key w.bucket ≡ ok body)) w.rows

  abbrev pub IsFresh : Text → List File → Type 0
  IsFresh k = All (λ (f : File). k ≢ f.key)

  -- The keys of the rows that stay differ from the key of the row that goes.
  abbrev pub KeepsKey : Text → (File → Bool) → List File → Type 0
  KeepsKey k p = All (λ (f : File). p f ≡ true → k ≢ f.key)

  Intact-put :
      (k : Text) (body : List ℕ) (type : Text) (b : s3.Bucket) (rows : List File)
      → IsFresh k rows
      → All (λ (f : File). (c : List ℕ) × (s3.get_object f.key b ≡ ok c)) rows
      → All
          (λ (f : File).
            (c : List ℕ) × (s3.get_object f.key (s3.put_object k body type b).1 ≡ ok c))
          rows
  Intact-put k body type b [] fresh h = tt
  Intact-put k body type b (f ∷ rows) (new, fresh) ((c, e), h) =
      ((c, s3.get-put_other k f.key body type b new ∙ e), Intact-put k body type b rows fresh h)

  All-append :
      (P : File → Type 0) (xs : List File) (x : File) → All P xs → P x → All P (xs ++ x ∷ [])
  All-append P [] x h p = (p, tt)
  All-append P (y ∷ xs) x (q, h) p = (q, All-append P xs x h p)

  Intact-delete :
      (k : Text) (b : s3.Bucket) (p : File → Bool) (rows : List File)
      → KeepsKey k (λ f. not (p f)) rows
      → All (λ (f : File). (c : List ℕ) × (s3.get_object f.key b ≡ ok c)) rows
      → All
          (λ (f : File). (c : List ℕ) × (s3.get_object f.key (s3.delete_object k b).1 ≡ ok c))
          (keep (λ f. not (p f)) rows)
  Intact-delete k b p [] other h = tt
  Intact-delete k b p (f ∷ rows) (new, other) ((c, e), h) = elim (Bool-cases (p f)) [
    | inl y ↦ rw (y) (Intact-delete k b p rows other h)
    | inr n ↦
        rw (n) (
          (c, s3.get-delete_other k f.key b (new (ap not n)) ∙ e),
          Intact-delete k b p rows other h,
        )
  ]

  upload-stored :
      (id uuid : String) (now : ℕ) (tenant user : String) (input : UploadInput) (w : Files s3)
      → (s3.put_object (key_of tenant uuid) input.buffer input.mimetype w.bucket).0 ≡ ok tt
      → (upload db s3 true id uuid now tenant user input w).1 ≡ record {
        rows = w.rows ++ file_of id uuid now tenant user input ∷ [];
        bucket = (s3.put_object (key_of tenant uuid) input.buffer input.mimetype w.bucket).1;
      }
  unfolding upload put
  upload-stored id uuid now tenant user input w stored = rw (upload, stored, db.create_lem) refl

  upload-lost :
      (id uuid : String) (now : ℕ) (tenant user : String) (input : UploadInput) (w : Files s3)
      (e : Thrown)
      → (s3.put_object (key_of tenant uuid) input.buffer input.mimetype w.bucket).0 ≡ err e
      → (upload db s3 true id uuid now tenant user input w).1 ≡ record {
        rows = w.rows;
        bucket = (s3.put_object (key_of tenant uuid) input.buffer input.mimetype w.bucket).1;
      }
  unfolding upload put
  upload-lost id uuid now tenant user input w e stored = rw (upload, stored) refl

  -- An upload under a fresh key, however the bucket answers, leaves every row with its object.
  pub upload-IsIntact :
      (id uuid : String) (now : ℕ) (tenant user : String) (input : UploadInput) (w : Files s3)
      → IsFresh (key_of tenant uuid) w.rows
      → IsIntact w
      → IsIntact (upload db s3 true id uuid now tenant user input w).1
  unfolding upload put
  upload-IsIntact id uuid now tenant user input w fresh h =
      let k : Text = key_of tenant uuid in
      let kept = Intact-put k input.buffer input.mimetype w.bucket w.rows fresh h in
      elim (Result-cases (s3.put_object k input.buffer input.mimetype w.bucket).0) [
        | inr (e, stored) ↦
            subst IsIntact (sym (upload-lost id uuid now tenant user input w e stored)) kept
        | inl (u, stored) ↦
            subst IsIntact (sym (upload-stored id uuid now tenant user input w stored)) (
              All-append _ w.rows (file_of id uuid now tenant user input) kept
                (input.buffer, s3.get-put k input.buffer input.mimetype w.bucket stored))
      ]

  found-own :
      (tenant id : String) (f : File) (rows : List File)
      → count (λ (g : File). str_eq g.id id) rows ≡ 0
      → str_eq f.id id ≡ true
      → str_eq f.tenant_id tenant ≡ true
      → first (has_file_id tenant id) (rows ++ f ∷ []) ≡ some f
  unfolding scoped
  found-own tenant id f [] new i t = ground (arith)
  found-own tenant id f (g ∷ rows) new i t = ground (arith, found-own tenant id f rows)

  found-none :
      (tenant id : String) (f : File) (rows : List File)
      → count (λ (g : File). str_eq g.id id) rows ≡ 0
      → str_eq f.tenant_id tenant ≡ false
      → first (has_file_id tenant id) (rows ++ f ∷ []) ≡ none
  unfolding scoped
  found-none tenant id f [] new t = ground (arith)
  found-none tenant id f (g ∷ rows) new t = ground (arith, found-none tenant id f rows)

  -- A file that was stored is downloaded by its tenant with the bytes that were uploaded, and by no
  -- other tenant.
  pub download-upload :
      (id uuid : String) (now : ℕ) (tenant user other : String) (input : UploadInput) (w : Files s3)
      → count (λ (f : File). str_eq f.id id) w.rows ≡ 0
      → (s3.put_object (key_of tenant uuid) input.buffer input.mimetype w.bucket).0 ≡ ok tt
      → str_eq tenant other ≡ false
      → (download db s3 true tenant id (upload db s3 true id uuid now tenant user input w).1
          ≡ ok (file_of id uuid now tenant user input, input.buffer))
        × (download db s3 true other id (upload db s3 true id uuid now tenant user input w).1
            ≡ err file_not_found)
  unfolding download upload put get_owned get scoped
  download-upload id uuid now tenant user other input w new stored apart =
      let f : File = file_of id uuid now tenant user input in
      let own = found-own tenant id f w.rows new (eq_refl id) (eq_refl tenant) in
      let foreign = found-none other id f w.rows new apart in
      rw (upload-stored id uuid now tenant user input w stored) (
        rw
            (
              download,
              db.find_first_lem,
              own,
              s3.get-put (key_of tenant uuid) input.buffer input.mimetype w.bucket stored,
            )
            refl,
        rw (download, db.find_first_lem, foreign) refl,
      )

  Intact-keep :
      (b : s3.Bucket) (p : File → Bool) (rows : List File)
      → All (λ (f : File). (c : List ℕ) × (s3.get_object f.key b ≡ ok c)) rows
      → All (λ (f : File). (c : List ℕ) × (s3.get_object f.key b ≡ ok c)) (keep p rows)
  Intact-keep b p [] h = tt
  Intact-keep b p (f ∷ rows) (q, h) = elim (Bool-cases (p f)) [
    | inl y ↦ rw (y) (q, Intact-keep b p rows h)
    | inr n ↦ rw (n) (Intact-keep b p rows h)
  ]

  remove-owned :
      (tenant id : String) (others : List File → List File) (w : Files s3) (f : File)
      → get_owned db s3 true tenant id w ≡ ok f
      → (remove db s3 true tenant others id w).1 ≡ (record {
        rows = keep (λ g. not (has_file_id tenant f.id g)) (others w.rows);
        bucket =
            if count (has_file_id tenant f.id) (others w.rows) == 0
            then w.bucket
            else (s3.delete_object f.key w.bucket).1;
      })
  unfolding remove delete
  remove-owned tenant id others w f found =
      elim (Bool-cases (count (has_file_id tenant f.id) (others w.rows) == 0)) [
        | inl h ↦ rw (remove, found, db.delete_many_lem, h) refl
        | inr h ↦ rw (remove, found, db.delete_many_lem, h) refl
      ]

  -- Removing a file, however the bucket answers and whatever other requests do to the table in
  -- between, leaves no row without its object: given that they leave none, and that no other row
  -- has the file's key.
  pub remove-IsIntact :
      (tenant id : String) (others : List File → List File) (w : Files s3) (f : File)
      → get_owned db s3 true tenant id w ≡ ok f
      → IsIntact (record { rows = others w.rows; bucket = w.bucket })
      → KeepsKey f.key (λ g. not (has_file_id tenant f.id g)) (others w.rows)
      → IsIntact (remove db s3 true tenant others id w).1
  remove-IsIntact tenant id others w f found h other =
      let p : File → Bool = has_file_id tenant f.id in
      subst IsIntact (sym (remove-owned tenant id others w f found))
        (elim (Bool-cases (count p (others w.rows) == 0)) [
          | inl e ↦ rw (e) (Intact-keep w.bucket (λ g. not (p g)) (others w.rows) h)
          | inr e ↦ rw (e) (Intact-delete f.key w.bucket p (others w.rows) other h)
        ])
