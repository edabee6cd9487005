-- ===== src/Files.antt =====
-- modules/files/files.service.ts and integrations/storage/storage.service.ts, in a tenant's
-- context.
pub mod Contents
pub mod Storage
pub mod Controller
mod Tests
use ai_search_api.Base.{
  ℕ, ◌+◌, ◌-◌, ◌/◌, String, ◌≡◌, ◌≢◌, Bool, true, false, not, Option, none, some, List, [], ◌∷◌,
  ◌++◌, str_eq, ◌==◌, if◌then◌else◌,
}
use ai_search_api.Base.Result.{Thrown, http, failure, Result, ok, err}
use ai_search_api.Base.Text.{Text, codes}
use ai_search_api.Base.Prisma.{Client}
use ai_search_api.Core.Tenancy.{scoped}
use ai_search_api.Core.Pagination.{descending, ListQuery, Page, Pages, list_page}

pub record File : Type 0 where
  pub id : String
  pub tenant_id : String
  pub uploaded_by_id : String
  pub key : Text
  pub filename : Text
  pub content_type : Text
  pub size : ℕ
  pub created_at : ℕ

pub record UploadInput : Type 0 where
  pub originalname : Text
  pub mimetype : Text
  pub size : ℕ
  pub buffer : List ℕ

-- The S3 client's three commands on the bucket (`@aws-sdk/client-s3`, third party), which may
-- throw, and what is relied on: a stored object is read back, and a command touches its own key
-- only.
pub record ObjectStore : Type 1 where
  pub Bucket : Type 0
  pub put_object : Text → List ℕ → Text → Bucket → Result (Unit {0}) × Bucket
  pub get_object : Text → Bucket → Result (List ℕ)
  pub delete_object : Text → Bucket → Result (Unit {0}) × Bucket
  pub get-put :
      (k : Text) (body : List ℕ) (type : Text) (b : Bucket)
      → (put_object k body type b).0 ≡ ok tt
      → get_object k (put_object k body type b).1 ≡ ok body
  pub get-put_other :
      (k j : Text) (body : List ℕ) (type : Text) (b : Bucket)
      → k ≢ j
      → get_object j (put_object k body type b).1 ≡ get_object j b
  pub get-delete_other :
      (k j : Text) (b : Bucket) → k ≢ j → get_object j (delete_object k b).1 ≡ get_object j b

-- An error is known by its name: `err.name === 'NoSuchKey'`.
abbrev pub is_no_such_key : Thrown → Bool
is_no_such_key (http status message) = false
is_no_such_key (failure name) = str_eq name "NoSuchKey"

abbrev pub tenant_of_file : File → String
tenant_of_file f = f.tenant_id

abbrev pub id_of_file : File → String
id_of_file f = f.id

abbrev pub has_file_id : String → String → File → Bool
has_file_id tenant id = scoped tenant_of_file tenant (λ f. str_eq f.id id)

abbrev pub not_configured : Thrown
not_configured = http 503 "Object storage is not configured"

abbrev pub file_not_found : Thrown
file_not_found = http 404 "File not found"

abbrev pub key_of : String → String → Text
key_of tenant uuid = codes tenant ++ codes "/" ++ codes uuid

abbrev pub file_of : String → String → ℕ → String → String → UploadInput → File
file_of id uuid now tenant user input = record {
  id = id;
  tenant_id = tenant;
  uploaded_by_id = user;
  key = key_of tenant uuid;
  filename = input.originalname;
  content_type = input.mimetype;
  size = input.size;
  created_at = now;
}

-- The table and the bucket.
pub record Files (s3 : ObjectStore) : Type 0 where
  pub rows : List File
  pub bucket : s3.Bucket

-- The flag is whether storage is configured.
module _ (db : Client) (s3 : ObjectStore) (configured : Bool) where
  unfoldable pub put : Text → List ℕ → Text → s3.Bucket → Result (Unit {0}) × s3.Bucket
  put k body type b = if configured then s3.put_object k body type b else (err not_configured, b)

  unfoldable pub get : Text → s3.Bucket → Result (List ℕ)
  get k b = if configured then s3.get_object k b else err not_configured

  unfoldable pub delete : Text → s3.Bucket → Result (Unit {0}) × s3.Bucket
  delete k b = if configured then s3.delete_object k b else (err not_configured, b)

  -- The row's id, the UUID of its key and the clock are arguments.
  unfoldable pub upload :
      String → String → ℕ → String → String → UploadInput → Files s3 → Result File × Files s3
  unfolding put
  upload id uuid now tenant user input w =
      let (stored, bucket) = put (key_of tenant uuid) input.buffer input.mimetype w.bucket in
      elim stored [
        | err e ↦ (err e, record { rows = w.rows; bucket = bucket })
        | ok _ ↦ (
          ok (file_of id uuid now tenant user input),
          record {
            rows = db.create (file_of id uuid now tenant user input) w.rows;
            bucket = bucket;
          },
        )
      ]

  unfoldable pub get_owned : String → String → Files s3 → Result File
  get_owned tenant id w = elim (db.find_first (has_file_id tenant id) w.rows) [
    | none ↦ err file_not_found
    | some f ↦ ok f
  ]

  unfoldable pub download : String → String → Files s3 → Result (File × List ℕ)
  unfolding get_owned get
  download tenant id w = elim (get_owned tenant id w) [
    | err e ↦ err e
    | ok f ↦ elim (get f.key w.bucket) [
      | ok body ↦ ok (f, body)
      | err e ↦
          if is_no_such_key e then err (http 404 "File content is no longer available") else err e
    ]
  ]

  -- `delete` throws where the row is gone since.
  unfoldable pub remove :
      String → (List File → List File) → String → Files s3 → Result (Unit {0}) × Files s3
  unfolding get_owned delete
  remove tenant others id w = elim (get_owned tenant id w) [
    | err e ↦ (err e, w)
    | ok f ↦
        let (rows, deleted) = db.delete_many (has_file_id tenant f.id) (others w.rows) in
        if deleted == 0
        then (
          err (failure "PrismaClientKnownRequestError"),
          record { rows = rows; bucket = w.bucket },
        )
        else (let (removed, bucket) = delete f.key w.bucket in
            (removed, record { rows = rows; bucket = bucket }))
  ]

module _ (pages : Pages id_of_file) (contains : Text → Text → Bool) where
  abbrev pub filename_filter : String → Option Text → File → Bool
  filename_filter tenant search = scoped tenant_of_file tenant (λ f. elim search [
    | none ↦ true
    | some [] ↦ true
    | some (c ∷ s) ↦ contains f.filename (c ∷ s)
  ])

  unfoldable pub list_files : String → ListQuery → List File → Result (Page File)
  unfolding list_page
  list_files tenant q t =
      list_page id_of_file pages (codes "createdAt" ∷ codes "filename" ∷ codes "size" ∷ [])
        (record { field = codes "createdAt"; order = descending }) (filename_filter tenant q.search)
        q t
