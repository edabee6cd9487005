-- ===== src/Files/Tests.antt =====
-- The theorems on files at concrete inputs: a bucket that is the list of its objects.
mod Routes
use ai_search_api.Base.{ℕ, ◌≡◌, refl, ◌≢◌, true, List, [], ◌∷◌, arith, if◌then◌else◌}
use ai_search_api.Base.Result.{failure, Result, ok, err}
use ai_search_api.Base.Text.{codes, Text, text_eq, text_eq_sound, text_eq_refl}
use ai_search_api.Core.Tenancy.{scoped}
use ai_search_api.Base.Prisma.{list_client}
use ai_search_api.Files.{
  UploadInput, ObjectStore, Files, upload, download, file_of, file_not_found, get_owned,
}
use ai_search_api.Files.Contents.{download-upload}

abbrev Objects : Type 0
Objects = List (Text × List ℕ)

abbrev object_at : Text → Objects → Result (List ℕ)
object_at k [] = err (failure "NoSuchKey")
object_at k ((j, body) ∷ b) = if text_eq j k then ok body else object_at k b

abbrev without : Text → Objects → Objects
without k [] = []
without k ((j, body) ∷ b) = let rest = without k b in if text_eq j k then rest else (j, body) ∷ rest

object_at-without : (k j : Text) (b : Objects) → k ≢ j → object_at j (without k b) ≡ object_at j b
object_at-without k j [] apart = refl
object_at-without k j ((i, body) ∷ b) apart =
    ground (arith, text_eq_sound i k, text_eq_sound i j, object_at-without k j b)

object_at-other :
    (k j : Text) (body : List ℕ) (type : Text) (b : Objects)
    → k ≢ j
    → object_at j ((k, body) ∷ b) ≡ object_at j b
object_at-other k j body type b apart = ground (arith, text_eq_sound k j)

abbrev small_store : ObjectStore
small_store = record {
  Bucket = Objects;
  put_object = λ k body type b. (ok tt, (k, body) ∷ b);
  get_object = object_at;
  delete_object = λ k b. (ok tt, without k b);
  get-put = λ k body type b h. rw (text_eq_refl k) refl;
  get-put_other = object_at-other;
  get-delete_other = object_at-without;
}

abbrev empty : Files small_store
empty = record { rows = []; bucket = [] }

abbrev report : UploadInput
report = record {
  originalname = codes "a.txt";
  mimetype = codes "text/plain";
  size = 2;
  buffer = 7 ∷ 8 ∷ [];
}

download-upload_example :
    (download list_client small_store true "t1" "f1"
        (upload list_client small_store true "f1" "x" 5 "t1" "u1" report empty).1
      ≡ ok (file_of "f1" "x" 5 "t1" "u1" report, 7 ∷ 8 ∷ []))
    × (download list_client small_store true "t2" "f1"
          (upload list_client small_store true "f1" "x" 5 "t1" "u1" report empty).1
        ≡ err file_not_found)
download-upload_example =
    download-upload list_client small_store "f1" "x" 5 "t1" "u1" "t2" report empty refl refl refl

abbrev stored : Files small_store
stored = record {
  rows = file_of "f1" "x" 5 "t1" "u1" report ∷ file_of "f2" "y" 6 "t1" "u1" report ∷ [];
  bucket = (codes "t1/x", 7 ∷ []) ∷ (codes "t1/y", 8 ∷ []) ∷ [];
}

owned :
    get_owned list_client small_store true "t1" "f1" stored
    ≡ ok (file_of "f1" "x" 5 "t1" "u1" report)
unfolding get_owned scoped
owned = refl
