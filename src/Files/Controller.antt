-- ===== src/Files/Controller.antt =====
-- modules/files/files.controller.ts and dto/file.response.ts. A file name and an id have passed
-- multer and ParseUUIDPipe.
pub mod Rows
pub mod Isolation
use ai_search_api.Base.{
  ℕ, ◌-◌, ◌/◌, String, Bool, false, Option, none, some, List, [], ◌∷◌, map, if◌then◌else◌, any,
}
use ai_search_api.Base.Result.{Thrown, http, failure, Result, ok, err}
use ai_search_api.Base.Text.{Text, codes, includes, to_lower_case}
use ai_search_api.Base.Prisma.{Client}
use ai_search_api.Core.ContentDisposition.{attachment_disposition}
use ai_search_api.Core.Interceptors.{Body, value, stream, nothing}
use ai_search_api.Core.Pagination.{ListQuery, Page, Pages}
use ai_search_api.Core.Pipeline.{Route, Response}
use ai_search_api.Auth.Access.{AuthenticatedUser, no_tenant, in_tenant, Server, Arrival, serve}
use ai_search_api.Files.{
  File, UploadInput, ObjectStore, Files, id_of_file, key_of, put, upload, download, remove,
  list_files,
}

-- `/html|javascript|xml|svg/i`
unfoldable pub is_executable_type : Text → Bool
unfolding includes to_lower_case
is_executable_type type =
    any (includes (to_lower_case type))
      (codes "html" ∷ codes "javascript" ∷ codes "xml" ∷ codes "svg" ∷ [])

abbrev pub safe_download_type : Text → Text
safe_download_type type = if is_executable_type type then codes "application/octet-stream" else type

pub record FileResponse : Type 0 where
  pub id : String
  pub filename : Text
  pub content_type : Text
  pub size : ℕ
  pub created_at : ℕ

abbrev pub from : File → FileResponse
from file = record {
  id = file.id;
  filename = file.filename;
  content_type = file.content_type;
  size = file.size;
  created_at = file.created_at;
}

pub data FilesCall : Type 0 where
  upload_call : Option UploadInput → FilesCall
  list_call : ListQuery → FilesCall
  download_call remove_call : String → FilesCall

pub data FilesReply : Type 0 where
  one_file : FileResponse → FilesReply
  page_of_files : Page FileResponse → FilesReply

abbrev pub route : FilesCall → Route
route (upload_call input) = record { status = 201; skip_envelope = false }
route (list_call q) = record { status = 200; skip_envelope = false }
route (download_call id) = record { status = 200; skip_envelope = false }
route (remove_call id) = record { status = 204; skip_envelope = false }

-- The id and the key's UUID of a new file, and the clock.
pub record Draw : Type 0 where
  pub id : String
  pub uuid : String
  pub now : ℕ

abbrev pub file_required : Thrown
file_required = http 400 "A file is required"

abbrev pub uploaded : Result File → Result (Body FilesReply)
uploaded (err e) = err e
uploaded (ok file) = ok (value (one_file (from file)))

abbrev pub listed : Result (Page File) → Result (Body FilesReply)
listed (err e) = err e
listed (ok page) =
    ok (
      value
        (page_of_files (record { items = map from page.items; next_cursor = page.next_cursor })))

-- `encodeURIComponent` throws a URIError.
abbrev pub disposed : File → List ℕ → Option Text → Result (Body FilesReply)
disposed file content none = err (failure "URIError")
disposed file content (some disposition) =
    ok (stream (safe_download_type file.content_type) disposition content)

abbrev pub streamed : Result (File × List ℕ) → Result (Body FilesReply)
streamed (err e) = err e
streamed (ok (file, content)) = disposed file content (attachment_disposition file.filename)

abbrev pub removed : Result (Unit {0}) → Result (Body FilesReply)
removed (err e) = err e
removed (ok _) = ok nothing

-- The row is not written without a tenant.
abbrev pub unbound : Result (Unit {0}) → Result File
unbound (err e) = err e
unbound (ok _) = err no_tenant

module _ (db : Client) (s3 : ObjectStore) (configured : Bool) (pages : Pages id_of_file)
    (contains : Text → Text → Bool) (draw : Draw) where
  -- The object is stored before the row is written, which needs the context.
  abbrev pub upload_in :
      Option String → AuthenticatedUser → UploadInput → Files s3 → Result File × Files s3
  upload_in none user input w =
      let (stored, bucket) =
        put db s3 configured (key_of user.tenant_id draw.uuid) input.buffer input.mimetype
          w.bucket in
      (unbound stored, record w { bucket = bucket })
  upload_in (some tenant) user input w =
      upload db s3 configured draw.id draw.uuid draw.now user.tenant_id user.user_id input w

  unfoldable pub handle_files :
      FilesCall → AuthenticatedUser → Option String → Files s3 → Result (Body FilesReply) × Files s3
  unfolding upload download remove list_files
  handle_files (upload_call none) user tenant w = (err file_required, w)
  handle_files (upload_call (some input)) user tenant w =
      let (r, w') = upload_in tenant user input w in (uploaded r, w')
  handle_files (list_call q) user tenant w =
      in_tenant tenant (λ t w. (listed (list_files pages contains t q w.rows), w)) w
  handle_files (download_call id) user tenant w =
      in_tenant tenant (λ t w. (streamed (download db s3 configured t id w), w)) w
  handle_files (remove_call id) user tenant w =
      in_tenant tenant
        (λ t w. let (r, w') = remove db s3 configured t (λ rows. rows) id w in (removed r, w')) w

  unfoldable pub serve_files :
      (server : Server) → Arrival server → FilesCall → Files s3 → Response FilesReply × Files s3
  unfolding serve handle_files
  serve_files server arrival call = serve server arrival (route call) (handle_files call)
