-- ===== src/Files/Controller/Isolation.antt =====
-- modules/files: what the tenants see of one another through the routes of the controller.
use ai_search_api.Base.{String, ◌≡◌, ap, Bool, true, false, none, some, List}
use ai_search_api.Base.Result.{ok}
use ai_search_api.Base.Text.{Text}
use ai_search_api.Base.Prisma.{Client}
use ai_search_api.Core.Interceptors.{is_truthy}
use ai_search_api.Core.Pagination.{ListQuery, Pages, names_one_of}
use ai_search_api.Core.Interceptors.{ends, is_truthy}
use ai_search_api.Core.Pipeline.{respond}
use ai_search_api.Core.TenantRows.{list_page-own, others}
use ai_search_api.Auth.Access.{AuthenticatedUser, authenticate, serve-signed_in, Server, Arrival}
use ai_search_api.Files.{File, ObjectStore, Files, id_of_file, tenant_of_file, list_files}
use ai_search_api.Files.Controller.{
  FilesCall, route, upload_call, list_call, download_call, remove_call, uploaded, removed, Draw,
  handle_files, serve_files,
}
use ai_search_api.Files.Controller.Rows.{
  rows_of, alone, Apart, untouched, download-alone, upload-Apart, remove-Apart,
}

-- A list whose cursor is the id of a file of another tenant.
abbrev pub has_foreign_cursor : FilesCall → String → List File → Bool
has_foreign_cursor (list_call q) tenant rows =
    names_one_of id_of_file q.cursor (others tenant_of_file tenant rows)
has_foreign_cursor (upload_call input) tenant rows = false
has_foreign_cursor (download_call id) tenant rows = false
has_foreign_cursor (remove_call id) tenant rows = false

module _ (db : Client) (s3 : ObjectStore) (configured : Bool) (pages : Pages id_of_file)
    (contains : Text → Text → Bool) (draw : Draw) where
  list_files-alone :
      (tenant : String) (q : ListQuery) (rows : List File)
      → names_one_of id_of_file q.cursor (others tenant_of_file tenant rows) ≡ false
      → list_files pages contains tenant q rows
        ≡ list_files pages contains tenant q (rows_of s3 tenant rows)
  unfolding list_files
  list_files-alone tenant q rows apart =
      list_page-own tenant_of_file tenant id_of_file pages _ _ _ q rows apart

  -- One call of a route of the files controller by a user of a tenant, in the context of that
  -- tenant, is answered as it is where the rows of other tenants are not in the table; its effect
  -- on the bucket and on the rows of the tenant is the same as there, and it leaves the rows of
  -- other tenants as they are.
  handle_files-Apart :
      (call : FilesCall) (user : AuthenticatedUser) (w : Files s3)
      → has_foreign_cursor call user.tenant_id w.rows ≡ false
      → Apart s3 user.tenant_id w
          (handle_files db s3 configured pages contains draw call user (some user.tenant_id) w)
          (handle_files db s3 configured pages contains draw call user
            (some user.tenant_id)
            (alone s3 user.tenant_id w))
  unfolding handle_files
  handle_files-Apart (upload_call none) user w apart = untouched db s3 configured user.tenant_id w _
  handle_files-Apart (upload_call (some input)) user w apart =
      let a =
        upload-Apart db s3 configured user.tenant_id draw.id draw.uuid draw.now user.user_id input
          w in
      record {
        same = ap uploaded a.same;
        own_rows = a.own_rows;
        bucket = a.bucket;
        other_rows = a.other_rows;
      }
  handle_files-Apart (list_call q) user w apart =
      rw (list_files-alone user.tenant_id q w.rows apart)
        (untouched db s3 configured user.tenant_id w _)
  handle_files-Apart (download_call id) user w apart =
      rw (download-alone db s3 configured user.tenant_id id w)
        (untouched db s3 configured user.tenant_id w _)
  handle_files-Apart (remove_call id) user w apart =
      let a = remove-Apart db s3 configured user.tenant_id id w in
      record {
        same = ap removed a.same;
        own_rows = a.own_rows;
        bucket = a.bucket;
        other_rows = a.other_rows;
      }

  -- A whole request, unless it is a list whose cursor is the id of a file of another tenant: what a
  -- signed-in user of a tenant gets from the files routes, and what it does to the tenant's files
  -- and to the bucket, is the same where the table has no files of other tenants, and the files of
  -- other tenants are left as they are.
  pub serve_files-Apart :
      (server : Server) (arrival : Arrival server) (call : FilesCall) (user : AuthenticatedUser)
      (w : Files s3)
      → authenticate server.verify_bearer arrival.authorization ≡ ok user
      → is_truthy user.tenant_id ≡ true
      → has_foreign_cursor call user.tenant_id w.rows ≡ false
      → Apart s3 user.tenant_id w
          (serve_files db s3 configured pages contains draw server arrival call w)
          (serve_files db s3 configured pages contains draw server arrival call
            (alone s3 user.tenant_id w))
  unfolding serve_files
  serve_files-Apart server arrival call user w signed_in bound apart =
      let a = handle_files-Apart call user w apart in
      let handler = handle_files db s3 configured pages contains draw call in
      rw
        (
          serve-signed_in server arrival (route call) handler w user signed_in bound,
          serve-signed_in server arrival (route call) handler (alone s3 user.tenant_id w) user
              signed_in bound,
        )
        (record {
          same =
              ap
                (λ r.
                  respond server.site (route call) arrival.request arrival.now
                    (ends arrival.took r))
                a.same;
          own_rows = a.own_rows;
          bucket = a.bucket;
          other_rows = a.other_rows;
        })
