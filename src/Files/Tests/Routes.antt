-- ===== src/Files/Tests/Routes.antt =====
-- The theorem on the files routes at a concrete server with the files of two tenants.
use ai_search_api.Base.{◌≡◌, refl, true, false, none, some, [], ◌∷◌}
use ai_search_api.Base.Text.{codes}
use ai_search_api.Base.Result.{ok}
use ai_search_api.Base.Prisma.{list_client}
use ai_search_api.Core.Pagination.Sample.{plain_pages}
use ai_search_api.Auth.Access.{AuthenticatedUser, authenticate}
use ai_search_api.Auth.Sample.{small_server, arrival_of}
use ai_search_api.Files.{Files, id_of_file, file_of}
use ai_search_api.Files.Controller.{FilesCall, list_call, Draw, serve_files}
use ai_search_api.Files.Controller.Rows.{alone, Apart}
use ai_search_api.Files.Controller.Isolation.{serve_files-Apart}
use ai_search_api.Files.Tests.{small_store, report}

abbrev shared : Files small_store
shared = record {
  rows = file_of "f1" "x" 5 "t1" "u1" report ∷ file_of "f2" "y" 6 "t2" "u2" report ∷ [];
  bucket = (codes "t1/x", 7 ∷ []) ∷ (codes "t2/y", 8 ∷ []) ∷ [];
}

abbrev draw : Draw
draw = record { id = "f3"; uuid = "z"; now = 9 }

abbrev bob : AuthenticatedUser
bob = record { user_id = "u2"; tenant_id = "t2"; email = codes "bob@acme.test" }

signed_in : authenticate small_server.verify_bearer (some (codes "t2")) ≡ ok bob
unfolding authenticate
signed_in = refl

-- The page after a file of his own.
abbrev after_own : FilesCall
after_own = list_call (record { limit = 1; cursor = some "f2"; sort = none; search = none })

serve_files-Apart_example :
    Apart small_store "t2" shared
      (serve_files list_client small_store true
        (plain_pages id_of_file)
        (λ s t. false)
        draw
        small_server
        (arrival_of (codes "t2"))
        after_own
        shared)
      (serve_files list_client small_store true
        (plain_pages id_of_file)
        (λ s t. false)
        draw
        small_server
        (arrival_of (codes "t2"))
        after_own
        (alone small_store "t2" shared))
serve_files-Apart_example =
    serve_files-Apart list_client small_store true (plain_pages id_of_file) (λ s t. false) draw
      small_server (arrival_of (codes "t2")) after_own bob shared signed_in refl refl
