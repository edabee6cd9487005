-- ===== src/Core/Tests/Failures.antt =====
-- The theorems on the error filter and on file names in headers at concrete inputs.
use ai_search_api.Base.{◌≡◌, refl, true, false, some}
use ai_search_api.Base.Text.{Text, codes}
use ai_search_api.Core.Errors.{
  Exception, known_request_error, HttpRequest, describe, catch_exception,
}
use ai_search_api.Core.Errors.Privacy.{anonymous, is_public_status, catch_exception_private}

abbrev get_things : HttpRequest
get_things = record { id = some (codes "r1"); url = codes "/things"; method = codes "GET" }

abbrev duplicate : Exception
duplicate = known_request_error (codes "P2002") (codes "Unique constraint failed on email")

catch_exception_private_example :
    ((catch_exception get_things false 7 duplicate).sent
      ≡ (catch_exception get_things false 7 (anonymous duplicate)).sent)
    × (is_public_status (describe duplicate).status ≡ true)
catch_exception_private_example = catch_exception_private get_things false 7 duplicate refl

abbrev quoted_header : Text
quoted_header = codes "attachment; filename=\"a_b\"; filename*=UTF-8''a%22b"
