-- ===== src/Core/Errors/Privacy.antt =====
-- core/common/filters/all-exceptions.filter.ts: what a client and the monitoring learn of an error.
use ai_search_api.Base.{ℕ, ◌≡◌, refl, Bool, true, false, ◌||◌, [], arith, ◌==◌}
use ai_search_api.Core.Errors.{
  Exception, http_exception, known_request_error, error, other, HttpRequest, describe,
  catch_exception,
}

abbrev pub is_http : Exception → Bool
is_http (http_exception status name payload message) = true
is_http _ = false

-- The exception without its message.
abbrev pub anonymous : Exception → Exception
anonymous (http_exception status name payload message) = http_exception status name payload message
anonymous (known_request_error code message) = known_request_error code []
anonymous (error name code message) = error name code []
anonymous (other printed) = other []

-- The answers that do not come from an HttpException.
abbrev pub is_public_status : ℕ → Bool
is_public_status n = n == 400 || n == 404 || n == 409 || n == 413 || n == 500

-- The response to anything but an HttpException does not depend on the message or the value that
-- was thrown, and its status is 400, 404, 409, 413 or 500.
pub catch_exception_private :
    (request : HttpRequest) (headers_sent : Bool) (now : ℕ) (e : Exception)
    → is_http e ≡ false
    → ((catch_exception request headers_sent now e).sent
        ≡ (catch_exception request headers_sent now (anonymous e)).sent)
      × (is_public_status (describe e).status ≡ true)
unfolding catch_exception describe
catch_exception_private request headers_sent now (http_exception status name payload message) h = cc
catch_exception_private request headers_sent now (known_request_error code message) h =
    (refl, ground arith)
catch_exception_private request headers_sent now (error name code message) h = (refl, ground arith)
catch_exception_private request headers_sent now (other printed) h = (refl, refl)
