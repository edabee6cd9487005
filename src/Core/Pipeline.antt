-- ===== src/Core/Pipeline.antt =====
-- The way of a request through app.module.ts: after the guards of the route, the interceptors for
-- the tenant, the time limit and the envelope around the handler, and the filter for what is
-- thrown.
use ai_search_api.Base.{ℕ, Bool, false, none, some, str_eq, if◌then◌else◌}
use ai_search_api.Base.Result.{Thrown, http, failure, Result, ok, err}
use ai_search_api.Base.Text.{Text, codes}
use ai_search_api.Core.Errors.{
  line, object, Exception, http_exception, known_request_error, error, HttpRequest, Caught,
  catch_exception,
}
use ai_search_api.Core.Interceptors.{Body, Enveloped, envelope, Run, Timer, limit_time}

-- What the pipeline is built from: the timer and REQUEST_TIMEOUT_MS, and for a status the class
-- name and the label that Nest gives an HttpException.
pub record Site : Type 1 where
  pub timer : Timer
  pub request_timeout_ms : ℕ
  pub class_name : ℕ → Text
  pub label : ℕ → Text

-- The known request errors that the services can meet are the write to a row that is gone, and that
-- of an email that is taken.
abbrev pub exception_of : Site → Thrown → Exception
exception_of site (http status message) =
    http_exception status (site.class_name status)
      (object (some (line (codes message))) (some (site.label status))) (codes message)
exception_of site (failure name) =
    if str_eq name "PrismaClientKnownRequestError"
    then known_request_error (codes "P2025") (codes name)
    else if str_eq name "Unique constraint failed"
    then known_request_error (codes "P2002") (codes name)
    else error (codes name) none (codes name)

pub data Response (A : Type 0) : Type 0 where
  answered : ℕ → Enveloped A → Response A
  refused : Caught → Response A

-- A route: its status for a success, and whether it skips the envelope.
pub record Route : Type 0 where
  pub status : ℕ
  pub skip_envelope : Bool

abbrev pub answer : {A : Type 0} → Site → Route → HttpRequest → ℕ → Result (Body A) → Response A
answer site route request now (ok body) =
    answered route.status (envelope route.skip_envelope request.id body)
answer site route request now (err e) =
    refused (catch_exception request false now (exception_of site e))

unfoldable pub respond : {A : Type 0} → Site → Route → HttpRequest → ℕ → Run (Body A) → Response A
unfolding limit_time
respond site route request now run =
    answer site route request now (limit_time site.timer site.request_timeout_ms run)
