-- ===== src/Core/Telemetry/RequestId.antt =====
-- core/logger/logger.module.ts: the id of a request, in its log, its response header and its body.
use ai_search_api.Base.{
  ℕ, ◌≡◌, refl, inl, inr, Bool, true, false, Option, none, some, if◌then◌else◌, Bool-cases,
}
use ai_search_api.Base.Result.{Result, ok, err}
use ai_search_api.Base.Text.{Text}
use ai_search_api.Core.Errors.{HttpRequest, catch_exception}
use ai_search_api.Core.Interceptors.{
  Body, value, stream, nothing, wrapped, plain, envelope, Run, limit_time,
}
use ai_search_api.Core.Pipeline.{Site, Route, Response, answered, refused, answer, respond}
use ai_search_api.Core.Telemetry.{Header, gen_req_id}

-- A request with the id that the logger gave it.
abbrev pub numbered : Text → Header → Text → Text → HttpRequest
numbered uuid header url method = record {
  id = some (gen_req_id uuid header).0;
  url = url;
  method = method;
}

-- The request id in the body of a response, and whether the body is one of the handler's own.
abbrev pub reported_id : {A : Type 0} → Response A → Option (Option Text)
reported_id (answered status (wrapped a id)) = some id
reported_id (answered status (plain body)) = none
reported_id (refused caught) = elim caught.sent [
  | none ↦ none
  | some (status, body) ↦ some body.request_id
]

abbrev pub is_plain : {A : Type 0} → Response A → Bool
is_plain (answered status (wrapped a id)) = false
is_plain (answered status (plain body)) = true
is_plain (refused caught) = false

module _ {A : Type 0} (site : Site) (route : Route) (now : ℕ) (uuid : Text) (header : Header)
    (url method : Text) where
  answer-request_id :
      (r : Result (Body A))
      → reported_id (answer site route (numbered uuid header url method) now r) ≡ (
          if is_plain (answer site route (numbered uuid header url method) now r)
          then none
          else some (some (gen_req_id uuid header).1))
  unfolding envelope gen_req_id catch_exception
  answer-request_id (ok (value a)) = elim (Bool-cases route.skip_envelope) [
    | inl k ↦ rw k refl
    | inr k ↦ rw k refl
  ]
  answer-request_id (ok (stream type disposition content)) = elim (Bool-cases route.skip_envelope) [
    | inl k ↦ rw k refl
    | inr k ↦ rw k refl
  ]
  answer-request_id (ok nothing) = elim (Bool-cases route.skip_envelope) [
    | inl k ↦ rw k refl
    | inr k ↦ rw k refl
  ]
  answer-request_id (err e) = refl

  -- Whatever becomes of a request: the request id that the body of its response names, in the
  -- envelope or in an error, is the one in its `x-request-id` header; only a stream, an empty
  -- answer or a route without the envelope names none.
  pub respond-request_id :
      (run : Run (Body A))
      → reported_id (respond site route (numbered uuid header url method) now run) ≡ (
          if is_plain (respond site route (numbered uuid header url method) now run)
          then none
          else some (some (gen_req_id uuid header).1))
  unfolding respond
  respond-request_id run = answer-request_id (limit_time site.timer site.request_timeout_ms run)
