-- ===== src/Auth/Sample.antt =====
-- A server for the tests of the routes: the token of a request is the name of its tenant.
use ai_search_api.Base.{ℕ, ◌<◌, String, ◌≡◌, refl, Option, none, some, arith, ltb, if◌then◌else◌}
use ai_search_api.Base.Result.{Result}
use ai_search_api.Base.Text.{Text, codes, text_eq}
use ai_search_api.Core.Interceptors.{
  Run, ends, never, Timed, timeout_error, on_time, Timer, AsyncStorage,
}
use ai_search_api.Core.Pipeline.{Site}
use ai_search_api.Auth.State.{JwtPayload}
use ai_search_api.Auth.Access.{Server, Arrival}

abbrev limited : {A : Type 0} → ℕ → Run A → Timed A
limited ms never = timeout_error
limited ms (ends t r) = if ltb ms t then timeout_error else on_time r

pub limited_late :
    {A : Type 0} (ms t : ℕ) (r : Result A) → ms < t → limited ms (ends t r) ≡ timeout_error
limited_late ms t r h = ground arith

pub limited_early :
    {A : Type 0} (ms t : ℕ) (r : Result A) → t < ms → limited ms (ends t r) ≡ on_time r
limited_early ms t r h = ground arith

abbrev pub small_timer : Timer
small_timer = record {
  timeout = limited;
  timeout_never = λ ms. refl;
  timeout_late = limited_late;
  timeout_early = limited_early;
}

abbrev pub small_storage : AsyncStorage
small_storage = record {
  Execution = Option String;
  enter_with = λ t e. some t;
  get_store = λ e. e;
  run = λ t f e. f (some t);
  get-enter = λ t e. refl;
  run_lem = λ t f e. refl;
}

abbrev pub small_site : Site
small_site = record {
  timer = small_timer;
  request_timeout_ms = 30000;
  class_name = λ n. codes "HttpException";
  label = λ n. codes "Error";
}

abbrev claims : Option Text → Option JwtPayload
claims none = none
claims (some t) =
    if text_eq t (codes "t1")
    then some (record { sub = "u1"; tenant_id = "t1"; email = codes "ann@acme.test" })
    else if text_eq t (codes "t2")
    then some (record { sub = "u2"; tenant_id = "t2"; email = codes "bob@acme.test" })
    else none

abbrev pub small_server : Server
small_server = record { site = small_site; verify_bearer = claims; storage = small_storage }

abbrev pub arrival_of : Text → Arrival small_server
arrival_of token = record {
  request = record { id = some (codes "r1"); url = codes "/v1"; method = codes "GET" };
  authorization = some token;
  now = 10;
  took = 3;
  execution = none;
}
