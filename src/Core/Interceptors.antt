-- ===== src/Core/Interceptors.antt =====
-- core/common/interceptors and core/tenancy: what surrounds a handler.
use ai_search_api.Base.{
  ℕ, ◌<◌, String, ◌≡◌, Bool, true, false, not, Option, none, some, List, str_eq, if◌then◌else◌,
}
use ai_search_api.Base.Result.{Thrown, http, Result, err}
use ai_search_api.Base.Text.{Text}

-- What a handler returns: a value, a StreamableFile with its type, its disposition and what it
-- streams, or undefined.
pub data Body (A : Type 0) : Type 0 where
  value : A → Body A
  stream : Text → Text → List ℕ → Body A
  nothing : Body A

-- `{ data, requestId }`, or what the handler returned.
pub data Enveloped (A : Type 0) : Type 0 where
  wrapped : A → Option Text → Enveloped A
  plain : Body A → Enveloped A

-- ResponseEnvelopeInterceptor; `skip` is the route's @SkipResponseEnvelope.
unfoldable pub envelope : {A : Type 0} → Bool → Option Text → Body A → Enveloped A
envelope true request_id body = plain body
envelope false request_id (value a) = wrapped a request_id
envelope false request_id (stream type disposition content) =
    plain (stream type disposition content)
envelope false request_id nothing = plain nothing

-- A handler that ends at a time after its start, or never does.
pub data Run (A : Type 0) : Type 0 where
  ends : ℕ → Result A → Run A
  never : Run A

-- What leaves rxjs's `timeout`: a TimeoutError, or what the handler did.
pub data Timed (A : Type 0) : Type 0 where
  timeout_error : Timed A
  on_time : Result A → Timed A

-- The operator is a parameter; what happens at the very time limit is left open.
pub record Timer : Type 1 where
  pub timeout : {A : Type 0} → ℕ → Run A → Timed A
  pub timeout_never : {A : Type 0} (ms : ℕ) → timeout {A = A} ms never ≡ timeout_error
  pub timeout_late :
      {A : Type 0} (ms t : ℕ) (r : Result A) → ms < t → timeout ms (ends t r) ≡ timeout_error
  pub timeout_early :
      {A : Type 0} (ms t : ℕ) (r : Result A) → t < ms → timeout ms (ends t r) ≡ on_time r

abbrev pub request_timeout : Thrown
request_timeout = http 408 "Request Timeout"

-- `catchError`
abbrev pub catch_timeout : {A : Type 0} → Timed A → Result A
catch_timeout timeout_error = err request_timeout
catch_timeout (on_time r) = r

-- TimeoutInterceptor
unfoldable pub limit_time : {A : Type 0} → Timer → ℕ → Run A → Result A
limit_time timer ms run = catch_timeout (timer.timeout ms run)

-- Node's AsyncLocalStorage, as `TenantContext` uses it: the stores of the running execution are a
-- parameter. `run` gives its function the store, and the outer one is back after it.
pub record AsyncStorage : Type 1 where
  pub Execution : Type 0
  pub enter_with : String → Execution → Execution
  pub get_store : Execution → Option String
  pub run : {A : Type 0} → String → (Execution → A) → Execution → A
  pub get-enter : (t : String) (e : Execution) → get_store (enter_with t e) ≡ some t
  pub run_lem :
      {A : Type 0} (t : String) (f : Execution → A) (e : Execution) → run t f e ≡ f (enter_with t e)

-- core/tenancy/tenant-context.ts. `run` is the source's way to act for a tenant outside a request.
module _ (storage : AsyncStorage) where
  unfoldable pub enter_tenant : String → storage.Execution → storage.Execution
  enter_tenant = storage.enter_with

  unfoldable pub run_in_tenant :
      {A : Type 0} → String → (storage.Execution → A) → storage.Execution → A
  run_in_tenant = storage.run

  unfoldable pub get_tenant_id : storage.Execution → Option String
  get_tenant_id = storage.get_store

-- `if (tenantId)`
abbrev pub is_truthy : String → Bool
is_truthy t = not (str_eq t "")

-- TenantContextInterceptor; the argument is `request.user?.tenantId`.
unfoldable pub bind_tenant :
    (storage : AsyncStorage) → Option String → storage.Execution → storage.Execution
unfolding enter_tenant
bind_tenant storage none e = e
bind_tenant storage (some t) e = if is_truthy t then enter_tenant storage t e else e
