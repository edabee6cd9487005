-- ===== src/Core/Jobs.antt =====
-- core/jobs/jobs.service.ts: the one place that talks to pg-boss. What pg-boss was asked to do is
-- recorded in order; whether a send succeeds is an argument.
pub mod Lifecycle
pub mod Startup
use ai_search_api.Base.{ℕ, Option, none, some, List, [], ◌∷◌, ◌++◌}
use ai_search_api.Base.Text.{Text}
use ai_search_api.Base.Result.{Thrown, Result, ok, err}

-- A job that was sent. `A` is the type of its data.
pub record Job (A : Type 0) : Type 0 where
  pub queue : Text
  pub payload : A
  pub retry_limit : ℕ
  pub expire_in_seconds : ℕ

pub record EnqueueOptions : Type 0 where
  pub retry_limit : Option ℕ
  pub expire_in_seconds : Option ℕ

abbrev or_default : Option ℕ → ℕ → ℕ
or_default none d = d
or_default (some n) d = n

abbrev pub job_of : {A : Type 0} → Text → A → EnqueueOptions → Job A
job_of queue payload options = record {
  queue = queue;
  payload = payload;
  retry_limit = or_default options.retry_limit 2;
  expire_in_seconds = or_default options.expire_in_seconds 120;
}

-- `boss.send`, which throws `failed` where there is one.
unfoldable pub enqueue :
    {A : Type 0}
    → Option Thrown
    → Text
    → A
    → EnqueueOptions
    → List (Job A)
    → Result (Unit {0}) × List (Job A)
enqueue none queue payload options jobs = (ok tt, jobs ++ job_of queue payload options ∷ [])
enqueue (some e) queue payload options jobs = (err e, jobs)
