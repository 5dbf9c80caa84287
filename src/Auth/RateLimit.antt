-- ===== src/Auth/RateLimit.antt =====
-- `LoginRateLimiter` of services/auth/app/rate_limit.py. Redis is a parameter.
pub mod Window
use inventory_management_sys.Prelude.{ℕ, leb, Option, none, some, String, Datetime, if◌then◌else◌}
use inventory_management_sys.Common.Errors.{Error, Result, ok, err}

-- The options of EXPIRE that `redis.expire(…, nx=…)` chooses from.
pub data ExpireOption : Type 0 where
  always nx : ExpireOption

-- The commands that the limiter sends, on some state of the server. `get` and `ttl` are none where
-- they raise; an exception of the others is swallowed, so that only what becomes of the state
-- counts.
pub record Redis (S : Type 0) : Type 0 where
  pub get : Datetime → String → S → Option (Option ℕ)
  pub ttl : Datetime → String → S → Option ℕ
  pub incr : Datetime → String → S → S
  pub expire : Datetime → String → ℕ → ExpireOption → S → S
  pub delete : Datetime → String → S → S

pub record LoginRateLimiter : Type 0 where
  pub max_attempts : ℕ
  pub window_seconds : ℕ

module _ {S : Type 0} (redis : Redis S) (limiter : LoginRateLimiter) (now : Datetime) where
  -- The count of an email that has one; `ttl` is called outside the `try`.
  unfoldable pub locked_out : String → S → ℕ → Result (Unit {0})
  locked_out key store count =
      if leb limiter.max_attempts count
      then elim (redis.ttl now key store) [
        | none ↦ err Error.redis_error
        | some _ ↦ err Error.rate_limited
      ]
      else ok tt

  unfoldable pub check : String → S → Result (Unit {0})
  unfolding locked_out
  check key store = elim (redis.get now key store) [
    | none ↦ ok tt
    | some none ↦ ok tt
    | some (some count) ↦ locked_out key store count
  ]

  -- The two commands of the pipeline, which runs as one transaction.
  unfoldable pub record_failure : String → S → S
  record_failure key store =
      redis.expire now key limiter.window_seconds ExpireOption.nx (redis.incr now key store)

  unfoldable pub reset : String → S → S
  reset key store = redis.delete now key store
