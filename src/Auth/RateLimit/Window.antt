-- ===== src/Auth/RateLimit/Window.antt =====
-- How long services/auth/app/rate_limit.py locks an email out, over what Redis documents of its
-- commands.
use inventory_management_sys.Prelude.{
  ℕ, suc, ◌+◌, ◌<◌, ◌≡◌, ap, ◌∙◌, inl, inr, ◌&&◌, ltb, leb, lt→ltb, List, [], ◌∷◌, length, All,
  Option, none, some, String, Datetime, if◌then◌else◌, arith, Bool-cases,
}
use inventory_management_sys.Common.Errors.{Error, ok, err}
use inventory_management_sys.Auth.RateLimit.{
  Redis, ExpireOption, LoginRateLimiter, locked_out, check, record_failure,
}

-- The value of a key, with the time at which it expires where it has one: what GET answers.
abbrev pub live : Datetime → Option (ℕ × Option Datetime) → Option ℕ
live now none = none
live now (some (n, none)) = some n
live now (some (n, some expires_at)) = if ltb now expires_at then some n else none

-- INCR: a key that is there counts on and keeps its expiry, any other starts at 1 without one.
abbrev pub counted_on : Datetime → Option (ℕ × Option Datetime) → ℕ × Option Datetime
counted_on now none = (1, none)
counted_on now (some (n, none)) = (suc n, none)
counted_on now (some (n, some expires_at)) =
    if ltb now expires_at then (suc n, some expires_at) else (1, none)

-- EXPIRE: a key that is there gets a new expiry; with NX only where it has none.
abbrev pub set_expiry :
    Datetime → ℕ → ExpireOption → Option (ℕ × Option Datetime) → Option (ℕ × Option Datetime)
set_expiry now window option none = none
set_expiry now window option (some (n, none)) = some (n, some (now + window))
set_expiry now window ExpireOption.nx (some (n, some expires_at)) = some (n, some expires_at)
set_expiry now window ExpireOption.always (some (n, some expires_at)) =
    if ltb now expires_at then some (n, some (now + window)) else some (n, some expires_at)

-- The commands of a Redis that is up, where `entry` is what a key holds.
pub record IsRedis {S : Type 0} (redis : Redis S)
    (entry : String → S → Option (ℕ × Option Datetime)) : Type 0 where
  pub get_lem :
      (now : Datetime) (key : String) (s : S) → redis.get now key s ≡ some (live now (entry key s))
  pub ttl_lem :
      (now : Datetime) (key : String) (s : S) → (left : ℕ) × (redis.ttl now key s ≡ some left)
  pub incr_lem :
      (now : Datetime) (key : String) (s : S)
      → entry key (redis.incr now key s) ≡ some (counted_on now (entry key s))
  pub expire_lem :
      (now : Datetime) (key : String) (window : ℕ) (option : ExpireOption) (s : S)
      → entry key (redis.expire now key window option s)
        ≡ set_expiry now window option (entry key s)
  pub delete_lem :
      (now : Datetime) (key : String) (s : S) → entry key (redis.delete now key s) ≡ none

module _ {S : Type 0} (redis : Redis S) (limiter : LoginRateLimiter) (key : String) where
  -- The failures at these times, one after another.
  unfoldable pub record_all : List Datetime → S → S
  record_all [] s = s
  record_all (t ∷ ts) s = record_all ts (record_failure redis limiter t key s)

  module _ (entry : String → S → Option (ℕ × Option Datetime))
      (documented : IsRedis redis entry) where
    -- A failure within the window counts on and leaves the window as it is.
    record_failure-entry :
        (t : Datetime) (n until : ℕ) (s : S)
        → entry key s ≡ some (n, some until)
        → t < until
        → entry key (record_failure redis limiter t key s) ≡ some (suc n, some until)
    unfolding record_failure
    record_failure-entry t n until s e within =
        let counted : entry key (redis.incr t key s) ≡ some (suc n, some until) =
          ground (arith, documented.incr_lem t key s, e, lt→ltb t until within) in
        ground (
          arith,
          documented.expire_lem t key limiter.window_seconds ExpireOption.nx (redis.incr t key s),
          counted,
        )

    -- The first failure opens a window.
    record_failure-opens :
        (t : Datetime) (s : S)
        → entry key s ≡ none
        → entry key (record_failure redis limiter t key s)
          ≡ some (1, some (t + limiter.window_seconds))
    unfolding record_failure
    record_failure-opens t s e =
        let counted : entry key (redis.incr t key s) ≡ some (1, none) =
          ground (arith, documented.incr_lem t key s, e) in
        ground (
          arith,
          documented.expire_lem t key limiter.window_seconds ExpireOption.nx (redis.incr t key s),
          counted,
        )

    record_all-entry :
        (ts : List Datetime) (n until : ℕ) (s : S)
        → entry key s ≡ some (n, some until)
        → All (λ t. t < until) ts
        → entry key (record_all ts s) ≡ some (n + length ts, some until)
    unfolding record_all
    record_all-entry [] n until s e within =
        let count : n ≡ n + 0 = omega arith in e ∙ ap (λ c. some (c, some until)) count
    record_all-entry (t ∷ ts) n until s e within =
        let here = record_failure-entry t n until s e within.0 in
        let count : suc n + length ts ≡ n + suc (length ts) = omega arith in
        record_all-entry ts (suc n) until _ here within.1 ∙ ap (λ c. some (c, some until)) count

    -- Over a Redis that does what it documents, after a first failed login of an email without a
    -- counter and further failures within the window that it opens, a login is refused as rate
    -- limited exactly if the failures have reached the maximum and the window is not over: later
    -- failures do not extend it.
    pub check_window :
        (first now : Datetime) (ts : List Datetime) (s : S)
        → entry key s ≡ none
        → All (λ t. t < first + limiter.window_seconds) ts
        → check redis limiter now key (record_all (first ∷ ts) s) ≡ (
            if leb limiter.max_attempts (suc (length ts))
              && ltb now (first + limiter.window_seconds)
            then err Error.rate_limited
            else ok tt)
    unfolding record_all check locked_out
    check_window first now ts s e within =
        let until = first + limiter.window_seconds in
        let opened = record_failure-opens first s e in
        let after = record_all ts (record_failure redis limiter first key s) in
        let all : entry key after ≡ some (1 + length ts, some until) =
          record_all-entry ts 1 until _ opened within in
        let (left, ttl) = documented.ttl_lem now key after in
        elim (Bool-cases (ltb now until)) [
          | inl open_ ↦ ground (arith, documented.get_lem now key after, all, ttl, open_)
          | inr over ↦ ground (arith, documented.get_lem now key after, all, ttl, over)
        ]
