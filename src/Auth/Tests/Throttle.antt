-- ===== src/Auth/Tests/Throttle.antt =====
-- The login throttle of services/auth/app/rate_limit.py over a Redis of one key: three failures in
-- a window of 900 seconds.
use inventory_management_sys.Prelude.{
  ℕ, ◌≡◌, refl, ◌&&◌, ltb, leb, [], ◌∷◌, Option, none, some, Datetime, if◌then◌else◌, arith,
}
use inventory_management_sys.Common.Errors.{Error, ok, err}
use inventory_management_sys.Auth.RateLimit.{Redis, LoginRateLimiter, check}
use inventory_management_sys.Auth.RateLimit.Window.{
  live, counted_on, set_expiry, IsRedis, record_all, check_window,
}

abbrev one_key : Redis (Option (ℕ × Option Datetime))
one_key = record {
  get = λ now key s. some (live now s);
  ttl = λ now key s. some 0;
  incr = λ now key s. some (counted_on now s);
  expire = λ now key window option s. set_expiry now window option s;
  delete = λ now key s. none;
}

one_key-IsRedis : IsRedis one_key (λ key s. s)
one_key-IsRedis = record {
  get_lem = λ now key s. refl;
  ttl_lem = λ now key s. (0, refl);
  incr_lem = λ now key s. refl;
  expire_lem = λ now key window option s. refl;
  delete_lem = λ now key s. refl;
}

abbrev limiter : LoginRateLimiter
limiter = record { max_attempts = 3; window_seconds = 900 }

check_window_example :
    check one_key limiter 700 "login:attempts:a@x.in"
      (record_all one_key limiter "login:attempts:a@x.in" (100 ∷ 200 ∷ 300 ∷ []) none)
    ≡ (if leb 3 3 && ltb 700 1000 then err Error.rate_limited else ok tt)
check_window_example =
    check_window one_key limiter "login:attempts:a@x.in" (λ key s. s) one_key-IsRedis 100 700
      (200 ∷ 300 ∷ []) none refl (omega arith, (omega arith, tt))
