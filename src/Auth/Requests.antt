-- ===== src/Auth/Requests.antt =====
-- `get_session` of services/auth/app/dependencies.py, and the database over a sequence of requests.
pub mod Tokens
pub mod Sessions
use inventory_management_sys.Prelude.{◌≡◌, Bool, Option, String, Uuid}
use inventory_management_sys.Common.Errors.{Error, Result, ok, err}
use inventory_management_sys.Auth.Models.{User, Role, AuthDb}
use inventory_management_sys.Auth.Jwt.{Libraries}
use inventory_management_sys.Auth.RateLimit.{Redis, LoginRateLimiter}
use inventory_management_sys.Auth.Service.{
  Settings, Outside, TokenResponse, register, login, refresh, logout, change_role, set_active,
}

-- `get_session`: commit the session's state, or roll it back where the request raised.
unfoldable pub get_session {ℓ κ} : {A : Type ℓ} {S : Type κ} → (S → Result A × S) → S → Result A × S
get_session request s =
    let done = request s in elim done.0 [ ok a ↦ (ok a, done.1) | err e ↦ (err e, s) ]

-- A request of `login` as the session sees it; what it does to Redis is not rolled back.
unfoldable pub session_login :
    {S : Type 0}
    → Libraries
    → Settings
    → Outside
    → Redis S
    → Option LoginRateLimiter
    → String
    → String
    → S
    → AuthDb
    → Result (User × TokenResponse) × AuthDb
session_login lib settings o redis limiter email password s db =
    let done = login lib settings o redis limiter email password db s in (done.0, done.1)

-- The settings and the libraries of the process.
module _ {S : Type 0} (lib : Libraries) (settings : Settings) (redis : Redis S)
    (limiter : Option LoginRateLimiter) where
  -- A request, which may fail.
  pub data Request (s t : AuthDb) : Type 0 where
    registers :
        (o : Outside) (email password full_name : String)
        → t ≡ (get_session (register lib settings o email password full_name) s).1
        → Request s t
    logs_in :
        (o : Outside) (email password : String) (server : S)
        → t ≡ (get_session (session_login lib settings o redis limiter email password server) s).1
        → Request s t
    refreshes :
        (o : Outside) (token : String)
        → t ≡ (get_session (refresh lib settings o token) s).1
        → Request s t
    logs_out :
        (o : Outside) (token : String)
        → t ≡ (get_session (logout lib settings o token) s).1
        → Request s t
    changes_role :
        (actor_id target_id : Uuid) (role : Role)
        → t ≡ (get_session (change_role actor_id target_id role) s).1
        → Request s t
    sets_active :
        (o : Outside) (actor_id target_id : Uuid) (is_active : Bool)
        → t ≡ (get_session (set_active o.now actor_id target_id is_active) s).1
        → Request s t

  -- A sequence of requests.
  pub data Requests (s : AuthDb) : AuthDb → Type 0 where
    none_yet : Requests s s
    then_one : {t u : AuthDb} → Requests s t → Request t u → Requests s u
