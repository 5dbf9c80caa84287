-- ===== src/Auth/Tests.antt =====
-- The auth service of services/auth/app with one user, whose refresh token is used, revoked and
-- used again. The libraries are stood in for by simple functions.
mod Throttle
use inventory_management_sys.Prelude.{
  ℕ, ◌≡◌, refl, true, false, [], ◌∷◌, none, some, lookup, insert, Uuid, ◌==◌, if◌then◌else◌,
}
use text.Mathlib.Text.{◌==◌ as str_eq}
use inventory_management_sys.Common.Errors.{Error, ok, err}
use inventory_management_sys.Auth.Models.{User, Role, RefreshToken, AuthDb}
use inventory_management_sys.Auth.Jwt.{
  Libraries, TokenType, TokenUser, Decoded, decode_token, create_access_token, create_refresh_token,
}
use inventory_management_sys.Auth.RateLimit.{Redis}
use inventory_management_sys.Auth.Repositories.{
  put_user, store, revoked, revoke, revoke_all, revoke_all_for_user, is_some,
}
use inventory_management_sys.Auth.Service.{
  Settings, Outside, TokenResponse, issue_tokens, rotate, exchange, find_exchange, refresh,
  set_active,
}
use inventory_management_sys.Auth.Requests.{get_session, none_yet}
use inventory_management_sys.Auth.Requests.Sessions.{
  refresh_once, deactivated, reuse_detection_undone,
}

abbrev claims_of : Uuid → TokenUser
claims_of jti = record {
  user_id = 7;
  email = "a@x.in";
  role = Role.customer;
  token_type = TokenType.refresh;
  jti = jti;
}

-- Two refresh tokens, "first" and "second"; all else is refused.
abbrev lib : Libraries
lib = record {
  lower = λ text. text;
  utf8_length = λ text. 8;
  hashpw = λ password. password;
  checkpw = λ password hash. some (str_eq password hash);
  sha256 = λ token. if str_eq token "first" then 1 else if str_eq token "second" then 2 else 3;
  jwt_encode = λ user expires_at. if user.jti == 32 then "second" else "third";
  jwt_decode = λ now token.
      if str_eq token "first"
      then Decoded.claims (claims_of 31)
      else if str_eq token "second"
      then Decoded.claims (claims_of 32)
      else Decoded.invalid;
}

abbrev settings : Settings
settings = record { access_token_expire_minutes = 15; refresh_token_expire_days = 7 }

abbrev redis : Redis (Unit {0})
redis = record {
  get = λ now key s. some none;
  ttl = λ now key s. some 0;
  incr = λ now key s. s;
  expire = λ now key window option s. s;
  delete = λ now key s. s;
}

abbrev user : User
user = record {
  id = 7;
  email = "a@x.in";
  password_hash = "secret-1";
  full_name = "A";
  role = Role.customer;
  is_active = true;
  last_login_at = none;
}

abbrev first : RefreshToken
first = record { id = 31; user_id = 7; expires_at = 9000; revoked_at = none }

abbrev db : AuthDb
db = record { users = (7, user) ∷ []; refresh_tokens = (1, first) ∷ []; outbox = [] }

abbrev outside : Outside
outside = record { now = 1000; user_id = 8; access_jti = 41; refresh_jti = 32; raced = false }

abbrev spent : RefreshToken
spent = record first { revoked_at = some 1000 }

abbrev rotated : AuthDb
rotated = record db {
  refresh_tokens =
      (1, spent)
      ∷ (2, record { id = 32; user_id = 7; expires_at = 605800; revoked_at = none })
      ∷ [];
}

abbrev response : TokenResponse
response = record { access_token = "third"; refresh_token = "second"; expires_in = 900 }

refresh_ok : get_session (refresh lib settings outside "first") db ≡ (ok response, rotated)
unfolding get_session refresh find_exchange exchange rotate issue_tokens store revoke revoked
    decode_token create_access_token create_refresh_token lookup insert
refresh_ok = refl

refresh_once_example :
    get_session (refresh lib settings outside "first") rotated ≡ (err Error.unauthorized, rotated)
refresh_once_example =
    refresh_once lib settings redis none outside outside "first" response db rotated rotated
      refresh_ok none_yet

-- User 1 deactivates the user.
abbrev closed : AuthDb
closed = record db {
  users = (7, record user { is_active = false }) ∷ [];
  refresh_tokens = (1, spent) ∷ [];
}

deactivate_ok :
    get_session (set_active 1000 1 7 false) db ≡ (ok (record user { is_active = false }), closed)
unfolding get_session set_active put_user revoke_all_for_user revoke_all revoked lookup insert
deactivate_ok = refl

first_found : lookup 1 db.refresh_tokens ≡ some first
unfolding lookup
first_found = refl

deactivated_example :
    get_session (refresh lib settings outside "first") closed ≡ (err Error.unauthorized, closed)
deactivated_example =
    deactivated lib settings redis none 1000 outside 1 7 (record user { is_active = false }) "first"
      first db closed closed deactivate_ok first_found refl none_yet

decoded_first : decode_token lib 1000 "first" (some TokenType.refresh) ≡ ok (claims_of 31)
unfolding decode_token
decoded_first = refl

spent_found : lookup 1 rotated.refresh_tokens ≡ some spent
unfolding lookup
spent_found = refl

reuse_detection_undone_example :
    let work = refresh lib settings outside "first" rotated in
    (work.0 ≡ err Error.unauthorized)
    × ((h : ℕ) (row : RefreshToken)
        → lookup h work.1.refresh_tokens ≡ some row
        → row.user_id ≡ 7
        → is_some row.revoked_at ≡ true)
    × (get_session (refresh lib settings outside "first") rotated
        ≡ (err Error.unauthorized, rotated))
reuse_detection_undone_example =
    reuse_detection_undone lib settings outside "first" (claims_of 31) spent rotated decoded_first
      spent_found refl
