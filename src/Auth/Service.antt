-- ===== src/Auth/Service.antt =====
-- `AuthService` of services/auth/app/services.py. A call returns its result, or the error that it
-- raises, with the session's state at that moment: what becomes of it is `get_session`'s matter.
use inventory_management_sys.Prelude.{
  ℕ, ◌*◌, Bool, not, ◌&&◌, leb, Option, none, some, String, lookup, Uuid, Datetime, ◌==◌,
  if◌then◌else◌,
}
use Prim.Native.String.{◌++◌ as append}
use inventory_management_sys.Common.Errors.{Error, Result, ok, err}
use inventory_management_sys.Common.Events.{Topic, Payload}
use inventory_management_sys.Common.Outbox.{enqueue_event}
use inventory_management_sys.Auth.Models.{User, Role, RefreshToken, AuthDb}
use inventory_management_sys.Auth.Jwt.{
  Libraries, TokenType, decode_token, create_access_token, create_refresh_token, hash_password,
  verify_password,
}
use inventory_management_sys.Auth.RateLimit.{Redis, LoginRateLimiter, check, record_failure, reset}
use inventory_management_sys.Auth.Repositories.{
  get_by_email, email_exists, put_user, new_user, store, revoke, revoke_all_for_user, is_some,
}

pub record Settings : Type 0 where
  pub access_token_expire_minutes : ℕ
  pub refresh_token_expire_days : ℕ

-- What a call takes from outside: the clock, fresh uuid4s, and whether a concurrent transaction
-- has registered the email.
pub record Outside : Type 0 where
  pub now : Datetime
  pub user_id : Uuid
  pub access_jti : Uuid
  pub refresh_jti : Uuid
  pub raced : Bool

pub record TokenResponse : Type 0 where
  pub access_token : String
  pub refresh_token : String
  pub expires_in : ℕ

-- The session's state is kept, whatever the result.
abbrev pub replace {ℓ κ τ} :
    {A : Type ℓ} {B : Type κ} {S : Type τ} → Result A × S → B → Result B × S
replace (ok _, s) b = (ok b, s)
replace (err e, s) b = (err e, s)

module _ (lib : Libraries) (settings : Settings) (o : Outside) where
  -- `_issue_tokens`
  unfoldable pub issue_tokens : User → AuthDb → Result TokenResponse × AuthDb
  issue_tokens user db =
      let (access_token, access_expires) =
        create_access_token lib o.now o.access_jti user.id user.email user.role
          settings.access_token_expire_minutes in
      let (refresh_token, refresh_expires) =
        create_refresh_token lib o.now o.refresh_jti user.id user.email user.role
          settings.refresh_token_expire_days in
      let response : TokenResponse = record {
        access_token = access_token;
        refresh_token = refresh_token;
        expires_in = settings.access_token_expire_minutes * 60;
      } in
      replace
        (store (lib.sha256 refresh_token)
          (record {
            id = o.refresh_jti;
            user_id = user.id;
            expires_at = refresh_expires;
            revoked_at = none;
          })
          db)
        response

  -- From the flush of the new row on.
  unfoldable pub registered : User → AuthDb → Result User × AuthDb
  unfolding put_user
  registered user db =
      if o.raced
      then (err Error.integrity_error, db)
      else let added = put_user user db in
        (
          ok user,
          record added {
            outbox =
                enqueue_event Topic.user_registered user.id
                  (Payload.user_registered (record {
                    user_id = user.id;
                    email = user.email;
                    full_name = user.full_name;
                    registered_at = o.now;
                  }))
                  user.id added.outbox;
          },
        )

  -- `register`
  unfoldable pub register : String → String → String → AuthDb → Result User × AuthDb
  unfolding registered new_user email_exists
  register email password full_name db =
      if email_exists lib email db.users
      then (err Error.conflict, db)
      else elim (hash_password lib password) [
        | err e ↦ (err e, db)
        | ok password_hash ↦
            registered (new_user lib o.user_id email password_hash full_name Role.customer) db
      ]

  -- From the read of the user on.
  unfoldable pub rotate : ℕ → RefreshToken → Uuid → AuthDb → Result TokenResponse × AuthDb
  unfolding issue_tokens revoke
  rotate token_hash stored user_id db = elim (lookup user_id db.users) [
    | none ↦ (err Error.unauthorized, db)
    | some user ↦
        if user.is_active
        then issue_tokens user (revoke o.now token_hash stored db)
        else (err Error.forbidden, db)
  ]

  -- What is asked of the stored row.
  unfoldable pub exchange : ℕ → RefreshToken → Uuid → AuthDb → Result TokenResponse × AuthDb
  unfolding rotate revoke_all_for_user
  exchange token_hash stored user_id db =
      if is_some stored.revoked_at
      then (err Error.unauthorized, revoke_all_for_user o.now stored.user_id db)
      else if leb stored.expires_at o.now
      then (err Error.unauthorized, db)
      else rotate token_hash stored user_id db

  unfoldable pub find_exchange : ℕ → Uuid → AuthDb → Result TokenResponse × AuthDb
  unfolding exchange
  find_exchange token_hash user_id db = elim (lookup token_hash db.refresh_tokens) [
    | none ↦ (err Error.unauthorized, db)
    | some stored ↦ exchange token_hash stored user_id db
  ]

  -- `refresh`
  unfoldable pub refresh : String → AuthDb → Result TokenResponse × AuthDb
  unfolding find_exchange
  refresh refresh_token db = elim (decode_token lib o.now refresh_token (some TokenType.refresh)) [
    | err e ↦ (err e, db)
    | ok claims ↦ find_exchange (lib.sha256 refresh_token) claims.user_id db
  ]

  -- `logout`
  unfoldable pub logout : String → AuthDb → Result (Unit {0}) × AuthDb
  unfolding revoke
  logout refresh_token db =
      let token_hash = lib.sha256 refresh_token in
      elim (lookup token_hash db.refresh_tokens) [
        | none ↦ (ok tt, db)
        | some stored ↦
            if is_some stored.revoked_at
            then (ok tt, db)
            else (ok tt, revoke o.now token_hash stored db)
      ]

  module _ {S : Type 0} (redis : Redis S) (limiter : Option LoginRateLimiter) where
    -- `if self._rate_limiter: …`, on the key of the email
    abbrev key : String → String
    key email = append "login:attempts:" (lib.lower email)

    unfoldable pub throttle : String → S → Result (Unit {0})
    throttle email s = elim limiter [ none ↦ ok tt | some l ↦ check redis l o.now (key email) s ]

    unfoldable pub count_failure : String → S → S
    count_failure email s = elim limiter [
      | none ↦ s
      | some l ↦ record_failure redis l o.now (key email) s
    ]

    unfoldable pub forget_failures : String → S → S
    forget_failures email s = elim limiter [ none ↦ s | some l ↦ reset redis l o.now (key email) s ]

    -- The end of `login`, for the right password.
    unfoldable pub logged_in :
        String → User → AuthDb → S → Result (User × TokenResponse) × AuthDb × S
    unfolding forget_failures put_user
    logged_in email user db s =
        let touched : User = record user { last_login_at = some o.now } in
        let issued = issue_tokens touched (put_user touched db) in
        let paired : Result (User × TokenResponse) = elim issued.0 [
          | ok tokens ↦ ok (touched, tokens)
          | err e ↦ err e
        ] in
        if user.is_active
        then (paired, issued.1, forget_failures email s)
        else (err Error.forbidden, db, s)

    unfoldable pub authenticate :
        String → String → AuthDb → S → Result (User × TokenResponse) × AuthDb × S
    unfolding logged_in count_failure
    authenticate email password db s = elim (get_by_email lib email db.users) [
      | none ↦ (err Error.unauthorized, db, count_failure email s)
      | some user ↦
          if verify_password lib password user.password_hash
          then logged_in email user db s
          else (err Error.unauthorized, db, count_failure email s)
    ]

    -- `login`, on the database and on Redis
    unfoldable pub login : String → String → AuthDb → S → Result (User × TokenResponse) × AuthDb × S
    unfolding authenticate throttle
    login email password db s = elim (throttle email s) [
      | err e ↦ (err e, db, s)
      | ok _ ↦ authenticate email password db s
    ]

-- `change_role`
unfoldable pub change_role : Uuid → Uuid → Role → AuthDb → Result User × AuthDb
unfolding put_user
change_role actor_id target_id role db =
    if actor_id == target_id then (err Error.forbidden, db) else elim (lookup target_id db.users) [
      | none ↦ (err Error.not_found, db)
      | some user ↦
          let changed : User = record user { role = role } in (ok changed, put_user changed db)
    ]

-- `set_active`
unfoldable pub set_active : Datetime → Uuid → Uuid → Bool → AuthDb → Result User × AuthDb
unfolding put_user revoke_all_for_user
set_active now actor_id target_id is_active db =
    if actor_id == target_id && not is_active
    then (err Error.forbidden, db)
    else elim (lookup target_id db.users) [
      | none ↦ (err Error.not_found, db)
      | some user ↦
          let changed : User = record user { is_active = is_active } in
          let written = put_user changed db in
          (ok changed, if is_active then written else revoke_all_for_user now target_id written)
    ]
