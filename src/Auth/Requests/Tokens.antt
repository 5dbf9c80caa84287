-- ===== src/Auth/Requests/Tokens.antt =====
-- A refresh token that is revoked stays revoked, whatever services/auth/app/services.py is asked.
use inventory_management_sys.Prelude.{
  ℕ, ◌≡◌, refl, inl, inr, Bool, true, false, [], ◌∷◌, Option, none, some, String, Dict, lookup,
  lookup-insert, Uuid, Datetime, ◌==◌, ==_iff, if◌then◌else◌, arith, Bool-cases, Option-cases,
}
use inventory_management_sys.Common.Errors.{Result, ok, err, Result-cases}
use inventory_management_sys.Auth.Models.{User, Role, RefreshToken, AuthDb}
use inventory_management_sys.Auth.Jwt.{
  Libraries, TokenType, decode_token, create_refresh_token, hash_password,
}
use inventory_management_sys.Auth.RateLimit.{Redis, LoginRateLimiter}
use inventory_management_sys.Auth.Repositories.{
  put_user, new_user, store, revoked, revoke, revoke_all, revoke_all_for_user, is_unrevoked,
  is_some, get_by_email, email_exists,
}
use inventory_management_sys.Auth.Service.{
  Settings, Outside, replace, issue_tokens, registered, register, rotate, exchange, find_exchange,
  refresh, logout, throttle, logged_in, authenticate, login, change_role, set_active,
}
use inventory_management_sys.Auth.Requests.{
  get_session, session_login, Request, registers, logs_in, refreshes, logs_out, changes_role,
  sets_active, Requests, none_yet, then_one,
}

-- Whether the hash is that of a revoked token.
unfoldable pub revoked_in : ℕ → AuthDb → Bool
revoked_in h db = elim (lookup h db.refresh_tokens) [
  | none ↦ false
  | some token ↦ is_some token.revoked_at
]

-- What is revoked stays so.
abbrev pub StaysRevoked : AuthDb → AuthDb → Type 0
StaysRevoked s t = (h : ℕ) → revoked_in h s ≡ true → revoked_in h t ≡ true

same_tokens : (s t : AuthDb) → t.refresh_tokens ≡ s.refresh_tokens → StaysRevoked s t
unfolding revoked_in
same_tokens s t e h r = rw e r

store-StaysRevoked :
    (k : ℕ) (token : RefreshToken) (s : AuthDb) → StaysRevoked s (store k token s).1
unfolding store revoked_in
store-StaysRevoked k token s h r = elim (Option-cases (lookup k s.refresh_tokens)) [
  | inr (x, found) ↦ ground (arith, r)
  | inl fresh ↦ elim (Bool-cases (h == k)) [
    | inl at ↦ let same : h ≡ k = (==_iff h k).0 at in absurd (ground (arith, same))
    | inr apart ↦ ground (arith, lookup-insert h k token s.refresh_tokens)
  ]
]

revoke-StaysRevoked :
    (now : Datetime) (k : ℕ) (token : RefreshToken) (s : AuthDb)
    → StaysRevoked s (revoke now k token s)
unfolding revoke revoked revoked_in
revoke-StaysRevoked now k token s h r =
    ground (arith, lookup-insert h k (revoked now token) s.refresh_tokens)

-- What `revoke_all` makes of a row.
abbrev pub swept : Datetime → Uuid → RefreshToken → RefreshToken
swept now user_id token = if is_unrevoked user_id token then revoked now token else token

abbrev pub swept_row : Datetime → Uuid → Option RefreshToken → Option RefreshToken
swept_row now user_id none = none
swept_row now user_id (some token) = some (swept now user_id token)

pub lookup-revoke_all :
    (now : Datetime) (user_id : Uuid) (h : ℕ) (d : Dict RefreshToken)
    → lookup h (revoke_all now user_id d) ≡ swept_row now user_id (lookup h d)
unfolding lookup revoke_all
lookup-revoke_all now user_id h [] = refl
lookup-revoke_all now user_id h ((k, token) ∷ d) = elim (Bool-cases (h == k)) [
  | inl at ↦ rw at refl
  | inr apart ↦ rw apart (lookup-revoke_all now user_id h d)
]

revoke_all_for_user-StaysRevoked :
    (now : Datetime) (user_id : Uuid) (s : AuthDb)
    → StaysRevoked s (revoke_all_for_user now user_id s)
unfolding revoke_all_for_user revoked_in revoked
revoke_all_for_user-StaysRevoked now user_id s h r =
    elim (Option-cases (lookup h s.refresh_tokens)) [
      | inl missing ↦ absurd (ground arith)
      | inr (x, found) ↦ ground (arith, found, lookup-revoke_all now user_id h s.refresh_tokens)
    ]

replace-state {ℓ κ τ} :
    {A : Type ℓ} {B : Type κ} {S : Type τ} (done : Result A × S) (b : B)
    → (replace done b).1 ≡ done.1
replace-state (ok a, s) b = refl
replace-state (err e, s) b = refl

module _ (lib : Libraries) (settings : Settings) (o : Outside) where
  pub issue_tokens-StaysRevoked :
      (user : User) (s : AuthDb) → StaysRevoked s (issue_tokens lib settings o user s).1
  unfolding issue_tokens
  issue_tokens-StaysRevoked user s h r =
      let (token, expires_at) =
        create_refresh_token lib o.now o.refresh_jti user.id user.email user.role
          settings.refresh_token_expire_days in
      let row : RefreshToken = record {
        id = o.refresh_jti;
        user_id = user.id;
        expires_at = expires_at;
        revoked_at = none;
      } in
      rw (replace-state (store (lib.sha256 token) row s) _)
        (store-StaysRevoked (lib.sha256 token) row s h r)

  registered-StaysRevoked :
      (user : User) (s : AuthDb) → StaysRevoked s (registered lib settings o user s).1
  unfolding registered put_user revoked_in
  registered-StaysRevoked user s h r = ground (arith, r)

  register-StaysRevoked :
      (email password full_name : String) (s : AuthDb)
      → StaysRevoked s (register lib settings o email password full_name s).1
  unfolding register
  register-StaysRevoked email password full_name s h r =
      elim (Bool-cases (email_exists lib email s.users)) [
        | inl taken ↦ ground (arith, r)
        | inr free ↦ elim (Result-cases (hash_password lib password)) [
          | inr (x, failed) ↦ ground (arith, r)
          | inl (hash, hashed) ↦ ground (
            arith,
            registered-StaysRevoked (new_user lib o.user_id email hash full_name Role.customer) s h
                r,
          )
        ]
      ]

  rotate-StaysRevoked :
      (k : ℕ) (stored : RefreshToken) (user_id : Uuid) (s : AuthDb)
      → StaysRevoked s (rotate lib settings o k stored user_id s).1
  unfolding rotate
  rotate-StaysRevoked k stored user_id s h r = elim (Option-cases (lookup user_id s.users)) [
    | inl missing ↦ ground (arith, r)
    | inr (user, found) ↦
        let old = revoke-StaysRevoked o.now k stored s h r in
        let new = issue_tokens-StaysRevoked user (revoke o.now k stored s) h old in
        ground (arith, r, new)
  ]

  refresh-StaysRevoked :
      (token : String) (s : AuthDb) → StaysRevoked s (refresh lib settings o token s).1
  unfolding refresh find_exchange exchange
  refresh-StaysRevoked token s h r =
      elim (Result-cases (decode_token lib o.now token (some TokenType.refresh))) [
        | inr (x, failed) ↦ ground (arith, r)
        | inl (claims, decoded) ↦ elim (Option-cases (lookup (lib.sha256 token) s.refresh_tokens)) [
          | inl missing ↦ ground (arith, r)
          | inr (stored, found) ↦ ground (
            arith,
            r,
            rotate-StaysRevoked (lib.sha256 token) stored claims.user_id s h r,
            revoke_all_for_user-StaysRevoked o.now stored.user_id s h r,
          )
        ]
      ]

  logout-StaysRevoked :
      (token : String) (s : AuthDb) → StaysRevoked s (logout lib settings o token s).1
  unfolding logout
  logout-StaysRevoked token s h r =
      elim (Option-cases (lookup (lib.sha256 token) s.refresh_tokens)) [
        | inl missing ↦ ground (arith, r)
        | inr (stored, found) ↦
            ground (arith, r, revoke-StaysRevoked o.now (lib.sha256 token) stored s h r)
      ]

  module _ {S : Type 0} (redis : Redis S) (limiter : Option LoginRateLimiter) where
    login-StaysRevoked :
        (email password : String) (server : S) (s : AuthDb)
        → StaysRevoked s (session_login lib settings o redis limiter email password server s).1
    unfolding session_login login authenticate logged_in put_user revoked_in
    login-StaysRevoked email password server s h r =
        elim (Result-cases (throttle lib settings o redis limiter email server)) [
          | inr (x, locked) ↦ ground (arith, r)
          | inl (x, free) ↦ elim (Option-cases (get_by_email lib email s.users)) [
            | inl missing ↦ ground (arith, r)
            | inr (user, found) ↦
                let touched : User = record user { last_login_at = some o.now } in
                ground (arith, r, issue_tokens-StaysRevoked touched (put_user touched s) h r)
          ]
        ]

put_user-StaysRevoked : (user : User) (s : AuthDb) → StaysRevoked s (put_user user s)
unfolding put_user revoked_in
put_user-StaysRevoked user s h r = r

change_role-StaysRevoked :
    (actor target : Uuid) (role : Role) (s : AuthDb)
    → StaysRevoked s (change_role actor target role s).1
unfolding change_role
change_role-StaysRevoked actor target role s h r = elim (Option-cases (lookup target s.users)) [
  | inl missing ↦ ground (arith, r)
  | inr (user, found) ↦ ground (arith, r, put_user-StaysRevoked (record user { role = role }) s h r)
]

set_active-StaysRevoked :
    (now : Datetime) (actor target : Uuid) (is_active : Bool) (s : AuthDb)
    → StaysRevoked s (set_active now actor target is_active s).1
unfolding set_active
set_active-StaysRevoked now actor target is_active s h r =
    elim (Option-cases (lookup target s.users)) [
      | inl missing ↦ ground (arith, r)
      | inr (user, found) ↦
          let changed : User = record user { is_active = is_active } in
          let written = put_user-StaysRevoked changed s h r in
          ground (
            arith,
            r,
            written,
            revoke_all_for_user-StaysRevoked now target (put_user changed s) h written,
          )
    ]

-- A request that raises leaves all as it was.
get_session-StaysRevoked :
    {A : Type 0} (request : AuthDb → Result A × AuthDb) (s : AuthDb)
    → StaysRevoked s (request s).1
    → StaysRevoked s (get_session request s).1
unfolding get_session
get_session-StaysRevoked request s v h r = elim (Result-cases (request s).0) [
  | inr (x, failed) ↦ ground (arith, r)
  | inl (a, done) ↦ ground (arith, v h r)
]

module _ {S : Type 0} (lib : Libraries) (settings : Settings) (redis : Redis S)
    (limiter : Option LoginRateLimiter) where
  Request-StaysRevoked : {s t : AuthDb} → Request lib settings redis limiter s t → StaysRevoked s t
  Request-StaysRevoked {s} {t} (registers o email password full_name e) = rw e (
      get_session-StaysRevoked _ s
        (register-StaysRevoked lib settings o email password full_name s))
  Request-StaysRevoked {s} {t} (logs_in o email password server e) = rw e (
      get_session-StaysRevoked _ s
        (login-StaysRevoked lib settings o redis limiter email password server s))
  Request-StaysRevoked {s} {t} (refreshes o token e) =
      rw e (get_session-StaysRevoked _ s (refresh-StaysRevoked lib settings o token s))
  Request-StaysRevoked {s} {t} (logs_out o token e) =
      rw e (get_session-StaysRevoked _ s (logout-StaysRevoked lib settings o token s))
  Request-StaysRevoked {s} {t} (changes_role actor target role e) =
      rw e (get_session-StaysRevoked _ s (change_role-StaysRevoked actor target role s))
  Request-StaysRevoked {s} {t} (sets_active o actor target is_active e) =
      rw e (get_session-StaysRevoked _ s (set_active-StaysRevoked o.now actor target is_active s))

  pub Requests-StaysRevoked :
      {s t : AuthDb} → Requests lib settings redis limiter s t → StaysRevoked s t
  Requests-StaysRevoked none_yet h r = r
  Requests-StaysRevoked (then_one before request) h r =
      Request-StaysRevoked request h (Requests-StaysRevoked before h r)
