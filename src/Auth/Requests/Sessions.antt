-- ===== src/Auth/Requests/Sessions.antt =====
-- What the refresh tokens of services/auth/app/services.py promise, over any sequence of requests.
use inventory_management_sys.Prelude.{
  ℕ, ◌≡◌, ap, subst, ◌∙◌, inl, inr, true, false, Option, some, String, Dict, lookup,
  lookup-insert_self, Uuid, Datetime, ◌==◌, ==_iff, arith, Bool-cases, Option-cases,
}
use inventory_management_sys.Common.Errors.{Error, Result, ok, err, Result-cases}
use inventory_management_sys.Auth.Models.{User, RefreshToken, AuthDb}
use inventory_management_sys.Auth.Jwt.{
  Libraries, TokenType, TokenUser, Decoded, decode_token, checked,
}
use inventory_management_sys.Auth.RateLimit.{Redis, LoginRateLimiter}
use inventory_management_sys.Auth.Repositories.{
  put_user, revoked, revoke, revoke_all, revoke_all_for_user, is_unrevoked, is_some,
}
use inventory_management_sys.Auth.Service.{
  Settings, Outside, TokenResponse, rotate, exchange, find_exchange, refresh, set_active,
}
use inventory_management_sys.Auth.Requests.{get_session, Requests}
use inventory_management_sys.Auth.Requests.Tokens.{
  revoked_in, issue_tokens-StaysRevoked, Requests-StaysRevoked, lookup-revoke_all, swept,
}

-- Whatever `decode_token` refuses, it refuses alike.
decode_token_refusal :
    (lib : Libraries) (now : Datetime) (token : String) (x : Error)
    → decode_token lib now token (some TokenType.refresh) ≡ err x
    → x ≡ Error.unauthorized
unfolding decode_token
decode_token_refusal lib now token x e = go (lib.jwt_decode now token) e
  where
    go :
        (d : Decoded)
        → elim d [
          | Decoded.claims user ↦ checked (some TokenType.refresh) user
          | _ ↦ err Error.unauthorized
        ]
          ≡ err x
        → x ≡ Error.unauthorized
    go Decoded.expired h = ground arith
    go Decoded.invalid h = ground arith
    go Decoded.malformed h = ground arith
    go (Decoded.claims user) h = ground arith

refused :
    (lib : Libraries) (settings : Settings) (o : Outside) (token : String) (s : AuthDb)
    → revoked_in (lib.sha256 token) s ≡ true
    → (refresh lib settings o token s).0 ≡ err Error.unauthorized
unfolding refresh find_exchange exchange revoked_in
refused lib settings o token s r =
    elim (Result-cases (decode_token lib o.now token (some TokenType.refresh))) [
      | inr (x, failed) ↦
          let same = decode_token_refusal lib o.now token x failed in ground (arith, same)
      | inl (claims, decoded) ↦ elim (Option-cases (lookup (lib.sha256 token) s.refresh_tokens)) [
        | inl missing ↦ absurd (ground arith)
        | inr (stored, found) ↦ ground (arith, r)
      ]
    ]

revoked_after_revoke :
    (now : Datetime) (h : ℕ) (token : RefreshToken) (s : AuthDb)
    → revoked_in h (revoke now h token s) ≡ true
unfolding revoke revoked revoked_in
revoked_after_revoke now h token s =
    ground (arith, lookup-insert_self h (revoked now token) s.refresh_tokens)

module _ (lib : Libraries) (settings : Settings) (o : Outside) (token : String) (s : AuthDb) where
  -- A refresh that succeeds has revoked the token it was given.
  refresh-revokes :
      (response : TokenResponse)
      → (refresh lib settings o token s).0 ≡ ok response
      → revoked_in (lib.sha256 token) (refresh lib settings o token s).1 ≡ true
  unfolding refresh find_exchange exchange rotate
  refresh-revokes response e =
      let h = lib.sha256 token in
      elim (Result-cases (decode_token lib o.now token (some TokenType.refresh))) [
        | inr (x, failed) ↦ absurd (ground arith)
        | inl (claims, decoded) ↦ elim (Option-cases (lookup h s.refresh_tokens)) [
          | inl missing ↦ absurd (ground arith)
          | inr (stored, found) ↦ elim (Option-cases (lookup claims.user_id s.users)) [
            | inl nobody ↦ absurd (ground arith)
            | inr (user, there) ↦
                let new =
                  issue_tokens-StaysRevoked lib settings o user (revoke o.now h stored s) h
                    (revoked_after_revoke o.now h stored s) in
                ground (arith, new)
          ]
        ]
      ]

-- A request that is answered with a result has committed.
get_session-commits :
    {A : Type 0} (request : AuthDb → Result A × AuthDb) (s t : AuthDb) (a : A)
    → get_session request s ≡ (ok a, t)
    → ((request s).0 ≡ ok a) × ((request s).1 ≡ t)
unfolding get_session
get_session-commits request s t a e = elim (Result-cases (request s).0) [
  | inr (x, failed) ↦ absurd (ground arith)
  | inl (b, done) ↦ (ground arith, ground arith)
]

session_refused :
    (lib : Libraries) (settings : Settings) (o : Outside) (token : String) (s : AuthDb)
    → revoked_in (lib.sha256 token) s ≡ true
    → get_session (refresh lib settings o token) s ≡ (err Error.unauthorized, s)
unfolding get_session
session_refused lib settings o token s r = let no = refused lib settings o token s r in ground arith

-- Deactivating a user revokes each token that the user has.
set_active-revokes :
    (now : Datetime) (actor target h : ℕ) (user : User) (row : RefreshToken) (s : AuthDb)
    → (set_active now actor target false s).0 ≡ ok user
    → lookup h s.refresh_tokens ≡ some row
    → row.user_id ≡ target
    → revoked_in h (set_active now actor target false s).1 ≡ true
unfolding set_active revoked_in revoke_all_for_user put_user revoked
set_active-revokes now actor target h user row s e found own =
    elim (Option-cases (lookup target s.users)) [
      | inl missing ↦ absurd (ground arith)
      | inr (old, there) ↦
          let at : (row.user_id == target) ≡ true = (==_iff row.user_id target).1 own in
          ground (arith, found, at, lookup-revoke_all now target h s.refresh_tokens)
    ]

module _ {S : Type 0} (lib : Libraries) (settings : Settings) (redis : Redis S)
    (limiter : Option LoginRateLimiter) where
  -- Once a refresh with a token has succeeded, that token is refused as unauthorized, and nothing
  -- changes, after any further requests, one after another.
  pub refresh_once :
      (o o' : Outside) (token : String) (response : TokenResponse) (s t u : AuthDb)
      → get_session (refresh lib settings o token) s ≡ (ok response, t)
      → Requests lib settings redis limiter t u
      → get_session (refresh lib settings o' token) u ≡ (err Error.unauthorized, u)
  refresh_once o o' token response s t u e later =
      let (given, kept) = get_session-commits (refresh lib settings o token) s t response e in
      let spent = refresh-revokes lib settings o token s response given in
      let h = lib.sha256 token in
      session_refused lib settings o' token u (
        Requests-StaysRevoked lib settings redis limiter later h
          (subst (λ x. revoked_in h x ≡ true) kept spent))

  -- Once a user is deactivated, each refresh token that the user had is refused as unauthorized
  -- after any further requests, one after another, a reactivation included.
  pub deactivated :
      (now : Datetime) (o : Outside) (actor target : Uuid) (user : User) (token : String)
      (row : RefreshToken) (s t u : AuthDb)
      → get_session (set_active now actor target false) s ≡ (ok user, t)
      → lookup (lib.sha256 token) s.refresh_tokens ≡ some row
      → row.user_id ≡ target
      → Requests lib settings redis limiter t u
      → get_session (refresh lib settings o token) u ≡ (err Error.unauthorized, u)
  deactivated now o actor target user token row s t u e found own later =
      let (given, kept) = get_session-commits (set_active now actor target false) s t user e in
      let h = lib.sha256 token in
      let spent = set_active-revokes now actor target h user row s given found own in
      session_refused lib settings o token u (
        Requests-StaysRevoked lib settings redis limiter later h
          (subst (λ x. revoked_in h x ≡ true) kept spent))

swept-revoked :
    (now : Datetime) (user_id : Uuid) (x row : RefreshToken)
    → swept now user_id x ≡ row
    → row.user_id ≡ user_id
    → is_some row.revoked_at ≡ true
unfolding revoked
swept-revoked now user_id x row e own = elim (Bool-cases (is_unrevoked user_id x)) [
  | inl live ↦ ground arith
  | inr old ↦
      let same : x ≡ row = ground arith in
      let at : (x.user_id == user_id) ≡ true =
        (==_iff x.user_id user_id).1 (ap (λ z. z.user_id) same ∙ own) in
      elim (Option-cases x.revoked_at) [
        | inl never ↦ absurd (ground arith)
        | inr (w, when) ↦ subst (λ z. is_some z.revoked_at ≡ true) same (ap is_some when)
      ]
]

all_revoked :
    (now : Datetime) (user_id : Uuid) (h : ℕ) (row : RefreshToken) (d : Dict RefreshToken)
    → lookup h (revoke_all now user_id d) ≡ some row
    → row.user_id ≡ user_id
    → is_some row.revoked_at ≡ true
all_revoked now user_id h row d e own =
    let here = lookup-revoke_all now user_id h d in
    elim (Option-cases (lookup h d)) [
      | inl missing ↦ absurd (ground (arith, here))
      | inr (x, found) ↦
          let same : swept now user_id x ≡ row = ground (arith, here) in
          swept-revoked now user_id x row same own
    ]

-- When a revoked refresh token that still decodes is presented, the call has revoked every token
-- of its user in the session at the moment that it raises, and the rollback that follows leaves
-- the database as it was.
pub reuse_detection_undone :
    (lib : Libraries) (settings : Settings) (o : Outside) (token : String) (caller : TokenUser)
    (stored : RefreshToken) (s : AuthDb)
    → decode_token lib o.now token (some TokenType.refresh) ≡ ok caller
    → lookup (lib.sha256 token) s.refresh_tokens ≡ some stored
    → is_some stored.revoked_at ≡ true
    → let work = refresh lib settings o token s in
      (work.0 ≡ err Error.unauthorized)
      × ((h : ℕ) (row : RefreshToken)
          → lookup h work.1.refresh_tokens ≡ some row
          → row.user_id ≡ stored.user_id
          → is_some row.revoked_at ≡ true)
      × (get_session (refresh lib settings o token) s ≡ (err Error.unauthorized, s))
unfolding refresh find_exchange exchange get_session revoke_all_for_user revoked
reuse_detection_undone lib settings o token caller stored s decoded found spent = (
  ground arith,
  λ h row after own. all_revoked o.now stored.user_id h row s.refresh_tokens (ground arith) own,
  ground arith,
)
