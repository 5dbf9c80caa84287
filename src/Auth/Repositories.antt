-- ===== src/Auth/Repositories.antt =====
-- The queries and writes of services/auth/app/repositories.py.
use inventory_management_sys.Prelude.{
  ℕ, Bool, true, false, ◌&&◌, [], ◌∷◌, Option, none, some, String, Dict, lookup, insert, Uuid,
  Datetime, ◌==◌, if◌then◌else◌,
}
use text.Mathlib.Text.{◌==◌ as str_eq}
use inventory_management_sys.Common.Errors.{Error, Result, ok, err}
use inventory_management_sys.Auth.Models.{User, Role, RefreshToken, AuthDb}
use inventory_management_sys.Auth.Jwt.{Libraries}

-- `get_by_email`
unfoldable pub get_by_email : Libraries → String → Dict User → Option User
get_by_email lib email [] = none
get_by_email lib email ((_, user) ∷ users) =
    let rest = get_by_email lib email users in
    if str_eq (lib.lower user.email) (lib.lower email) then some user else rest

abbrev pub is_some {ℓ} : {A : Type ℓ} → Option A → Bool
is_some none = false
is_some (some _) = true

-- `email_exists`
unfoldable pub email_exists : Libraries → String → Dict User → Bool
unfolding get_by_email
email_exists lib email users = is_some (get_by_email lib email users)

-- The session writes the user's row back.
unfoldable pub put_user : User → AuthDb → AuthDb
put_user user db = record db { users = insert user.id user db.users }

-- `UserRepository.create` with a fresh id.
unfoldable pub new_user : Libraries → Uuid → String → String → String → Role → User
new_user lib fresh_id email password_hash full_name role = record {
  id = fresh_id;
  email = lib.lower email;
  password_hash = password_hash;
  full_name = full_name;
  role = role;
  is_active = true;
  last_login_at = none;
}

-- `RefreshTokenRepository.store`: the hash is UNIQUE.
unfoldable pub store : ℕ → RefreshToken → AuthDb → Result (Unit {0}) × AuthDb
store token_hash token db = elim (lookup token_hash db.refresh_tokens) [
  | some _ ↦ (err Error.integrity_error, db)
  | none ↦ (ok tt, record db { refresh_tokens = insert token_hash token db.refresh_tokens })
]

unfoldable pub revoked : Datetime → RefreshToken → RefreshToken
revoked now token = record token { revoked_at = some now }

-- `revoke` of the row with this hash
unfoldable pub revoke : Datetime → ℕ → RefreshToken → AuthDb → AuthDb
unfolding revoked
revoke now token_hash token db = record db {
  refresh_tokens = insert token_hash (revoked now token) db.refresh_tokens;
}

abbrev pub is_unrevoked : Uuid → RefreshToken → Bool
is_unrevoked user_id token =
    token.user_id == user_id && elim token.revoked_at [ none ↦ true | some _ ↦ false ]

-- The UPDATE of `revoke_all_for_user`.
unfoldable pub revoke_all : Datetime → Uuid → Dict RefreshToken → Dict RefreshToken
unfolding revoked
revoke_all now user_id [] = []
revoke_all now user_id ((h, token) ∷ tokens) =
    (h, if is_unrevoked user_id token then revoked now token else token)
    ∷ revoke_all now user_id tokens

unfoldable pub revoke_all_for_user : Datetime → Uuid → AuthDb → AuthDb
unfolding revoke_all
revoke_all_for_user now user_id db = record db {
  refresh_tokens = revoke_all now user_id db.refresh_tokens;
}
