-- ===== src/Auth/Jwt.antt =====
-- common/common/auth/jwt.py and services/auth/app/security.py. Encoding, signing and hashing are
-- done by libraries (PyJWT, bcrypt, hashlib, str), which are parameters here.
use inventory_management_sys.Prelude.{
  ℕ, ◌+◌, ◌*◌, Bool, true, false, ltb, Option, none, some, String, Uuid, Datetime, if◌then◌else◌,
}
use inventory_management_sys.Common.Errors.{Error, Result, ok, err}
use inventory_management_sys.Auth.Models.{Role}

pub data TokenType : Type 0 where
  access refresh : TokenType

-- `TokenUser`, the caller as the claims of a token name it.
pub record TokenUser : Type 0 where
  pub user_id : Uuid
  pub email : String
  pub role : Role
  pub token_type : TokenType
  pub jti : Uuid

-- What `jwt.decode` and the reading of its claims come to.
pub data Decoded : Type 0 where
  expired invalid malformed : Decoded
  claims : TokenUser → Decoded

-- The libraries. `lower` is `str.lower` and SQL's, `utf8_length` the length of the encoding,
-- `checkpw` is none where bcrypt raises ValueError, and `sha256` is the digest as a number.
pub record Libraries : Type 0 where
  pub lower : String → String
  pub utf8_length : String → ℕ
  pub hashpw : String → String
  pub checkpw : String → String → Option Bool
  pub sha256 : String → ℕ
  pub jwt_encode : TokenUser → Datetime → String
  pub jwt_decode : Datetime → String → Decoded

-- `user.token_type is not expected_type`
abbrev pub same_type : TokenType → TokenType → Bool
same_type TokenType.access TokenType.access = true
same_type TokenType.refresh TokenType.refresh = true
same_type _ _ = false

abbrev pub checked : Option TokenType → TokenUser → Result TokenUser
checked none user = ok user
checked (some expected) user =
    if same_type user.token_type expected then ok user else err Error.unauthorized

-- `decode_token`
unfoldable pub decode_token : Libraries → Datetime → String → Option TokenType → Result TokenUser
decode_token lib now token expected_type = elim (lib.jwt_decode now token) [
  | Decoded.claims user ↦ checked expected_type user
  | _ ↦ err Error.unauthorized
]

abbrev pub day : ℕ
day = 86400

-- `create_access_token` and `create_refresh_token`: the token and when it expires.
unfoldable pub create_access_token :
    Libraries → Datetime → Uuid → Uuid → String → Role → ℕ → String × Datetime
create_access_token lib now jti user_id email role expire_minutes =
    let expires_at = now + expire_minutes * 60 in
    (
      lib.jwt_encode
          (record {
            user_id = user_id;
            email = email;
            role = role;
            token_type = TokenType.access;
            jti = jti;
          })
          expires_at,
      expires_at,
    )

unfoldable pub create_refresh_token :
    Libraries → Datetime → Uuid → Uuid → String → Role → ℕ → String × Datetime
create_refresh_token lib now jti user_id email role expire_days =
    let expires_at = now + expire_days * day in
    (
      lib.jwt_encode
          (record {
            user_id = user_id;
            email = email;
            role = role;
            token_type = TokenType.refresh;
            jti = jti;
          })
          expires_at,
      expires_at,
    )

abbrev pub bcrypt_max_bytes : ℕ
bcrypt_max_bytes = 72

-- `hash_password`; `PasswordTooLongError` is a ValueError.
unfoldable pub hash_password : Libraries → String → Result String
hash_password lib password =
    if ltb bcrypt_max_bytes (lib.utf8_length password)
    then err Error.value_error
    else ok (lib.hashpw password)

abbrev agreed : Option Bool → Bool
agreed none = false
agreed (some answer) = answer

unfoldable pub verify_password : Libraries → String → String → Bool
verify_password lib password password_hash =
    if ltb bcrypt_max_bytes (lib.utf8_length password)
    then false
    else agreed (lib.checkpw password password_hash)
