-- ===== src/Auth/Models.antt =====
-- The tables of services/auth/app/models.py.
use inventory_management_sys.Prelude.{Bool, List, Option, String, Dict, Uuid, Datetime}
use inventory_management_sys.Common.Outbox.{OutboxRow}

pub data Role : Type 0 where
  customer admin : Role

pub record User : Type 0 where
  pub id : Uuid
  pub email : String
  pub password_hash : String
  pub full_name : String
  pub role : Role
  pub is_active : Bool
  pub last_login_at : Option Datetime

pub record RefreshToken : Type 0 where
  pub id : Uuid
  pub user_id : Uuid
  pub expires_at : Datetime
  pub revoked_at : Option Datetime

-- The database: `users` keyed by the primary key, `refresh_tokens` by the UNIQUE `token_hash`.
pub record AuthDb : Type 0 where
  pub users : Dict User
  pub refresh_tokens : Dict RefreshToken
  pub outbox : List OutboxRow
