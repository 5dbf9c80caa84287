-- ===== src/Auth.antt =====
-- The auth service, services/auth/app, with the tokens of common/common/auth/jwt.py.
pub mod Models
pub mod Jwt
pub mod RateLimit
pub mod Repositories
pub mod Service
pub mod Requests
mod Tests
