-- ===== src/Auth.antt =====
-- Authentication: backend/app/api/auth.py, backend/app/api/oidc.py and the routes under
-- backend/app/api/routes/ that log users in.
pub mod RateLimit
pub mod Oidc
pub mod Claims
pub mod Users
pub mod Login
pub mod Device
mod Tests
