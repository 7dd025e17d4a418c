-- ===== src/Auth.antt =====
-- Accounts and refresh tokens: backend/app/features/auth (repository.py, service.py) and
-- backend/app/core/security.py.
pub mod Repository
pub mod Service
pub mod Account
pub mod Tokens
pub mod Rotation
pub mod Passwords
mod Tests
