-- ===== src/Auth.antt =====
-- app/services/auth_service.py and the repositories that it uses. Password hashing, SHA-256, JWT encoding and
-- `str.lower` are the parameters in `Crypto`.
pub mod Users
pub mod Service
pub mod Sessions
pub mod Logout
mod Tests
