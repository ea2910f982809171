-- ===== src/ApiKeys.antt =====
-- app/services/api_key_service.py and its repositories: machine credentials, and their rate limits.
pub mod Service
pub mod Counters
pub mod Credentials
pub mod Counting
pub mod Quota
mod Tests
