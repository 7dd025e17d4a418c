-- ===== src/Sessions.antt =====
-- Conversation sessions and the daily quota: backend/app/features/sessions, backend/app/core/quota.py
-- and the clamp of offline practice instants.
pub mod Quota
pub mod Activity
pub mod Repository
pub mod Service
pub mod Invariant
pub mod Start
pub mod Turns
pub mod Metering
mod Tests
