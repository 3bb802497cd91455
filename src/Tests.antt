-- ===== src/Tests.antt =====
-- Runs of the models on concrete inputs.
pub mod Breakers
pub mod Caches
pub mod Limits
pub mod Queues
pub mod Retries
pub mod Tables
pub mod Guards
pub mod Fares
pub mod Calls
pub mod Accounts
pub mod Trips
pub mod Tenants
pub mod Logs
pub mod Gauges
pub mod Notices
pub mod Answers
