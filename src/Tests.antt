-- ===== src/Tests.antt =====
-- The theorems at concrete databases and sessions.
mod Fixtures
mod Tables
mod Sessions
mod Services
mod Access
mod Requests
