-- ===== src/Tests.antt =====
-- Sample rows, and the theorems at work on them.
mod Samples
mod Witnesses
mod Amounts
mod Jobs
mod Messages
mod Requests
