-- ===== src/Description.antt =====
-- Scene description in services/domain/service.py: leasing a description job, its provider calls, and
-- the ways in which an attempt ends.
pub mod Payload
pub mod Claim
pub mod Claimed
pub mod Calls
pub mod Results
pub mod Books
pub mod Endings
pub mod Completing
pub mod Consuming
pub mod Leasing
pub mod Claiming
