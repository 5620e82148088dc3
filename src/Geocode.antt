-- ===== src/Geocode.antt =====
-- Location enrichment in services/domain/service.py: leasing a geocode job, its provider calls, and
-- the three ways in which an attempt ends.
pub mod Claim
pub mod Result
pub mod Calls
pub mod Reuse
pub mod Fence
pub mod Books
pub mod Endings
pub mod Reusing
pub mod Leasing
pub mod Exclusion
pub mod Reserving
