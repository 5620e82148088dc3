-- ===== src/Jobs.antt =====
-- Jobs outside a worker's claim (`Phase1DomainService` in services/domain/service.py): the sweep that
-- recovers due jobs, retries and cancellations by the user, and what becomes of the jobs of an asset
-- that is trashed.
pub mod Sweep
pub mod Sweeping
pub mod Selecting
pub mod Redispatch
pub mod Recovering
pub mod Drained
pub mod Scheduling
pub mod View
pub mod Retry
pub mod Retrying
pub mod Promised
pub mod Trash
pub mod Trashing
pub mod Stopping
pub mod Cancel
pub mod Cancelling
pub mod Skipped
