-- ===== src/Records.antt =====
-- The rows and messages of the enrichment pipeline: services/data/models.py,
-- services/worker/contracts.py, services/enrichment/models.py. UUIDs and database ids are only
-- compared, so they are naturals.
mod Enums
mod RequestJson
mod JobRow
mod UsageRow
mod Media
pub use Enums.*
pub use RequestJson.*
pub use JobRow.*
pub use UsageRow.*
pub use Media.*
