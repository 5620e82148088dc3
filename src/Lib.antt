-- ===== src/Lib.antt =====
-- The enrichment core of the NektronMoments services: how jobs that geocode a photo or describe its
-- scene are leased to a worker, how they reserve and pay for calls of a provider under monthly
-- limits, how an attempt ends, and what recovers, retries, cancels and dispatches them.
--
-- Parts, and the code that they model (paths from the repository's root):
--   Base, Numbers, Platform   shared helpers; integers and decimals; what is taken from Python
--   Clock                     services/domain/service.py: `_first_of_next_month`, months of dates
--   Records                   rows and claims: services/data/models.py, services/worker/contracts.py,
--                             services/enrichment/models.py; `RequestJson` as one record
--   Ledger                    services/domain/repositories.py: `ProviderUsageRepository`
--   Cost                      services/enrichment/openai_scene.py: token counts and their price
--   Reservations              service.py: `_settle_provider_reservation`,
--                             `_release_description_provider_request`
--   Charges                   service.py: `_settle_description_cost_reservation`
--   CircuitBreaker            service.py: `_open_`, `_close_provider_circuit` and the test for it
--   Quota                     service.py: `_reserve_description_usage`, the quota of
--                             `reserve_provider_call`
--   Store, Soundness          the database of one transaction, its end, and its books
--   Leases                    the lease that the two claims take
--   Geocode                   service.py: `claim_geocode_job`, `_claimed_geocode_job`,
--                             `reserve_provider_call`, `consume_provider_call`, `complete_geocode`,
--                             `find_reusable_location`, `fail_geocode`, `defer_geocode_quota`
--   Description               service.py: the same steps of a description
--   Jobs                      service.py: `redispatch_due_jobs`, `retry_job`, `cancel_job`, the jobs
--                             of trashed assets (`_delete_occurrence`, `_trash_if_unreferenced`,
--                             `_cancel_asset_processing`), `_job_record`, `_user_facing_state`
--   Mutations                 service.py: `_mutation`; repositories.py: `IdempotencyRepository`
--   Uploads                   service.py: `complete_upload`, `cancel_upload`, `get_upload_session`,
--                             `_expire_temporary_uploads`
--   Normalization             services/enrichment/normalization.py: `LocationNormalizer`
--   Worker                    services/worker/processor.py: the processors and their router, over the
--                             repositories that services/worker/contracts.py describes;
--                             services/worker/handler.py: `handler`
--   Tests                     sample rows and the theorems applied to them
--
-- How they interact: a transaction of a job selects its row, checks the lease that its claim names,
-- and hands the row and the usage table to Quota, Reservations, Charges and CircuitBreaker, which
-- return both changed; `Store.save` writes them back. A transaction that raises leaves the database
-- as it was. A loop over selected rows is `Jobs.Sweep.sweep`, which threads the usage table through
-- the rounds. A message processor runs several transactions, each on the database as other
-- transactions have left it; `Worker.Repository` says what it asks of them and `Worker.Domain` fills
-- it with the transactions of Geocode. Each operation is a total function from the database and its
-- arguments to an outcome, so there is no fuel and no loop but recursion on lists and texts.
--
-- The books: what a job holds of a monthly row is the units of its reservations that are still
-- `Reserved` and name that row; the database is sound when every row's reserved units are the sum
-- of what the jobs hold of it, job identifiers are distinct, and every held reservation has all its
-- parts.
--
-- Representation: amounts, units and coordinates are counts of millionths, as the columns are
-- `Numeric(20, 6)` and the code quantizes; times are microseconds since 1970 and months are counted
-- from year 0. A transaction reads the clock twice, `checked` for the check of the claim and `now`
-- after it. SHA-256, the formatting of coordinates, time zones and the Unicode operations on strings
-- are parameters (Platform).
--
-- Not modelled: decimals finer than a millionth and results of `quantize` that overflow, values of
-- `RequestJson` of another JSON type than the code writes, the search for a location nearby on
-- floating-point distances and `can_reuse` on raw JSON (parameters of `find_reusable_location`), the
-- plan of an upload, manifests, the purge of trash, the object store, the HTTP API, bulk import,
-- provider clients, and connections. Transactions are taken one at a time, as the
-- row locks make them.
pub mod Base
pub mod Numbers
pub mod Clock
pub mod Records
pub mod Ledger
pub mod Settings
pub mod Cost
pub mod Reservations
pub mod Charges
pub mod CircuitBreaker
pub mod Quota
pub mod Store
pub mod Soundness
pub mod Leases
pub mod Platform
pub mod Geocode
pub mod Description
pub mod Jobs
pub mod Mutations
pub mod Uploads
pub mod Normalization
pub mod Worker
pub mod Tests
