-- ===== src/Worker.antt =====
-- The queue worker (services/worker/processor.py, services/worker/handler.py): how a message becomes
-- transactions of the repository, and how a batch of messages is answered.
pub mod Message
pub mod Repository
pub mod GeocodeProcessor
pub mod Handler
pub mod Processing
pub mod Charged
pub mod Domain
pub mod Batches
pub mod Redelivery
pub mod SceneRepository
pub mod SceneProcessor
pub mod Previews
pub mod Router
pub mod Books
