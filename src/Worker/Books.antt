-- ===== src/Worker/Books.antt =====
-- The queue worker as a whole: handler, router and processors over the same database.
use nektron_moments.Base.{ℕ, some, List, []}
use nektron_moments.Platform.{Platform}
use nektron_moments.Settings.{Settings}
use nektron_moments.Clock.{DateTime}
use nektron_moments.Store.{Database}
use nektron_moments.Soundness.{IsSound}
use nektron_moments.Worker.Repository.{IsLawful}
use nektron_moments.Worker.GeocodeProcessor.{Setting, process_message}
use nektron_moments.Worker.Processing.{process_message-IsSound}
use nektron_moments.Worker.Handler.{QueueRecord, Processor, handler}
use nektron_moments.Worker.Router.{
  route, route_due, process_due_jobs, process_due_jobs-IsSound, KeepsState, route-KeepsState,
  handler_keeps,
}

-- The geocode processor, for the router
unfoldable pub geocode_processor : Setting → Processor Database
geocode_processor s id body db = let run = process_message s id body db in (run.ended, run.database)

module _ (s : Setting) (lawful : IsLawful s.repository)
    (others_keep : (n : ℕ) (db : Database) → IsSound db → IsSound (s.others n db)) where
  geocode_processor_keeps : KeepsState IsSound (geocode_processor s)
  unfolding geocode_processor
  geocode_processor_keeps id body db sound =
      process_message-IsSound s lawful others_keep id body db sound

  -- A batch of messages of any kind, routed to the geocode processor, to the sweep for due jobs, and
  -- to a processor of descriptions that keeps the books, keeps the books, if what others do between
  -- the geocode processor's transactions does.
  pub batch-IsSound :
      (p : Platform) (cfg : Settings) (limit : ℕ) (now : DateTime)
      (description : Processor Database) (rs : List QueueRecord) (db : Database)
      → KeepsState IsSound description
      → IsSound db
      → let due = process_due_jobs cfg limit now in
        IsSound (handler p (route (geocode_processor s) description (some due)) rs db).1
  unfolding handler route_due
  batch-IsSound p cfg limit now description rs db keeps sound =
      let due = process_due_jobs cfg limit now in
      handler_keeps IsSound p (route (geocode_processor s) description (some due)) rs [] db
        (route-KeepsState IsSound (geocode_processor s) description (some due)
          geocode_processor_keeps keeps (process_due_jobs-IsSound cfg limit now))
        sound
