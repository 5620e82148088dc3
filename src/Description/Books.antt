-- ===== src/Description/Books.antt =====
-- The endings of a description job keep the books: both of its reservations are settled, and both
-- rows move with them.
use nektron_moments.Base.{◌≤◌, ◌≡◌, ◌∙◌, Bool, some, arith}
use nektron_moments.Clock.{DateTime}
use nektron_moments.Settings.{Settings}
use nektron_moments.Records.{UsageKey, ProcessingJob}
use nektron_moments.Ledger.{Ledger}
use nektron_moments.Cost.{Calculation}
use nektron_moments.Reservations.{settle_provider_reservation}
use nektron_moments.Reservations.Held.{
  reserved_at, job_held, Balanced, settle_provider-Balanced, settle_provider-IsWhole,
}
use nektron_moments.Charges.{settle_description_cost}
use nektron_moments.Charges.Settlement.{settle_cost-Balanced}
use nektron_moments.Store.{Database, first, save}
use nektron_moments.Store.Laws.{All-first}
use nektron_moments.Soundness.{
  IsSound, IsWholeJob, SameBooks, SameBooks-IsWholeJob, SameBooks-Balanced, held-le-reserved,
  save-IsSound,
}
use nektron_moments.Soundness.Steps.{settle_cost_whole, settle_provider-IsWholeJob, Balanced-trans}
use nektron_moments.Description.Results.{settle_both}

-- Settling both reservations of a whole job moves every row by what the job no longer holds of it,
-- whether each was consumed or not, and whatever the cost came to.
pub settle_both-Balanced :
    (k : UsageKey) (cfg : Settings) (consumed called : Bool) (calc : Calculation) (now : DateTime)
    (l : Ledger) (job : ProcessingJob)
    → IsWholeJob job
    → job_held k job ≤ reserved_at k l
    → Balanced k l job (settle_both cfg consumed called calc now l job)
unfolding settle_both
settle_both-Balanced k cfg consumed called calc now l job whole bound =
    let mid = settle_provider_reservation consumed now l job in
    let end = settle_description_cost cfg called calc now mid.0 mid.1 in
    let one = settle_provider-Balanced k consumed now l job whole.usage_whole bound in
    let whole₁ = settle_provider-IsWholeJob consumed now l job whole in
    let two =
      settle_cost-Balanced k cfg called calc now mid.0 mid.1 whole₁.cost_whole whole₁.cost_usd
        (omega (arith, one.0, bound)) in
    Balanced-trans k l mid.0 end.0 job mid.1 end.1 one two

settle_both_whole :
    (cfg : Settings) (consumed called : Bool) (calc : Calculation) (now : DateTime) (l : Ledger)
    (job : ProcessingJob)
    → IsWholeJob job
    → let job' = (settle_both cfg consumed called calc now l job).1 in
      (job'.id ≡ job.id) × IsWholeJob job'
unfolding settle_both
settle_both_whole cfg consumed called calc now l job whole =
    let mid = settle_provider_reservation consumed now l job in
    let kept = settle_provider-IsWhole consumed now l job whole.usage_whole in
    let rest =
      settle_cost_whole cfg called calc now mid.0 mid.1
        (settle_provider-IsWholeJob consumed now l job whole) in
    (rest.0 ∙ kept.0, rest.1)

pub settled_both-IsSound :
    (cfg : Settings) (db : Database) (test : ProcessingJob → Bool) (job job' : ProcessingJob)
    (l' : Ledger) (consumed called : Bool) (calc : Calculation) (now : DateTime)
    → IsSound db
    → first test db.jobs ≡ some job
    → SameBooks (settle_both cfg consumed called calc now db.usage job).1 job'
    → ((k : UsageKey)
        → reserved_at k l'
          ≡ reserved_at k (settle_both cfg consumed called calc now db.usage job).0)
    → IsSound (save (l', job') db)
settled_both-IsSound cfg db test job job' l' consumed called calc now sound e same row =
    let settled = settle_both cfg consumed called calc now db.usage job in
    let whole : IsWholeJob job = All-first IsWholeJob test db.jobs job e sound.whole in
    let kept = settle_both_whole cfg consumed called calc now db.usage job whole in
    save-IsSound db test job job' l' sound e (same.0 ∙ kept.0)
      (SameBooks-IsWholeJob settled.1 job' same kept.1)
      λ k. SameBooks-Balanced k db.usage settled.0 l' job settled.1 job' same (row k) (
        settle_both-Balanced k cfg consumed called calc now db.usage job whole
          (held-le-reserved db test job sound e k))
