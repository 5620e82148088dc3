-- ===== src/Geocode/Books.antt =====
-- Every transaction of a geocode job keeps the books: reserved units are held units.
use nektron_moments.Base.{◌≡◌, refl, ◌∙◌, Bool, true, none, some, inl, inr, ◌⊎◌}
use nektron_moments.Platform.{Platform}
use nektron_moments.Clock.{DateTime}
use nektron_moments.Records.{UsageKey, ProcessingJob, GeocodeJob, MediaLocation}
use nektron_moments.Ledger.{Ledger}
use nektron_moments.Reservations.{settle_provider_reservation}
use nektron_moments.Reservations.Held.{
  reserved_at, settle_provider-Balanced, settle_provider_drops, settle_provider-IsWhole,
}
use nektron_moments.Store.{Database, Outcome, committed, first, save}
use nektron_moments.Store.Laws.{All-first}
use nektron_moments.Soundness.{
  IsSound, IsWholeJob, SameBooks, SameBooks-IsWholeJob, SameBooks-Balanced, held-le-reserved,
  save-IsSound, add_job_change-IsSound,
}
use nektron_moments.Geocode.Fence.{claimed_cases}
use nektron_moments.Geocode.Claim.{
  cancel_stale_geocode_job, stale, is_claimed_row, claimed_geocode_job,
}

-- A selected job whose provider reservation is settled, and whose other fields may then change.
pub settled-IsSound :
    (db : Database) (test : ProcessingJob → Bool) (job job' : ProcessingJob) (l' : Ledger)
    (consumed : Bool) (now : DateTime)
    → IsSound db
    → first test db.jobs ≡ some job
    → SameBooks (settle_provider_reservation consumed now db.usage job).1 job'
    → ((k : UsageKey)
        → reserved_at k l'
          ≡ reserved_at k (settle_provider_reservation consumed now db.usage job).0)
    → IsSound (save (l', job') db)
settled-IsSound db test job job' l' consumed now sound e same row =
    let settled = settle_provider_reservation consumed now db.usage job in
    let whole : IsWholeJob job = All-first IsWholeJob test db.jobs job e sound.whole in
    let drops = settle_provider_drops consumed now db.usage job in
    let kept = settle_provider-IsWhole consumed now db.usage job whole.usage_whole in
    let settled_whole : IsWholeJob settled.1 = record {
      usage_whole = kept.1;
      cost_whole = rw drops.1 whole.cost_whole;
      cost_usd = rw drops.1 whole.cost_usd;
    } in
    save-IsSound db test job job' l' sound e (same.0 ∙ kept.0)
      (SameBooks-IsWholeJob settled.1 job' same settled_whole)
      λ k. SameBooks-Balanced k db.usage settled.0 l' job settled.1 job' same (row k) (
        settle_provider-Balanced k consumed now db.usage job whole.usage_whole
          (held-le-reserved db test job sound e k))

-- A selected job of which only fields change that the books do not read.
pub same-IsSound :
    (db : Database) (test : ProcessingJob → Bool) (job job' : ProcessingJob)
    → IsSound db
    → first test db.jobs ≡ some job
    → SameBooks job job'
    → IsSound (save (db.usage, job') db)
same-IsSound db test job job' sound e same =
    save-IsSound db test job job' db.usage sound e same.0
      (SameBooks-IsWholeJob job job' same (All-first IsWholeJob test db.jobs job e sound.whole))
      λ k. SameBooks-Balanced k db.usage db.usage db.usage job job job' same refl (refl, refl)

pub stale-IsSound :
    (db : Database) (test : ProcessingJob → Bool) (job : ProcessingJob) (now : DateTime)
    → IsSound db
    → first test db.jobs ≡ some job
    → IsSound (stale now job db)
unfolding stale
stale-IsSound db test job now sound e =
    settled-IsSound db test job _ _ true now sound e (refl, refl, refl, refl) (λ k. refl)

-- What the check of a claim leaves in the database: the books, and, if the claim holds, the database
-- and the row that it selected there.
pub claimed-IsSound :
    (p : Platform) (claim : GeocodeJob) (now : DateTime) (db : Database)
    → IsSound db
    → let (found, db₁) = claimed_geocode_job p claim now db in
      IsSound db₁
      × ((found ≡ none)
          ⊎ ((job : ProcessingJob) × (row : MediaLocation) × (found ≡ some (job, row))
              × (first (is_claimed_row claim) db₁.jobs ≡ some job)))
claimed-IsSound p claim now db sound = elim (claimed_cases p claim now db) [
  | inl e ↦ rw e (sound, inl refl)
  | inr (inl (job, held, e)) ↦ rw e (
    add_job_change-IsSound now (cancel_stale_geocode_job now job) (stale now job db)
        (stale-IsSound db (is_claimed_row claim) job now sound held.0),
    inl refl,
  )
  | inr (inr (job, row, held, _, e)) ↦ rw e (sound, inr (job, row, refl, held.0))
]

-- After any outcome of a transaction the books are sound.
abbrev pub KeepsBooks : {A : Type 0} → Database → Outcome A → Type 0
KeepsBooks db r = IsSound (committed db r)
