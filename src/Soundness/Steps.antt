-- ===== src/Soundness/Steps.antt =====
-- One job and its rows, taken from one state to the next: what the books ask of such a step, that
-- steps compose, and that settling and releasing are steps.
use nektron_moments.Base.{◌≤◌, ◌≡◌, refl, ◌∙◌, Bool, true, false, some, arith, inl, inr}
use nektron_moments.Clock.{DateTime, Month}
use nektron_moments.Settings.{Settings}
use nektron_moments.Records.{UsageKey, Reservation, Rates, ProcessingJob}
use nektron_moments.Ledger.{Ledger}
use nektron_moments.Cost.{Calculation}
use nektron_moments.Reservations.{settle_provider_reservation}
use nektron_moments.Reservations.Held.{
  reserved_at, job_held, Balanced, settle_provider-Balanced, settle_provider_drops,
  settle_provider-IsWhole,
}
use nektron_moments.Charges.{settle_cost, settle_description_cost}
use nektron_moments.Charges.Settlement.{settle_cost_cases, settle_cost-Balanced}
use nektron_moments.Store.{Database, first, save}
use nektron_moments.Store.Laws.{All-first}
use nektron_moments.Soundness.{
  IsSound, IsWholeJob, SameBooks, SameBooks-IsWholeJob, SameBooks-Balanced, held-le-reserved,
  save-IsSound,
}
use nektron_moments.Reservations.{release_description_request}
use nektron_moments.Reservations.Releases.{release_description-Balanced}
use nektron_moments.Reservations.Released.{release-IsWholeJob}

settled_cost_whole :
    (called : Bool) (calc : Calculation) (now : DateTime) (l : Ledger) (job : ProcessingJob)
    (r : Reservation) (month : Month) (rates : Rates)
    → IsWholeJob job
    → let job' = (settle_cost called calc now l job r month rates).1 in
      (job'.id ≡ job.id) × IsWholeJob job'
unfolding settle_cost
settled_cost_whole true calc now l job r month rates whole = (
  refl,
  record {
    usage_whole = whole.usage_whole;
    cost_whole = λ held. absurd (ground (arith, held));
    cost_usd = λ held. absurd (ground (arith, held));
  },
)
settled_cost_whole false calc now l job r month rates whole = (
  refl,
  record {
    usage_whole = whole.usage_whole;
    cost_whole = λ held. absurd (ground (arith, held));
    cost_usd = λ held. absurd (ground (arith, held));
  },
)

pub settle_cost_whole :
    (cfg : Settings) (called : Bool) (calc : Calculation) (now : DateTime) (l : Ledger)
    (job : ProcessingJob)
    → IsWholeJob job
    → let job' = (settle_description_cost cfg called calc now l job).1 in
      (job'.id ≡ job.id) × IsWholeJob job'
settle_cost_whole cfg called calc now l job whole =
    elim (settle_cost_cases cfg called calc now l job) [
      | inl same ↦ rw same (refl, whole)
      | inr (r, month, rates, e, reserved, em, er, settled) ↦
          rw settled (settled_cost_whole called calc now l job r month rates whole)
    ]

pub settle_provider-IsWholeJob :
    (consumed : Bool) (now : DateTime) (l : Ledger) (job : ProcessingJob)
    → IsWholeJob job
    → IsWholeJob (settle_provider_reservation consumed now l job).1
settle_provider-IsWholeJob consumed now l job whole =
    let drops = settle_provider_drops consumed now l job in
    record {
      usage_whole = (settle_provider-IsWhole consumed now l job whole.usage_whole).1;
      cost_whole = rw drops.1 whole.cost_whole;
      cost_usd = rw drops.1 whole.cost_usd;
    }

-- Two steps that each keep the row and the job in step do so together.
pub Balanced-trans :
    (k : UsageKey) (l l₁ l₂ : Ledger) (job job₁ job₂ : ProcessingJob)
    → Balanced k l job (l₁, job₁)
    → Balanced k l₁ job₁ (l₂, job₂)
    → Balanced k l job (l₂, job₂)
Balanced-trans k l l₁ l₂ job job₁ job₂ one two = (omega (arith, one.0, two.0), two.1 ∙ one.1)

-- From rows that cover a whole job, a step to rows that cover it too, still whole, and in step.
abbrev pub Covers : Ledger → ProcessingJob → Type 0
Covers l job = IsWholeJob job × ((k : UsageKey) → job_held k job ≤ reserved_at k l)

abbrev pub Step : Ledger → ProcessingJob → Ledger × ProcessingJob → Type 0
Step l job (l', job') =
    (job'.id ≡ job.id) × IsWholeJob job' × ((k : UsageKey) → Balanced k l job (l', job'))

pub Step-Covers :
    (l l' : Ledger) (job job' : ProcessingJob)
    → Covers l job
    → Step l job (l', job')
    → Covers l' job'
Step-Covers l l' job job' covers step = (step.1, λ k. omega (arith, covers.1 k, (step.2 k).0))

pub Step-trans :
    (l l₁ l₂ : Ledger) (job job₁ job₂ : ProcessingJob)
    → Step l job (l₁, job₁)
    → Step l₁ job₁ (l₂, job₂)
    → Step l job (l₂, job₂)
Step-trans l l₁ l₂ job job₁ job₂ one two =
    (two.0 ∙ one.0, two.1, λ k. Balanced-trans k l l₁ l₂ job job₁ job₂ (one.2 k) (two.2 k))

pub SameBooks-Step :
    (l : Ledger) (job job' : ProcessingJob)
    → SameBooks job job'
    → IsWholeJob job
    → Step l job (l, job')
SameBooks-Step l job job' same whole = (
  same.0,
  SameBooks-IsWholeJob job job' same whole,
  λ k. SameBooks-Balanced k l l l job job job' same refl (refl, refl),
)

pub release-Step :
    (now : DateTime) (l : Ledger) (job : ProcessingJob)
    → Covers l job
    → Step l job (release_description_request now l job)
release-Step now l job (whole, bound) =
    let kept = release-IsWholeJob now l job whole in
    (
      kept.0,
      kept.1,
      λ k. release_description-Balanced k now l job whole.usage_whole whole.cost_whole (bound k),
    )

pub provider-Step :
    (consumed : Bool) (now : DateTime) (l : Ledger) (job : ProcessingJob)
    → Covers l job
    → Step l job (settle_provider_reservation consumed now l job)
provider-Step consumed now l job (whole, bound) = (
  (settle_provider-IsWhole consumed now l job whole.usage_whole).0,
  settle_provider-IsWholeJob consumed now l job whole,
  λ k. settle_provider-Balanced k consumed now l job whole.usage_whole (bound k),
)

pub cost-Step :
    (cfg : Settings) (called : Bool) (calc : Calculation) (now : DateTime) (l : Ledger)
    (job : ProcessingJob)
    → Covers l job
    → Step l job (settle_description_cost cfg called calc now l job)
cost-Step cfg called calc now l job (whole, bound) =
    let kept = settle_cost_whole cfg called calc now l job whole in
    (
      kept.0,
      kept.1,
      λ k.
          settle_cost-Balanced k cfg called calc now l job whole.cost_whole whole.cost_usd
            (bound k),
    )

-- A step followed by assignments that the books do not read.
pub Step-SameBooks :
    (l : Ledger) (job : ProcessingJob) (r : Ledger × ProcessingJob) (job' : ProcessingJob)
    → Step l job r
    → SameBooks r.1 job'
    → Step l job (r.0, job')
Step-SameBooks l job r job' step same =
    Step-trans l r.0 r.0 job r.1 job' step (SameBooks-Step r.0 r.1 job' same step.1)

pub first-Covers :
    (db : Database) (test : ProcessingJob → Bool) (job : ProcessingJob)
    → IsSound db
    → first test db.jobs ≡ some job
    → Covers db.usage job
first-Covers db test job sound e =
    (All-first IsWholeJob test db.jobs job e sound.whole, held-le-reserved db test job sound e)

-- Saving a step of a selected job keeps the books sound.
pub Step-IsSound :
    (db : Database) (test : ProcessingJob → Bool) (job : ProcessingJob) (r : Ledger × ProcessingJob)
    → IsSound db
    → first test db.jobs ≡ some job
    → Step db.usage job r
    → IsSound (save r db)
Step-IsSound db test job r sound e step =
    save-IsSound db test job r.1 r.0 sound e step.0 step.1 step.2
