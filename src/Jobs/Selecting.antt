-- ===== src/Jobs/Selecting.antt =====
-- Rows that a transaction selects, in an order and up to a limit: they are stored, and each is
-- selected once. Also `update`s that the books do not read.
use nektron_moments.Base.{
  ℕ, zero, suc, ◌≡◌, ◌≢◌, refl, sym, subst, Bool, List, [], ◌∷◌, All, select, select_hit,
  select_miss, insert_by, sort_by, take, All-insert_by, All-sort_by, All-take, All-select', inl,
  inr, Bool-cases, sum_of, if◌then◌else◌,
}
use nektron_moments.Records.{ProcessingJob, UsageKey}
use nektron_moments.Reservations.Held.{job_held}
use nektron_moments.Store.{Database}
use nektron_moments.Store.Laws.{Fresh, DistinctIds}
use nektron_moments.Soundness.{IsSound, IsWholeJob, SameBooks, SameBooks-IsWholeJob}
use nektron_moments.Jobs.Sweep.{update_jobs}

-- `order_by(...).limit(n)` of the rows that pass a test.
abbrev pub chosen :
    ℕ
    → (ProcessingJob → ProcessingJob → Bool)
    → (ProcessingJob → Bool)
    → List ProcessingJob
    → List ProcessingJob
chosen n before test js = take n (sort_by before (select test js))

pub DistinctIds-select :
    (test : ProcessingJob → Bool) (js : List ProcessingJob)
    → DistinctIds js
    → DistinctIds (select test js)
unfolding select
DistinctIds-select test [] d = d
DistinctIds-select test (j ∷ js) d = elim (Bool-cases (test j)) [
  | inl hit ↦
      subst DistinctIds (sym (select_hit test j js hit))
        (All-select' (λ x. x.id ≢ j.id) test js d.0, DistinctIds-select test js d.1)
  | inr miss ↦ subst DistinctIds (sym (select_miss test j js miss)) (DistinctIds-select test js d.1)
]

DistinctIds-insert_by :
    (before : ProcessingJob → ProcessingJob → Bool) (job : ProcessingJob) (js : List ProcessingJob)
    → Fresh job.id js
    → DistinctIds js
    → DistinctIds (insert_by before job js)
unfolding insert_by
DistinctIds-insert_by before job [] f d = (tt, tt)
DistinctIds-insert_by before job (j ∷ js) f d = elim (Bool-cases (before job j)) [
  | inl now ↦ rw now (f, d)
  | inr later ↦ rw later (
    All-insert_by (λ x. x.id ≢ j.id) before job js (λ e. f.0 (sym e)) d.0,
    DistinctIds-insert_by before job js f.1 d.1,
  )
]

pub DistinctIds-sort_by :
    (before : ProcessingJob → ProcessingJob → Bool) (js : List ProcessingJob)
    → DistinctIds js
    → DistinctIds (sort_by before js)
unfolding sort_by
DistinctIds-sort_by before [] d = tt
DistinctIds-sort_by before (j ∷ js) d =
    DistinctIds-insert_by before j (sort_by before js)
      (All-sort_by (λ x. x.id ≢ j.id) before js d.0) (DistinctIds-sort_by before js d.1)

pub DistinctIds-take : (n : ℕ) (js : List ProcessingJob) → DistinctIds js → DistinctIds (take n js)
DistinctIds-take zero js d = tt
DistinctIds-take (suc n) [] d = tt
DistinctIds-take (suc n) (j ∷ js) d =
    (All-take (λ x. x.id ≢ j.id) n js d.0, DistinctIds-take n js d.1)

pub DistinctIds-chosen :
    (n : ℕ) (before : ProcessingJob → ProcessingJob → Bool) (test : ProcessingJob → Bool)
    (js : List ProcessingJob)
    → DistinctIds js
    → DistinctIds (chosen n before test js)
DistinctIds-chosen n before test js d =
    DistinctIds-take n (sort_by before (select test js))
      (DistinctIds-sort_by before (select test js) (DistinctIds-select test js d))

pub All-chosen :
    (P : ProcessingJob → Type 0) (n : ℕ) (before : ProcessingJob → ProcessingJob → Bool)
    (test : ProcessingJob → Bool) (js : List ProcessingJob)
    → All P js
    → All P (chosen n before test js)
All-chosen P n before test js h =
    All-take P n (sort_by before (select test js))
      (All-sort_by P before (select test js) (All-select' P test js h))

-- Assignments to rows that the books do not read.
module _ (test : ProcessingJob → Bool) (f : ProcessingJob → ProcessingJob)
    (same : (job : ProcessingJob) → SameBooks job (f job)) where
  one_of : (job : ProcessingJob) → SameBooks job (if test job then f job else job)
  one_of job = elim (Bool-cases (test job)) [
    | inl hit ↦ rw hit (same job)
    | inr miss ↦ rw miss (refl, refl, refl, refl)
  ]

  All-update_jobs {κ} :
      (P Q : ProcessingJob → Type κ) (js : List ProcessingJob)
      → ((j j' : ProcessingJob) → SameBooks j j' → P j → Q j')
      → All P js
      → All Q (update_jobs test f js)
  unfolding update_jobs
  All-update_jobs P Q [] g h = tt
  All-update_jobs P Q (j ∷ js) g h =
      (g j (if test j then f j else j) (one_of j) h.0, All-update_jobs P Q js g h.1)

  DistinctIds-update_jobs :
      (js : List ProcessingJob) → DistinctIds js → DistinctIds (update_jobs test f js)
  unfolding update_jobs
  DistinctIds-update_jobs [] d = tt
  DistinctIds-update_jobs (j ∷ js) d = (
    All-update_jobs (λ x. x.id ≢ j.id) (λ x. x.id ≢ (if test j then f j else j).id) js
        (λ x x' s n. rw (s.0, (one_of j).0) n) d.0,
    DistinctIds-update_jobs js d.1,
  )

  sum-update_jobs :
      (k : UsageKey) (js : List ProcessingJob)
      → sum_of (job_held k) (update_jobs test f js) ≡ sum_of (job_held k) js
  unfolding update_jobs
  sum-update_jobs k [] = refl
  sum-update_jobs k (j ∷ js) = let s = one_of j in rw (s.1, s.2, s.3, sum-update_jobs k js) refl

  pub update_jobs-IsSound :
      (db : Database) → IsSound db → IsSound (record db { jobs = update_jobs test f db.jobs })
  update_jobs-IsSound db sound = record {
    distinct = DistinctIds-update_jobs db.jobs sound.distinct;
    whole =
        All-update_jobs IsWholeJob IsWholeJob db.jobs
          (λ j j' s whole. SameBooks-IsWholeJob j j' s whole) sound.whole;
    balanced = λ k. rw (sum-update_jobs k db.jobs) (sound.balanced k);
  }
