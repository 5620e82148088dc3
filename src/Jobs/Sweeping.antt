-- ===== src/Jobs/Sweeping.antt =====
-- A sweep over selected rows keeps the books if each change of a row does, and leaves no row that
-- passes the test it was selected by.
use nektron_moments.Base.{
  ◌≡◌, ◌≢◌, refl, sym, ◌∙◌, subst, Bool, false, some, List, [], ◌∷◌, ◌==◌, All, All-map, All-both,
  select, select_hit, select_miss, inl, inr, Bool-cases, eqb→eq, eqb_refl, ne→eqb, eqb_false→ne,
}
use nektron_moments.Clock.{DateTime}
use nektron_moments.Records.{ProcessingJob}
use nektron_moments.Ledger.{Ledger}
use nektron_moments.Store.{Database, first, replace_job, save, add_job_change}
use nektron_moments.Store.Laws.{All-first, first_hit, Fresh, DistinctIds, DistinctIds-replace_job}
use nektron_moments.Soundness.{IsSound, add_job_change-IsSound}
use nektron_moments.Soundness.Steps.{Covers, Step, Step-IsSound, first-Covers}
use nektron_moments.Jobs.Sweep.{sweep, update_jobs}

-- The row of this id is this row.
abbrev pub Stored : List ProcessingJob → ProcessingJob → Type 0
Stored js job = first (λ j. j.id == job.id) js ≡ some job

Stored-head : (job : ProcessingJob) (js : List ProcessingJob) → Stored (job ∷ js) job
unfolding first
Stored-head job js = rw (eqb_refl job.id) refl

Stored-tail :
    (job j : ProcessingJob) (js : List ProcessingJob)
    → j.id ≢ job.id
    → Stored js job
    → Stored (j ∷ js) job
unfolding first
Stored-tail job j js n h = rw (ne→eqb j.id job.id n) h

-- Identifiers are distinct, so every row is the row of its id.
pub All-Stored : (js : List ProcessingJob) → DistinctIds js → All (Stored js) js
All-Stored [] d = tt
All-Stored (j ∷ js) d = (
  Stored-head j js,
  All-map (λ x. (x.id ≢ j.id) × Stored js x) (Stored (j ∷ js)) js
      (λ x h. Stored-tail x j js (λ e. h.0 (sym e)) h.1)
      (All-both (λ x. x.id ≢ j.id) (Stored js) js d.0 (All-Stored js d.1)),
)

Stored-replace_job :
    (js : List ProcessingJob) (job other : ProcessingJob)
    → other.id ≢ job.id
    → Stored js job
    → Stored (replace_job other js) job
unfolding first replace_job
Stored-replace_job [] job other n h = h
Stored-replace_job (j ∷ js) job other n h = elim (Bool-cases (j.id == other.id)) [
  | inl hit ↦
      rw (hit, ne→eqb other.id job.id n)
        (rw (ne→eqb j.id job.id (λ e. n (sym (eqb→eq j.id other.id hit) ∙ e))) at h)
  | inr miss ↦ elim (Bool-cases (j.id == job.id)) [
    | inl same ↦ rw (miss, same) (rw same at h)
    | inr differs ↦ rw (miss, differs) (Stored-replace_job js job other n (rw differs at h))
  ]
]

-- A row that was found is the row of its id.
pub first-Stored :
    (test : ProcessingJob → Bool) (js : List ProcessingJob) (job : ProcessingJob)
    → DistinctIds js
    → first test js ≡ some job
    → Stored js job
first-Stored test js job d e = All-first (Stored js) test js job e (All-Stored js d)

pub Stored-update_jobs :
    (test : ProcessingJob → Bool) (f : ProcessingJob → ProcessingJob) (js : List ProcessingJob)
    (job : ProcessingJob)
    → ((j : ProcessingJob) → (f j).id ≡ j.id)
    → test job ≡ false
    → Stored js job
    → Stored (update_jobs test f js) job
unfolding first update_jobs
Stored-update_jobs test f [] job same out h = h
Stored-update_jobs test f (j ∷ js) job same out h = elim (Bool-cases (j.id == job.id)) [
  | inl hit ↦
      let this : j ≡ job = first_hit (λ x. x.id == job.id) j js job hit h in
      rw (this, out, eqb_refl job.id) refl
  | inr miss ↦
      let rest = Stored-update_jobs test f js job same out (rw miss at h) in
      elim (Bool-cases (test j)) [
        | inl changed ↦ rw (changed, same j, miss) rest
        | inr kept ↦ rw (kept, miss) rest
      ]
]

swept :
    (now : DateTime) (db : Database) (r : Ledger × ProcessingJob) (jobs : List ProcessingJob)
    (job : ProcessingJob)
    → r.1.id ≡ job.id
    → Fresh job.id jobs
    → All (Stored db.jobs) jobs
    → All (Stored (add_job_change now r.1 (save r db)).jobs) jobs
unfolding add_job_change save
swept now db r jobs job same fresh stored =
    All-map (λ x. (x.id ≢ job.id) × Stored db.jobs x) (Stored (replace_job r.1 db.jobs)) jobs
      (λ x h. Stored-replace_job db.jobs x r.1 (λ e. h.0 (sym e ∙ same)) h.1)
      (All-both (λ x. x.id ≢ job.id) (Stored db.jobs) jobs fresh stored)

-- What holds of a written row and of every other row holds of the table.
All-replace_other :
    (P : ProcessingJob → Type 0) (js : List ProcessingJob) (job : ProcessingJob)
    → DistinctIds js
    → P job
    → All (λ j. j.id ≢ job.id → P j) js
    → All P (replace_job job js)
unfolding replace_job
All-replace_other P [] job d p h = tt
All-replace_other P (j ∷ js) job d p h = elim (Bool-cases (j.id == job.id)) [
  | inl hit ↦ rw hit (
    p,
    All-map (λ x. (x.id ≢ j.id) × (x.id ≢ job.id → P x)) P js
        (λ x both. both.1 (λ e. both.0 (e ∙ sym (eqb→eq j.id job.id hit))))
        (All-both (λ x. x.id ≢ j.id) (λ x. x.id ≢ job.id → P x) js d.0 h.1),
  )
  | inr miss ↦ rw miss (h.0 (eqb_false→ne j.id job.id miss), All-replace_other P js job d.1 p h.1)
]

-- A selection misses only rows that do not pass the test.
pub selected :
    (test : ProcessingJob → Bool) (js : List ProcessingJob)
    → All (λ j. Fresh j.id (select test js) → test j ≡ false) js
selected test [] = tt
selected test (j ∷ js) =
    let Misses : List ProcessingJob → Type 0 =
      λ kept. All (λ x. Fresh x.id kept → test x ≡ false) (j ∷ js) in
    elim (Bool-cases (test j)) [
      | inl hit ↦ subst Misses (sym (select_hit test j js hit)) (
        λ fresh. absurd (fresh.0 refl),
        All-map (λ x. Fresh x.id (select test js) → test x ≡ false)
            (λ x. Fresh x.id (j ∷ select test js) → test x ≡ false) js (λ x h fresh. h fresh.1)
            (selected test js),
      )
      | inr miss ↦ subst Misses (sym (select_miss test j js miss)) (λ fresh. miss, selected test js)
    ]

module _ (now : DateTime) (change : Ledger → ProcessingJob → Ledger × ProcessingJob)
    (is_step : (l : Ledger) (job : ProcessingJob) → Covers l job → Step l job (change l job)) where
  -- Every round finds the row as it was selected, and so keeps the books.
  pub sweep-IsSound :
      (jobs : List ProcessingJob) (db : Database)
      → IsSound db
      → DistinctIds jobs
      → All (Stored db.jobs) jobs
      → IsSound (sweep now change jobs db)
  unfolding sweep
  sweep-IsSound [] db sound distinct stored = sound
  sweep-IsSound (job ∷ jobs) db sound distinct stored =
      let r = change db.usage job in
      let covers = first-Covers db (λ j. j.id == job.id) job sound stored.0 in
      let step = is_step db.usage job covers in
      sweep-IsSound jobs (add_job_change now r.1 (save r db))
        (add_job_change-IsSound now r.1 (save r db)
          (Step-IsSound db (λ j. j.id == job.id) job r sound stored.0 step))
        distinct.1 (swept now db r jobs job step.0 distinct.0 stored.1)

  -- A row that is not swept stays.
  pub sweep_stays :
      (jobs : List ProcessingJob) (db : Database) (other : ProcessingJob)
      → IsSound db
      → DistinctIds jobs
      → All (Stored db.jobs) jobs
      → Fresh other.id jobs
      → Stored db.jobs other
      → Stored (sweep now change jobs db).jobs other
  unfolding sweep
  sweep_stays [] db other sound distinct stored fresh h = h
  sweep_stays (job ∷ jobs) db other sound distinct stored fresh h =
      let r = change db.usage job in
      let covers = first-Covers db (λ j. j.id == job.id) job sound stored.0 in
      let step = is_step db.usage job covers in
      sweep_stays jobs (add_job_change now r.1 (save r db)) other
        (add_job_change-IsSound now r.1 (save r db)
          (Step-IsSound db (λ j. j.id == job.id) job r sound stored.0 step))
        distinct.1 (swept now db r jobs job step.0 distinct.0 stored.1) fresh.1
        (swept now db r (other ∷ []) job step.0 ((λ e. fresh.0 (sym e)), tt) (h, tt)).0

module _ (now : DateTime) (change : Ledger → ProcessingJob → Ledger × ProcessingJob)
    (keeps_id : (l : Ledger) (job : ProcessingJob) → (change l job).1.id ≡ job.id) where
  -- After a sweep, rows that were not swept and rows that were are all of a kind `P`, if those that
  -- were not are so already and every change makes one.
  pub sweep-All :
      (P : ProcessingJob → Type 0) (jobs : List ProcessingJob) (db : Database)
      → ((l : Ledger) (job : ProcessingJob) → P (change l job).1)
      → DistinctIds db.jobs
      → DistinctIds jobs
      → All (λ j. Fresh j.id jobs → P j) db.jobs
      → All P (sweep now change jobs db).jobs
  unfolding sweep add_job_change save
  sweep-All P [] db made unique distinct rest =
      All-map (λ j. Fresh j.id [] → P j) P db.jobs (λ j h. h tt) rest
  sweep-All P (job ∷ jobs) db made unique distinct rest =
      let r = change db.usage job in
      let same = keeps_id db.usage job in
      sweep-All P jobs (add_job_change now r.1 (save r db)) made
        (DistinctIds-replace_job db.jobs r.1 unique) distinct.1
        (All-replace_other (λ j. Fresh j.id jobs → P j) db.jobs r.1 unique
          (λ fresh. made db.usage job)
          (All-map (λ j. Fresh j.id (job ∷ jobs) → P j) (λ j. j.id ≢ r.1.id → Fresh j.id jobs → P j)
            db.jobs (λ j h n fresh. h (λ e. n (sym e ∙ sym same), fresh)) rest))
