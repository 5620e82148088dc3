-- ===== src/Store/Laws.antt =====
-- The table of jobs under a write: what a sum over it and a property of its rows become.
use nektron_moments.Base.{
  ℕ, ◌+◌, ◌≤◌, ◌≡◌, ◌≢◌, sym, subst, ap, ◌∙◌, Bool, true, some, List, [], ◌∷◌, ◌==◌, All, sum_of,
  arith, inl, inr, Bool-cases, eqb→eq, eq→eqb, ne→eqb, eqb_false→ne,
}
use nektron_moments.Records.{ProcessingJob}
use nektron_moments.Store.{first, replace_job}

pub some_inj {ℓ} : {A : Type ℓ} (a b : A) → some a ≡ some b → a ≡ b
some_inj a b e = cc

-- A row that passes the test at the head of the table is the one that is found.
pub first_hit {ℓ} :
    {A : Type ℓ} (test : A → Bool) (x : A) (xs : List A) (y : A)
    → test x ≡ true
    → first test (x ∷ xs) ≡ some y
    → x ≡ y
unfolding first
first_hit test x xs y hit e = some_inj x y (rw hit at e)

-- No job of the list has this id.
abbrev pub Fresh : ℕ → List ProcessingJob → Type 0
Fresh id js = All (λ (j : ProcessingJob). j.id ≢ id) js

-- The primary key: no two rows have one id.
abbrev pub DistinctIds : List ProcessingJob → Type 0
DistinctIds [] = Unit
DistinctIds (j ∷ js) = Fresh j.id js × DistinctIds js

pub first_not-Fresh :
    (test : ProcessingJob → Bool) (id : ℕ) (js : List ProcessingJob) {job : ProcessingJob}
    → first test js ≡ some job
    → Fresh id js
    → job.id ≢ id
unfolding first
first_not-Fresh test id [] e h = cc
first_not-Fresh test id (j ∷ js) e h = elim (Bool-cases (test j)) [
  | inl hit ↦ ground arith
  | inr miss ↦ first_not-Fresh test id js (rw miss at e) h.1
]

pub sum-replace_job :
    (f : ProcessingJob → ℕ) (test : ProcessingJob → Bool) (js : List ProcessingJob)
    (job job' : ProcessingJob)
    → first test js ≡ some job
    → DistinctIds js
    → job'.id ≡ job.id
    → sum_of f (replace_job job' js) + f job ≡ sum_of f js + f job'
unfolding first replace_job
sum-replace_job f test [] job job' e d same = cc
sum-replace_job f test (j ∷ js) job job' e d same = elim (Bool-cases (test j)) [
  | inl hit ↦
      let this : j ≡ job = first_hit test j js job hit e in
      rw (eq→eqb j.id job'.id (ap (λ (x : ProcessingJob). x.id) this ∙ sym same))
        (omega (arith, ap f this))
  | inr miss ↦
      let e' : first test js ≡ some job = rw miss at e in
      let other : job.id ≢ j.id = first_not-Fresh test j.id js e' d.0 in
      rw (ne→eqb j.id job'.id (λ x. other (sym (x ∙ same))))
        (omega (arith, sum-replace_job f test js job job' e' d.1 same))
]

pub le-sum_first :
    (f : ProcessingJob → ℕ) (test : ProcessingJob → Bool) (js : List ProcessingJob)
    (job : ProcessingJob)
    → first test js ≡ some job
    → f job ≤ sum_of f js
unfolding first
le-sum_first f test [] job e = cc
le-sum_first f test (j ∷ js) job e = elim (Bool-cases (test j)) [
  | inl hit ↦ ground arith
  | inr miss ↦ ground (arith, le-sum_first f test js job)
]

pub All-first {ℓ} :
    (P : ProcessingJob → Type ℓ) (test : ProcessingJob → Bool) (js : List ProcessingJob)
    (job : ProcessingJob)
    → first test js ≡ some job
    → All P js
    → P job
unfolding first
All-first P test [] job e h = cc
All-first P test (j ∷ js) job e h = elim (Bool-cases (test j)) [
  | inl hit ↦ subst P (first_hit test j js job hit e) h.0
  | inr miss ↦ All-first P test js job (rw miss at e) h.1
]

pub All-replace_job {ℓ} :
    (P : ProcessingJob → Type ℓ) (js : List ProcessingJob) (job : ProcessingJob)
    → P job
    → All P js
    → All P (replace_job job js)
unfolding replace_job
All-replace_job P [] job p h = tt
All-replace_job P (j ∷ js) job p h = elim (Bool-cases (j.id == job.id)) [
  | inl hit ↦ rw hit (p, h.1)
  | inr miss ↦ rw miss (h.0, All-replace_job P js job p h.1)
]

Fresh-replace_job :
    (id : ℕ) (js : List ProcessingJob) (job : ProcessingJob)
    → job.id ≢ id
    → Fresh id js
    → Fresh id (replace_job job js)
unfolding replace_job
Fresh-replace_job id [] job n h = tt
Fresh-replace_job id (j ∷ js) job n h = elim (Bool-cases (j.id == job.id)) [
  | inl hit ↦ rw hit (n, h.1)
  | inr miss ↦ rw miss (h.0, Fresh-replace_job id js job n h.1)
]

pub DistinctIds-replace_job :
    (js : List ProcessingJob) (job : ProcessingJob)
    → DistinctIds js
    → DistinctIds (replace_job job js)
unfolding replace_job
DistinctIds-replace_job [] job d = tt
DistinctIds-replace_job (j ∷ js) job d = elim (Bool-cases (j.id == job.id)) [
  | inl hit ↦ rw hit (subst (λ i. Fresh i js) (eqb→eq j.id job.id hit) d.0, d.1)
  | inr miss ↦ rw miss (
    Fresh-replace_job j.id js job (λ e. eqb_false→ne j.id job.id miss (sym e)) d.0,
    DistinctIds-replace_job js job d.1,
  )
]
