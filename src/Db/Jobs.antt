-- ===== src/Db/Jobs.antt =====
-- Looking a job up by its tenant and id, after the job is written.
use mathlib.Core.Option.{some-injective}
use scene_api.Base.{
  String, ◌≡◌, refl, sym, ap, ◌∙◌, inl, inr, Bool, true, false, ◌&&◌, some, List, [], ◌∷◌, arith,
  ◌==◌, eq_iff, if◌then◌else◌, Bool-cases, first,
}
use scene_api.Db.{Job, save_job}

-- The filter of a tenant's job by its id.
abbrev pub job_named : (tenant_id job_id : String) → Job → Bool
job_named tenant_id job_id k = k.tenant_id == tenant_id && k.job_id == job_id

pub first_job :
    (tenant_id job_id : String) (jobs : List Job) (j : Job)
    → first (job_named tenant_id job_id) jobs ≡ some j
    → (j.tenant_id ≡ tenant_id) × (j.job_id ≡ job_id)
first_job tenant_id job_id [] j e = cc
first_job tenant_id job_id (k ∷ ks) j e = elim (Bool-cases (job_named tenant_id job_id k)) [
  | inl matched ↦
      let same : k ≡ j = some-injective k j (rw matched at e) in
      (
        ap (λ x. x.tenant_id) (sym same) ∙ ground (arith, eq_iff k.tenant_id tenant_id),
        ap (λ x. x.job_id) (sym same) ∙ ground (arith, eq_iff k.job_id job_id),
      )
  | inr miss ↦ first_job tenant_id job_id ks j (rw miss at e)
]

-- A job that is written is found.
pub saved_job :
    (tenant_id job_id : String) (jobs : List Job) (j j' : Job)
    → job_named tenant_id job_id j' ≡ true
    → first (job_named tenant_id job_id) jobs ≡ some j
    → first (job_named tenant_id job_id) (save_job j' jobs) ≡ some j'
saved_job tenant_id job_id [] j j' named e = cc
saved_job tenant_id job_id (k ∷ ks) j j' named e = elim (Bool-cases (k.job_id == j'.job_id)) [
  | inl same ↦ rw (same, named) refl
  | inr other ↦
      let miss : job_named tenant_id job_id k ≡ false =
        ground
          (arith, eq_iff k.job_id job_id, eq_iff j'.job_id job_id, eq_iff k.job_id j'.job_id) in
      rw (other, miss) (saved_job tenant_id job_id ks j j' named (rw miss at e))
]

-- The write of a job leaves the jobs of other ids.
pub other_jobs :
    (tenant id : String) (jobs : List Job) (j' : Job)
    → (id == j'.job_id) ≡ false
    → first (job_named tenant id) (save_job j' jobs) ≡ first (job_named tenant id) jobs
other_jobs tenant id [] j' h = refl
other_jobs tenant id (k ∷ ks) j' h = elim (Bool-cases (k.job_id == j'.job_id)) [
  | inl same ↦
      let new_miss : job_named tenant id j' ≡ false =
        ground (arith, eq_iff id j'.job_id, eq_iff j'.job_id id) in
      let old_miss : job_named tenant id k ≡ false =
        ground
          (arith, eq_iff id k.job_id, eq_iff k.job_id id, (eq_iff k.job_id j'.job_id).0 same) in
      rw (same, new_miss, old_miss) (other_jobs tenant id ks j' h)
  | inr other ↦
      rw other
        (ap (λ r. if job_named tenant id k then some k else r) (other_jobs tenant id ks j' h))
]
