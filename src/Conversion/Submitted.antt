-- ===== src/Conversion/Submitted.antt =====
-- What a conversion that is submitted carries out
-- (sceneapi/server/services/artifact_conversion_service.py).
use mathlib.Core.Bool.{false≢true}
use mathlib.Core.Option.{some-injective}
use scene_api.Base.{
  String, ◌≡◌, refl, sym, ap, ◌∙◌, subst, inl, inr, Bool, true, false, not, Option, none, some,
  List, if◌then◌else◌, Bool-cases, not-true, contains,
}
use scene_api.Error.{ApiError, Result, ok, err, ok-injective, err-ne-ok}
use scene_api.Db.{Job, find_job}
use scene_api.Conversion.{Steps, StageArtifact, Plan, usable, target_formats, artifact_format}
use scene_api.Conversion.Chains.{Answers}
use scene_api.Conversion.Shortest.{plan_conversion-Decides}
use scene_api.Conversion.Submission.{
  Vocabulary, ConvertRequest, Submission, submit_conversion, is_format_compatible_with_kind,
  target_kind, for_kind, for_job, for_plan,
}

-- The plan is to be carried out, in a project with a job of its own, into a kind that the format fits.
abbrev pub Passes : Vocabulary → List Job → StageArtifact → Plan → Submission → Type 0
Passes v jobs artifact plan s =
    (plan.executable ≡ true)
    × (plan.conversion_required ≡ true)
    × (s.plan ≡ plan)
    × (is_format_compatible_with_kind v s.to_kind s.plan.target_format ≡ true)
    × ((job : Job) × (find_job artifact.job_id jobs ≡ some job) × (s.project_id ≡ job.project_id))

for_kind-Passes :
    (v : Vocabulary) (kind : String) (plan : Plan) (job : Job) (s : Submission)
    → for_kind v kind plan job ≡ ok (some s)
    → (s.plan ≡ plan)
      × (is_format_compatible_with_kind v s.to_kind s.plan.target_format ≡ true)
      × (s.project_id ≡ job.project_id)
for_kind-Passes v kind plan job s e =
    elim (Bool-cases (is_format_compatible_with_kind v kind plan.target_format)) [
      | inl fits ↦
          let same = some-injective _ _ (ok-injective _ _ (rw fits at e)) in
          (
            ap (λ z. z.plan) (sym same),
            subst (λ z. is_format_compatible_with_kind v z.to_kind z.plan.target_format ≡ true) same
                fits,
            ap (λ z. z.project_id) (sym same),
          )
      | inr clash ↦ absurd (err-ne-ok _ _ (rw clash at e))
    ]

for_job-Passes :
    (v : Vocabulary) (artifact : StageArtifact) (r : ConvertRequest) (plan : Plan) (o : Option Job)
    (s : Submission)
    → for_job v artifact r plan o ≡ ok (some s)
    → (s.plan ≡ plan)
      × (is_format_compatible_with_kind v s.to_kind s.plan.target_format ≡ true)
      × ((job : Job) × (o ≡ some job) × (s.project_id ≡ job.project_id))
for_job-Passes v artifact r plan none s e = absurd (err-ne-ok _ _ e)
for_job-Passes v artifact r plan (some job) s e =
    let (same, fits, project) =
      for_kind-Passes v (target_kind v artifact.kind plan.target_format r.to_kind) plan job s e in
    (same, fits, (job, refl, project))

both_hold {ℓ} :
    {A : Type ℓ} (executable required : Bool) (rest : Result A) (x : A)
    → (if not executable
        then err ApiError.validation
        else if not required
        then err ApiError.validation
        else rest)
      ≡ ok x
    → (executable ≡ true) × (required ≡ true) × (rest ≡ ok x)
both_hold true true rest x e = (refl, refl, e)
both_hold true false rest x e = absurd (err-ne-ok _ _ e)
both_hold false required rest x e = absurd (err-ne-ok _ _ e)

for_plan-Passes :
    (v : Vocabulary) (jobs : List Job) (artifact : StageArtifact) (r : ConvertRequest) (plan : Plan)
    (s : Submission)
    → for_plan v artifact r (find_job artifact.job_id jobs) (some plan) ≡ ok (some s)
    → Passes v jobs artifact plan s
for_plan-Passes v jobs artifact r plan s e =
    let source_job = find_job artifact.job_id jobs in
    let (runs, needed, e') =
      both_hold plan.executable plan.conversion_required (for_job v artifact r plan source_job)
        (some s) e in
    let (same, fits, job) = for_job-Passes v artifact r plan source_job s e' in
    (runs, needed, same, fits, job)

-- A conversion that is submitted, for valid target formats, an artifact of a known format and the
-- conversions that the backend lists, leads from the artifact's format, which is none of those asked
-- for, along a shortest chain of usable conversions to one that is; the kind of its result is
-- compatible with that format, and its project is the one of the artifact's job.
pub submit_conversion-Answers :
    (v : Vocabulary) (conversions : Option String → Result Steps) (jobs : List Job)
    (artifact : StageArtifact) (r : ConvertRequest) (s : Submission) (targets : List String)
    (source : String) (steps : Steps)
    → target_formats r.plan ≡ ok targets
    → artifact_format artifact ≡ some source
    → conversions r.plan.provider ≡ ok steps
    → submit_conversion v conversions jobs artifact r ≡ ok (some s)
    → (contains source targets ≡ false)
      × Answers
          (usable r.plan.require_lossless steps)
          targets
          source
          (some (s.plan.target_format, s.plan.steps))
      × (is_format_compatible_with_kind v s.to_kind s.plan.target_format ≡ true)
      × ((job : Job) × (find_job artifact.job_id jobs ≡ some job) × (s.project_id ≡ job.project_id))
unfolding submit_conversion
submit_conversion-Answers v conversions jobs artifact r s targets source steps valid known
      some_formats e =
    let (plan, made, (reached, required, decided)) =
      plan_conversion-Decides conversions artifact r.plan targets source steps valid known
        some_formats in
    let (runs, needed, same, fits, job) = for_plan-Passes v jobs artifact r plan s (rw made at e) in
    elim decided [
      | inl (executable, answer) ↦ (
        not-true (contains source targets) (sym required ∙ needed),
        subst
            (λ z.
              Answers (usable r.plan.require_lossless steps) targets source
                (some (z.target_format, z.steps)))
            (sym same) answer,
        fits,
        job,
      )
      | inr (stuck, none_left) ↦ absurd (false≢true (sym stuck ∙ runs))
    ]
