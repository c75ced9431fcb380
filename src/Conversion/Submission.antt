-- ===== src/Conversion/Submission.antt =====
-- `submit_conversion` (sceneapi/server/services/artifact_conversion_service.py) up to the choice of
-- a provider, with the artifact vocabulary (sceneapi/server/core/artifacts.py), whose tables are a
-- parameter.
use scene_api.Base.{
  String, Bool, true, not, Option, none, some, List, [], ◌∷◌, ◌==◌, if◌then◌else◌, Dict, get,
}
use scene_api.Error.{Result, ok, err, validation, not_found, ◌>>=◌}
use scene_api.Db.{Job, find_job}
use scene_api.Conversion.{Steps, StageArtifact, PlanRequest, Plan, plan_conversion_for_artifact}

-- A row of `CORE_ARTIFACT_KINDS`.
pub record KindDefinition : Type 0 where
  pub datatype : String
  pub default_format : String

-- `CORE_ARTIFACT_KINDS`, the data types of `CORE_ARTIFACT_FORMATS`, and
-- `_KIND_NAMESPACE_TO_DATATYPE`
pub record Vocabulary : Type 0 where
  pub kinds : Dict KindDefinition
  pub formats : Dict String
  pub namespaces : Dict String

unfoldable pub kind_for_default_format : Dict KindDefinition → String → Option String
kind_for_default_format [] format_id = none
kind_for_default_format ((kind, d) ∷ kinds) format_id =
    let rest = kind_for_default_format kinds format_id in
    if d.default_format == format_id then some kind else rest

abbrev datatype_for_format : Vocabulary → String → Option String
datatype_for_format v format_id = get format_id v.formats

-- `kind.split(".", 1)[0]`
abbrev before_dot : String → String
before_dot String.[] = ""
before_dot (String.◌∷◌ c s) =
    let rest = String.◌∷◌ c (before_dot s) in if String.◌∷◌ c String.[] == "." then "" else rest

unfoldable pub datatype_for_kind : Vocabulary → String → Option String
datatype_for_kind v kind = elim (get kind v.kinds) [
  | some d ↦ some d.datatype
  | none ↦ get (before_dot kind) v.namespaces
]

abbrev pub same_datatype : Option String → Option String → Bool
same_datatype (some a) (some b) = a == b
same_datatype _ _ = true

unfoldable pub is_format_compatible_with_kind : Vocabulary → (kind format_id : String) → Bool
is_format_compatible_with_kind v kind format_id =
    same_datatype (datatype_for_kind v kind) (datatype_for_format v format_id)

-- `_target_kind`
abbrev core_or : Option String → String → String
core_or none source_kind = source_kind
core_or (some kind) source_kind = kind

unfoldable pub target_kind :
    Vocabulary → (source_kind target_format : String) → Option String → String
target_kind v source_kind target_format (some kind) = kind
target_kind v source_kind target_format none =
    core_or (kind_for_default_format v.kinds target_format) source_kind

-- `ArtifactConvertRequest`; its name and options only pass through.
pub record ConvertRequest : Type 0 where
  pub plan : PlanRequest
  pub to_kind : Option String

-- What the job is made from.
pub record Submission : Type 0 where
  pub plan : Plan
  pub project_id : String
  pub to_kind : String

abbrev pub for_kind : Vocabulary → String → Plan → Job → Result (Option Submission)
for_kind v kind plan job =
    if not (is_format_compatible_with_kind v kind plan.target_format)
    then err validation
    else ok (some (record { plan = plan; project_id = job.project_id; to_kind = kind }))

abbrev pub for_job :
    Vocabulary → StageArtifact → ConvertRequest → Plan → Option Job → Result (Option Submission)
for_job v artifact r plan none = err not_found
for_job v artifact r plan (some job) =
    for_kind v (target_kind v artifact.kind plan.target_format r.to_kind) plan job

-- The tests on the plan; `none` where its search ran out of fuel.
abbrev pub for_plan :
    Vocabulary
    → StageArtifact
    → ConvertRequest
    → Option Job
    → Option Plan
    → Result (Option Submission)
for_plan v artifact r source_job none = ok none
for_plan v artifact r source_job (some plan) =
    if not plan.executable
    then err validation
    else if not plan.conversion_required
    then err validation
    else for_job v artifact r plan source_job

unfoldable pub submit_conversion :
    Vocabulary
    → (conversions : Option String → Result Steps) → List Job
    → StageArtifact
    → ConvertRequest
    → Result (Option Submission)
submit_conversion v conversions jobs artifact r =
    plan_conversion_for_artifact conversions artifact r.plan >>= λ plan.
    for_plan v artifact r (find_job artifact.job_id jobs) plan
