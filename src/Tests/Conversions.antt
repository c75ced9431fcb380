-- ===== src/Tests/Conversions.antt =====
-- A backend that converts between four formats, and the plans for an artifact.
use scene_api.Base.{String, ◌≡◌, refl, Bool, true, false, none, some, List, [], ◌∷◌, contains}
use scene_api.Error.{err, validation, ok}
use scene_api.Conversion.{
  ConversionStep, Steps, Found, StageArtifact, PlanRequest, Plan, find_conversion_path, usable,
  plan_conversion_for_artifact, is_valid_artifact_key, scan, search, target_formats,
}
use scene_api.Conversion.Shortest.{find_conversion_path-Answers, plan_conversion-Decides, Decides}
use scene_api.Tests.Data.{job}
use scene_api.Db.{JobStatus, Job, find_job, Json, field, end}
use scene_api.Conversion.Chains.{Answers}
use scene_api.Conversion.Submitted.{submit_conversion-Answers}
use scene_api.Conversion.Submission.{
  target_kind, submit_conversion, Vocabulary, ConvertRequest, datatype_for_kind,
  is_format_compatible_with_kind, Submission, kind_for_default_format,
}

abbrev conversion : (from_format to_format : String) → Bool → ConversionStep
conversion from_format to_format lossless = record {
  contract_id = none;
  backend = some "demo";
  provider = none;
  from_format = from_format;
  to_format = to_format;
  lossless = lossless;
  description = none;
}

-- The direct way to "ply" loses data; the lossless one passes "txt".
abbrev conversions : Steps
conversions =
    conversion "bin" "txt" true
    ∷ conversion "bin" "ply" false
    ∷ conversion "txt" "bin" true
    ∷ conversion "txt" "ply" true
    ∷ conversion "ply" "glb" true
    ∷ []

shortest :
    find_conversion_path "bin" ("glb" ∷ []) false conversions
    ≡ some (some ("glb", conversion "bin" "ply" false ∷ conversion "ply" "glb" true ∷ []))
unfolding find_conversion_path search scan
shortest = refl

lossless_only :
    find_conversion_path "bin" ("glb" ∷ "ply" ∷ []) true conversions
    ≡ some (some ("ply", conversion "bin" "txt" true ∷ conversion "txt" "ply" true ∷ []))
unfolding find_conversion_path search scan
lossless_only = refl

no_way_back : find_conversion_path "glb" ("bin" ∷ []) false conversions ≡ some none
unfolding find_conversion_path search scan
no_way_back = refl

key : is_valid_artifact_key "a.b-c_1" ≡ true
unfolding is_valid_artifact_key
key = refl

no_key : is_valid_artifact_key "a b" ≡ false
unfolding is_valid_artifact_key
no_key = refl

find_conversion_path-Answers_example :
    (r : Found) × (find_conversion_path "bin" ("glb" ∷ "ply" ∷ []) true conversions ≡ some r)
    × Answers (usable true conversions) ("glb" ∷ "ply" ∷ []) "bin" r
find_conversion_path-Answers_example =
    find_conversion_path-Answers "bin" ("glb" ∷ "ply" ∷ []) true conversions

abbrev artifact : StageArtifact
artifact = record {
  artifact_id = "a1";
  job_id = "j1";
  kind = "sparse_model";
  metadata = some (field "artifact_format" (Json.text "bin") end);
}

abbrev plan_request : PlanRequest
plan_request = record {
  provider = none;
  to_format = some "glb";
  accepted_formats = "ply" ∷ "glb" ∷ [];
  require_lossless = true;
}

plan_conversion-Decides_example :
    (plan : Plan) × (plan_conversion_for_artifact (λ p. ok conversions) artifact plan_request
      ≡ ok (some plan))
    × Decides (usable true conversions) ("glb" ∷ "ply" ∷ []) "bin" plan
unfolding target_formats is_valid_artifact_key
plan_conversion-Decides_example =
    plan_conversion-Decides (λ p. ok conversions) artifact plan_request ("glb" ∷ "ply" ∷ []) "bin"
      conversions refl refl refl

-- One kind stands for the format "glb".
abbrev vocabulary : Vocabulary
vocabulary = record {
  kinds = ("mesh.v1", record { datatype = "mesh"; default_format = "glb" }) ∷ [];
  formats = ("glb", "mesh") ∷ ("ply", "mesh") ∷ [];
  namespaces = ("sparse", "sparse_model") ∷ [];
}

abbrev convert_request : ConvertRequest
convert_request = record { plan = plan_request; to_kind = none }

abbrev jobs : List Job
jobs = job "j1" JobStatus.succeeded ∷ []

abbrev glb_plan : Plan
glb_plan = record {
  artifact_id = "a1";
  source_format = some "bin";
  target_format = "ply";
  conversion_required = true;
  executable = true;
  steps = conversion "bin" "txt" true ∷ conversion "txt" "ply" true ∷ [];
}

-- No kind stands for "ply", so the result would keep the kind of its source.
kept_kind : target_kind vocabulary "sparse.model" "ply" none ≡ "sparse.model"
unfolding target_kind kind_for_default_format
kept_kind = refl

abbrev mesh_request : ConvertRequest
mesh_request = record { plan = plan_request; to_kind = some "mesh.v1" }

abbrev submission : Submission
submission = record { plan = glb_plan; project_id = "city"; to_kind = "mesh.v1" }

submitted :
    submit_conversion vocabulary (λ p. ok conversions) jobs artifact mesh_request
    ≡ ok (some submission)
unfolding submit_conversion plan_conversion_for_artifact target_formats is_valid_artifact_key
    find_conversion_path search scan target_kind kind_for_default_format
    is_format_compatible_with_kind datatype_for_kind
submitted = refl

kind_conflict :
    submit_conversion vocabulary
      (λ p. ok conversions)
      jobs
      (record artifact { kind = "sparse.model" })
      convert_request
    ≡ err validation
unfolding submit_conversion plan_conversion_for_artifact target_formats is_valid_artifact_key
    find_conversion_path search scan target_kind kind_for_default_format
    is_format_compatible_with_kind datatype_for_kind
kind_conflict = refl

submit_conversion-Answers_example :
    (contains "bin" ("glb" ∷ "ply" ∷ []) ≡ false)
    × Answers
        (usable true conversions)
        ("glb" ∷ "ply" ∷ [])
        "bin"
        (some ("ply", submission.plan.steps))
    × (is_format_compatible_with_kind vocabulary "mesh.v1" "ply" ≡ true)
    × ((j : Job) × (find_job "j1" jobs ≡ some j) × ("city" ≡ j.project_id))
unfolding target_formats is_valid_artifact_key
submit_conversion-Answers_example =
    submit_conversion-Answers vocabulary (λ p. ok conversions) jobs artifact mesh_request submission
      ("glb" ∷ "ply" ∷ []) "bin" conversions refl refl refl submitted
