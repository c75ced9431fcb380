-- ===== src/Conversion.antt =====
-- sceneapi/server/services/artifact_conversion_service.py: the plan that converts an artifact to one
-- of the formats asked for. The conversions that a backend lists, in their order, are a parameter.
pub mod Answer
pub mod Chains
pub mod Scan
pub mod Search
pub mod Shortest
pub mod Submission
pub mod Submitted
use Prim.Native.String
use Prim.Native.Char
use Prim.Native.Char.{Char}
use scene_api.Base.{
  ℕ, zero, suc, String, Bool, true, false, not, ◌&&◌, ◌||◌, Option, none, some, List, [], ◌∷◌, ◌++◌,
  ◌==◌, leb, eqb, if◌then◌else◌, length, count, select, contains,
}
use scene_api.Error.{Result, ok, err, validation}
use scene_api.Error.{◌>>=◌}
use scene_api.Janitor.{lookup_field}
use scene_api.Db.{Json, Fields}

-- `ArtifactConversionStepOut`
pub record ConversionStep : Type 0 where
  pub contract_id : Option String
  pub backend : Option String
  pub provider : Option String
  pub from_format : String
  pub to_format : String
  pub lossless : Bool
  pub description : Option String

abbrev pub Steps : Type 0
Steps = List ConversionStep

-- What the search returns: the format that it reached and the steps to it.
abbrev pub Found : Type 0
Found = Option (String × Steps)

-- One round ends with an answer, or goes on with the formats visited and the queue.
pub data Round : Type 0 where
  reached : String → Steps → Round
  going : (visited : List String) → (queue : List (String × Steps)) → Round

-- `edges_by_source.get(current, [])`
abbrev pub edges_of : String → Steps → Steps
edges_of current edges = select (λ step. step.from_format == current) edges

abbrev pub after_round : (List String → List (String × Steps) → Option Found) → Round → Option Found
after_round next (reached target path) = some (some (target, path))
after_round next (going visited queue) = next visited queue

module _ (targets : List String) where
  -- The body of the loop over the steps from the current format.
  unfoldable pub scan :
      (path : Steps) → Steps → (visited : List String) → (queue : List (String × Steps)) → Round
  scan path [] visited queue = going visited queue
  scan path (step ∷ steps) visited queue =
      let skipped = scan path steps visited queue in
      let added =
        scan path steps (step.to_format ∷ visited)
          (queue ++ (step.to_format, path ++ step ∷ []) ∷ []) in
      if contains step.to_format visited
      then skipped
      else if contains step.to_format targets
      then reached step.to_format (path ++ step ∷ [])
      else added

  -- `while queue`, on fuel: `none` where the fuel is too little.
  unfoldable pub search :
      ℕ → (edges : Steps) → (visited : List String) → (queue : List (String × Steps)) → Option Found
  search zero edges visited [] = some none
  search (suc fuel) edges visited [] = some none
  search zero edges visited (entry ∷ queue) = none
  search (suc fuel) edges visited ((current, path) ∷ queue) =
      after_round (λ v q. search fuel edges v q) (scan path (edges_of current edges) visited queue)

-- The steps that the search may use.
abbrev pub usable : (require_lossless : Bool) → Steps → Steps
usable require_lossless steps = select (λ step. not (require_lossless && not step.lossless)) steps

-- `_find_conversion_path`, on one round more than there are steps, and one for the start.
unfoldable pub find_conversion_path :
    (from_format : String)
    → (target_formats : List String) → (require_lossless : Bool) → Steps
    → Option Found
find_conversion_path from_format target_formats require_lossless steps =
    if contains from_format target_formats
    then some (some (from_format, []))
    else (let edges = usable require_lossless steps in
        search target_formats (suc (length edges)) edges (from_format ∷ [])
          ((from_format, []) ∷ []))

-- A row of `stage_artifact`, as far as a conversion reads it.
pub record StageArtifact : Type 0 where
  pub artifact_id : String
  pub job_id : String
  pub kind : String
  pub metadata : Option Fields

pub record PlanRequest : Type 0 where
  pub provider : Option String
  pub to_format : Option String
  pub accepted_formats : List String
  pub require_lossless : Bool

pub record Plan : Type 0 where
  pub artifact_id : String
  pub source_format : Option String
  pub target_format : String
  pub conversion_required : Bool
  pub executable : Bool
  pub steps : Steps

-- `str(value) if isinstance(value, str) and value else None`
abbrev given_text : Option Json → Option String
given_text (some (Json.text s)) = if s == "" then none else some s
given_text _ = none

abbrev metadata_field : String → Option Fields → Option Json
metadata_field key none = none
metadata_field key (some metadata) = lookup_field key metadata

-- `_artifact_format`
abbrev pub artifact_format : StageArtifact → Option String
artifact_format artifact = given_text (metadata_field "artifact_format" artifact.metadata)

abbrev pub in_range : ℕ → ℕ → ℕ → Bool
in_range lo hi n = leb lo n && leb n hi

abbrev is_alphanumeric : Char → Bool
is_alphanumeric c =
    in_range 48 57 (Char.code c) || (in_range 65 90 (Char.code c) || in_range 97 122 (Char.code c))

abbrev is_key_char : Char → Bool
is_key_char c =
    is_alphanumeric c || (eqb (Char.code c) 95 || (eqb (Char.code c) 46 || eqb (Char.code c) 45))

abbrev key_rest : String → Bool
key_rest String.[] = true
key_rest (String.◌∷◌ c s) = is_key_char c && key_rest s

-- `is_valid_artifact_key`: a letter or a digit, and up to 95 characters more
unfoldable pub is_valid_artifact_key : String → Bool
is_valid_artifact_key String.[] = false
is_valid_artifact_key (String.◌∷◌ c s) =
    is_alphanumeric c && (key_rest s && leb (String.count s) 95)

abbrev pub first_target : Option String → List String
first_target none = []
first_target (some to_format) = if to_format == "" then [] else to_format ∷ []

abbrev pub add_accepted : List String → List String → Result (List String)
add_accepted out [] = ok out
add_accepted out (value ∷ values) =
    let kept = add_accepted out values in
    let more = add_accepted (out ++ value ∷ []) values in
    if not (is_valid_artifact_key value)
    then err validation
    else if contains value out
    then kept
    else more

abbrev pub some_target : List String → Result (List String)
some_target [] = err validation
some_target (t ∷ ts) = ok (t ∷ ts)

-- `_target_formats`
unfoldable pub target_formats : PlanRequest → Result (List String)
target_formats plan_request =
    add_accepted (first_target plan_request.to_format) plan_request.accepted_formats >>= λ out.
    some_target out

abbrev pub planned : StageArtifact → String → Option String → Bool → Bool → Steps → Plan
planned artifact target source required executable steps = record {
  artifact_id = artifact.artifact_id;
  source_format = source;
  target_format = target;
  conversion_required = required;
  executable = executable;
  steps = steps;
}

abbrev pub first_of : List String → String
first_of [] = ""
first_of (t ∷ ts) = t

-- `path is not None`, and the plan with or without it; `none` where the search ran out of fuel.
abbrev with_path : StageArtifact → String → List String → Option Found → Option Plan
with_path artifact source targets none = none
with_path artifact source targets (some none) =
    some (planned artifact (first_of targets) (some source) true false [])
with_path artifact source targets (some (some (target, steps))) =
    some (planned artifact target (some source) true true steps)

-- `conversions` is `_iter_conversion_steps` for the provider of the request.
abbrev plan_from :
    StageArtifact → PlanRequest → List String → Result Steps → Option String → Result (Option Plan)
plan_from artifact plan_request targets conversions none =
    ok (some (planned artifact (first_of targets) none true false []))
plan_from artifact plan_request targets conversions (some source) =
    if contains source targets
    then ok (some (planned artifact source (some source) false true []))
    else conversions >>= λ steps. ok (
        with_path artifact source targets
          (find_conversion_path source targets plan_request.require_lossless steps))

unfoldable pub plan_conversion_for_artifact :
    (conversions : Option String → Result Steps)
    → StageArtifact
    → PlanRequest
    → Result (Option Plan)
plan_conversion_for_artifact conversions artifact plan_request =
    target_formats plan_request >>= λ targets.
    plan_from artifact plan_request targets (conversions plan_request.provider)
      (artifact_format artifact)
