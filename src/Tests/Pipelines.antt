-- ===== src/Tests/Pipelines.antt =====
-- The core processors, and a pipeline of them from images to a sparse model.
use mathlib.Core.List.{Memᴰ}
use scene_api.Base.{
  String, ◌≡◌, refl, ◌↔◌, ◌⊎◌, inr, Bool, true, false, not, ◌||◌, Option, none, some, List, [], ◌∷◌,
  ◌++◌, ◌==◌, all, get,
}
use scene_api.Db.{Json}
use scene_api.Number.{less, Number}
use scene_api.Attributes.{
  type_ok, value_errors, validate_attributes, is_declared, AttributeType, Attribute,
}
use scene_api.Pipelines.{
  PipelineStep, Processor, rsplit_dot, parse_wire_ref, requires_verified_match_graph, PortSpec,
  Supply,
}
use scene_api.Pipelines.Processors.{
  processor_for, validate_processor, registry_ok, role_rest, by_capability_family, first_family,
  processor_for_capability,
}
use scene_api.Pipelines.Processors.Core.{core_processors, map_processor}
use scene_api.Pipelines.Inferred.{inferred_step_dependencies, inferred_from, step_deps, next_wiring}
use scene_api.Pipelines.Strict.{strict_validate_pipeline, steps_errors, step_errors, after_step}
use scene_api.Pipelines.Legacy.{legacy_validate_pipeline, legacy_errors}
use scene_api.Pipelines.Validate.{validate_pipeline, validate_step_attributes}
use scene_api.Pipelines.Bound.{validate_step_attributes-validate_pipeline}
use scene_api.Pipelines.Available.{legacy_validate-Available, Available}
use scene_api.Pipelines.Feeds.{inferred-earlier, strict_validate-feeds}
use scene_api.Pipelines.Supplies.{Produced}
use scene_api.Pipelines.Processors.Bindings.{refine_attributes}
use scene_api.Attributes.Laws.{validate-default, validate_attributes-Accepts, Accepts}

-- A stand-in for the vocabulary of data types.
abbrev any_type : String → Bool
any_type s = true

abbrev lookup : String → Option Processor
lookup id = processor_for core_processors id

abbrev step_of : (ref processor : String) → List (String × Json) → PipelineStep
step_of ref processor wires = record {
  ref = ref;
  processor = processor;
  attributes = [];
  wires = wires;
}

abbrev before_map : List PipelineStep
before_map =
    step_of "f" "features" []
    ∷ step_of "p" "pairs" []
    ∷ step_of "m" "matches" []
    ∷ step_of "v" "verify" []
    ∷ []

abbrev map_step : PipelineStep
map_step = step_of "r" "map" (("matches", Json.text "v.matches") ∷ [])

abbrev images : List String
images = "image_sequence" ∷ []

registry_is_ok : registry_ok core_processors ≡ true
unfolding registry_ok
registry_is_ok = refl

processors_are_ok : all (λ p. validate_processor any_type p) core_processors ≡ true
unfolding validate_processor role_rest
processors_are_ok = refl

canonical :
    legacy_validate_pipeline lookup
      ("features" ∷ "pairs" ∷ "matches" ∷ "verify" ∷ "map" ∷ [])
      images
    ≡ []
unfolding legacy_validate_pipeline legacy_errors processor_for
canonical = refl

valid : strict_validate_pipeline any_type lookup (before_map ++ map_step ∷ []) images ≡ []
unfolding strict_validate_pipeline steps_errors step_errors after_step processor_for
    validate_attributes value_errors type_ok parse_wire_ref rsplit_dot less
valid = refl

map_found : lookup "map" ≡ some map_processor
unfolding processor_for
map_found = refl

dependencies :
    get "r" (inferred_step_dependencies lookup (before_map ++ map_step ∷ []) images)
    ≡ some ("f" ∷ "v" ∷ [])
unfolding inferred_step_dependencies inferred_from step_deps next_wiring processor_for
    parse_wire_ref rsplit_dot
dependencies = refl

abbrev matches_port : PortSpec
matches_port = record { datatype = "match_graph"; required = true; multiple = false }

strict_validate-feeds_example :
    (s : Supply) × (deps : List String) × Produced lookup images before_map s
    × ((s.datatype == "match_graph") ≡ true)
    × ((not (requires_verified_match_graph "map" "matches") || s.verified_match_graph) ≡ true)
    × (get "r" (inferred_step_dependencies lookup (before_map ++ map_step ∷ []) images) ≡ some deps)
    × ((s.ref ≡ "inputs") ⊎ Memᴰ s.ref deps)
strict_validate-feeds_example =
    strict_validate-feeds any_type lookup images before_map [] map_step map_processor "matches"
      matches_port valid map_found (Memᴰ.tail (Memᴰ.head refl)) refl

inferred-earlier_example : Memᴰ {A = String} "v" ("f" ∷ "p" ∷ "m" ∷ "v" ∷ [])
inferred-earlier_example =
    inferred-earlier any_type lookup images before_map [] map_step ("f" ∷ "v" ∷ []) "v" valid
      dependencies (Memᴰ.tail (Memᴰ.head refl))

abbrev families : List (String × String)
families = by_capability_family core_processors

-- A dotted capability is one of its family, and the longer family counts.
detector_free : processor_for_capability families "match.detector_free.loftr" ≡ some "matches"
unfolding processor_for_capability first_family
detector_free = refl

feed_forward : processor_for_capability families "map.feed_forward.vggt" ≡ some "map_feed_forward"
unfolding processor_for_capability first_family
feed_forward = refl

storage : processor_for_capability families "mapper" ≡ none
unfolding processor_for_capability first_family
storage = refl

abbrev bindings : List (String × Json)
bindings = ("mode", Json.text "rig") ∷ []

accepted : validate_attributes any_type none refine_attributes bindings ≡ []
unfolding validate_attributes value_errors type_ok
accepted = refl

validate_attributes-Accepts_example :
    (validate_attributes any_type none refine_attributes bindings ≡ [])
    ↔ Accepts any_type none refine_attributes bindings
validate_attributes-Accepts_example =
    validate_attributes-Accepts any_type none refine_attributes bindings

abbrev hundred : Number
hundred = record { is_float = false; negative = false; magnitude = 100; halvings = 0 }

abbrev one : Number
one = record { is_float = false; negative = false; magnitude = 1; halvings = 0 }

abbrev iterations : Attribute
iterations = record {
  name = "max_num_iterations";
  kind = AttributeType.int;
  required = false;
  default = some (Json.number hundred);
  enum = [];
  min = some one;
  max = none;
  datatype_lookup = none;
}

declared : is_declared any_type iterations ≡ true
unfolding is_declared type_ok less
declared = refl

validate-default_example :
    validate_attributes any_type none
      (iterations ∷ [])
      (("max_num_iterations", Json.number hundred) ∷ [])
    ≡ []
validate-default_example = validate-default any_type iterations (Json.number hundred) declared refl

legacy_validate-Available_example :
    Available lookup images ("features" ∷ "pairs" ∷ "matches" ∷ "verify" ∷ []) "match_graph"
legacy_validate-Available_example =
    legacy_validate-Available lookup images ("features" ∷ "pairs" ∷ "matches" ∷ "verify" ∷ []) []
      "map" map_processor "match_graph" canonical map_found (Memᴰ.tail (Memᴰ.head refl))

pipeline_valid : validate_pipeline any_type lookup (inr (before_map ++ map_step ∷ [])) images ≡ []
unfolding validate_pipeline
pipeline_valid = valid

validate_step_attributes-validate_pipeline_example :
    validate_step_attributes any_type lookup (before_map ++ map_step ∷ []) ≡ []
validate_step_attributes-validate_pipeline_example =
    validate_step_attributes-validate_pipeline any_type lookup (before_map ++ map_step ∷ []) images
      pipeline_valid
