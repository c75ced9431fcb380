-- ===== src/Tests/Dataflows.antt =====
-- A plugin that declares a data type, a processor and a pipeline, and extends a core processor.

use mathlib.Core.List.{Memᴰ}
use scene_api.Pipelines.Processors.{role_rest}
use scene_api.Base.{String, ◌≡◌, refl, Bool, true, false, none, some, List, [], ◌∷◌, All, Dict, get}
use scene_api.Db.{Json}
use scene_api.Attributes.{Attribute, AttributeType, is_declared}
use scene_api.Pipelines.{PortSpec, Ports, PipelineStep, rsplit_dot, parse_wire_ref}
use scene_api.Pipelines.Processors.Core.{core_processors}
use scene_api.Pipelines.Strict.{strict_validate_pipeline}
use scene_api.Dataflow.{
  GraphError, validate_pipeline_graph, value_matches_attribute, attribute_check, attributes_check,
  steps_check,
}
use scene_api.Dataflow.Manifests.{
  PluginPipeline, is_pipeline_manifest, is_ref, is_local_id, is_contract_id,
}
use scene_api.Dataflow.Extensions.{
  PluginProcessor, Declarations, merged, validate_typed_extension_graph, merge_processors,
  validate_attribute_schema, extend, known_datatype,
}
use scene_api.Dataflow.Accepted.{strict_validate-validate_typed_extension_graph}
use scene_api.Dataflow.Merged.{
  lookup_of, processor_of-ports, processor_of-attributes, processor_of-IsPlain,
}
use scene_api.Dataflow.Strict.{strict_validate-validate_pipeline_graph}
use scene_api.Pipelines.Processors.{validate_processor}
use scene_api.Dataflow.Validated.{validate_processor-validate_typed_extension_graph}
use scene_api.Dataflow.Validators.{
  is_attribute_manifest, is_attribute_name, is_processor_manifest, owned_ids_check, is_special_name,
  is_extension_manifest, are_manifests,
}
use scene_api.Dataflow.Registry.{server_processor}

abbrev pub core_datatypes : List String
core_datatypes = "image_sequence" ∷ "feature_set" ∷ "pair_set" ∷ "match_graph" ∷ "sparse_model" ∷ []

abbrev pub core_pipelines : List String
core_pipelines = "sfm" ∷ "feed_forward" ∷ []

abbrev port : (datatype : String) (required multiple : Bool) → PortSpec
port datatype required multiple = record {
  datatype = datatype;
  required = required;
  multiple = multiple;
}

abbrev threshold : String → Attribute
threshold name = record {
  name = name;
  kind = AttributeType.float;
  required = false;
  default = none;
  enum = [];
  min = none;
  max = none;
  datatype_lookup = none;
}

abbrev pub segment : PluginProcessor
segment = record {
  processor_id = "segment";
  consumer = ("images", port "image_sequence" true false) ∷ [];
  supplier = ("labels", port "label_set" true false) ∷ [];
  attributes = threshold "threshold" ∷ [];
  capabilities = "segment.run" ∷ [];
}

abbrev step_of : (ref processor : String) → (attributes wires : List (String × Json)) → PipelineStep
step_of ref processor attributes wires = record {
  ref = ref;
  processor = processor;
  attributes = attributes;
  wires = wires;
}

-- "features" takes the labels of the step before it, at the port that the plugin adds.
abbrev pub labelled : PluginPipeline
labelled = record {
  pipeline_id = "labelled";
  initial_inputs = "image_sequence" ∷ [];
  steps =
      step_of "s" "segment" [] (("images", Json.text "inputs.image_sequence") ∷ [])
      ∷ step_of "f" "features" [] (("demo.labels", Json.text "s.labels") ∷ [])
      ∷ [];
}

abbrev declarations_of : List PluginPipeline → Declarations
declarations_of pipelines = record {
  datatype_ids = "label_set" ∷ [];
  processors = segment ∷ [];
  pipelines = pipelines;
  extensions =
      record {
        processor_id = "features";
        special_inputs = ("demo.labels", port "label_set" false false) ∷ [];
        special_attributes = threshold "demo.weight" ∷ [];
      }
      ∷ [];
  declared_capabilities = some ("segment.run" ∷ []);
  provider_capability_sets = some (("segment.run" ∷ "other" ∷ []) ∷ []);
  namespace_prefixes = some ("demo" ∷ []);
}

declared : is_pipeline_manifest labelled ≡ true
unfolding is_pipeline_manifest is_ref is_local_id is_contract_id
declared = refl

graph_is_accepted :
    validate_typed_extension_graph core_datatypes core_processors core_pipelines
      (declarations_of (labelled ∷ []))
    ≡ none
unfolding validate_typed_extension_graph merge_processors extend validate_attribute_schema
    validate_pipeline_graph steps_check attributes_check attribute_check value_matches_attribute
    parse_wire_ref rsplit_dot
graph_is_accepted = refl

-- The labels have the wrong type for the images.
abbrev crossed_wires : PluginPipeline
crossed_wires = record labelled {
  steps =
      step_of "s" "segment" [] []
      ∷ step_of "f" "features" [] (("images", Json.text "s.labels") ∷ [])
      ∷ [];
}

refused :
    validate_typed_extension_graph core_datatypes core_processors core_pipelines
      (declarations_of (crossed_wires ∷ []))
    ≡ some GraphError.datatype_mismatch
unfolding validate_typed_extension_graph merge_processors extend validate_attribute_schema
    validate_pipeline_graph steps_check attributes_check attribute_check value_matches_attribute
    parse_wire_ref rsplit_dot
refused = refl

-- A supplier port hides the unknown data type of the consumer port with the same role.
abbrev hidden : PluginProcessor
hidden = record segment { consumer = ("labels", port "no_such_type" true false) ∷ [] }

hidden_consumer :
    validate_typed_extension_graph core_datatypes core_processors core_pipelines
      (record (declarations_of []) { processors = hidden ∷ [] })
    ≡ none
unfolding validate_typed_extension_graph merge_processors extend validate_attribute_schema
    validate_pipeline_graph steps_check attributes_check attribute_check value_matches_attribute
    parse_wire_ref rsplit_dot
hidden_consumer = refl

strict_validate-validate_typed_extension_graph_example :
    (ports : Dict (Ports × Ports)) × (attributes : Dict (List Attribute)) × (merge_processors
        core_datatypes core_processors core_pipelines
        (declarations_of (labelled ∷ []))
      ≡ merged ports attributes)
    × (strict_validate_pipeline
          (known_datatype core_datatypes core_processors core_pipelines
            (declarations_of (labelled ∷ [])))
          (lookup_of ports attributes)
          labelled.steps
          labelled.initial_inputs
        ≡ [])
strict_validate-validate_typed_extension_graph_example =
    strict_validate-validate_typed_extension_graph core_datatypes core_processors core_pipelines
      (declarations_of (labelled ∷ [])) labelled graph_is_accepted declared (Memᴰ.head refl)

abbrev ports : Dict (Ports × Ports)
ports = ("segment", (segment.consumer, segment.supplier)) ∷ []

abbrev pub labels_only : PluginPipeline
labels_only = record {
  pipeline_id = "labels-only";
  initial_inputs = "image_sequence" ∷ [];
  steps = step_of "s" "segment" [] [] ∷ [];
}

abbrev any_type : String → Bool
any_type s = true

graph_accepted :
    validate_pipeline_graph any_type ports [] labels_only.initial_inputs labels_only.steps ≡ none
unfolding validate_pipeline_graph steps_check attributes_check
graph_accepted = refl

labels_only-declared : is_pipeline_manifest labels_only ≡ true
unfolding is_pipeline_manifest is_ref is_local_id is_contract_id
labels_only-declared = refl

strict_validate-validate_pipeline_graph_example :
    strict_validate_pipeline any_type
      (lookup_of ports [])
      labels_only.steps
      labels_only.initial_inputs
    ≡ []
strict_validate-validate_pipeline_graph_example =
    strict_validate-validate_pipeline_graph any_type (lookup_of ports []) ports [] labels_only
      (λ id. processor_of-ports id [] (get id ports))
      (λ id is. processor_of-attributes id [] (get id ports) is)
      (λ id. processor_of-IsPlain id [] (get id ports) tt) (refl, tt) labels_only-declared
      graph_accepted

segment_declared : is_processor_manifest segment ≡ true
unfolding role_rest is_processor_manifest is_attribute_manifest is_attribute_name is_ref is_local_id
    is_contract_id
segment_declared = refl

all_declared : are_manifests (declarations_of (labelled ∷ [])) ≡ true
unfolding role_rest are_manifests is_processor_manifest is_attribute_manifest is_attribute_name
    is_extension_manifest is_special_name is_pipeline_manifest is_ref is_local_id is_contract_id
all_declared = refl

all_local : owned_ids_check (declarations_of (labelled ∷ [])) ≡ none
unfolding owned_ids_check
all_local = refl

validate_processor-validate_typed_extension_graph_example :
    (validate_processor
        (known_datatype core_datatypes core_processors core_pipelines
          (declarations_of (labelled ∷ [])))
        (server_processor segment)
      ≡ true)
    × All
        (λ a.
          is_declared
            (known_datatype core_datatypes core_processors core_pipelines
              (declarations_of (labelled ∷ [])))
            a
          ≡ true)
        (threshold "threshold" ∷ [])
validate_processor-validate_typed_extension_graph_example =
    validate_processor-validate_typed_extension_graph core_datatypes core_processors core_pipelines
      (declarations_of (labelled ∷ [])) segment graph_is_accepted (Memᴰ.head refl) segment_declared
      (refl, tt) (refl, tt)
