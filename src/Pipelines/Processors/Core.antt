-- ===== src/Pipelines/Processors/Core.antt =====
-- `CORE_PROCESSORS`: the table of the processors.
use scene_api.Base.{String, Bool, true, false, none, some, List, [], ◌∷◌}
use scene_api.Pipelines.{Processor, PortSpec}
use scene_api.Pipelines.Processors.Bindings.{
  feature_attributes, pair_attributes, match_attributes, verify_attributes, map_attributes,
  map_feed_forward_attributes, refine_attributes,
}

-- `_port`
abbrev port_spec : (datatype : String) (required multiple : Bool) → PortSpec
port_spec datatype required multiple = record {
  datatype = datatype;
  required = required;
  multiple = multiple;
}

abbrev features_processor : Processor
features_processor = record {
  processor_id = "features";
  consumer = ("images", port_spec "image_sequence" true false) ∷ [];
  supplier = ("features", port_spec "feature_set" true false) ∷ [];
  attributes = feature_attributes;
  capabilities = "features.extract" ∷ [];
  config_stage = some "features";
  aliases = [];
  special_inputs = [];
  special_attributes = [];
}

abbrev pairs_processor : Processor
pairs_processor = record {
  processor_id = "pairs";
  consumer = ("features", port_spec "feature_set" true false) ∷ [];
  supplier = ("pairs", port_spec "pair_set" true false) ∷ [];
  attributes = pair_attributes;
  capabilities = "pairs" ∷ [];
  config_stage = some "pairs";
  aliases = [];
  special_inputs = [];
  special_attributes = [];
}

abbrev matches_processor : Processor
matches_processor = record {
  processor_id = "matches";
  consumer =
      ("features", port_spec "feature_set" true false)
      ∷ ("pairs", port_spec "pair_set" true false)
      ∷ [];
  supplier = ("matches", port_spec "match_graph" true false) ∷ [];
  attributes = match_attributes;
  capabilities = "matchers" ∷ "match.detector_free" ∷ "keypoints.persistent" ∷ [];
  config_stage = some "matcher";
  aliases = [];
  special_inputs = [];
  special_attributes = [];
}

abbrev verify_processor : Processor
verify_processor = record {
  processor_id = "verify";
  consumer = ("matches", port_spec "match_graph" true false) ∷ [];
  supplier = ("matches", port_spec "match_graph" true false) ∷ [];
  attributes = verify_attributes;
  capabilities = "matches.verify" ∷ "geometry.two_view" ∷ [];
  config_stage = some "verify";
  aliases = [];
  special_inputs = [];
  special_attributes = [];
}

abbrev pub map_processor : Processor
map_processor = record {
  processor_id = "map";
  consumer =
      ("features", port_spec "feature_set" true false)
      ∷ ("matches", port_spec "match_graph" true false)
      ∷ [];
  supplier = ("model", port_spec "sparse_model" true false) ∷ [];
  attributes = map_attributes;
  capabilities = "map" ∷ [];
  config_stage = some "mapping";
  aliases = [];
  special_inputs = [];
  special_attributes = [];
}

abbrev map_feed_forward_processor : Processor
map_feed_forward_processor = record {
  processor_id = "map_feed_forward";
  consumer = ("images", port_spec "image_sequence" true false) ∷ [];
  supplier = ("model", port_spec "sparse_model" true false) ∷ [];
  attributes = map_feed_forward_attributes;
  capabilities = "map.feed_forward" ∷ [];
  config_stage = some "mapping";
  aliases = [];
  special_inputs = [];
  special_attributes = [];
}

abbrev triangulate_processor : Processor
triangulate_processor = record {
  processor_id = "triangulate";
  consumer =
      ("model", port_spec "sparse_model" true false)
      ∷ ("matches", port_spec "match_graph" true false)
      ∷ [];
  supplier = ("model", port_spec "sparse_model" true false) ∷ [];
  attributes = [];
  capabilities = "triangulate" ∷ [];
  config_stage = none;
  aliases = [];
  special_inputs = [];
  special_attributes = [];
}

abbrev refine_processor : Processor
refine_processor = record {
  processor_id = "refine";
  consumer = ("model", port_spec "sparse_model" true false) ∷ [];
  supplier = ("model", port_spec "sparse_model" true false) ∷ [];
  attributes = refine_attributes;
  capabilities = "ba" ∷ [];
  config_stage = some "bundle_adjustment";
  aliases = [];
  special_inputs = [];
  special_attributes = [];
}

abbrev optimize_poses_processor : Processor
optimize_poses_processor = record {
  processor_id = "optimize_poses";
  consumer = ("model", port_spec "sparse_model" true false) ∷ [];
  supplier = ("model", port_spec "sparse_model" true false) ∷ [];
  attributes = [];
  capabilities = "pgo" ∷ [];
  config_stage = none;
  aliases = [];
  special_inputs = [];
  special_attributes = [];
}

abbrev relocalize_processor : Processor
relocalize_processor = record {
  processor_id = "relocalize";
  consumer = ("model", port_spec "sparse_model" true false) ∷ [];
  supplier = ("model", port_spec "sparse_model" true false) ∷ [];
  attributes = [];
  capabilities = "relocalize" ∷ [];
  config_stage = none;
  aliases = [];
  special_inputs = [];
  special_attributes = [];
}

abbrev merge_processor : Processor
merge_processor = record {
  processor_id = "merge";
  consumer = ("model", port_spec "sparse_model" true true) ∷ [];
  supplier = ("model", port_spec "sparse_model" true false) ∷ [];
  attributes = [];
  capabilities = "recon.merge" ∷ [];
  config_stage = none;
  aliases = [];
  special_inputs = [];
  special_attributes = [];
}

abbrev georegister_processor : Processor
georegister_processor = record {
  processor_id = "georegister";
  consumer = ("model", port_spec "sparse_model" true false) ∷ [];
  supplier = ("model", port_spec "sparse_model" true false) ∷ [];
  attributes = [];
  capabilities = "georegister" ∷ [];
  config_stage = none;
  aliases = [];
  special_inputs = [];
  special_attributes = [];
}

abbrev undistort_processor : Processor
undistort_processor = record {
  processor_id = "undistort";
  consumer = ("model", port_spec "sparse_model" true false) ∷ [];
  supplier = ("model", port_spec "sparse_model" true false) ∷ [];
  attributes = [];
  capabilities = "image.undistort" ∷ [];
  config_stage = none;
  aliases = [];
  special_inputs = [];
  special_attributes = [];
}

abbrev project_processor : Processor
project_processor = record {
  processor_id = "project";
  consumer = ("images", port_spec "image_sequence" true false) ∷ [];
  supplier = ("projection", port_spec "projection" true false) ∷ [];
  attributes = [];
  capabilities = "projection" ∷ "spherical" ∷ [];
  config_stage = none;
  aliases = [];
  special_inputs = [];
  special_attributes = [];
}

abbrev pub core_processors : List Processor
core_processors =
    features_processor ∷ pairs_processor ∷ matches_processor ∷ verify_processor ∷ map_processor
    ∷ map_feed_forward_processor ∷ triangulate_processor ∷ refine_processor
    ∷ optimize_poses_processor ∷ relocalize_processor ∷ merge_processor ∷ georegister_processor
    ∷ undistort_processor ∷ project_processor ∷ []
