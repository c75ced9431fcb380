-- ===== src/Tests/Plugins.antt =====
-- The manifest of a plugin with one provider.
use mathlib.Core.List.{Memᴰ}
use scene_api.Base.{String, ◌≡◌, refl, none, some, [], ◌∷◌}
use scene_api.Pipelines.{rsplit_dot, parse_wire_ref}
use scene_api.Pipelines.Processors.Core.{core_processors}
use scene_api.Dataflow.{
  GraphError, validate_pipeline_graph, value_matches_attribute, attribute_check, attributes_check,
  steps_check,
}
use scene_api.Dataflow.Extensions.{
  validate_typed_extension_graph, merge_processors, validate_attribute_schema, extend,
}
use scene_api.Dataflow.Validators.{owned_ids_check}
use scene_api.Hub.{Provider}
use scene_api.Dataflow.PluginManifests.{
  typed_extensions_check, TypedManifest, typed_extensions_check-Served,
}
use scene_api.Tests.Dataflows.{core_datatypes, core_pipelines, segment, labelled, labels_only}

abbrev demo_provider : Provider
demo_provider = record {
  provider_id = "demo";
  capabilities = "segment.run" ∷ "other" ∷ [];
  backend_actions = [];
  priority_hint = 100;
}

abbrev demo_manifest : TypedManifest
demo_manifest = record {
  plugin_id = "demo";
  capabilities = [];
  providers = demo_provider ∷ [];
  plugin_dependencies = "base" ∷ [];
  datatype_ids = "label_set" ∷ [];
  processors = segment ∷ [];
  pipelines = labelled ∷ [];
  extensions = [];
}

-- Without the extension, no core step takes the labels.
demo_refused :
    typed_extensions_check core_datatypes core_processors core_pipelines demo_manifest
    ≡ some GraphError.unknown_consumer_port
unfolding typed_extensions_check owned_ids_check validate_typed_extension_graph merge_processors
    extend validate_attribute_schema validate_pipeline_graph steps_check attributes_check
    attribute_check value_matches_attribute parse_wire_ref rsplit_dot
demo_refused = refl

abbrev plain_manifest : TypedManifest
plain_manifest = record demo_manifest { pipelines = labels_only ∷ [] }

plain_accepted :
    typed_extensions_check core_datatypes core_processors core_pipelines plain_manifest ≡ none
unfolding typed_extensions_check owned_ids_check validate_typed_extension_graph merge_processors
    extend validate_attribute_schema validate_pipeline_graph steps_check attributes_check
    attribute_check value_matches_attribute parse_wire_ref rsplit_dot
plain_accepted = refl

typed_extensions_check-Served_example :
    (provider : Provider) × Memᴰ provider (demo_provider ∷ [])
    × ((c : String) → Memᴰ c ("segment.run" ∷ []) → Memᴰ c provider.capabilities)
typed_extensions_check-Served_example =
    typed_extensions_check-Served core_datatypes core_processors core_pipelines plain_manifest
      segment plain_accepted (Memᴰ.head refl)
