-- ===== src/Dataflow/Accepted.antt =====
-- What `_validate_typed_extension_graph` (sfm_hub/models/dataflow.py) accepts, the server's strict
-- validation (sceneapi/server/core/pipelines.py) accepts as well.
use mathlib.Core.List.{Memᴰ}
use mathlib.Core.Option.{none-ne-some}
use scene_api.Base.{
  String, ◌≡◌, refl, sym, true, not, none, List, [], arith, all, All-Memᴰ, Dict, get,
}
use scene_api.Attributes.{Attribute}
use scene_api.Pipelines.{Processor, Ports}
use scene_api.Pipelines.Strict.{strict_validate_pipeline}
use scene_api.Dataflow.{GraphError, validate_pipeline_graph, raise_if, ◌also◌, or_no_attributes}
use scene_api.Dataflow.Manifests.{PluginPipeline, is_pipeline_manifest}
use scene_api.Dataflow.Wires.{also-raise, also-none, each_of-none}
use scene_api.Dataflow.Extensions.{
  Declarations, Merge, merged, stopped, validate_typed_extension_graph, merge_processors,
  core_ports, plugin_ports, known_datatype, known_processor, declarations_check, pipeline_check,
  merged_check,
}
use scene_api.Dataflow.Merged.{
  lookup_of, processor_of-ports, processor_of-attributes, processor_of-IsPlain,
}
use scene_api.Dataflow.Strict.{strict_validate-validate_pipeline_graph}
use scene_api.Dataflow.Declared.{known-HasPorts, steps-known, Extends, merge_processors-Extends}

module _ (core_datatypes : List String) (core : List Processor) (core_pipelines : List String)
    (g : Declarations) where
  merged-Strict :
      (ports : Dict (Ports × Ports)) (attributes : Dict (List Attribute)) (p : PluginPipeline)
      → Extends (plugin_ports g.processors (core_ports core)) (merged ports attributes)
      → is_pipeline_manifest p ≡ true
      → pipeline_check core_datatypes core core_pipelines g ports attributes p ≡ none
      → strict_validate_pipeline
          (known_datatype core_datatypes core core_pipelines g)
          (lookup_of ports attributes)
          p.steps
          p.initial_inputs
        ≡ []
  merged-Strict ports attributes p (plain, kept) declared e =
      let known = known_datatype core_datatypes core core_pipelines g in
      let is_known = known_processor core_datatypes core core_pipelines g in
      let b₁ = not (all known p.initial_inputs) in
      let b₂ = not (all (λ step. is_known step.processor) p.steps) in
      let graph = validate_pipeline_graph known ports attributes p.initial_inputs p.steps in
      let (inputs, e₁) =
        also-raise b₁ GraphError.unknown_datatype
          (raise_if b₂ GraphError.unknown_processor also graph) e in
      let (processors, e₂) = also-raise b₂ GraphError.unknown_processor graph e₁ in
      strict_validate-validate_pipeline_graph known (lookup_of ports attributes) ports attributes p
        (λ id. processor_of-ports id (or_no_attributes (get id attributes)) (get id ports))
        (λ id is.
          processor_of-attributes id (or_no_attributes (get id attributes)) (get id ports) is)
        (λ id.
          processor_of-IsPlain id (or_no_attributes (get id attributes)) (get id ports) (plain id))
        (steps-known is_known ports attributes p.steps
          (λ id there. kept id (known-HasPorts core_datatypes core core_pipelines g id there))
          (ground (arith, processors)))
        declared e₂

  accepted_merge :
      (m : Merge) (p : PluginPipeline)
      → merge_processors core_datatypes core core_pipelines g ≡ m
      → Extends (plugin_ports g.processors (core_ports core)) m
      → is_pipeline_manifest p ≡ true
      → Memᴰ p g.pipelines
      → merged_check core_datatypes core core_pipelines g m ≡ none
      → (ports : Dict (Ports × Ports)) × (attributes : Dict (List Attribute)) × (merge_processors
            core_datatypes core core_pipelines g
          ≡ merged ports attributes)
        × (strict_validate_pipeline
              (known_datatype core_datatypes core core_pipelines g)
              (lookup_of ports attributes)
              p.steps
              p.initial_inputs
            ≡ [])
  accepted_merge (stopped x) p same extends declared there e = absurd (none-ne-some _ (sym e))
  accepted_merge (merged ports attributes) p same extends declared there e = (
    ports,
    attributes,
    same,
    merged-Strict ports attributes p extends declared (
        All-Memᴰ
          (λ q. pipeline_check core_datatypes core core_pipelines g ports attributes q ≡ none)
          g.pipelines p
          (each_of-none (pipeline_check core_datatypes core core_pipelines g ports attributes)
            g.pipelines e)
          there),
  )

  -- When the declarations of a plugin are accepted, the core processors, its own and the extensions
  -- merge, and each declared pipeline of the manifest's form validates on the server without
  -- errors, with the merged processors and the data types of the core and of the plugin.
  pub strict_validate-validate_typed_extension_graph :
      (p : PluginPipeline)
      → validate_typed_extension_graph core_datatypes core core_pipelines g ≡ none
      → is_pipeline_manifest p ≡ true
      → Memᴰ p g.pipelines
      → (ports : Dict (Ports × Ports)) × (attributes : Dict (List Attribute)) × (merge_processors
            core_datatypes core core_pipelines g
          ≡ merged ports attributes)
        × (strict_validate_pipeline
              (known_datatype core_datatypes core core_pipelines g)
              (lookup_of ports attributes)
              p.steps
              p.initial_inputs
            ≡ [])
  unfolding validate_typed_extension_graph
  strict_validate-validate_typed_extension_graph p accepted declared there =
      accepted_merge (merge_processors core_datatypes core core_pipelines g) p refl
        (merge_processors-Extends core_datatypes core core_pipelines g) declared there
        (also-none (declarations_check core_datatypes core core_pipelines g)
          (merged_check core_datatypes core core_pipelines g
            (merge_processors core_datatypes core core_pipelines g))
          accepted).1
