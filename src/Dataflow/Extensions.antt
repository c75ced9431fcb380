-- ===== src/Dataflow/Extensions.antt =====
-- sfm_hub/models/dataflow.py: the check of all that a plugin declares, together with the server's
-- core tables. The ids of the core data types and pipelines are parameters.
use text.Mathlib.Text.{starts_with}
use Prim.Native.String
use scene_api.Base.{
  String, Bool, not, ◌&&◌, ◌||◌, Option, none, some, List, [], ◌∷◌, ◌++◌, map, eqb, if◌then◌else◌,
  is_none, length, any, all, select, distinct, contains, Dict, get, put, keys,
}
use scene_api.Attributes.{
  Attribute, is_numeric, is_enum, crossed, is_none_of, is_number, below, above, is_null,
}
use scene_api.Pipelines.{Processor, Ports}
use scene_api.Dataflow.{
  Check, GraphError, value_matches_attribute, validate_pipeline_graph, raise_if, ◌also◌, each_of,
  or_no_attributes,
}
use scene_api.Dataflow.Manifests.{PluginPipeline, has_duplicates}
use scene_api.Db.{Json}
use scene_api.Pipelines.Strict.{is_empty}

pub record PluginProcessor : Type 0 where
  pub processor_id : String
  pub consumer : Ports
  pub supplier : Ports
  pub attributes : List Attribute
  pub capabilities : List String

pub record ProcessorExtension : Type 0 where
  pub processor_id : String
  pub special_inputs : Ports
  pub special_attributes : List Attribute

-- The arguments of `_validate_typed_extension_graph`; `datatype_ids` are the type ids.
pub record Declarations : Type 0 where
  pub datatype_ids : List String
  pub processors : List PluginProcessor
  pub pipelines : List PluginPipeline
  pub extensions : List ProcessorExtension
  pub declared_capabilities : Option (List String)
  pub provider_capability_sets : Option (List (List String))
  pub namespace_prefixes : Option (List String)

-- The first two tests on the ids of one kind.
abbrev pub ids_check : (core ids : List String) → Check
ids_check core ids =
    raise_if (has_duplicates ids) GraphError.duplicate_declaration
    also raise_if (any (λ id. contains id core) ids) GraphError.core_redefined

abbrev pub is_within : List String → List String → Bool
is_within required caps = all (λ c. contains c caps) required

abbrev pub declared_check : Option (List String) → PluginProcessor → Check
declared_check none p = none
declared_check (some declared) p =
    raise_if (not (is_within p.capabilities declared)) GraphError.undeclared_capability

abbrev pub provider_check : Option (List (List String)) → PluginProcessor → Check
provider_check none p = none
provider_check (some sets) p =
    raise_if (not (any (λ caps. is_within p.capabilities caps) sets)) GraphError.capabilities_apart

-- `_validate_attribute_schema`
abbrev pub default_check : (String → Bool) → Attribute → Option Json → Check
default_check known a none = none
default_check known a (some v) =
    raise_if (is_null v) GraphError.attribute_schema
    also raise_if (not (value_matches_attribute known a v)) GraphError.attribute_schema
    also raise_if (is_numeric a.kind && (is_number v && (below v a.min || above v a.max)))
        GraphError.attribute_schema

unfoldable pub validate_attribute_schema : (String → Bool) → Attribute → Check
validate_attribute_schema known a =
    raise_if (not (is_enum a.kind) && not (is_empty a.enum)) GraphError.attribute_schema
    also raise_if (is_enum a.kind && not (eqb (length (distinct a.enum)) (length a.enum)))
        GraphError.attribute_schema
    also raise_if (not (is_numeric a.kind) && (not (is_none_of a.min) || not (is_none_of a.max)))
        GraphError.attribute_schema
    also raise_if (crossed a.min a.max) GraphError.attribute_schema
    also default_check known a a.default

-- `{**consumer, **supplier}`
abbrev pub merged_roles : Ports → Ports → Ports
merged_roles consumer supplier =
    map (λ e. (e.0, elim (get e.0 supplier) [ some q ↦ q | none ↦ e.1 ])) consumer
    ++ select (λ e. is_none (get e.0 consumer)) supplier

abbrev pub datatypes_check : (String → Bool) → Ports → Check
datatypes_check known ports =
    each_of (λ e. raise_if (not (known e.1.datatype)) GraphError.unknown_datatype) ports

abbrev extension_check : (String → Bool) → (String → Bool) → ProcessorExtension → Check
extension_check known is_processor x =
    raise_if (not (is_processor x.processor_id)) GraphError.unknown_extension
    also datatypes_check known x.special_inputs
    also each_of (validate_attribute_schema known) x.special_attributes

abbrev pub attribute_names : List Attribute → List String
attribute_names attributes = map (λ a. a.name) attributes

abbrev prefixed : List String → String → Bool
prefixed prefixes name = any (λ prefix. starts_with name (String.◌++◌ prefix ".")) prefixes

abbrev namespace_check : Option (List String) → ProcessorExtension → Check
namespace_check none x = none
namespace_check (some prefixes) x =
    raise_if
      (not
        (all (prefixed prefixes) (keys x.special_inputs ++ attribute_names x.special_attributes)))
      GraphError.foreign_name

-- What the declarations of the processors become: an error, or the ports and attributes by id.
pub data Merge : Type 0 where
  stopped : GraphError → Merge
  merged : Dict (Ports × Ports) → Dict (List Attribute) → Merge

abbrev without_lookup : Attribute → Attribute
without_lookup a = record a { datatype_lookup = none }

-- A manifest holds an attribute without a data type test of its own.
abbrev pub as_manifest : List Attribute → List Attribute
as_manifest attributes = map (λ a. without_lookup a) attributes

-- `_core_processor_ports` and `_core_processor_attributes`
abbrev pub core_ports : List Processor → Dict (Ports × Ports)
core_ports core = map (λ p. (p.processor_id, (p.consumer, p.supplier))) core

abbrev pub core_attributes : List Processor → Dict (List Attribute)
core_attributes core = map (λ p. (p.processor_id, as_manifest p.attributes)) core

-- `processor_ports.update(_plugin_processor_ports(processors))`, and the same of the attributes
abbrev pub plugin_ports : List PluginProcessor → Dict (Ports × Ports) → Dict (Ports × Ports)
plugin_ports [] d = d
plugin_ports (p ∷ ps) d = plugin_ports ps (put p.processor_id (p.consumer, p.supplier) d)

abbrev pub plugin_attributes : List PluginProcessor → Dict (List Attribute) → Dict (List Attribute)
plugin_attributes [] d = d
plugin_attributes (p ∷ ps) d =
    plugin_attributes ps (put p.processor_id (as_manifest p.attributes) d)

-- The loop that adds the extensions.
unfoldable pub extend :
    Dict (Ports × Ports) → Dict (List Attribute) → List ProcessorExtension → Merge
extend ports attributes [] = merged ports attributes
extend ports attributes (x ∷ xs) =
    let existing = or_no_attributes (get x.processor_id attributes) in
    elim (get x.processor_id ports) [
      | none ↦ stopped GraphError.unknown_extension
      | some old ↦
          let next =
            extend (put x.processor_id (old.0 ++ x.special_inputs, old.1) ports)
              (put x.processor_id (existing ++ as_manifest x.special_attributes) attributes) xs in
          if any (λ role. contains role (keys old.0)) (keys x.special_inputs)
            || any (λ name. contains name (attribute_names existing))
                (attribute_names x.special_attributes)
          then stopped GraphError.collision
          else next
    ]

module _ (core_datatypes : List String) (core : List Processor) (core_pipelines : List String) where
  abbrev pub known_datatype : Declarations → String → Bool
  known_datatype g s = contains s core_datatypes || contains s g.datatype_ids

  abbrev pub known_processor : Declarations → String → Bool
  known_processor g id =
      contains id (map (λ p. p.processor_id) core)
      || contains id (map (λ p. p.processor_id) g.processors)

  unfoldable pub merge_processors : Declarations → Merge
  merge_processors g =
      extend (plugin_ports g.processors (core_ports core))
        (plugin_attributes g.processors (core_attributes core)) g.extensions

  abbrev pub capabilities_check : Declarations → Check
  capabilities_check g =
      each_of (declared_check g.declared_capabilities) g.processors
      also each_of (provider_check g.provider_capability_sets) g.processors

  abbrev pub processors_check : Declarations → Check
  processors_check g =
      let known = known_datatype g in
      each_of (λ p. each_of (validate_attribute_schema known) p.attributes) g.processors
      also each_of (λ p. datatypes_check known (merged_roles p.consumer p.supplier)) g.processors

  abbrev pub extensions_check : Declarations → Check
  extensions_check g =
      raise_if (has_duplicates (map (λ x. x.processor_id) g.extensions))
        GraphError.duplicate_declaration
      also each_of (extension_check (known_datatype g) (known_processor g)) g.extensions
      also each_of (namespace_check g.namespace_prefixes) g.extensions

  -- The declarations up to the ids of the pipelines.
  abbrev pub declarations_check : Declarations → Check
  declarations_check g =
      ids_check core_datatypes g.datatype_ids
      also ids_check (map (λ p. p.processor_id) core) (map (λ p. p.processor_id) g.processors)
      also capabilities_check g
      also processors_check g
      also extensions_check g
      also ids_check core_pipelines (map (λ p. p.pipeline_id) g.pipelines)

  abbrev pub pipeline_check :
      Declarations → Dict (Ports × Ports) → Dict (List Attribute) → PluginPipeline → Check
  pipeline_check g ports attributes p =
      raise_if (not (all (known_datatype g) p.initial_inputs)) GraphError.unknown_datatype
      also raise_if (not (all (λ step. known_processor g step.processor) p.steps))
          GraphError.unknown_processor
      also validate_pipeline_graph (known_datatype g) ports attributes p.initial_inputs p.steps

  abbrev pub merged_check : Declarations → Merge → Check
  merged_check g (stopped e) = some e
  merged_check g (merged ports attributes) = each_of (pipeline_check g ports attributes) g.pipelines

  -- `_validate_typed_extension_graph`
  unfoldable pub validate_typed_extension_graph : Declarations → Check
  validate_typed_extension_graph g = declarations_check g also merged_check g (merge_processors g)
