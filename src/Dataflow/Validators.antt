-- ===== src/Dataflow/Validators.antt =====
-- sfm_hub/models/dataflow.py: what pydantic checks of the processors, attributes and extensions that
-- a plugin declares.
use Prim.Native.Char
use Prim.Native.Char.{Char}
use scene_api.Pipelines.Processors.{is_role}
use scene_api.Base.{
  String, Bool, true, false, not, ◌&&◌, ◌||◌, Option, none, some, ◌++◌, map, eqb, all,
}
use scene_api.Attributes.{Attribute, is_enum}
use scene_api.Pipelines.{PortSpec}
use scene_api.Dataflow.Manifests.{
  is_local_id, is_contract_id, has_duplicates, is_pipeline_manifest, is_small_letter, is_ref_char,
}
use scene_api.Dataflow.Extensions.{PluginProcessor, ProcessorExtension, Declarations}
use scene_api.Db.{Json}
use scene_api.Dataflow.{each_of, GraphError, Check, raise_if}
use scene_api.Pipelines.Strict.{is_empty}

abbrev is_dot : Char → Bool
is_dot c = eqb (Char.code c) 46

abbrev is_name_char : Char → Bool
is_name_char c = is_ref_char c || eqb (Char.code c) 45

-- Names of small letters, digits, `_` and `-` that start with a letter, with dots between them;
-- whether the next character starts a name.
abbrev dotted_names : (start : Bool) → String → Bool
dotted_names true String.[] = false
dotted_names false String.[] = true
dotted_names true (String.◌∷◌ c s) = is_small_letter c && dotted_names false s
dotted_names false (String.◌∷◌ c s) =
    (is_name_char c && dotted_names false s) || (is_dot c && dotted_names true s)

abbrev has_dot : String → Bool
has_dot String.[] = false
has_dot (String.◌∷◌ c s) = is_dot c || has_dot s

-- `_ATTRIBUTE_RE`
unfoldable pub is_attribute_name : String → Bool
is_attribute_name s = dotted_names true s

-- `_SPECIAL_ROLE_RE`
unfoldable pub is_special_name : String → Bool
is_special_name s = dotted_names true s && has_dot s

abbrev pub has_default : Option Json → Bool
has_default none = false
has_default (some v) = true

-- `PluginAttributeManifest`
unfoldable pub is_attribute_manifest : Attribute → Bool
is_attribute_manifest a =
    is_attribute_name a.name
    && (not (is_enum a.kind && is_empty a.enum) && not (a.required && has_default a.default))

-- `PluginPortSpecManifest`, under its role, which `_ROLE_RE.match` alone checks
abbrev pub is_port_manifest : String × PortSpec → Bool
is_port_manifest (role, port) = is_role role && is_contract_id port.datatype

-- `PluginProcessorManifest`
unfoldable pub is_processor_manifest : PluginProcessor → Bool
is_processor_manifest p =
    (is_local_id p.processor_id
      && (not (is_empty p.capabilities) && all is_contract_id p.capabilities))
    && ((all is_port_manifest p.consumer && all is_port_manifest p.supplier)
        && (all is_attribute_manifest p.attributes
            && not (has_duplicates (map (λ a. a.name) p.attributes))))

abbrev is_special_input : String × PortSpec → Bool
is_special_input (role, port) =
    is_special_name role && (is_contract_id port.datatype && not port.required)

abbrev is_special_attribute : Attribute → Bool
is_special_attribute a =
    (is_special_name a.name && not a.required) && not (is_enum a.kind && is_empty a.enum)

-- `PluginProcessorExtensionManifest`
unfoldable pub is_extension_manifest : ProcessorExtension → Bool
is_extension_manifest x =
    is_contract_id x.processor_id
    && (all is_special_input x.special_inputs
        && (all is_special_attribute x.special_attributes
            && not (has_duplicates (map (λ a. a.name) x.special_attributes))))

-- `_validate_plugin_owned_declaration_ids`
unfoldable pub owned_ids_check : Declarations → Check
owned_ids_check g =
    each_of (λ id. raise_if (has_dot id) GraphError.malformed)
      (g.datatype_ids
        ++ map (λ p. p.processor_id) g.processors
        ++ map (λ p. p.pipeline_id) g.pipelines)

-- The validators of all the declarations.
unfoldable pub are_manifests : Declarations → Bool
are_manifests g =
    (all is_local_id g.datatype_ids && all is_processor_manifest g.processors)
    && (all is_extension_manifest g.extensions && all is_pipeline_manifest g.pipelines)
