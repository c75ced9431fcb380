-- ===== src/Dataflow.antt =====
-- sfm_hub/models/dataflow.py: the dataflow that a plugin declares, and the check of its pipelines.
-- Each check returns the first error that the code raises. Texts of messages are left out.
pub mod Declared
pub mod Manifests
pub mod Merged
pub mod Accepted
pub mod Bindings
pub mod Candidates
pub mod Fresh
pub mod Registered
pub mod Registry
pub mod PluginManifests
pub mod Refines
pub mod Strict
pub mod Validators
pub mod Validated
pub mod Wires
pub mod Extensions
use scene_api.Base.{
  String, Bool, true, false, not, ◌&&◌, ◌||◌, Option, none, some, List, [], ◌∷◌, ◌++◌, map, ◌==◌,
  ltb, eqb, if◌then◌else◌, length, any, select, distinct, contains, Dict, get, put, keys,
}
use scene_api.Number.{Number, less}
use scene_api.Db.{Json}
use scene_api.Attributes.{Attribute, AttributeType, is_int, is_number, is_null}
use scene_api.Pipelines.{
  PortSpec, Ports, PipelineStep, Supply, dotted, parse_wire_ref, is_list, wire_values,
  requires_verified_match_graph, input_supply, step_supply, processor_attributes,
}
use scene_api.Pipelines.Strict.{is_empty}

-- The `ValueError`s, by what is wrong.
pub data GraphError : Type 0 where
  malformed duplicate_declaration core_redefined undeclared_capability capabilities_apart :
      GraphError
  attribute_schema unknown_datatype unknown_extension foreign_name collision : GraphError
  unknown_processor unknown_attribute missing_attribute attribute_type attribute_bound : GraphError
  unknown_consumer_port not_multiple missing_port malformed_wire unknown_supplier : GraphError
  datatype_mismatch unverified_match_graph duplicate_wires too_few_inputs : GraphError
  missing_datatype ambiguous_input self_dependency : GraphError

-- What a check raises, if anything.
abbrev pub Check : Type 0
Check = Option GraphError

abbrev pub raise_if : Bool → GraphError → Check
raise_if true e = some e
raise_if false e = none

-- One check after the other.
infixr 4 ◌also◌
abbrev pub ◌also◌ : Check → Check → Check
some e also next = some e
none also next = next

-- The same check of each element in turn.
abbrev pub each_of {ℓ} : {A : Type ℓ} → (A → Check) → List A → Check
each_of f [] = none
each_of f (x ∷ xs) = f x also each_of f xs

-- What `isinstance(value, (int, float))` lets through, which a `bool` is too, as 0 or 1
abbrev pub as_number : Json → Option Number
as_number (Json.number n) = some n
as_number (Json.bool b) =
    some
      (record { is_float = false; negative = false; magnitude = if b then 1 else 0; halvings = 0 })
as_number _ = none

abbrev pub is_under : Option Number → Option Number → Bool
is_under (some a) (some b) = less a b
is_under _ _ = false

-- What is there for the next step: `available`, and `by_wire` with the datatype of each wire and
-- whether it is verified.
pub record GraphWiring : Type 0 where
  pub available : List Supply
  pub by_wire : Dict (String × Bool)

abbrev pub graph_indexed : List Supply → Dict (String × Bool) → Dict (String × Bool)
graph_indexed [] d = d
graph_indexed (s ∷ ss) d =
    graph_indexed ss (put (dotted s.ref s.port) (s.datatype, s.verified_match_graph) d)

abbrev pub graph_initial : List String → GraphWiring
graph_initial inputs =
    let available = map (λ d. input_supply d) inputs in
    record { available = available; by_wire = graph_indexed available [] }

abbrev pub graph_supplied : PipelineStep → Ports → GraphWiring → GraphWiring
graph_supplied step supplier w =
    let new = map (step_supply step) supplier in
    record { available = w.available ++ new; by_wire = graph_indexed new w.by_wire }

-- The body of the loop over the values of a wire.
abbrev pub supply_check : PortSpec → (needs : Bool) → Option (String × Bool) → Check
supply_check port needs none = some GraphError.unknown_supplier
supply_check port needs (some (datatype, verified)) =
    raise_if (not (datatype == port.datatype)) GraphError.datatype_mismatch
    also raise_if (needs && not verified) GraphError.unverified_match_graph

abbrev pub wire_check :
    Dict (String × Bool) → PortSpec → (needs : Bool) → Option (String × String) → Check
wire_check by_wire port needs none = some GraphError.malformed_wire
wire_check by_wire port needs (some (ref, role)) =
    supply_check port needs (get (dotted ref role) by_wire)

abbrev pub key_of : Option (String × String) → List String → List String
key_of none ks = ks
key_of (some (ref, role)) ks = dotted ref role ∷ ks

abbrev pub graph_keys : List Json → List String
graph_keys [] = []
graph_keys (v ∷ vs) = key_of (parse_wire_ref v) (graph_keys vs)

-- The tests on the keys after that loop.
abbrev pub keys_check : PortSpec → List String → Check
keys_check port ks =
    raise_if (port.multiple && not (eqb (length (distinct ks)) (length ks)))
      GraphError.duplicate_wires
    also raise_if (port.multiple && (port.required && ltb (length (distinct ks)) 2))
        GraphError.too_few_inputs

abbrev pub wired_check : GraphWiring → PortSpec → (needs : Bool) → Json → Check
wired_check w port needs raw =
    let values = wire_values raw port in
    raise_if (is_list raw && not port.multiple) GraphError.not_multiple
    also raise_if (is_empty values && port.required) GraphError.missing_port
    also each_of (λ v. wire_check w.by_wire port needs (parse_wire_ref v)) values
    also keys_check port (graph_keys values)

abbrev pub same_pair : String × String → String × String → Bool
same_pair a b = a.0 == b.0 && a.1 == b.1

-- `{(s[0], s[1]) for s in candidates}`
abbrev pub distinct_pairs : List (String × String) → List (String × String)
distinct_pairs [] = []
distinct_pairs (p ∷ ps) = p ∷ select (λ q. not (same_pair q p)) (distinct_pairs ps)

abbrev pub candidates_check : PortSpec → (needs : Bool) → List Supply → Check
candidates_check port needs cs =
    raise_if (is_empty cs && port.required) GraphError.missing_datatype
    also raise_if
        (port.multiple
          && (port.required && eqb (length (distinct_pairs (map (λ s. (s.ref, s.port)) cs))) 1))
        GraphError.too_few_inputs
    also raise_if (ltb 1 (length cs) && not port.multiple) GraphError.ambiguous_input
    also raise_if (needs && not (any (λ s. s.verified_match_graph) cs))
        GraphError.unverified_match_graph

abbrev pub unwired_check : GraphWiring → PortSpec → (needs : Bool) → Check
unwired_check w port needs =
    if not port.required
    then none
    else candidates_check port needs (select (λ s. s.datatype == port.datatype) w.available)

abbrev pub wiring_check : GraphWiring → PortSpec → (needs : Bool) → Option Json → Check
wiring_check w port needs (some raw) = wired_check w port needs raw
wiring_check w port needs none = unwired_check w port needs

abbrev pub port_check : GraphWiring → PipelineStep → String × PortSpec → Check
port_check w step (role, port) =
    wiring_check w port (requires_verified_match_graph step.processor role) (get role step.wires)

-- `processor_attributes.get(step.processor, [])`
abbrev pub or_no_attributes : Option (List Attribute) → List Attribute
or_no_attributes none = []
or_no_attributes (some attributes) = attributes

module _ (known_datatypes : String → Bool) where
  -- `_value_matches_attribute`
  unfoldable pub value_matches_attribute : Attribute → Json → Bool
  value_matches_attribute a value = elim a.kind [
    | AttributeType.bool ↦ elim value [ Json.bool b ↦ true | _ ↦ false ]
    | AttributeType.int ↦ is_int value
    | AttributeType.float ↦ is_number value
    | AttributeType.str ↦ elim value [ Json.text s ↦ true | _ ↦ false ]
    | AttributeType.enum ↦ elim value [ Json.text s ↦ contains s a.enum | _ ↦ false ]
    | AttributeType.datatype_ref ↦ elim value [ Json.text s ↦ known_datatypes s | _ ↦ false ]
    | AttributeType.object ↦ elim value [ Json.object o ↦ true | _ ↦ false ]
  ]

  -- The loop body of `_validate_step_attributes`, on the value that the step binds.
  unfoldable pub attribute_check : Attribute → Option Json → Check
  attribute_check a none = raise_if a.required GraphError.missing_attribute
  attribute_check a (some v) =
      raise_if (is_null v || not (value_matches_attribute a v)) GraphError.attribute_type
      also raise_if (is_under (as_number v) a.min) GraphError.attribute_bound
      also raise_if (is_under a.max (as_number v)) GraphError.attribute_bound

  -- `_validate_step_attributes`
  unfoldable pub attributes_check : List Attribute → PipelineStep → Check
  attributes_check attributes step =
      raise_if
        (not (
          is_empty
            (select (λ k. not (contains k (map (λ a. a.name) attributes))) (keys step.attributes))))
        GraphError.unknown_attribute
      also each_of (λ a. attribute_check a (get a.name step.attributes)) attributes

  module _ (processor_ports : Dict (Ports × Ports))
      (processor_attributes : Dict (List Attribute)) where
    abbrev pub consumer_check : GraphWiring → PipelineStep → Ports → Check
    consumer_check w step consumer =
        attributes_check (or_no_attributes (get step.processor processor_attributes)) step
        also raise_if
            (not (is_empty (select (λ k. not (contains k (keys consumer))) (keys step.wires))))
            GraphError.unknown_consumer_port
        also each_of (port_check w step) consumer

    -- The loop over the steps, which passes over a processor that it does not know.
    unfoldable pub steps_check : GraphWiring → List PipelineStep → Check
    steps_check w [] = none
    steps_check w (step ∷ steps) = elim (get step.processor processor_ports) [
      | none ↦ steps_check w steps
      | some ports ↦
          consumer_check w step ports.0 also steps_check (graph_supplied step ports.1 w) steps
    ]

    -- `_validate_pipeline_graph`
    unfoldable pub validate_pipeline_graph :
        (initial_inputs : List String) → List PipelineStep → Check
    validate_pipeline_graph initial_inputs steps = steps_check (graph_initial initial_inputs) steps
