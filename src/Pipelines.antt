-- ===== src/Pipelines.antt =====
-- sceneapi/server/core/pipelines.py: the typed composition of processors, with the ports of
-- core/processors.py. Texts of messages are left out; `is_data_type` is a parameter.
pub mod Processors
pub mod Strict
pub mod Legacy
pub mod Validate
pub mod Inferred
pub mod Supplies
pub mod PortSupplies
pub mod References
pub mod Families
pub mod Reached
pub mod Feeds
pub mod Available
pub mod Bound
use Prim.Native.String
use text.Mathlib.Text.{find?, starts_with}
use scene_api.Base.{
  ℕ, String, Bool, true, false, ◌&&◌, ◌||◌, Option, none, some, List, [], ◌∷◌, ◌++◌, map, ◌==◌,
  if◌then◌else◌, is_none, select, Dict, get, put,
}
use scene_api.Db.{Json, Items}
use scene_api.Attributes.{Attribute, Reason}

pub record PortSpec : Type 0 where
  pub datatype : String
  pub required : Bool
  pub multiple : Bool

-- A dictionary of ports in the order of its entries.
abbrev pub Ports : Type 0
Ports = Dict PortSpec

pub record Processor : Type 0 where
  pub processor_id : String
  pub consumer : Ports
  pub supplier : Ports
  pub attributes : List Attribute
  pub capabilities : List String
  pub config_stage : Option String
  pub aliases : List String
  pub special_inputs : Ports
  pub special_attributes : List Attribute

pub record PipelineStep : Type 0 where
  pub ref : String
  pub processor : String
  pub attributes : Dict Json
  pub wires : Dict Json

-- `_Supply`
pub record Supply : Type 0 where
  pub ref : String
  pub port : String
  pub datatype : String
  pub verified_match_graph : Bool

abbrev pub dotted : String → String → String
dotted a b = String.◌++◌ a (String.◌++◌ "." b)

abbrev pub wire_ref : Supply → String
wire_ref s = dotted s.ref s.port

-- The `reason` of a `ChainError`, and where it is: its `path`.
pub data ChainReason : Type 0 where
  duplicate_initial_input duplicate_step_ref unknown_processor unknown_port invalid_fan_in :
      ChainReason
  missing_required_port datatype_mismatch unverified_match_graph ambiguous_input : ChainReason
  attribute : Reason → ChainReason

pub data Place : Type 0 where
  at_inputs : Place
  at_step at_ref at_processor : (step : ℕ) → Place
  at_attribute at_wire : (step : ℕ) (name : String) → Place

pub record ChainError : Type 0 where
  pub reason : ChainReason
  pub place : Place

abbrev pub error_at : ChainReason → Place → List ChainError
error_at reason place = record { reason = reason; place = place } ∷ []

-- `value.rsplit(".", 1)`, where there is a dot
unfoldable pub rsplit_dot : String → Option (String × String)
rsplit_dot String.[] = none
rsplit_dot (String.◌∷◌ c s) = elim (rsplit_dot s) [
  | some (a, b) ↦ some (String.◌∷◌ c a, b)
  | none ↦ if String.◌∷◌ c String.[] == "." then some ("", s) else none
]

abbrev parts_given : Option (String × String) → Option (String × String)
parts_given none = none
parts_given (some (a, b)) = if a == "" || b == "" then none else some (a, b)

-- `_parse_wire_ref`
abbrev pub parse_text : String → Option (String × String)
parse_text value =
    if is_none (find? value ".")
    then none
    else if starts_with value "inputs."
    then (let port = String.slice value 7 (String.len value) in
        if port == "" then none else some ("inputs", port))
    else parts_given (rsplit_dot value)

unfoldable pub parse_wire_ref : Json → Option (String × String)
parse_wire_ref (Json.text value) = parse_text value
parse_wire_ref _ = none

abbrev pub items : Items → List Json
items Items.nil = []
items (Items.cons v vs) = v ∷ items vs

abbrev pub is_list : Json → Bool
is_list (Json.array vs) = true
is_list _ = false

-- `_wire_values`
abbrev pub wire_values : Json → PortSpec → List Json
wire_values (Json.array vs) port = if port.multiple then items vs else Json.array vs ∷ []
wire_values raw port = raw ∷ []

abbrev pub requires_verified_match_graph : (processor_id role : String) → Bool
requires_verified_match_graph processor_id role =
    (processor_id == "map" || processor_id == "triangulate") && role == "matches"

-- `{**consumer, **special_inputs}`
abbrev pub processor_consumer : Processor → Ports
processor_consumer p =
    map (λ e. (e.0, elim (get e.0 p.special_inputs) [ some q ↦ q | none ↦ e.1 ])) p.consumer
    ++ select (λ e. is_none (get e.0 p.consumer)) p.special_inputs

abbrev pub processor_attributes : Processor → List Attribute
processor_attributes p = p.attributes ++ p.special_attributes

abbrev pub step_supply : PipelineStep → String × PortSpec → Supply
step_supply step (role, port) = record {
  ref = step.ref;
  port = role;
  datatype = port.datatype;
  verified_match_graph =
      step.processor == "verify" && (role == "matches" && port.datatype == "match_graph");
}

-- What is there for the next step: `available`, and `by_wire` by wire reference.
pub record Wiring : Type 0 where
  pub available : List Supply
  pub by_wire : Dict Supply

abbrev pub indexed : List Supply → Dict Supply → Dict Supply
indexed [] d = d
indexed (s ∷ ss) d = indexed ss (put (wire_ref s) s d)

abbrev pub input_supply : String → Supply
input_supply datatype = record {
  ref = "inputs";
  port = datatype;
  datatype = datatype;
  verified_match_graph = false;
}

abbrev pub initial_wiring : List String → Wiring
initial_wiring inputs =
    let available = map (λ d. input_supply d) inputs in
    record { available = available; by_wire = indexed available [] }

abbrev pub supplied : PipelineStep → Processor → Wiring → Wiring
supplied step p w =
    let new = map (step_supply step) p.supplier in
    record { available = w.available ++ new; by_wire = indexed new w.by_wire }
