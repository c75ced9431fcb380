-- ===== src/Pipelines/Strict.antt =====
-- `_strict_validate_pipeline`: the check of a DAG of processors with named ports.
use scene_api.Base.{
  ℕ, ◌+◌, String, Bool, true, false, not, ◌&&◌, Option, none, some, List, [], ◌∷◌, ◌++◌, map, ◌==◌,
  ltb, eqb, if◌then◌else◌, length, select, occurs, distinct, contains, sort_by, text_le, Dict, get,
  keys,
}
use scene_api.Db.{Json}
use scene_api.Pipelines.{
  PortSpec, Supply, ChainReason, Place, ChainError, error_at, parse_wire_ref, Ports, wire_ref,
  is_list, wire_values, requires_verified_match_graph, processor_consumer, processor_attributes,
  initial_wiring, Processor, PipelineStep, Wiring,
}
use scene_api.Pipelines.Inferred.{named_supply, wiring_after}
use scene_api.Attributes.{validate_attributes, AttributeError}

abbrev pub is_empty {ℓ} : {A : Type ℓ} → List A → Bool
is_empty [] = true
is_empty (x ∷ xs) = false

abbrev pub has_one {ℓ} : {A : Type ℓ} → List A → Bool
has_one xs = eqb (length xs) 1

abbrev duplicate_inputs : List String → List String
duplicate_inputs inputs = sort_by text_le (distinct (select (λ d. ltb 1 (occurs d inputs)) inputs))

abbrev duplicate_input_errors : List String → List ChainError
duplicate_input_errors [] = []
duplicate_input_errors (d ∷ ds) =
    error_at ChainReason.duplicate_initial_input Place.at_inputs ++ duplicate_input_errors ds

-- The loop over the values of a wire: the keys that it collects, and its errors.
abbrev pub found_supply : PortSpec → (needs : Bool) → Place → Supply → List ChainError
found_supply port needs at s =
    if not (s.datatype == port.datatype)
    then error_at ChainReason.datatype_mismatch at
    else if needs && not s.verified_match_graph
    then error_at ChainReason.unverified_match_graph at
    else []

abbrev pub checked_supply : PortSpec → (needs : Bool) → Place → Option Supply → List ChainError
checked_supply port needs at none = error_at ChainReason.unknown_port at
checked_supply port needs at (some s) = found_supply port needs at s

abbrev pub value_errors_at :
    Dict Supply → PortSpec → (needs : Bool) → Place → List Json → List ChainError
value_errors_at by_wire port needs at [] = []
value_errors_at by_wire port needs at (v ∷ vs) =
    checked_supply port needs at (named_supply by_wire (parse_wire_ref v))
    ++ value_errors_at by_wire port needs at vs

abbrev pub key_first : Option Supply → List String → List String
key_first none ks = ks
key_first (some s) ks = wire_ref s ∷ ks

abbrev pub wire_keys : Dict Supply → List Json → List String
wire_keys by_wire [] = []
wire_keys by_wire (v ∷ vs) =
    key_first (named_supply by_wire (parse_wire_ref v)) (wire_keys by_wire vs)

-- The tests on the keys after that loop.
abbrev pub fan_in_errors : PortSpec → Place → List String → List ChainError
fan_in_errors port at ks =
    if port.multiple && not (eqb (length (distinct ks)) (length ks))
    then error_at ChainReason.invalid_fan_in at
    else if port.multiple && (port.required && ltb (length (distinct ks)) 2)
    then error_at ChainReason.invalid_fan_in at
    else []

abbrev pub values_checked :
    Dict Supply → PortSpec → (needs : Bool) → Place → List Json → List ChainError
values_checked by_wire port needs at values =
    if is_empty values && port.required
    then error_at ChainReason.missing_required_port at
    else if port.multiple && (port.required && has_one values)
    then error_at ChainReason.invalid_fan_in at
    else value_errors_at by_wire port needs at values
      ++ fan_in_errors port at (wire_keys by_wire values)

abbrev pub wired_errors : Dict Supply → PortSpec → (needs : Bool) → Place → Json → List ChainError
wired_errors by_wire port needs at raw =
    if not port.multiple && is_list raw
    then error_at ChainReason.invalid_fan_in at
    else values_checked by_wire port needs at (wire_values raw port)

abbrev pub candidate_errors : PortSpec → (needs : Bool) → Place → List Supply → List ChainError
candidate_errors port needs at candidates =
    if is_empty candidates
    then error_at ChainReason.missing_required_port at
    else if port.multiple && (port.required && has_one candidates)
    then error_at ChainReason.invalid_fan_in at
    else if port.multiple
        && (port.required && ltb (length (distinct (map (λ s. wire_ref s) candidates))) 2)
    then error_at ChainReason.invalid_fan_in at
    else if not port.multiple && ltb 1 (length candidates)
    then error_at ChainReason.ambiguous_input at
    else if needs && is_empty (select (λ s. s.verified_match_graph) candidates)
    then error_at ChainReason.unverified_match_graph at
    else []

abbrev pub unwired_errors : List Supply → PortSpec → (needs : Bool) → Place → List ChainError
unwired_errors available port needs at =
    if not port.required
    then []
    else candidate_errors port needs at (select (λ s. s.datatype == port.datatype) available)

abbrev pub errors_of_wire :
    Wiring → PortSpec → (needs : Bool) → Place → Option Json → List ChainError
errors_of_wire w port needs at (some raw) = wired_errors w.by_wire port needs at raw
errors_of_wire w port needs at none = unwired_errors w.available port needs at

abbrev pub port_errors : Wiring → ℕ → PipelineStep → String × PortSpec → List ChainError
port_errors w i step (role, port) =
    errors_of_wire w port (requires_verified_match_graph step.processor role) (Place.at_wire i role)
      (get role step.wires)

abbrev pub ports_errors : Wiring → ℕ → PipelineStep → Ports → List ChainError
ports_errors w i step [] = []
ports_errors w i step (e ∷ ports) = port_errors w i step e ++ ports_errors w i step ports

abbrev pub at_attributes : ℕ → List AttributeError → List ChainError
at_attributes i es =
    map
      (λ e. record { reason = ChainReason.attribute e.reason; place = Place.at_attribute i e.name })
      es

abbrev pub unknown_wires : PipelineStep → Ports → List String
unknown_wires step consumer =
    sort_by text_le (select (λ k. not (contains k (keys consumer))) (keys step.wires))

abbrev pub unknown_wire_errors : ℕ → List String → List ChainError
unknown_wire_errors i roles =
    map (λ role. record { reason = ChainReason.unknown_port; place = Place.at_wire i role }) roles

-- What the loop carries from one step to the next.
pub record Checked : Type 0 where
  pub wiring : Wiring
  pub seen_refs : List String

module _ (is_data_type : String → Bool) (lookup : String → Option Processor) where
  abbrev pub step_attribute_errors : ℕ → PipelineStep → Processor → List ChainError
  step_attribute_errors i step p =
      at_attributes i
        (validate_attributes is_data_type none (processor_attributes p) step.attributes)

  abbrev pub processor_errors : Wiring → ℕ → PipelineStep → Option Processor → List ChainError
  processor_errors w i step none = error_at ChainReason.unknown_processor (Place.at_processor i)
  processor_errors w i step (some p) =
      step_attribute_errors i step p
      ++ unknown_wire_errors i (unknown_wires step (processor_consumer p))
      ++ ports_errors w i step (processor_consumer p)

  unfoldable pub step_errors : Checked → ℕ → PipelineStep → List ChainError
  step_errors c i step =
      if contains step.ref c.seen_refs
      then error_at ChainReason.duplicate_step_ref (Place.at_ref i)
      else processor_errors c.wiring i step (lookup step.processor)

  unfoldable pub after_step : Checked → PipelineStep → Checked
  after_step c step = if contains step.ref c.seen_refs then c else record {
    wiring = wiring_after (lookup step.processor) c.wiring step;
    seen_refs = step.ref ∷ c.seen_refs;
  }

  unfoldable pub steps_errors : Checked → ℕ → List PipelineStep → List ChainError
  steps_errors c i [] = []
  steps_errors c i (step ∷ steps) =
      step_errors c i step ++ steps_errors (after_step c step) (i + 1) steps

  abbrev pub initial_check : List String → Checked
  initial_check inputs = record { wiring = initial_wiring inputs; seen_refs = "inputs" ∷ [] }

  unfoldable pub strict_validate_pipeline :
      List PipelineStep → (initial_inputs : List String) → List ChainError
  strict_validate_pipeline steps inputs =
      duplicate_input_errors (duplicate_inputs inputs)
      ++ steps_errors (initial_check inputs) 0 steps
