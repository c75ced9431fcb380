-- ===== src/Pipelines/Inferred.antt =====
-- `inferred_step_dependencies`: the steps that each step waits for.
use scene_api.Base.{
  String, Bool, not, ◌&&◌, ◌||◌, Option, none, some, List, [], ◌∷◌, ◌++◌, map, ◌==◌, if◌then◌else◌,
  select, first, contains, Dict, get, put,
}
use scene_api.Db.{Json}
use scene_api.Pipelines.{
  PortSpec, Processor, Ports, dotted, parse_wire_ref, wire_values, requires_verified_match_graph,
  processor_consumer, initial_wiring, supplied, PipelineStep, Supply, Wiring,
}

abbrev pub add_dep : List String → String → List String
add_dep deps ref = if ref == "inputs" || contains ref deps then deps else deps ++ ref ∷ []

abbrev pub add_deps : List String → List String → List String
add_deps deps [] = deps
add_deps deps (ref ∷ refs) = add_deps (add_dep deps ref) refs

-- The supply that a wire names.
abbrev pub named_supply : Dict Supply → Option (String × String) → Option Supply
named_supply by_wire none = none
named_supply by_wire (some (ref, port)) = get (dotted ref port) by_wire

abbrev pub resolve_wire : Dict Supply → Json → Option Supply
resolve_wire by_wire value = named_supply by_wire (parse_wire_ref value)

abbrev pub ref_first : Option Supply → List String → List String
ref_first none refs = refs
ref_first (some s) refs = s.ref ∷ refs

abbrev pub wired_refs : Dict Supply → List Json → List String
wired_refs by_wire [] = []
wired_refs by_wire (v ∷ vs) = ref_first (resolve_wire by_wire v) (wired_refs by_wire vs)

-- A supply that the port can take when it is not wired.
abbrev pub fits_port : PipelineStep → String → PortSpec → Supply → Bool
fits_port step role port s =
    s.datatype == port.datatype
    && (not (requires_verified_match_graph step.processor role) || s.verified_match_graph)

abbrev pub refs_of : List Supply → List String
refs_of ss = map (λ s. s.ref) ss

abbrev pub unwired_refs : Wiring → PipelineStep → String → PortSpec → List String
unwired_refs w step role port =
    if not port.required
    then []
    else if port.multiple
    then refs_of (select (fits_port step role port) w.available)
    else ref_first (first (fits_port step role port) w.available) []

-- The references that one port adds, in order: `break` after the first of a port that is single.
abbrev pub port_refs_of : Option Json → Wiring → PipelineStep → String → PortSpec → List String
port_refs_of (some raw) w step role port = wired_refs w.by_wire (wire_values raw port)
port_refs_of none w step role port = unwired_refs w step role port

abbrev pub port_refs : Wiring → PipelineStep → String × PortSpec → List String
port_refs w step (role, port) = port_refs_of (get role step.wires) w step role port

abbrev pub ports_refs : Wiring → PipelineStep → Ports → List String
ports_refs w step [] = []
ports_refs w step (e ∷ ports) = port_refs w step e ++ ports_refs w step ports

abbrev pub deps_of : Option Processor → Wiring → PipelineStep → List String
deps_of none w step = []
deps_of (some p) w step = add_deps [] (ports_refs w step (processor_consumer p))

abbrev pub wiring_after : Option Processor → Wiring → PipelineStep → Wiring
wiring_after none w step = w
wiring_after (some p) w step = supplied step p w

module _ (lookup : String → Option Processor) where
  unfoldable pub step_deps : Wiring → PipelineStep → List String
  step_deps w step = deps_of (lookup step.processor) w step

  unfoldable pub next_wiring : Wiring → PipelineStep → Wiring
  next_wiring w step = wiring_after (lookup step.processor) w step

  unfoldable pub inferred_from :
      Wiring → List PipelineStep → Dict (List String) → Dict (List String)
  inferred_from w [] out = out
  inferred_from w (step ∷ steps) out =
      inferred_from (next_wiring w step) steps (put step.ref (step_deps w step) out)

  unfoldable pub inferred_step_dependencies :
      List PipelineStep → (initial_inputs : List String) → Dict (List String)
  inferred_step_dependencies steps inputs = inferred_from (initial_wiring inputs) steps []
