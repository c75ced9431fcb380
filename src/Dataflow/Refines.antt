-- ===== src/Dataflow/Refines.antt =====
-- The check of a plugin's pipeline in the hub (sfm_hub/models/dataflow.py) beside the server's
-- (sceneapi/server/core/pipelines.py).
use mathlib.Core.Bool.{false≢true}
use mathlib.Core.Option.{none-ne-some, some-injective}
use scene_api.Base.{
  ℕ, String, ◌≡◌, refl, sym, ap, ◌∙◌, subst, inl, inr, Bool, true, false, not, Option, none, some,
  List, [], ◌∷◌, ◌++◌, map, ◌==◌, eq_iff, Bool-cases, is_none, select, All, contains, All-append,
  Dict, get, put, keys,
}
use scene_api.Db.{Json}
use scene_api.Pipelines.{
  PortSpec, Supply, Wiring, Place, Processor, Ports, PipelineStep, wire_ref, supplied,
  initial_wiring, requires_verified_match_graph, step_supply, indexed, input_supply,
  processor_consumer, processor_attributes,
}
use scene_api.Pipelines.Strict.{
  ports_errors, errors_of_wire, is_empty, processor_errors, step_errors, Checked,
}
use scene_api.Dataflow.{
  port_check, graph_indexed, graph_supplied, wiring_check, raise_if, ◌also◌, each_of,
  attributes_check, or_no_attributes, consumer_check, steps_check, GraphError,
}
use scene_api.Dataflow.Manifests.{ref_rest}
use scene_api.Dataflow.Wires.{
  graph_view, IsKeyed, wire_entry, wired-Sound, also-none, also-raise, each_of-none,
}
use scene_api.Dataflow.Candidates.{unwired-Sound}
use scene_api.Attributes.{Attribute}
use scene_api.Dataflow.Bindings.{attributes-Sound}
use scene_api.Dataflow.Fresh.{is_empty-nil}

pub graph_view-indexed :
    (ss : List Supply) (d : Dict Supply)
    → graph_indexed ss (map wire_entry d) ≡ map wire_entry (indexed ss d)
graph_view-indexed [] d = refl
graph_view-indexed (s ∷ ss) d = graph_view-indexed ss (put (wire_ref s) s d)

pub graph_view-supplied :
    (step : PipelineStep) (p : Processor) (w : Wiring)
    → graph_supplied step p.supplier (graph_view w) ≡ graph_view (supplied step p w)
graph_view-supplied step p w =
    ap (λ d. record { available = w.available ++ map (step_supply step) p.supplier; by_wire = d })
      (graph_view-indexed (map (step_supply step) p.supplier) w.by_wire)

indexed-IsKeyed : (ss : List Supply) (d : Dict Supply) → IsKeyed d → IsKeyed (indexed ss d)
indexed-IsKeyed [] d keyed = keyed
indexed-IsKeyed (s ∷ ss) d keyed = indexed-IsKeyed ss (put (wire_ref s) s d) (λ k t e.
    elim (Bool-cases (wire_ref s == k)) [
      | inl same ↦
          ap (λ z. wire_ref z) (sym (some-injective _ _ (rw same at e)))
          ∙ (eq_iff (wire_ref s) k).0 same
      | inr other ↦ keyed k t (rw other at e)
    ])

supplies-Undotted :
    (step : PipelineStep) (ports : Ports)
    → ref_rest step.ref ≡ true
    → All (λ s. ref_rest s.ref ≡ true) (map (step_supply step) ports)
supplies-Undotted step [] r = tt
supplies-Undotted step (e ∷ ports) r = (r, supplies-Undotted step ports r)

inputs-Undotted :
    (inputs : List String) → All (λ s. ref_rest s.ref ≡ true) (map (λ d. input_supply d) inputs)
inputs-Undotted [] = tt
inputs-Undotted (d ∷ inputs) = (refl, inputs-Undotted inputs)

-- The wiring that both checks keep: suppliers under their own wires, with references without dots.
pub record IsWired (w : Wiring) : Type 0 where
  pub keyed : IsKeyed w.by_wire
  pub undotted : All (λ s. ref_rest s.ref ≡ true) w.available

pub supplied-IsWired :
    (step : PipelineStep) (p : Processor) (w : Wiring)
    → ref_rest step.ref ≡ true
    → IsWired w
    → IsWired (supplied step p w)
supplied-IsWired step p w r good = record {
  keyed = indexed-IsKeyed (map (step_supply step) p.supplier) w.by_wire good.keyed;
  undotted =
      All-append (λ s. ref_rest s.ref ≡ true) w.available (map (step_supply step) p.supplier)
        good.undotted (supplies-Undotted step p.supplier r);
}

pub initial-IsWired : (inputs : List String) → IsWired (initial_wiring inputs)
initial-IsWired inputs = record {
  keyed =
      indexed-IsKeyed (map (λ d. input_supply d) inputs) [] (λ k s e. absurd (none-ne-some _ e));
  undotted = inputs-Undotted inputs;
}

module _ (w : Wiring) (good : IsWired w) (i : ℕ) (step : PipelineStep) where
  wiring-Sound :
      (port : PortSpec) (needs : Bool) (at : Place) (o : Option Json)
      → wiring_check (graph_view w) port needs o ≡ none
      → errors_of_wire w port needs at o ≡ []
  wiring-Sound port needs at (some raw) e =
      wired-Sound w.by_wire good.keyed port needs at w.available raw e
  wiring-Sound port needs at none e = unwired-Sound port needs at (graph_view w) good.undotted e

  ports-Sound :
      (ports : Ports)
      → All (λ e. port_check (graph_view w) step e ≡ none) ports
      → ports_errors w i step ports ≡ []
  ports-Sound [] a = refl
  ports-Sound ((role, port) ∷ ports) a =
      rw
        (
          wiring-Sound port (requires_verified_match_graph step.processor role)
              (Place.at_wire i role) (get role step.wires) a.0,
          ports-Sound ports a.1,
        )
        refl

-- The ports and the attributes that the hub holds of a processor of the server.
abbrev pub ports_of : Option Processor → Option (Ports × Ports)
ports_of none = none
ports_of (some p) = some (processor_consumer p, p.supplier)

abbrev pub attributes_of : Option Processor → List Attribute
attributes_of none = []
attributes_of (some p) = processor_attributes p

module _ (known : String → Bool) (lookup : String → Option Processor) (ports : Dict (Ports × Ports))
    (attributes : Dict (List Attribute)) where
  processor-Sound :
      (w : Wiring) (i : ℕ) (step : PipelineStep) (p : Processor)
      → IsWired w
      → or_no_attributes (get step.processor attributes) ≡ processor_attributes p
      → All (λ a. a.datatype_lookup ≡ none) (processor_attributes p)
      → consumer_check known ports attributes (graph_view w) step (processor_consumer p) ≡ none
      → processor_errors known lookup w i step (some p) ≡ []
  processor-Sound w i step p good same own e =
      let consumer = processor_consumer p in
      let bound = attributes_check known (or_no_attributes (get step.processor attributes)) step in
      let unknown = select (λ k. not (contains k (keys consumer))) (keys step.wires) in
      let each_checked = each_of (port_check (graph_view w) step) consumer in
      let (e₁, rest) =
        also-none bound
          (raise_if (not (is_empty unknown)) GraphError.unknown_consumer_port also each_checked)
          e in
      let (e₂, e₃) =
        also-raise (not (is_empty unknown)) GraphError.unknown_consumer_port each_checked rest in
      rw
        (
          attributes-Sound known (processor_attributes p) step own
              (subst (λ z. attributes_check known z step ≡ none) same e₁),
          is_empty-nil unknown e₂,
          ports-Sound w good i step consumer
              (each_of-none (port_check (graph_view w) step) consumer e₃),
        )
        refl

  -- One step of both loops.
  pub step-Sound :
      (c : Checked) (i : ℕ) (step : PipelineStep) (steps : List PipelineStep) (o : Option Processor)
      → lookup step.processor ≡ o
      → is_none o ≡ false
      → IsWired c.wiring
      → contains step.ref c.seen_refs ≡ false
      → ref_rest step.ref ≡ true
      → get step.processor ports ≡ ports_of o
      → or_no_attributes (get step.processor attributes) ≡ attributes_of o
      → All (λ a. a.datatype_lookup ≡ none) (attributes_of o)
      → steps_check known ports attributes (graph_view c.wiring) (step ∷ steps) ≡ none
      → (p : Processor) × (o ≡ some p)
        × (step_errors known lookup c i step ≡ [])
        × (steps_check known ports attributes (graph_view (supplied step p c.wiring)) steps ≡ none)
  unfolding steps_check step_errors
  step-Sound c i step steps none found is good new role same_ports same_attributes own e =
      absurd (false≢true (sym is))
  step-Sound c i step steps (some p) found is good new role same_ports same_attributes own e =
      let both : (consumer_check known ports attributes (graph_view c.wiring) step
              (processor_consumer p)
            also steps_check known ports attributes
                (graph_supplied step p.supplier (graph_view c.wiring)) steps)
          ≡ none =
        rw (steps_check, same_ports) at e in
      let (here, later) =
        also-none
          (consumer_check known ports attributes (graph_view c.wiring) step (processor_consumer p))
          (steps_check known ports attributes (graph_supplied step p.supplier (graph_view c.wiring))
            steps)
          both in
      (
        p,
        refl,
        rw (new, found) (processor-Sound c.wiring i step p good same_attributes own here),
        subst (λ z. steps_check known ports attributes z steps ≡ none)
            (graph_view-supplied step p c.wiring) later,
      )
