-- ===== src/Dataflow/Strict.antt =====
-- The whole check of a plugin's pipeline in the hub (sfm_hub/models/dataflow.py) refines the
-- server's strict validation (sceneapi/server/core/pipelines.py).
use scene_api.Base.{
  ℕ, ◌+◌, String, ◌≡◌, refl, sym, ap, subst, inl, inr, Bool, true, false, Option, none, List, [],
  ◌∷◌, map, arith, ◌==◌, eq_iff, ltb, Bool-cases, is_none, select, All, occurs, contains, all-All,
  Dict, get,
}
use scene_api.Attributes.{Attribute}
use scene_api.Pipelines.{
  Wiring, Processor, Ports, PipelineStep, initial_wiring, input_supply, supplied,
}
use scene_api.Pipelines.Strict.{strict_validate_pipeline, Checked, steps_errors, after_step}
use scene_api.Dataflow.{validate_pipeline_graph, steps_check, graph_initial, or_no_attributes}
use scene_api.Dataflow.Manifests.{
  is_pipeline_manifest, PluginPipeline, is_step_manifest, has_duplicates, is_ref, ref_rest,
}
use scene_api.Dataflow.Refines.{
  ports_of, attributes_of, graph_view-indexed, supplied-IsWired, step-Sound, IsWired,
  initial-IsWired,
}
use scene_api.Dataflow.Wires.{graph_view}
use scene_api.Dataflow.Fresh.{Apart, is_empty-nil, has_duplicates-Apart}
use scene_api.Dataflow.Fresh.{fresh-later}

is_ref-ref_rest : (s : String) → is_ref s ≡ true → ref_rest s ≡ true
unfolding is_ref
is_ref-ref_rest String.[] r = refl
is_ref-ref_rest (String.◌∷◌ c s) r = ground (arith, r)

graph_view-initial :
    (inputs : List String) → graph_initial inputs ≡ graph_view (initial_wiring inputs)
graph_view-initial inputs =
    ap (λ d. record { available = map (λ d. input_supply d) inputs; by_wire = d })
      (graph_view-indexed (map (λ d. input_supply d) inputs) [])

refs-seen :
    (seen : List String) (steps : List PipelineStep)
    → All (λ step. contains step.ref seen ≡ false) steps
    → All (λ r. contains r seen ≡ false) (map (λ step. step.ref) steps)
refs-seen seen [] a = tt
refs-seen seen (step ∷ steps) a = (a.0, refs-seen seen steps a.1)

seen-refs :
    (seen : List String) (steps : List PipelineStep)
    → All (λ r. contains r seen ≡ false) (map (λ step. step.ref) steps)
    → All (λ step. contains step.ref seen ≡ false) steps
seen-refs seen [] a = tt
seen-refs seen (step ∷ steps) a = (a.0, seen-refs seen steps a.1)

module _ (known : String → Bool) (lookup : String → Option Processor) (ports : Dict (Ports × Ports))
    (attributes : Dict (List Attribute))
    (same_ports : (id : String) → get id ports ≡ ports_of (lookup id))
    (same_attributes : (id : String)
      → is_none (lookup id) ≡ false
      → or_no_attributes (get id attributes) ≡ attributes_of (lookup id))
    (own : (id : String) → All (λ a. a.datatype_lookup ≡ none) (attributes_of (lookup id))) where
  steps-Sound :
      (w : Wiring) (seen : List String) (i : ℕ) (steps : List PipelineStep)
      → IsWired w
      → All (λ step. contains step.ref seen ≡ false) steps
      → Apart (map (λ step. step.ref) steps)
      → All (λ step. ref_rest step.ref ≡ true) steps
      → All (λ step. is_none (lookup step.processor) ≡ false) steps
      → steps_check known ports attributes (graph_view w) steps ≡ none
      → steps_errors known lookup (record { wiring = w; seen_refs = seen }) i steps ≡ []
  unfolding steps_errors after_step
  steps-Sound w seen i [] good new apart roles is e = refl
  steps-Sound w seen i (step ∷ steps) good new apart roles is e =
      let c : Checked = record { wiring = w; seen_refs = seen } in
      let (p, found, here, later) =
        step-Sound known lookup ports attributes c i step steps (lookup step.processor) refl is.0
          good new.0 roles.0 (same_ports step.processor) (same_attributes step.processor is.0)
          (own step.processor) e in
      rw (here, new.0, found)
        (steps-Sound (supplied step p w) (step.ref ∷ seen) (i + 1) steps
          (supplied-IsWired step p w roles.0 good)
          (seen-refs (step.ref ∷ seen) steps (
            fresh-later step.ref seen (map (λ s. s.ref) steps) apart.0
              (refs-seen seen steps new.1)))
          apart.1 roles.1 is.1 later)

is_step_manifest-role :
    (steps : List PipelineStep)
    → All (λ step. is_step_manifest step ≡ true) steps
    → All (λ step. ref_rest step.ref ≡ true) steps
is_step_manifest-role [] a = tt
is_step_manifest-role (step ∷ steps) a =
    (is_ref-ref_rest step.ref (ground (arith, a.0)), is_step_manifest-role steps a.1)

is_step_manifest-new :
    (steps : List PipelineStep)
    → All (λ step. is_step_manifest step ≡ true) steps
    → All (λ step. contains step.ref ("inputs" ∷ []) ≡ false) steps
is_step_manifest-new [] a = tt
is_step_manifest-new (step ∷ steps) a = (
  elim (Bool-cases ("inputs" == step.ref)) [
    | inl same ↦ absurd (
        ground (arith, a.0, (eq_iff step.ref "inputs").1 (sym ((eq_iff "inputs" step.ref).0 same))))
    | inr other ↦ rw other refl
  ],
  is_step_manifest-new steps a.1,
)

-- A declared pipeline that the hub's graph validation accepts, over the ports and the attributes of
-- the processors that the server looks up, all of them known, without data type tests of their own,
-- validates on the server without errors, with the same data types.
pub strict_validate-validate_pipeline_graph :
    (known : String → Bool) (lookup : String → Option Processor) (ports : Dict (Ports × Ports))
    (attributes : Dict (List Attribute)) (p : PluginPipeline)
    → ((id : String) → get id ports ≡ ports_of (lookup id))
    → ((id : String)
        → is_none (lookup id) ≡ false
        → or_no_attributes (get id attributes) ≡ attributes_of (lookup id))
    → ((id : String) → All (λ a. a.datatype_lookup ≡ none) (attributes_of (lookup id)))
    → All (λ step. is_none (lookup step.processor) ≡ false) p.steps
    → is_pipeline_manifest p ≡ true
    → validate_pipeline_graph known ports attributes p.initial_inputs p.steps ≡ none
    → strict_validate_pipeline known lookup p.steps p.initial_inputs ≡ []
unfolding is_pipeline_manifest validate_pipeline_graph strict_validate_pipeline
strict_validate-validate_pipeline_graph known lookup ports attributes p same_ports same_attributes
      own is declared e =
    let steps = all-All is_step_manifest p.steps (ground (arith, declared)) in
    let once : has_duplicates p.initial_inputs ≡ false = ground (arith, declared) in
    let refs : has_duplicates (map (λ step. step.ref) p.steps) ≡ false = ground (arith, declared) in
    rw
      (
        is_empty-nil (select (λ d. ltb 1 (occurs d p.initial_inputs)) p.initial_inputs) once,
        steps-Sound known lookup ports attributes same_ports same_attributes own
            (initial_wiring p.initial_inputs) ("inputs" ∷ []) 0 p.steps
            (initial-IsWired p.initial_inputs) (is_step_manifest-new p.steps steps)
            (has_duplicates-Apart (map (λ step. step.ref) p.steps) refs)
            (is_step_manifest-role p.steps steps) is
            (subst (λ w. steps_check known ports attributes w p.steps ≡ none)
              (graph_view-initial p.initial_inputs) e),
      )
      refl
