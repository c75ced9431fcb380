-- ===== src/Pipelines/Feeds.antt =====
-- What a pipeline that validates without errors guarantees to each of its steps.
use mathlib.Core.List.Memᴰ
use mathlib.Core.List.{Memᴰ, cons≢nil}
use mathlib.Core.Option.{none-ne-some, some-injective}
use mathlib.Core.Bool.{false≢true}
use scene_api.Base.{
  ℕ, String, ◌≡◌, sym, ap, ◌∙◌, subst, ◌⊎◌, inl, inr, Bool, true, not, ◌||◌, Option, none, some,
  List, [], ◌∷◌, ◌++◌, ◌==◌, get,
}
use scene_api.Attributes.Laws.{parts-nil}
use scene_api.Pipelines.{
  PortSpec, Processor, PipelineStep, Wiring, requires_verified_match_graph, processor_consumer,
  step_supply, input_supply, initial_wiring, Supply,
}
use scene_api.Pipelines.Inferred.{ports_refs, deps_of, step_deps, inferred_step_dependencies}
use scene_api.Pipelines.Strict.{
  ports_errors, processor_errors, strict_validate_pipeline, unknown_wires, unknown_wire_errors,
  step_attribute_errors,
}
use scene_api.Pipelines.Supplies.{
  step_refs, wiring_of, Produced, wiring_of-Produced, get-inferred, Memᴰ-add_deps,
  Memᴰ-add_deps-from,
}
use scene_api.Pipelines.PortSupplies.{port-Taken, Known}
use scene_api.Pipelines.Reached.{strict-Reaches, ports_errors-at}
use scene_api.Pipelines.References.{ports_refs-Known, Memᴰ-ports_refs}

module _ (is_data_type : String → Bool) (lookup : String → Option Processor) where
  Known-Produced :
      (inputs : List String) (before : List PipelineStep) (s : Supply)
      → Known (wiring_of lookup (initial_wiring inputs) before) s
      → Produced lookup inputs before s
  Known-Produced inputs before s (inl there) = (wiring_of-Produced lookup inputs before).0 s there
  Known-Produced inputs before s (inr (k, found)) =
      (wiring_of-Produced lookup inputs before).1 k s found

  processor-ports :
      (w : Wiring) (j : ℕ) (step : PipelineStep) (o : Option Processor) (p : Processor)
      → processor_errors is_data_type lookup w j step o ≡ []
      → o ≡ some p
      → ports_errors w j step (processor_consumer p) ≡ []
  processor-ports w j step none p e found = absurd (cons≢nil e)
  processor-ports w j step (some q) p e found =
      subst (λ z. ports_errors w j step (processor_consumer z) ≡ []) (some-injective _ _ found)
        (parts-nil
          (step_attribute_errors is_data_type lookup j step q
            ++ unknown_wire_errors j (unknown_wires step (processor_consumer q)))
          _ e).1

  inferred-at :
      (inputs : List String) (before rest : List PipelineStep) (step : PipelineStep)
      → strict_validate_pipeline is_data_type lookup (before ++ step ∷ rest) inputs ≡ []
      → get step.ref (inferred_step_dependencies lookup (before ++ step ∷ rest) inputs)
        ≡ some (step_deps lookup (wiring_of lookup (initial_wiring inputs) before) step)
  unfolding inferred_step_dependencies
  inferred-at inputs before rest step valid =
      get-inferred lookup (initial_wiring inputs) before rest step []
        (strict-Reaches is_data_type lookup inputs before rest step valid).2

  named-dep :
      (w : Wiring) (step : PipelineStep) (o : Option Processor) (p : Processor) (r : String)
      → o ≡ some p
      → Memᴰ r (ports_refs w step (processor_consumer p))
      → (r ≡ "inputs") ⊎ Memᴰ r (deps_of o w step)
  named-dep w step none p r e m = absurd (none-ne-some _ e)
  named-dep w step (some q) p r e m = Memᴰ-add_deps r [] _ (
      subst (λ z. Memᴰ r (ports_refs w step (processor_consumer z))) (sym (some-injective _ _ e)) m)

  -- In a pipeline that validates without errors, a required port of a step's processor has a supply
  -- of its data type, verified where the port needs a verified match graph, which is an initial
  -- input or one that an earlier step of the pipeline supplies, and the dependencies inferred for
  -- the step name the step that it comes from.
  pub strict_validate-feeds :
      (inputs : List String) (before rest : List PipelineStep) (step : PipelineStep) (p : Processor)
      (role : String) (port : PortSpec)
      → strict_validate_pipeline is_data_type lookup (before ++ step ∷ rest) inputs ≡ []
      → lookup step.processor ≡ some p
      → Memᴰ (role, port) (processor_consumer p)
      → port.required ≡ true
      → (s : Supply) × (deps : List String) × Produced lookup inputs before s
        × ((s.datatype == port.datatype) ≡ true)
        × ((not (requires_verified_match_graph step.processor role) || s.verified_match_graph)
            ≡ true)
        × (get step.ref (inferred_step_dependencies lookup (before ++ step ∷ rest) inputs)
            ≡ some deps)
        × ((s.ref ≡ "inputs") ⊎ Memᴰ s.ref deps)
  unfolding step_deps
  strict_validate-feeds inputs before rest step p role port valid found m required =
      let w = wiring_of lookup (initial_wiring inputs) before in
      let (j, good, _) = strict-Reaches is_data_type lookup inputs before rest step valid in
      let ports = processor-ports w j step (lookup step.processor) p good found in
      let (s, known, same, verified, named) =
        port-Taken w j step role port
          (ports_errors-at w j step (role, port) (processor_consumer p) ports m) required in
      (
        s,
        step_deps lookup w step,
        Known-Produced inputs before s known,
        same,
        verified,
        inferred-at inputs before rest step valid,
        named-dep w step (lookup step.processor) p s.ref found
            (Memᴰ-ports_refs w step (role, port) (processor_consumer p) s.ref m named),
      )

  Produced-ref :
      (inputs : List String) (before : List PipelineStep) (s : Supply)
      → Produced lookup inputs before s
      → (s.ref ≡ "inputs") ⊎ Memᴰ s.ref (step_refs before)
  Produced-ref inputs before s (inl m) =
      let (d, _, e) = Memᴰ.of_map (λ d. input_supply d) inputs m in inl (ap (λ z. z.ref) (sym e))
  Produced-ref inputs before s (inr (e, p, m, found, made)) =
      let (port, _, same) = Memᴰ.of_map (step_supply e) p.supplier made in
      inr (Memᴰ.cast (ap (λ z. z.ref) (sym same)) (Memᴰ.map (λ z. z.ref) m))

  deps-earlier :
      (inputs : List String) (before : List PipelineStep) (step : PipelineStep)
      (o : Option Processor) (r : String)
      → Memᴰ r (deps_of o (wiring_of lookup (initial_wiring inputs) before) step)
      → Memᴰ r (step_refs before)
  deps-earlier inputs before step none r m = absurd (Memᴰ.not-nil m)
  deps-earlier inputs before step (some p) r m =
      let w = wiring_of lookup (initial_wiring inputs) before in
      elim (Memᴰ-add_deps-from r [] (ports_refs w step (processor_consumer p)) m) [
        | inl impossible ↦ absurd (Memᴰ.not-nil impossible)
        | inr (m', step_ref) ↦
            let (s, known, e) = ports_refs-Known w step (processor_consumer p) r m' in
            elim (Produced-ref inputs before s (Known-Produced inputs before s known)) [
              | inl source ↦
                  absurd (false≢true (sym step_ref ∙ ap (λ z. z == "inputs") (sym e ∙ source)))
              | inr earlier ↦ Memᴰ.cast (sym e) earlier
            ]
      ]

  -- In a pipeline that validates without errors, the dependencies inferred for a step are names of
  -- earlier steps only.
  pub inferred-earlier :
      (inputs : List String) (before rest : List PipelineStep) (step : PipelineStep)
      (deps : List String) (r : String)
      → strict_validate_pipeline is_data_type lookup (before ++ step ∷ rest) inputs ≡ []
      → get step.ref (inferred_step_dependencies lookup (before ++ step ∷ rest) inputs) ≡ some deps
      → Memᴰ r deps
      → Memᴰ r (step_refs before)
  unfolding step_deps
  inferred-earlier inputs before rest step deps r valid found m =
      deps-earlier inputs before step (lookup step.processor) r (
        subst (λ z. Memᴰ r z)
          (sym (some-injective _ _ (sym (inferred-at inputs before rest step valid) ∙ found))) m)
