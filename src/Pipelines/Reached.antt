-- ===== src/Pipelines/Reached.antt =====
-- The state that a validation without errors reaches at each step.
use mathlib.Core.List.Memᴰ
use mathlib.Core.List.{Memᴰ, cons≢nil}
use mathlib.Core.Bool.{false≢true}
use scene_api.Base.{
  ℕ, ◌+◌, String, ◌≡◌, refl, sym, ap, ◌∙◌, subst, inl, inr, Bool, true, false, Option, List, [],
  ◌∷◌, ◌++◌, arith, ◌==◌, eq_iff, eq_refl, Bool-cases, contains,
}
use scene_api.Attributes.Laws.{parts-nil}
use scene_api.Pipelines.{PortSpec, Processor, PipelineStep, Wiring, Ports, initial_wiring}
use scene_api.Pipelines.Inferred.{next_wiring}
use scene_api.Pipelines.Strict.{
  Checked, step_errors, after_step, steps_errors, port_errors, ports_errors, processor_errors,
  initial_check, strict_validate_pipeline,
}
use scene_api.Pipelines.Supplies.{step_refs, wiring_of}

pub ports_errors-at :
    (w : Wiring) (i : ℕ) (step : PipelineStep) (e : String × PortSpec) (ports : Ports)
    → ports_errors w i step ports ≡ []
    → Memᴰ e ports
    → port_errors w i step e ≡ []
ports_errors-at w i step e [] h m = absurd (Memᴰ.not-nil m)
ports_errors-at w i step e (x ∷ xs) h (Memᴰ.head same) =
    ap (port_errors w i step) same ∙ (parts-nil _ _ h).0
ports_errors-at w i step e (x ∷ xs) h (Memᴰ.tail m) =
    ports_errors-at w i step e xs (parts-nil (port_errors w i step x) _ h).1 m

module _ (is_data_type : String → Bool) (lookup : String → Option Processor) where
  pub step-fresh :
      (c : Checked) (i : ℕ) (step : PipelineStep)
      → step_errors is_data_type lookup c i step ≡ []
      → (contains step.ref c.seen_refs ≡ false)
        × (processor_errors is_data_type lookup c.wiring i step (lookup step.processor) ≡ [])
        × (after_step is_data_type lookup c step ≡ record {
          wiring = next_wiring lookup c.wiring step;
          seen_refs = step.ref ∷ c.seen_refs;
        })
  unfolding step_errors after_step next_wiring
  step-fresh c i step e = elim (Bool-cases (contains step.ref c.seen_refs)) [
    | inl seen ↦ absurd (cons≢nil (rw seen at e))
    | inr fresh ↦ (fresh, rw fresh at e, rw fresh refl)
  ]

  -- No later step has a name that was seen.
  seen-later :
      (c : Checked) (i : ℕ) (steps : List PipelineStep) (k : String)
      → steps_errors is_data_type lookup c i steps ≡ []
      → contains k c.seen_refs ≡ true
      → contains k (step_refs steps) ≡ false
  unfolding steps_errors
  seen-later c i [] k e seen = refl
  seen-later c i (step ∷ steps) k e seen =
      let (now, later) = parts-nil (step_errors is_data_type lookup c i step) _ e in
      let (fresh, _, after) = step-fresh c i step now in
      let rest =
        seen-later (after_step is_data_type lookup c step) (i + 1) steps k later
          (rw after (ground (arith, seen))) in
      elim (Bool-cases (step.ref == k)) [
        | inl same ↦ absurd (
            false≢true
              (sym fresh ∙ ap (λ z. contains z c.seen_refs) ((eq_iff step.ref k).0 same) ∙ seen))
        | inr other ↦ rw other rest
      ]

  -- The state that validation reaches at a step, without errors there.
  abbrev pub Reaches : List PipelineStep → Wiring → PipelineStep → List PipelineStep → Type 0
  Reaches before w step rest =
      (j : ℕ) × (processor_errors is_data_type lookup (wiring_of lookup w before) j step
          (lookup step.processor)
        ≡ [])
      × (contains step.ref (step_refs rest) ≡ false)

  reached :
      (c : Checked) (i : ℕ) (before rest : List PipelineStep) (step : PipelineStep)
      → steps_errors is_data_type lookup c i (before ++ step ∷ rest) ≡ []
      → Reaches before c.wiring step rest
  unfolding steps_errors
  reached c i [] rest step e =
      let (now, later) = parts-nil (step_errors is_data_type lookup c i step) _ e in
      let (fresh, good, after) = step-fresh c i step now in
      (
        i,
        good,
        seen-later (after_step is_data_type lookup c step) (i + 1) rest step.ref later
            (rw after (ground (arith, eq_refl step.ref))),
      )
  reached c i (x ∷ xs) rest step e =
      let (now, later) = parts-nil (step_errors is_data_type lookup c i x) _ e in
      let (fresh, _, after) = step-fresh c i x now in
      subst (λ c'. Reaches xs c'.wiring step rest) after
        (reached (after_step is_data_type lookup c x) (i + 1) xs rest step later)

  pub strict-Reaches :
      (inputs : List String) (before rest : List PipelineStep) (step : PipelineStep)
      → strict_validate_pipeline is_data_type lookup (before ++ step ∷ rest) inputs ≡ []
      → Reaches before (initial_wiring inputs) step rest
  unfolding strict_validate_pipeline
  strict-Reaches inputs before rest step e =
      reached (initial_check is_data_type lookup inputs) 0 before rest step (parts-nil _ _ e).1
