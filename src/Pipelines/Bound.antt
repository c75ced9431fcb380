-- ===== src/Pipelines/Bound.antt =====
-- The full validation of a pipeline covers the validation of its attributes alone.
use mathlib.Core.List.{cons≢nil}
use scene_api.Base.{ℕ, ◌+◌, String, ◌≡◌, refl, inr, Bool, Option, none, some, List, [], ◌∷◌, ◌++◌}
use scene_api.Attributes.Laws.{parts-nil}
use scene_api.Pipelines.{Processor, PipelineStep, Wiring, processor_consumer}
use scene_api.Pipelines.Strict.{
  Checked, initial_check, step_errors, after_step, steps_errors, processor_errors,
  step_attribute_errors, unknown_wires, unknown_wire_errors, strict_validate_pipeline,
}
use scene_api.Pipelines.Validate.{
  validate_pipeline, validate_step_attributes, attribute_errors_of, step_attributes_from,
}
use scene_api.Pipelines.Reached.{step-fresh}

module _ (is_data_type : String → Bool) (lookup : String → Option Processor) where
  processor-attributes :
      (w : Wiring) (i : ℕ) (step : PipelineStep) (o : Option Processor)
      → processor_errors is_data_type lookup w i step o ≡ []
      → attribute_errors_of is_data_type lookup i step o ≡ []
  processor-attributes w i step none e = absurd (cons≢nil e)
  processor-attributes w i step (some p) e =
      (parts-nil (step_attribute_errors is_data_type lookup i step p)
        (unknown_wire_errors i (unknown_wires step (processor_consumer p)))
        (parts-nil
          (step_attribute_errors is_data_type lookup i step p
            ++ unknown_wire_errors i (unknown_wires step (processor_consumer p)))
          _ e).0).0

  steps-attributes :
      (c : Checked) (i : ℕ) (steps : List PipelineStep)
      → steps_errors is_data_type lookup c i steps ≡ []
      → step_attributes_from is_data_type lookup i steps ≡ []
  unfolding steps_errors
  steps-attributes c i [] e = refl
  steps-attributes c i (step ∷ steps) e =
      let (now, later) = parts-nil (step_errors is_data_type lookup c i step) _ e in
      let (_, good, _) = step-fresh is_data_type lookup c i step now in
      rw
        (
          processor-attributes c.wiring i step (lookup step.processor) good,
          steps-attributes (after_step is_data_type lookup c step) (i + 1) steps later,
        )
        refl

  -- Steps that validate without errors also pass the validation of their attributes alone.
  pub validate_step_attributes-validate_pipeline :
      (steps : List PipelineStep) (inputs : List String)
      → validate_pipeline is_data_type lookup (inr steps) inputs ≡ []
      → validate_step_attributes is_data_type lookup steps ≡ []
  unfolding validate_pipeline validate_step_attributes strict_validate_pipeline
  validate_step_attributes-validate_pipeline [] inputs e = refl
  validate_step_attributes-validate_pipeline (step ∷ steps) inputs e =
      steps-attributes (initial_check is_data_type lookup inputs) 0 (step ∷ steps)
        (parts-nil _ _ e).1
