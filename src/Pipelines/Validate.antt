-- ===== src/Pipelines/Validate.antt =====
-- `validate_pipeline`, which takes operations or steps, and `validate_step_attributes`.
use scene_api.Base.{ℕ, ◌+◌, String, ◌⊎◌, inl, inr, Bool, Option, none, some, List, [], ◌∷◌, ◌++◌}
use scene_api.Pipelines.{Processor, PipelineStep, ChainError}
use scene_api.Pipelines.Strict.{strict_validate_pipeline, step_attribute_errors}
use scene_api.Pipelines.Legacy.{legacy_validate_pipeline}

module _ (is_data_type : String → Bool) (lookup : String → Option Processor) where
  unfoldable pub validate_pipeline :
      List String ⊎ List PipelineStep → (initial_inputs : List String) → List ChainError
  validate_pipeline (inl []) inputs = []
  validate_pipeline (inl (op ∷ ops)) inputs = legacy_validate_pipeline lookup (op ∷ ops) inputs
  validate_pipeline (inr []) inputs = []
  validate_pipeline (inr (step ∷ steps)) inputs =
      strict_validate_pipeline is_data_type lookup (step ∷ steps) inputs

  abbrev pub attribute_errors_of : ℕ → PipelineStep → Option Processor → List ChainError
  attribute_errors_of i step none = []
  attribute_errors_of i step (some p) = step_attribute_errors is_data_type lookup i step p

  abbrev pub step_attributes_from : ℕ → List PipelineStep → List ChainError
  step_attributes_from i [] = []
  step_attributes_from i (step ∷ steps) =
      attribute_errors_of i step (lookup step.processor) ++ step_attributes_from (i + 1) steps

  unfoldable pub validate_step_attributes : List PipelineStep → List ChainError
  validate_step_attributes steps = step_attributes_from 0 steps
