-- ===== src/Pipelines/Legacy.antt =====
-- `_legacy_validate_pipeline`: the check of a flat list of operations by what is available.
use scene_api.Base.{
  ℕ, ◌+◌, String, ◌&&◌, Option, none, some, List, [], ◌∷◌, ◌++◌, map, ◌==◌, ltb, eqb, if◌then◌else◌,
  select, occurs,
}
use scene_api.Pipelines.{
  PortSpec, Processor, Ports, ChainReason, Place, ChainError, error_at,
  requires_verified_match_graph,
}
use scene_api.Pipelines.Strict.{is_empty}

abbrev pub datatypes : Ports → List String
datatypes ports = map (λ e. e.1.datatype) ports

-- `available`, each datatype as often as its counter says, and `verified_match_graphs`.
pub record Counts : Type 0 where
  pub available : List String
  pub verified : ℕ

abbrev pub missing_error : ℕ → List String → List ChainError
missing_error i missing =
    if is_empty missing then [] else error_at ChainReason.missing_required_port (Place.at_step i)

abbrev pub legacy_port_errors : Counts → ℕ → (op_id : String) → String × PortSpec → List ChainError
legacy_port_errors c i op_id (role, port) =
    (if port.multiple && (port.required && eqb (occurs port.datatype c.available) 1)
      then error_at ChainReason.invalid_fan_in (Place.at_step i)
      else [])
    ++ (if requires_verified_match_graph op_id role
          && (ltb 0 (occurs port.datatype c.available) && eqb c.verified 0)
        then error_at ChainReason.unverified_match_graph (Place.at_step i)
        else [])

abbrev pub legacy_ports_errors : Counts → ℕ → String → Ports → List ChainError
legacy_ports_errors c i op_id [] = []
legacy_ports_errors c i op_id (e ∷ ports) =
    legacy_port_errors c i op_id e ++ legacy_ports_errors c i op_id ports

abbrev pub op_errors : Counts → ℕ → String → Option Processor → List ChainError
op_errors c i op_id none = error_at ChainReason.unknown_processor (Place.at_step i)
op_errors c i op_id (some op) =
    missing_error i (select (λ t. eqb (occurs t c.available) 0) (datatypes op.consumer))
    ++ legacy_ports_errors c i op_id op.consumer

abbrev pub counts_after : Counts → String → Option Processor → Counts
counts_after c op_id none = c
counts_after c op_id (some op) = record {
  available = c.available ++ datatypes op.supplier;
  verified =
      if op_id == "verify"
      then c.verified + occurs "match_graph" (datatypes op.supplier)
      else c.verified;
}

module _ (lookup : String → Option Processor) where
  unfoldable pub legacy_errors : Counts → ℕ → List String → List ChainError
  legacy_errors c i [] = []
  legacy_errors c i (op_id ∷ ops) =
      op_errors c i op_id (lookup op_id)
      ++ legacy_errors (counts_after c op_id (lookup op_id)) (i + 1) ops

  unfoldable pub legacy_validate_pipeline :
      List String → (initial_inputs : List String) → List ChainError
  legacy_validate_pipeline ops inputs =
      legacy_errors (record { available = inputs; verified = 0 }) 0 ops
