-- ===== src/Pipelines/Processors.antt =====
-- core/processors.py: the checks on the registry of processors, and its lookups by id, by alias and
-- by capability. `is_data_type` is a parameter.
pub mod Bindings
pub mod Core
use Prim.Native.String
use Prim.Native.Char
use Prim.Native.Char.{Char}
use text.Mathlib.Text.{starts_with}
use scene_api.Base.{
  ℕ, String, Bool, true, false, not, ◌&&◌, ◌||◌, Option, none, some, List, [], ◌∷◌, ◌++◌, map, ◌==◌,
  leb, eqb, if◌then◌else◌, length, any, all, count, distinct, contains, sort_by, Dict, get, put,
  keys,
}
use scene_api.Pipelines.{Processor, Ports}

abbrev between : ℕ → ℕ → ℕ → Bool
between lo hi n = leb lo n && leb n hi

abbrev is_lower : Char → Bool
is_lower c = between 97 122 (Char.code c)

abbrev is_role_char : Char → Bool
is_role_char c = is_lower c || (between 48 57 (Char.code c) || eqb (Char.code c) 95)

-- `_ROLE_RE.match`; the `$` of the pattern also stands before a newline that ends the text.
unfoldable pub role_rest : String → Bool
role_rest String.[] = true
role_rest (String.◌∷◌ c s) =
    let rest = role_rest s in if is_role_char c then rest else eqb (Char.code c) 10 && s == ""

abbrev pub is_role : String → Bool
is_role String.[] = false
is_role (String.◌∷◌ c s) = is_lower c && role_rest s

-- `len(xs) == len(set(xs))`
abbrev pub no_duplicates : List String → Bool
no_duplicates xs = eqb (length xs) (length (distinct xs))

abbrev disjoint : List String → List String → Bool
disjoint xs ys = not (any (λ x. contains x ys) xs)

abbrev roles : Ports → List String
roles ports = map (λ e. e.0) ports

abbrev stage_ok : List String → Option String → Bool
stage_ok stages none = true
stage_ok stages (some stage) = contains stage stages

-- `CONFIG_STAGES`
abbrev pub config_stages : List String
config_stages = "features" ∷ "pairs" ∷ "matcher" ∷ "verify" ∷ "mapping" ∷ "bundle_adjustment" ∷ []

module _ (is_data_type : String → Bool) where
  abbrev ports_ok : Ports → Bool
  ports_ok ports = all (λ e. is_role e.0 && is_data_type e.1.datatype) ports

  -- `_validate_processor` raises nothing.
  unfoldable pub validate_processor : Processor → Bool
  validate_processor p =
      ports_ok p.consumer
      && (ports_ok p.supplier
          && (ports_ok p.special_inputs
              && (disjoint (roles p.consumer) (roles p.special_inputs)
                  && (no_duplicates (map (λ a. a.name) (p.attributes ++ p.special_attributes))
                      && stage_ok config_stages p.config_stage))))

abbrev all_aliases : List Processor → List String
all_aliases [] = []
all_aliases (p ∷ ps) = p.aliases ++ all_aliases ps

abbrev processor_ids : List Processor → List String
processor_ids ps = map (λ p. p.processor_id) ps

-- The checks of the module on its table.
unfoldable pub registry_ok : List Processor → Bool
registry_ok ps =
    no_duplicates (processor_ids ps)
    && (no_duplicates (all_aliases ps) && disjoint (all_aliases ps) (processor_ids ps))

abbrev pub processors_by_id : List Processor → Dict Processor
processors_by_id ps = map (λ p. (p.processor_id, p)) ps

abbrev aliases_to : String → List String → Dict String
aliases_to id aliases = map (λ alias. (alias, id)) aliases

abbrev pub processor_aliases : List Processor → Dict String
processor_aliases [] = []
processor_aliases (p ∷ ps) = aliases_to p.processor_id p.aliases ++ processor_aliases ps

abbrev or_self : String → Option String → String
or_self id none = id
or_self id (some other) = other

unfoldable pub processor_for : List Processor → String → Option Processor
processor_for ps id = get (or_self id (get id (processor_aliases ps))) (processors_by_id ps)

-- `_PROCESSOR_BY_CAPABILITY_FAMILY`: the last processor with a family counts.
abbrev family_pairs : String → List String → Dict String → Dict String
family_pairs id [] d = d
family_pairs id (family ∷ families) d = family_pairs id families (put family id d)

abbrev families_from : List Processor → Dict String → Dict String
families_from [] d = d
families_from (p ∷ ps) d = families_from ps (family_pairs p.processor_id p.capabilities d)

abbrev pub by_capability_family : List Processor → Dict String
by_capability_family ps = families_from ps []

-- `len(family)` counts code points. Of the families of one length at most one can match, so their
-- order does not matter.
abbrev pub longer_first : String → String → Bool
longer_first a b = leb (String.count b) (String.count a)

abbrev pub in_family : String → String → Bool
in_family capability family =
    capability == family || starts_with capability (String.◌++◌ family ".")

unfoldable pub first_family : Dict String → String → List String → Option String
first_family table capability [] = none
first_family table capability (family ∷ families) =
    let rest = first_family table capability families in
    if in_family capability family then get family table else rest

unfoldable pub processor_for_capability : Dict String → String → Option String
processor_for_capability table capability =
    first_family table capability (sort_by longer_first (keys table))
