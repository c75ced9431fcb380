-- ===== src/Dataflow/Declared.antt =====
-- `_validate_typed_extension_graph` (sfm_hub/models/dataflow.py): every pipeline of declarations that
-- it accepts validates as the server validates pipelines.
use mathlib.Core.Bool.{false≢true}
use scene_api.Base.{
  String, ◌≡◌, refl, sym, subst, inl, inr, Bool, true, false, ◌||◌, Option, none, some, List, [],
  ◌∷◌, ◌++◌, map, arith, ◌==◌, if◌then◌else◌, Bool-cases, Option-cases, is_none, any, all, All,
  contains, All-append, Dict, get, put, keys,
}
use scene_api.Attributes.{Attribute}
use scene_api.Pipelines.{Processor, Ports, PipelineStep}
use scene_api.Dataflow.{GraphError, or_no_attributes}
use scene_api.Dataflow.Extensions.{
  Merge, merged, stopped, extend, as_manifest, ProcessorExtension, attribute_names, core_ports,
  core_attributes, plugin_ports, plugin_attributes, PluginProcessor, known_processor,
  merge_processors, Declarations,
}
use scene_api.Dataflow.Merged.{
  Plain, HasPorts, IsPlain, as_manifest-IsPlain, Plain-put, HasPorts-put, processor_of, lookup_of,
}

core-Plain : (core : List Processor) → Plain (core_attributes core)
core-Plain [] id = tt
core-Plain (p ∷ core) id =
    Plain-put p.processor_id (as_manifest p.attributes) (core_attributes core)
      (as_manifest-IsPlain p.attributes) (core-Plain core) id

plugin-Plain :
    (ps : List PluginProcessor) (d : Dict (List Attribute))
    → Plain d
    → Plain (plugin_attributes ps d)
plugin-Plain [] d plain = plain
plugin-Plain (p ∷ ps) d plain =
    plugin-Plain ps (put p.processor_id (as_manifest p.attributes) d) (
      Plain-put p.processor_id (as_manifest p.attributes) d (as_manifest-IsPlain p.attributes)
        plain)

core-HasPorts :
    (core : List Processor) (id : String)
    → contains id (map (λ p. p.processor_id) core) ≡ true
    → HasPorts (core_ports core) id
core-HasPorts [] id there = absurd (false≢true there)
core-HasPorts (p ∷ core) id there = elim (Bool-cases (p.processor_id == id)) [
  | inl same ↦ rw same refl
  | inr other ↦ rw other (core-HasPorts core id (rw other at there))
]

plugin-kept :
    (ps : List PluginProcessor) (d : Dict (Ports × Ports)) (id : String)
    → HasPorts d id
    → HasPorts (plugin_ports ps d) id
plugin-kept [] d id has = has
plugin-kept (p ∷ ps) d id has =
    plugin-kept ps (put p.processor_id (p.consumer, p.supplier) d) id
      (HasPorts-put p.processor_id id (p.consumer, p.supplier) d has)

plugin-HasPorts :
    (ps : List PluginProcessor) (d : Dict (Ports × Ports)) (id : String)
    → contains id (map (λ p. p.processor_id) ps) ≡ true
    → HasPorts (plugin_ports ps d) id
plugin-HasPorts [] d id there = absurd (false≢true there)
plugin-HasPorts (p ∷ ps) d id there = elim (Bool-cases (p.processor_id == id)) [
  | inl same ↦ plugin-kept ps (put p.processor_id (p.consumer, p.supplier) d) id (rw same refl)
  | inr other ↦
      plugin-HasPorts ps (put p.processor_id (p.consumer, p.supplier) d) id (rw other at there)
]

-- What the extensions leave as it is.
abbrev pub Extends : Dict (Ports × Ports) → Merge → Type 0
Extends ports (stopped e) = Unit
Extends ports (merged ports' attributes') =
    Plain attributes' × ((id : String) → HasPorts ports id → HasPorts ports' id)

Extends-weaken :
    (ports more : Dict (Ports × Ports)) (m : Merge)
    → ((id : String) → HasPorts ports id → HasPorts more id)
    → Extends more m
    → Extends ports m
Extends-weaken ports more (stopped e) kept x = tt
Extends-weaken ports more (merged ports' attributes') kept x = (x.0, λ id has. x.1 id (kept id has))

if-Extends :
    (b : Bool) (ports : Dict (Ports × Ports)) (m : Merge)
    → Extends ports m
    → Extends ports (if b then stopped GraphError.collision else m)
if-Extends true ports m x = tt
if-Extends false ports m x = x

IsPlain-append : (xs ys : List Attribute) → IsPlain xs → IsPlain ys → IsPlain (xs ++ ys)
IsPlain-append xs ys px py = All-append (λ a. a.datatype_lookup ≡ none) xs ys px py

extend-Extends :
    (ports : Dict (Ports × Ports)) (attributes : Dict (List Attribute))
    (xs : List ProcessorExtension)
    → Plain attributes
    → Extends ports (extend ports attributes xs)
unfolding extend
extend-Extends ports attributes [] plain = (plain, λ id has. has)
extend-Extends ports attributes (x ∷ xs) plain = elim (Option-cases (get x.processor_id ports)) [
  | inl missing ↦ rw (extend, missing) tt
  | inr (old, found) ↦
      let existing = or_no_attributes (get x.processor_id attributes) in
      let next : Dict (Ports × Ports) =
        put x.processor_id (old.0 ++ x.special_inputs, old.1) ports in
      let more : Dict (List Attribute) =
        put x.processor_id (existing ++ as_manifest x.special_attributes) attributes in
      let clash =
        any (λ role. contains role (keys old.0)) (keys x.special_inputs)
        || any (λ name. contains name (attribute_names existing))
            (attribute_names x.special_attributes) in
      let step : extend ports attributes (x ∷ xs)
          ≡ (if clash then stopped GraphError.collision else extend next more xs) =
        rw (extend, found) refl in
      subst (λ m. Extends ports m) (sym step)
        (if-Extends clash ports (extend next more xs) (
          Extends-weaken ports next (extend next more xs)
            (λ id has. HasPorts-put x.processor_id id (old.0 ++ x.special_inputs, old.1) ports has)
            (extend-Extends next more xs (
              Plain-put x.processor_id (existing ++ as_manifest x.special_attributes) attributes
                (IsPlain-append existing (as_manifest x.special_attributes) (plain x.processor_id)
                  (as_manifest-IsPlain x.special_attributes))
                plain))))
]

pub merge_processors-Extends :
    (core_datatypes : List String) (core : List Processor) (core_pipelines : List String)
    (g : Declarations)
    → Extends
        (plugin_ports g.processors (core_ports core))
        (merge_processors core_datatypes core core_pipelines g)
unfolding merge_processors
merge_processors-Extends core_datatypes core core_pipelines g =
    extend-Extends (plugin_ports g.processors (core_ports core))
      (plugin_attributes g.processors (core_attributes core)) g.extensions
      (plugin-Plain g.processors (core_attributes core) (core-Plain core))

pub known-HasPorts :
    (core_datatypes : List String) (core : List Processor) (core_pipelines : List String)
    (g : Declarations) (id : String)
    → known_processor core_datatypes core core_pipelines g id ≡ true
    → HasPorts (plugin_ports g.processors (core_ports core)) id
known-HasPorts core_datatypes core core_pipelines g id there =
    elim (Bool-cases (contains id (map (λ p. p.processor_id) core))) [
      | inl old ↦ plugin-kept g.processors (core_ports core) id (core-HasPorts core id old)
      | inr other ↦ plugin-HasPorts g.processors (core_ports core) id (ground (arith, other, there))
    ]

processor_of-known :
    (id : String) (attributes : List Attribute) (o : Option (Ports × Ports))
    → is_none o ≡ false
    → is_none (processor_of id attributes o) ≡ false
processor_of-known id attributes none e = e
processor_of-known id attributes (some ports) e = refl

pub steps-known :
    (known : String → Bool) (ports : Dict (Ports × Ports)) (attributes : Dict (List Attribute))
    (steps : List PipelineStep)
    → ((id : String) → known id ≡ true → HasPorts ports id)
    → all (λ step. known step.processor) steps ≡ true
    → All (λ step. is_none (lookup_of ports attributes step.processor) ≡ false) steps
steps-known known ports attributes [] has e = tt
steps-known known ports attributes (step ∷ steps) has e = (
  processor_of-known step.processor (or_no_attributes (get step.processor attributes))
      (get step.processor ports) (has step.processor (ground (arith, e))),
  steps-known known ports attributes steps has (ground (arith, e)),
)
