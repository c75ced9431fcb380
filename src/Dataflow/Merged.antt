-- ===== src/Dataflow/Merged.antt =====
-- The processors that the hub merges for its check (sfm_hub/models/dataflow.py), as the server
-- would look them up, and the check of all the pipelines that a plugin declares.
use mathlib.Core.List.{append-nil}
use mathlib.Core.Bool.{false≢true}
use scene_api.Base.{
  String, ◌≡◌, refl, sym, ap, ◌∙◌, subst, inl, inr, false, Option, none, some, List, [], ◌∷◌, map,
  ◌==◌, Bool-cases, is_none, All, Dict, get, put,
}
use scene_api.Attributes.{Attribute}
use scene_api.Pipelines.{Processor, Ports, PortSpec}
use scene_api.Dataflow.{or_no_attributes}
use scene_api.Dataflow.Refines.{ports_of, attributes_of}
use scene_api.Dataflow.Extensions.{as_manifest}

-- The processor with the ports and attributes of an id.
abbrev pub processor_of : String → List Attribute → Option (Ports × Ports) → Option Processor
processor_of id attributes none = none
processor_of id attributes (some ports) = some (record {
  processor_id = id;
  consumer = ports.0;
  supplier = ports.1;
  attributes = attributes;
  capabilities = [];
  config_stage = none;
  aliases = [];
  special_inputs = [];
  special_attributes = [];
})

abbrev pub lookup_of : Dict (Ports × Ports) → Dict (List Attribute) → String → Option Processor
lookup_of ports attributes id =
    processor_of id (or_no_attributes (get id attributes)) (get id ports)

same-consumer :
    (ports : Ports)
    → map {B = String × PortSpec} (λ e. (e.0, elim (get e.0 []) [ some q ↦ q | none ↦ e.1 ])) ports
      ≡ ports
same-consumer [] = refl
same-consumer (e ∷ ports) = ap (λ z. e ∷ z) (same-consumer ports)

pub processor_of-ports :
    (id : String) (attributes : List Attribute) (o : Option (Ports × Ports))
    → o ≡ ports_of (processor_of id attributes o)
processor_of-ports id attributes none = refl
processor_of-ports id attributes (some ports) =
    ap (λ z. some (z, ports.1)) (sym (append-nil _ ∙ same-consumer ports.0))

pub processor_of-attributes :
    (id : String) (attributes : List Attribute) (o : Option (Ports × Ports))
    → is_none (processor_of id attributes o) ≡ false
    → attributes ≡ attributes_of (processor_of id attributes o)
processor_of-attributes id attributes none e = absurd (false≢true (sym e))
processor_of-attributes id attributes (some ports) e = sym (append-nil attributes)

-- The attributes of a list have no data type tests of their own.
abbrev pub IsPlain : List Attribute → Type 0
IsPlain attributes = All (λ a. a.datatype_lookup ≡ none) attributes

pub processor_of-IsPlain :
    (id : String) (attributes : List Attribute) (o : Option (Ports × Ports))
    → IsPlain attributes
    → IsPlain (attributes_of (processor_of id attributes o))
processor_of-IsPlain id attributes none plain = tt
processor_of-IsPlain id attributes (some ports) plain =
    subst IsPlain (sym (append-nil attributes)) plain

-- What the merge keeps.
abbrev pub Plain : Dict (List Attribute) → Type 0
Plain d = (id : String) → IsPlain (or_no_attributes (get id d))

pub as_manifest-IsPlain : (attributes : List Attribute) → IsPlain (as_manifest attributes)
as_manifest-IsPlain [] = tt
as_manifest-IsPlain (a ∷ attributes) = (refl, as_manifest-IsPlain attributes)

pub Plain-put :
    (k : String) (attributes : List Attribute) (d : Dict (List Attribute))
    → IsPlain attributes
    → Plain d
    → Plain (put k attributes d)
Plain-put k attributes d plain each id = elim (Bool-cases (k == id)) [
  | inl same ↦ rw same plain
  | inr other ↦ rw other (each id)
]

-- The ids with ports.
abbrev pub HasPorts : Dict (Ports × Ports) → String → Type 0
HasPorts d id = is_none (get id d) ≡ false

pub HasPorts-put :
    (k id : String) (v : Ports × Ports) (d : Dict (Ports × Ports))
    → HasPorts d id
    → HasPorts (put k v d) id
HasPorts-put k id v d has = elim (Bool-cases (k == id)) [
  | inl same ↦ rw same refl
  | inr other ↦ rw other has
]
