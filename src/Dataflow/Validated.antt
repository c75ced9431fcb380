-- ===== src/Dataflow/Validated.antt =====
-- The server's checks of a processor (sceneapi/server/core/processors.py and core/attributes.py) on
-- one that a plugin declares and the hub accepts (sfm_hub/models/dataflow.py).
use mathlib.Core.List.{Memᴰ, append-nil}
use scene_api.Base.{
  String, ◌≡◌, refl, sym, ap, ◌∙◌, Bool, true, false, not, none, some, List, [], ◌∷◌, map, arith,
  ◌==◌, eqb_iff, is_none, not-false, length, any, all, select, All, without, distinct, contains,
  All-Memᴰ, All-split, get,
}
use scene_api.Attributes.{Attribute, is_declared}
use scene_api.Pipelines.{PortSpec, Ports, Processor}
use scene_api.Pipelines.Processors.{validate_processor, no_duplicates}
use scene_api.Dataflow.{GraphError, Check, ◌also◌, each_of}
use scene_api.Dataflow.Manifests.{has_duplicates}
use scene_api.Dataflow.Extensions.{
  PluginProcessor, validate_attribute_schema, merged_roles, datatypes_check, ids_check,
  known_datatype, merge_processors, capabilities_check, processors_check, extensions_check,
  declarations_check, merged_check, validate_typed_extension_graph, Declarations,
}
use scene_api.Dataflow.Validators.{is_processor_manifest, is_attribute_manifest}
use scene_api.Dataflow.Wires.{also-raise, also-none, each_of-none}
use scene_api.Dataflow.Fresh.{Apart, has_duplicates-Apart}
use scene_api.Dataflow.Registry.{
  server_processor, ports-Ok, consumer-Known, apart-get, supplier-Known,
}
use scene_api.Dataflow.Registered.{validate_attribute_schema-is_declared}

without-new : (x : String) (xs : List String) → contains x xs ≡ false → without x xs ≡ xs
without-new x [] new = refl
without-new x (y ∷ ys) new =
    let other : (y == x) ≡ false = ground (arith, new) in
    rw other (ap (λ z. y ∷ z) (without-new x ys (ground (arith, new))))

distinct-Apart : (xs : List String) → Apart xs → distinct xs ≡ xs
distinct-Apart [] a = refl
distinct-Apart (x ∷ xs) a =
    ap (λ z. x ∷ z) (ap (λ z. without x z) (distinct-Apart xs a.1) ∙ without-new x xs a.0)

no_duplicates-once : (xs : List String) → has_duplicates xs ≡ false → no_duplicates xs ≡ true
no_duplicates-once xs once =
    (eqb_iff (length xs) (length (distinct xs))).1
      (ap (λ z. length z) (sym (distinct-Apart xs (has_duplicates-Apart xs once))))

disjoint-nil : (xs : List String) → not (any (λ x. contains x []) xs) ≡ true
disjoint-nil [] = refl
disjoint-nil (x ∷ xs) = disjoint-nil xs

known-All :
    (known : String → Bool) (ports : Ports)
    → datatypes_check known ports ≡ none
    → All (λ e. known e.1.datatype ≡ true) ports
known-All known [] e = tt
known-All known (port ∷ ports) e =
    let (here, later) =
      also-raise (not (known port.1.datatype)) GraphError.unknown_datatype
        (datatypes_check known ports) e in
    (not-false (known port.1.datatype) here, known-All known ports later)

declared-All :
    (known : String → Bool) (attributes : List Attribute)
    → all is_attribute_manifest attributes ≡ true
    → All (λ a. a.datatype_lookup ≡ none) attributes
    → All (λ a. validate_attribute_schema known a ≡ none) attributes
    → All (λ a. is_declared known a ≡ true) attributes
declared-All known [] manifest own a = tt
declared-All known (x ∷ attributes) manifest own a = (
  validate_attribute_schema-is_declared known x own.0 (ground (arith, manifest)) a.0,
  declared-All known attributes (ground (arith, manifest)) own.1 a.1,
)

module _ (known : String → Bool) (p : PluginProcessor) where
  processor-Validated :
      is_processor_manifest p ≡ true
      → All (λ e. get e.0 p.supplier ≡ none) p.consumer
      → datatypes_check known (merged_roles p.consumer p.supplier) ≡ none
      → validate_processor known (server_processor p) ≡ true
  unfolding is_processor_manifest validate_processor
  processor-Validated manifest apart e =
      let Q : String × PortSpec → Type 0 = λ e. known e.1.datatype ≡ true in
      let (c, s) =
        All-split Q
          (map (λ e. (e.0, elim (get e.0 p.supplier) [ some q ↦ q | none ↦ e.1 ])) p.consumer)
          (select (λ e. is_none (get e.0 p.consumer)) p.supplier)
          (known-All known (merged_roles p.consumer p.supplier) e) in
      let consumer =
        ports-Ok known p.consumer (ground (arith, manifest))
          (consumer-Known Q p.consumer p.supplier apart c) in
      let supplier = ports-Ok known p.supplier (ground (arith, manifest)) (
        supplier-Known Q p.consumer p.supplier (λ e m. apart-get p.consumer p.supplier e apart m)
          s) in
      let once : has_duplicates (map (λ a. a.name) p.attributes) ≡ false =
        ground (arith, manifest) in
      rw
        (
          consumer,
          supplier,
          disjoint-nil (map (λ e. e.0) p.consumer),
          append-nil p.attributes,
          no_duplicates-once (map (λ a. a.name) p.attributes) once,
        )
        refl

module _ (core_datatypes : List String) (core : List Processor) (core_pipelines : List String)
    (g : Declarations) where
  -- The capabilities and the processors are checked among the rest.
  pub parts-none :
      validate_typed_extension_graph core_datatypes core core_pipelines g ≡ none
      → (capabilities_check core_datatypes core core_pipelines g ≡ none)
        × (processors_check core_datatypes core core_pipelines g ≡ none)
  unfolding validate_typed_extension_graph
  parts-none accepted =
      let known_ids = ids_check core_datatypes g.datatype_ids in
      let new_ids =
        ids_check (map (λ p. p.processor_id) core) (map (λ p. p.processor_id) g.processors) in
      let capable = capabilities_check core_datatypes core core_pipelines g in
      let processors = processors_check core_datatypes core core_pipelines g in
      let rest =
        extensions_check core_datatypes core core_pipelines g
        also ids_check core_pipelines (map (λ p. p.pipeline_id) g.pipelines) in
      let e₁ =
        (also-none (declarations_check core_datatypes core core_pipelines g)
          (merged_check core_datatypes core core_pipelines g
            (merge_processors core_datatypes core core_pipelines g))
          accepted).0 in
      let e₂ = (also-none known_ids (new_ids also capable also processors also rest) e₁).1 in
      let e₃ = (also-none new_ids (capable also processors also rest) e₂).1 in
      let (able, e₄) = also-none capable (processors also rest) e₃ in
      (able, (also-none processors rest e₄).0)

  -- When the declarations of a plugin are accepted, a declared processor of the manifest's form,
  -- whose attributes have no data type tests of their own and none of whose consumer roles is one of
  -- its supplier roles, passes the server's checks of a processor, and its attributes the server's
  -- checks of an attribute, with the data types of the core and of the plugin.
  pub validate_processor-validate_typed_extension_graph :
      (p : PluginProcessor)
      → validate_typed_extension_graph core_datatypes core core_pipelines g ≡ none
      → Memᴰ p g.processors
      → is_processor_manifest p ≡ true
      → All (λ a. a.datatype_lookup ≡ none) p.attributes
      → All (λ e. get e.0 p.supplier ≡ none) p.consumer
      → (validate_processor
            (known_datatype core_datatypes core core_pipelines g)
            (server_processor p)
          ≡ true)
        × All
            (λ a. is_declared (known_datatype core_datatypes core core_pipelines g) a ≡ true)
            p.attributes
  unfolding is_processor_manifest
  validate_processor-validate_typed_extension_graph p accepted there manifest own apart =
      let known = known_datatype core_datatypes core core_pipelines g in
      let schemas : PluginProcessor → Check =
        λ q. each_of (validate_attribute_schema known) q.attributes in
      let types : PluginProcessor → Check =
        λ q. datatypes_check known (merged_roles q.consumer q.supplier) in
      let (e₁, e₂) =
        also-none (each_of schemas g.processors) (each_of types g.processors)
          ((parts-none accepted).1) in
      let here =
        All-Memᴰ (λ q. types q ≡ none) g.processors p (each_of-none types g.processors e₂) there in
      let bound =
        All-Memᴰ (λ q. schemas q ≡ none) g.processors p (each_of-none schemas g.processors e₁)
          there in
      (
        processor-Validated known p manifest apart here,
        declared-All known p.attributes (ground (arith, manifest)) own
            (each_of-none (validate_attribute_schema known) p.attributes bound),
      )
