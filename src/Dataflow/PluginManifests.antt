-- ===== src/Dataflow/PluginManifests.antt =====
-- sfm_hub/models/manifest.py: the typed declarations of a plugin's manifest, with its providers.
use mathlib.Core.List.{Memᴰ}
use mathlib.Core.Bool.{false≢true}
use scene_api.Base.{
  String, ◌≡◌, refl, sym, inl, inr, true, not, none, some, List, [], ◌∷◌, ◌++◌, map, ◌==◌, eq_iff,
  Bool-cases, not-false, any, contains, All-Memᴰ, all-All,
}
use scene_api.Hub.{Provider}
use scene_api.Pipelines.{Processor}
use scene_api.Dataflow.{Check, GraphError, raise_if, ◌also◌, each_of}
use scene_api.Dataflow.Manifests.{PluginPipeline}
use scene_api.Dataflow.Extensions.{
  PluginProcessor, ProcessorExtension, Declarations, validate_typed_extension_graph, is_within,
  declared_check, provider_check,
}
use scene_api.Dataflow.Validators.{owned_ids_check}
use scene_api.Dataflow.Wires.{also-none, also-raise, each_of-none, raise_if-none}
use scene_api.Dataflow.Validated.{parts-none}

-- `PluginManifest`, as far as its typed extensions read it
pub record TypedManifest : Type 0 where
  pub plugin_id : String
  pub capabilities : List String
  pub providers : List Provider
  pub plugin_dependencies : List String
  pub datatype_ids : List String
  pub processors : List PluginProcessor
  pub pipelines : List PluginPipeline
  pub extensions : List ProcessorExtension

abbrev all_capabilities : List String → List Provider → List String
all_capabilities declared [] = declared
all_capabilities declared (p ∷ ps) = all_capabilities (declared ++ p.capabilities) ps

-- The arguments that `_typed_extensions_are_coherent` passes.
abbrev pub typed_declarations : TypedManifest → Declarations
typed_declarations m = record {
  datatype_ids = m.datatype_ids;
  processors = m.processors;
  pipelines = m.pipelines;
  extensions = m.extensions;
  declared_capabilities = some (all_capabilities m.capabilities m.providers);
  provider_capability_sets = some (map (λ p. p.capabilities) m.providers);
  namespace_prefixes = some (m.plugin_id ∷ []);
}

module _ (core_datatypes : List String) (core : List Processor) (core_pipelines : List String) where
  -- `_typed_extensions_are_coherent`
  unfoldable pub typed_extensions_check : TypedManifest → Check
  typed_extensions_check m =
      owned_ids_check (typed_declarations m)
      also raise_if (contains m.plugin_id m.plugin_dependencies) GraphError.self_dependency
      also validate_typed_extension_graph core_datatypes core core_pipelines (typed_declarations m)

any-provider :
    (required : List String) (ps : List Provider)
    → any (λ caps. is_within required caps) (map (λ p. p.capabilities) ps) ≡ true
    → (p : Provider) × Memᴰ p ps × (is_within required p.capabilities ≡ true)
any-provider required [] e = absurd (false≢true e)
any-provider required (p ∷ ps) e = elim (Bool-cases (is_within required p.capabilities)) [
  | inl here ↦ (p, Memᴰ.head refl, here)
  | inr other ↦
      let (q, m, fits) = any-provider required ps (rw other at e) in (q, Memᴰ.tail m, fits)
]

contains-Memᴰ : (x : String) (xs : List String) → contains x xs ≡ true → Memᴰ x xs
contains-Memᴰ x [] h = absurd (false≢true h)
contains-Memᴰ x (y ∷ ys) h = elim (Bool-cases (y == x)) [
  | inl same ↦ Memᴰ.head (sym ((eq_iff y x).0 same))
  | inr other ↦ Memᴰ.tail (contains-Memᴰ x ys (rw other at h))
]

is_within-Memᴰ :
    (required caps : List String)
    → is_within required caps ≡ true
    → (c : String) → Memᴰ c required
    → Memᴰ c caps
is_within-Memᴰ required caps h c there = contains-Memᴰ c caps (
    All-Memᴰ (λ x. contains x caps ≡ true) required c (all-All (λ x. contains x caps) required h)
      there)

module _ (core_datatypes : List String) (core : List Processor) (core_pipelines : List String)
    (m : TypedManifest) where
  graph-none :
      typed_extensions_check core_datatypes core core_pipelines m ≡ none
      → validate_typed_extension_graph core_datatypes core core_pipelines (typed_declarations m)
        ≡ none
  unfolding typed_extensions_check
  graph-none e =
      let graph =
        validate_typed_extension_graph core_datatypes core core_pipelines (typed_declarations m) in
      let itself = contains m.plugin_id m.plugin_dependencies in
      let rest =
        (also-none (owned_ids_check (typed_declarations m))
          (raise_if itself GraphError.self_dependency also graph) e).1 in
      (also-raise itself GraphError.self_dependency graph rest).1

  provider-Within :
      (q : PluginProcessor)
      → validate_typed_extension_graph core_datatypes core core_pipelines (typed_declarations m)
        ≡ none
      → Memᴰ q m.processors
      → (p : Provider) × Memᴰ p m.providers × (is_within q.capabilities p.capabilities ≡ true)
  provider-Within q e there =
      let sets = some (map (λ p. p.capabilities) m.providers) in
      let provided =
        each_of-none (provider_check sets) m.processors
          (also-none
            (each_of (declared_check (some (all_capabilities m.capabilities m.providers)))
              m.processors)
            (each_of (provider_check sets) m.processors)
            ((parts-none core_datatypes core core_pipelines (typed_declarations m) e).0)).1 in
      any-provider q.capabilities m.providers (
        not-false _ (
          raise_if-none
            (not
              (any (λ caps. is_within q.capabilities caps) (map (λ p. p.capabilities) m.providers)))
            GraphError.capabilities_apart
            (All-Memᴰ (λ x. provider_check sets x ≡ none) m.processors q provided there)))

  -- When the typed extensions of a manifest are coherent, with pipelines or without, each declared
  -- processor has one provider of the manifest that has every capability of the processor.
  pub typed_extensions_check-Served :
      (q : PluginProcessor)
      → typed_extensions_check core_datatypes core core_pipelines m ≡ none
      → Memᴰ q m.processors
      → (provider : Provider) × Memᴰ provider m.providers
        × ((c : String) → Memᴰ c q.capabilities → Memᴰ c provider.capabilities)
  typed_extensions_check-Served q e there =
      let (provider, m', within) = provider-Within q (graph-none e) there in
      (provider, m', is_within-Memᴰ q.capabilities provider.capabilities within)
