-- ===== src/Dataflow/Bindings.antt =====
-- The attributes of a step: what the hub's check (sfm_hub/models/dataflow.py) lets pass, the
-- server's (sceneapi/server/core/attributes.py) does too.
use mathlib.Core.Bool.{false≢true}
use scene_api.Base.{
  String, ◌≡◌, refl, sym, ◌∙◌, inl, inr, Bool, true, false, not, ◌||◌, Option, none, some, List, [],
  ◌∷◌, map, arith, Bool-cases, select, All, contains, get, keys,
}
use scene_api.Number.{Number}
use scene_api.Db.{Json}
use scene_api.Attributes.{Attribute, type_ok, below, above, is_null, validate_attributes}
use scene_api.Attributes.Laws.{validate_attributes-Accepts, Binds}
use scene_api.Dataflow.{
  GraphError, value_matches_attribute, attribute_check, attributes_check, raise_if, ◌also◌, each_of,
  as_number, is_under,
}
use scene_api.Dataflow.Wires.{also-raise, raise_if-none, each_of-none}
use scene_api.Pipelines.{PipelineStep}
use scene_api.Pipelines.Strict.{is_empty}

under-below : (v : Json) (o : Option Number) → is_under (as_number v) o ≡ false → below v o ≡ false
under-below (Json.number n) (some b) e = e
under-below (Json.number n) none e = refl
under-below Json.null o e = refl
under-below (Json.bool b) o e = refl
under-below (Json.text s) o e = refl
under-below (Json.array vs) o e = refl
under-below (Json.object fs) o e = refl

under-above : (v : Json) (o : Option Number) → is_under o (as_number v) ≡ false → above v o ≡ false
under-above (Json.number n) (some b) e = e
under-above (Json.number n) none e = refl
under-above Json.null o e = refl
under-above (Json.bool b) o e = refl
under-above (Json.text s) o e = refl
under-above (Json.array vs) o e = refl
under-above (Json.object fs) o e = refl

module _ (known : String → Bool) where
  pub value_matches_attribute-type_ok :
      (a : Attribute) (v : Json)
      → a.datatype_lookup ≡ none
      → value_matches_attribute known a v ≡ type_ok known none a v
  unfolding value_matches_attribute type_ok
  value_matches_attribute-type_ok a v own = rw own refl

  attribute-Binds :
      (a : Attribute) (o : Option Json)
      → a.datatype_lookup ≡ none
      → attribute_check known a o ≡ none
      → Binds known none a o
  unfolding attribute_check
  attribute-Binds a none own e = raise_if-none a.required GraphError.missing_attribute e
  attribute-Binds a (some v) own e =
      let b₁ = is_null v || not (value_matches_attribute known a v) in
      let b₂ = is_under (as_number v) a.min in
      let b₃ = is_under a.max (as_number v) in
      let (typed, e₁) =
        also-raise b₁ GraphError.attribute_type
          (raise_if b₂ GraphError.attribute_bound also raise_if b₃ GraphError.attribute_bound) e in
      let (low, e₂) =
        also-raise b₂ GraphError.attribute_bound (raise_if b₃ GraphError.attribute_bound) e₁ in
      let high = raise_if-none b₃ GraphError.attribute_bound e₂ in
      let fits : value_matches_attribute known a v ≡ true = ground (arith, typed) in
      (
        ground (arith, typed),
        sym (value_matches_attribute-type_ok a v own) ∙ fits,
        under-below v a.min low,
        under-above v a.max high,
      )

  All-Binds :
      (attributes : List Attribute) (step : PipelineStep)
      → All (λ a. a.datatype_lookup ≡ none) attributes
      → All (λ a. attribute_check known a (get a.name step.attributes) ≡ none) attributes
      → All (λ a. Binds known none a (get a.name step.attributes)) attributes
  All-Binds [] step own each = tt
  All-Binds (a ∷ rest) step own each = (
    attribute-Binds a (get a.name step.attributes) own.0 each.0,
    All-Binds rest step own.1 each.1,
  )

  select-none :
      (p : String → Bool) (ks : List String)
      → not (is_empty (select (λ k. not (p k)) ks)) ≡ false
      → All (λ k. p k ≡ true) ks
  select-none p [] e = tt
  select-none p (k ∷ ks) e = elim (Bool-cases (p k)) [
    | inl matched ↦ (matched, select-none p ks (rw matched at e))
    | inr miss ↦ absurd (false≢true (sym (rw miss at e)))
  ]

  pub attributes-Sound :
      (attributes : List Attribute) (step : PipelineStep)
      → All (λ a. a.datatype_lookup ≡ none) attributes
      → attributes_check known attributes step ≡ none
      → validate_attributes known none attributes step.attributes ≡ []
  unfolding attributes_check
  attributes-Sound attributes step own e =
      let unknown = not (
        is_empty
          (select (λ k. not (contains k (map (λ a. a.name) attributes))) (keys step.attributes))) in
      let each_checked =
        each_of (λ a. attribute_check known a (get a.name step.attributes)) attributes in
      let (none_unknown, e₁) = also-raise unknown GraphError.unknown_attribute each_checked e in
      (validate_attributes-Accepts known none attributes step.attributes).1 (
        select-none (λ k. contains k (map (λ a. a.name) attributes)) (keys step.attributes)
            none_unknown,
        All-Binds attributes step own (
            each_of-none (λ a. attribute_check known a (get a.name step.attributes)) attributes e₁),
      )
