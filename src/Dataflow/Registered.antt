-- ===== src/Dataflow/Registered.antt =====
-- The processors that a plugin declares (sfm_hub/models/dataflow.py), under the checks of the server
-- on its own (sceneapi/server/core/processors.py and core/attributes.py).
use mathlib.Core.Bool.{false≢true}
use scene_api.Base.{
  String, ◌≡◌, refl, sym, ◌∙◌, Bool, true, false, not, ◌&&◌, ◌||◌, Option, none, some, List, [],
  ◌∷◌, arith, eqb, not-false, length, distinct,
}
use scene_api.Attributes.{
  Attribute, is_declared, is_number, below, above, is_none_of, is_null, is_numeric, is_enum,
  crossed, type_ok, default_ok,
}
use scene_api.Db.{Json}
use scene_api.Dataflow.{GraphError, value_matches_attribute, raise_if, ◌also◌}
use scene_api.Dataflow.Wires.{also-raise, raise_if-none}
use scene_api.Dataflow.Extensions.{validate_attribute_schema, default_check}
use scene_api.Dataflow.Validators.{is_attribute_manifest, is_attribute_name, has_default}
use scene_api.Pipelines.Strict.{is_empty}
use scene_api.Dataflow.Bindings.{value_matches_attribute-type_ok}
use scene_api.Attributes.Laws.{type_ok-own}

module _ (known : String → Bool) where
  default-Ok :
      (a : Attribute) (o : Option Json)
      → a.datatype_lookup ≡ none
      → default_check known a o ≡ none
      → default_ok known a o ≡ true
  default-Ok a none own e = refl
  default-Ok a (some v) own e =
      let b₁ = is_null v in
      let b₂ = not (value_matches_attribute known a v) in
      let b₃ = is_numeric a.kind && (is_number v && (below v a.min || above v a.max)) in
      let (h₁, e₁) =
        also-raise b₁ GraphError.attribute_schema
          (raise_if b₂ GraphError.attribute_schema also raise_if b₃ GraphError.attribute_schema)
          e in
      let (h₂, e₂) =
        also-raise b₂ GraphError.attribute_schema (raise_if b₃ GraphError.attribute_schema) e₁ in
      let h₃ = raise_if-none b₃ GraphError.attribute_schema e₂ in
      let fits : type_ok known a.datatype_lookup a v ≡ true =
        type_ok-own known a v
        ∙ sym (value_matches_attribute-type_ok known a v own)
        ∙ not-false (value_matches_attribute known a v) h₂ in
      rw (h₁, fits) (combine (is_numeric a.kind) (is_number v) (below v a.min || above v a.max) h₃)
    where
      combine : (m n o : Bool) → (m && (n && o)) ≡ false → (not (m && n && o)) ≡ true
      combine m n o h = ground (arith, h)

  once_if_enum :
      (is_one : Bool) (enum : List String)
      → (not is_one && not (is_empty enum)) ≡ false
      → (is_one && not (eqb (length (distinct enum)) (length enum))) ≡ false
      → eqb (length (distinct enum)) (length enum) ≡ true
  once_if_enum true enum h k = ground (arith, k)
  once_if_enum false [] h k = refl
  once_if_enum false (x ∷ enum) h k = absurd (false≢true (sym h))

  conjoined :
      (n e r b₁ b₃ b₄ : Bool) {d f : Bool}
      → (n && (e && r)) ≡ true
      → b₁ ≡ false
      → b₃ ≡ false
      → b₄ ≡ false
      → d ≡ true
      → f ≡ true
      → (e && (not b₁ && (d && (not b₃ && (not b₄ && (r && f)))))) ≡ true
  conjoined n e r b₁ b₃ b₄ h h₁ h₃ h₄ hd hf = ground (arith, h, h₁, h₃, h₄, hd, hf)

  -- An attribute that a plugin declares, and whose schema the hub accepts, is one that the server
  -- declares.
  pub validate_attribute_schema-is_declared :
      (a : Attribute)
      → a.datatype_lookup ≡ none
      → is_attribute_manifest a ≡ true
      → validate_attribute_schema known a ≡ none
      → is_declared known a ≡ true
  unfolding validate_attribute_schema is_attribute_manifest is_declared
  validate_attribute_schema-is_declared a own manifest e =
      let b₁ = not (is_enum a.kind) && not (is_empty a.enum) in
      let b₂ = is_enum a.kind && not (eqb (length (distinct a.enum)) (length a.enum)) in
      let b₃ = not (is_numeric a.kind) && (not (is_none_of a.min) || not (is_none_of a.max)) in
      let b₄ = crossed a.min a.max in
      let x = GraphError.attribute_schema in
      let last = default_check known a a.default in
      let (h₁, e₁) =
        also-raise b₁ x (raise_if b₂ x also raise_if b₃ x also raise_if b₄ x also last) e in
      let (h₂, e₂) = also-raise b₂ x (raise_if b₃ x also raise_if b₄ x also last) e₁ in
      let (h₃, e₃) = also-raise b₃ x (raise_if b₄ x also last) e₂ in
      let (h₄, e₄) = also-raise b₄ x last e₃ in
      let once = once_if_enum (is_enum a.kind) a.enum h₁ h₂ in
      let fits = default-Ok a a.default own e₄ in
      conjoined (is_attribute_name a.name) (not (is_enum a.kind && is_empty a.enum))
        (not (a.required && has_default a.default)) b₁ b₃ b₄ manifest h₁ h₃ h₄ once fits
