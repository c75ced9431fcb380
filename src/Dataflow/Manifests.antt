-- ===== src/Dataflow/Manifests.antt =====
-- sfm_hub/models/dataflow.py: what pydantic checks of the declarations of a plugin.
use Prim.Native.String
use Prim.Native.Char
use Prim.Native.Char.{Char}
use scene_api.Base.{
  String, ◌≡◌, refl, sym, ap, ◌∙◌, subst, Bool, true, false, not, ◌&&◌, ◌||◌, List, [], ◌∷◌, map,
  arith, ◌==◌, ltb, eqb, all, select, occurs,
}
use mathlib.Core.Bool.{false≢true}
use text.Mathlib.TextLemmas.{nil-append, cons-append, head-eq_of_cons-eq, tail-eq_of_cons-eq}
use scene_api.Conversion.{in_range}
use scene_api.Pipelines.{dotted, items, PipelineStep}
use scene_api.Db.{Json}
use scene_api.Pipelines.Strict.{is_empty}

abbrev pub is_small_letter : Char → Bool
is_small_letter c = in_range 97 122 (Char.code c)

abbrev pub is_ref_char : Char → Bool
is_ref_char c = is_small_letter c || (in_range 48 57 (Char.code c) || eqb (Char.code c) 95)

abbrev pub each_char : (Char → Bool) → String → Bool
each_char p String.[] = true
each_char p (String.◌∷◌ c s) = p c && each_char p s

abbrev pub ref_rest : String → Bool
ref_rest s = each_char is_ref_char s

-- `_ROLE_RE`: a small letter, then small letters, digits and `_`
unfoldable pub is_ref : String → Bool
is_ref String.[] = false
is_ref (String.◌∷◌ c s) = is_small_letter c && ref_rest s

-- `_LOCAL_DECLARATION_ID_RE`, which lets `-` in, and `_CONTRACT_ID_RE`, which also lets `.` in
unfoldable pub is_local_id : String → Bool
is_local_id String.[] = false
is_local_id (String.◌∷◌ c s) =
    is_small_letter c && each_char (λ x. is_ref_char x || eqb (Char.code x) 45) s

unfoldable pub is_contract_id : String → Bool
is_contract_id String.[] = false
is_contract_id (String.◌∷◌ c s) =
    is_small_letter c
    && each_char (λ x. is_ref_char x || (eqb (Char.code x) 45 || eqb (Char.code x) 46)) s

-- `{x for x in xs if xs.count(x) > 1}` is not empty.
abbrev pub has_duplicates : List String → Bool
has_duplicates xs = not (is_empty (select (λ x. ltb 1 (occurs x xs)) xs))

abbrev is_text : Json → Bool
is_text (Json.text s) = true
is_text _ = false

abbrev texts : List Json → List String
texts [] = []
texts (Json.text s ∷ vs) = s ∷ texts vs
texts (v ∷ vs) = texts vs

-- `str | list[str]`, a list without duplicates
abbrev is_wire : Json → Bool
is_wire (Json.text s) = true
is_wire (Json.array vs) = all is_text (items vs) && not (has_duplicates (texts (items vs)))
is_wire _ = false

-- The validators of a `PluginPipelineStepManifest`.
abbrev pub is_step_manifest : PipelineStep → Bool
is_step_manifest step =
    (is_ref step.ref && not (step.ref == "inputs"))
    && (is_contract_id step.processor && all (λ e. is_wire e.1) step.wires)

-- `PluginPipelineManifest`, with its title and description left out
pub record PluginPipeline : Type 0 where
  pub pipeline_id : String
  pub initial_inputs : List String
  pub steps : List PipelineStep

-- The validators of a `PluginPipelineManifest`.
unfoldable pub is_pipeline_manifest : PluginPipeline → Bool
is_pipeline_manifest p =
    (is_local_id p.pipeline_id
      && (not (is_empty p.initial_inputs)
          && (all is_contract_id p.initial_inputs && not (is_empty p.steps))))
    && (all is_step_manifest p.steps
        && (not (has_duplicates p.initial_inputs)
            && not (has_duplicates (map (λ step. step.ref) p.steps))))

abbrev dot : Char
dot = "."

dotted-nil : (b : String) → dotted "" b ≡ String.◌∷◌ dot b
dotted-nil b =
    nil-append (String.◌++◌ "." b)
    ∙ cons-append dot "" b
    ∙ ap (λ z. String.◌∷◌ dot z) (nil-append b)

dotted-cons : (c : Char) (a b : String) → dotted (String.◌∷◌ c a) b ≡ String.◌∷◌ c (dotted a b)
dotted-cons c a b = cons-append c a (String.◌++◌ "." b)

no-dot : (c : Char) (s : String) → ref_rest (String.◌∷◌ c s) ≡ true → dot ≡ c → ⊥
no-dot c s r e = false≢true (subst (λ z. (is_ref_char z && ref_rest s) ≡ true) (sym e) r)

-- A supplier reference is a role, so the first dot of a wire ends it.
pub dotted-injective :
    (a b c d : String)
    → ref_rest a ≡ true
    → ref_rest c ≡ true
    → dotted a b ≡ dotted c d
    → (a ≡ c) × (b ≡ d)
dotted-injective String.[] b String.[] d ra rc e =
    (refl, tail-eq_of_cons-eq (sym (dotted-nil b) ∙ e ∙ dotted-nil d))
dotted-injective String.[] b (String.◌∷◌ y c) d ra rc e =
    absurd (no-dot y c rc (head-eq_of_cons-eq (sym (dotted-nil b) ∙ e ∙ dotted-cons y c d)))
dotted-injective (String.◌∷◌ x a) b String.[] d ra rc e =
    absurd (no-dot x a ra (head-eq_of_cons-eq (sym (dotted-nil d) ∙ sym e ∙ dotted-cons x a b)))
dotted-injective (String.◌∷◌ x a) b (String.◌∷◌ y c) d ra rc e =
    let both = sym (dotted-cons x a b) ∙ e ∙ dotted-cons y c d in
    let (same, rest) =
      dotted-injective a b c d (ground (arith, ra)) (ground (arith, rc))
        (tail-eq_of_cons-eq both) in
    (ap (λ z. String.◌∷◌ z a) (head-eq_of_cons-eq both) ∙ ap (λ z. String.◌∷◌ y z) same, rest)
