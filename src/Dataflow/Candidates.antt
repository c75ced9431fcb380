-- ===== src/Dataflow/Candidates.antt =====
-- A port without a wire: what the hub's check (sfm_hub/models/dataflow.py) lets pass, the server's
-- (sceneapi/server/core/pipelines.py) does too. The hub counts suppliers by reference and port, the
-- server by the wire that joins the two.
use mathlib.Core.Bool.{false≢true}
use scene_api.Base.{
  ℕ, suc, ◌≤◌, String, ◌≡◌, refl, sym, ap, ◌∙◌, inl, inr, Bool, true, false, not, ◌&&◌, none, List,
  [], ◌∷◌, map, arith, ◌==◌, eq_iff, ltb, eqb, if◌then◌else◌, Bool-cases, length, any, select, All,
  without, distinct, All-select,
}
use scene_api.Pipelines.{Supply, wire_ref, dotted, PortSpec, Place, ChainError}
use scene_api.Dataflow.{
  same_pair, distinct_pairs, raise_if, ◌also◌, candidates_check, unwired_check, GraphError,
  GraphWiring, Check,
}
use scene_api.Dataflow.Manifests.{dotted-injective, ref_rest}
use scene_api.Pipelines.Strict.{unwired_errors, candidate_errors, is_empty, has_one}
use scene_api.Dataflow.Wires.{also-raise, raise_if-none}

abbrev pair_of : Supply → String × String
pair_of s = (s.ref, s.port)

abbrev joined : String × String → String
joined p = dotted p.0 p.1

abbrev pub Undotted : String × String → Type 0
Undotted p = ref_rest p.0 ≡ true

joined-same :
    (p q : String × String) → Undotted p → Undotted q → (joined q == joined p) ≡ same_pair q p
joined-same p q up uq = elim (Bool-cases (joined q == joined p)) [
  | inl same ↦
      let (ref, role) =
        dotted-injective q.0 q.1 p.0 p.1 uq up ((eq_iff (joined q) (joined p)).0 same) in
      same ∙ sym (rw ((eq_iff q.0 p.0).1 ref, (eq_iff q.1 p.1).1 role) refl)
  | inr other ↦ elim (Bool-cases (same_pair q p)) [
    | inl both ↦ absurd (
        false≢true (
          sym other
          ∙ (eq_iff (joined q) (joined p)).1 (
              ap (λ z. dotted z q.1) ((eq_iff q.0 p.0).0 (ground (arith, both)))
              ∙ ap (λ z. dotted p.0 z) ((eq_iff q.1 p.1).0 (ground (arith, both))))))
    | inr apart ↦ other ∙ sym apart
  ]
]

select-joined :
    (p : String × String) (ps : List (String × String))
    → Undotted p
    → All Undotted ps
    → map joined (select (λ q. not (same_pair q p)) ps) ≡ without (joined p) (map joined ps)
select-joined p [] up a = refl
select-joined p (q ∷ ps) up a = elim (Bool-cases (same_pair q p)) [
  | inl same ↦ rw (joined-same p q up a.0, same) (select-joined p ps up a.1)
  | inr apart ↦
      rw (joined-same p q up a.0, apart) (ap (λ z. joined q ∷ z) (select-joined p ps up a.1))
]

All-distinct_pairs :
    (P : String × String → Type 0) (ps : List (String × String))
    → All P ps
    → All P (distinct_pairs ps)
All-distinct_pairs P [] a = tt
All-distinct_pairs P (p ∷ ps) a =
    (a.0, All-select (λ q. not (same_pair q p)) P (distinct_pairs ps) (All-distinct_pairs P ps a.1))

distinct-joined :
    (ps : List (String × String))
    → All Undotted ps
    → map joined (distinct_pairs ps) ≡ distinct (map joined ps)
distinct-joined [] a = refl
distinct-joined (p ∷ ps) a =
    ap (λ z. joined p ∷ z)
      (select-joined p (distinct_pairs ps) a.0 (All-distinct_pairs Undotted ps a.1)
        ∙ ap (λ z. without (joined p) z) (distinct-joined ps a.1))

length-map {ℓ κ} :
    {A : Type ℓ} {B : Type κ} (f : A → B) (xs : List A) → length (map f xs) ≡ length xs
length-map f [] = refl
length-map f (x ∷ xs) = ap (λ n. suc n) (length-map f xs)

joined-supplies :
    (cs : List Supply) → map joined (map (λ s. (s.ref, s.port)) cs) ≡ map (λ s. wire_ref s) cs
joined-supplies [] = refl
joined-supplies (s ∷ cs) = ap (λ z. wire_ref s ∷ z) (joined-supplies cs)

Undotted-pairs :
    (cs : List Supply)
    → All (λ s. ref_rest s.ref ≡ true) cs
    → All Undotted (map (λ s. (s.ref, s.port)) cs)
Undotted-pairs [] a = tt
Undotted-pairs (s ∷ cs) a = (a.0, Undotted-pairs cs a.1)

same-count :
    (cs : List Supply)
    → All (λ s. ref_rest s.ref ≡ true) cs
    → length (distinct (map (λ s. wire_ref s) cs))
      ≡ length (distinct_pairs (map (λ s. (s.ref, s.port)) cs))
same-count cs a =
    let ps : List (String × String) = map (λ s. (s.ref, s.port)) cs in
    ap (λ z. length (distinct z)) (sym (joined-supplies cs))
    ∙ ap (λ z. length z) (sym (distinct-joined ps (Undotted-pairs cs a)))
    ∙ length-map joined (distinct_pairs ps)

empty-any {ℓ} : {A : Type ℓ} (p : A → Bool) (xs : List A) → is_empty (select p xs) ≡ not (any p xs)
empty-any p [] = refl
empty-any p (x ∷ xs) = elim (Bool-cases (p x)) [
  | inl matched ↦ rw matched refl
  | inr miss ↦ rw miss (empty-any p xs)
]

-- One candidate is one pair, and some candidates are some pairs.
pairs-count :
    (cs : List Supply)
    → is_empty cs ≡ false
    → (has_one cs ≡ true → eqb (length (distinct_pairs (map (λ s. (s.ref, s.port)) cs))) 1 ≡ true)
      × (1 ≤ length (distinct_pairs (map (λ s. (s.ref, s.port)) cs)))
pairs-count [] there = absurd (false≢true (sym there))
pairs-count (s ∷ []) there = (λ one. refl, omega arith)
pairs-count (s ∷ t ∷ cs) there = (λ one. absurd (ground (arith, one)), omega arith)

few-pairs :
    (multiple required one : Bool) (n : ℕ)
    → (one ≡ true → eqb n 1 ≡ true)
    → 1 ≤ n
    → (multiple && (required && eqb n 1)) ≡ false
    → ((multiple && (required && one)) ≡ false) × ((multiple && (required && ltb n 2)) ≡ false)
few-pairs multiple required true n single some_pair many =
    (ground (arith, single refl, many), ground (arith, some_pair, many))
few-pairs multiple required false n single some_pair many =
    (ground arith, ground (arith, some_pair, many))

where_required :
    (required : Bool) (c : Check) (es : List ChainError)
    → (required ≡ true → c ≡ none → es ≡ [])
    → (if not required then none else c) ≡ none
    → (if not required then [] else es) ≡ []
where_required true c es sound e = sound refl e
where_required false c es sound e = refl

module _ (port : PortSpec) (needs : Bool) (at : Place) where
  candidates-Sound :
      (cs : List Supply)
      → All (λ s. ref_rest s.ref ≡ true) cs
      → port.required ≡ true
      → candidates_check port needs cs ≡ none
      → candidate_errors port needs at cs ≡ []
  candidates-Sound cs a required e =
      let dp = distinct_pairs (map (λ s. (s.ref, s.port)) cs) in
      let b₁ = is_empty cs && port.required in
      let b₂ = port.multiple && (port.required && eqb (length dp) 1) in
      let b₃ = ltb 1 (length cs) && not port.multiple in
      let b₄ = needs && not (any (λ s. s.verified_match_graph) cs) in
      let (h₁, e₁) =
        also-raise b₁ GraphError.missing_datatype
          (raise_if b₂ GraphError.too_few_inputs
            also raise_if b₃ GraphError.ambiguous_input
            also raise_if b₄ GraphError.unverified_match_graph)
          e in
      let (h₂, e₂) =
        also-raise b₂ GraphError.too_few_inputs
          (raise_if b₃ GraphError.ambiguous_input
            also raise_if b₄ GraphError.unverified_match_graph)
          e₁ in
      let (h₃, e₃) =
        also-raise b₃ GraphError.ambiguous_input (raise_if b₄ GraphError.unverified_match_graph)
          e₂ in
      let h₄ = raise_if-none b₄ GraphError.unverified_match_graph e₃ in
      let there : is_empty cs ≡ false = ground (arith, h₁, required) in
      let (single, some_pair) = pairs-count cs there in
      let (one, two) =
        few-pairs port.multiple port.required (has_one cs) (length dp) single some_pair h₂ in
      let clear : (not port.multiple && ltb 1 (length cs)) ≡ false = ground (arith, h₃) in
      rw (there, one, same-count cs a, two, clear, empty-any (λ s. s.verified_match_graph) cs, h₄)
        refl

  pub unwired-Sound :
      (w : GraphWiring)
      → All (λ s. ref_rest s.ref ≡ true) w.available
      → unwired_check w port needs ≡ none
      → unwired_errors w.available port needs at ≡ []
  unwired-Sound w a e =
      let cs = select (λ s. s.datatype == port.datatype) w.available in
      where_required port.required (candidates_check port needs cs)
        (candidate_errors port needs at cs)
        (candidates-Sound cs (
          All-select (λ s. s.datatype == port.datatype) (λ s. ref_rest s.ref ≡ true) w.available a))
        e
