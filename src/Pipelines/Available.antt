-- ===== src/Pipelines/Available.antt =====
-- What the check of a flat list of operations guarantees to each of them.
use mathlib.Core.List.Memᴰ
use mathlib.Core.List.{Memᴰ, cons≢nil}
use mathlib.Core.Option.{some-injective}
use scene_api.Base.{
  ℕ, ◌+◌, String, ◌≡◌, refl, sym, subst, ◌≢◌, ◌⊎◌, inl, inr, Option, none, some, List, [], ◌∷◌,
  ◌++◌, arith, ◌==◌, eq_iff, eqb, Bool-cases, select, occurs,
}
use scene_api.Attributes.Laws.{parts-nil}
use scene_api.Pipelines.{Processor}
use scene_api.Pipelines.Legacy.{
  Counts, datatypes, missing_error, op_errors, legacy_ports_errors, counts_after, legacy_errors,
  legacy_validate_pipeline,
}

occurs-Memᴰ : (x : String) (xs : List String) → occurs x xs ≢ 0 → Memᴰ x xs
occurs-Memᴰ x [] h = absurd (h refl)
occurs-Memᴰ x (y ∷ ys) h = elim (Bool-cases (y == x)) [
  | inl same ↦ Memᴰ.head (sym ((eq_iff y x).0 same))
  | inr other ↦ Memᴰ.tail (occurs-Memᴰ x ys (rw other at h))
]

present :
    (available ts : List String) (t : String)
    → select (λ t. eqb (occurs t available) 0) ts ≡ []
    → Memᴰ t ts
    → Memᴰ t available
present available [] t e m = absurd (Memᴰ.not-nil m)
present available (x ∷ xs) t e m = elim (Bool-cases (eqb (occurs x available) 0)) [
  | inl missing ↦ absurd (cons≢nil (rw missing at e))
  | inr there ↦ elim (Memᴰ.cases_cons m) [
    | inl same ↦ Memᴰ.cast same (occurs-Memᴰ x available (λ z. absurd (ground (arith, there, z))))
    | inr later ↦ present available xs t (rw there at e) later
  ]
]

missing-nil : (i : ℕ) (missing : List String) → missing_error i missing ≡ [] → missing ≡ []
missing-nil i [] e = refl
missing-nil i (x ∷ xs) e = absurd (cons≢nil e)

op-present :
    (c : Counts) (i : ℕ) (op_id : String) (o : Option Processor) (p : Processor) (t : String)
    → op_errors c i op_id o ≡ []
    → o ≡ some p
    → Memᴰ t (datatypes p.consumer)
    → Memᴰ t c.available
op-present c i op_id none p t e found m = absurd (cons≢nil e)
op-present c i op_id (some q) p t e found m =
    present c.available (datatypes q.consumer) t
      (missing-nil i _ (parts-nil _ (legacy_ports_errors c i op_id q.consumer) e).0)
      (subst (λ z. Memᴰ t (datatypes z.consumer)) (sym (some-injective _ _ found)) m)

module _ (lookup : String → Option Processor) where
  abbrev counts_of : Counts → List String → Counts
  counts_of c [] = c
  counts_of c (op ∷ ops) = counts_of (counts_after c op (lookup op)) ops

  -- An initial input, or a datatype that one of the operations supplies.
  abbrev pub Available : List String → List String → String → Type 0
  Available inputs ops t =
      Memᴰ t inputs
      ⊎ ((op : String) × (p : Processor) × Memᴰ op ops
          × (lookup op ≡ some p)
          × Memᴰ t (datatypes p.supplier))

  errors-at :
      (c : Counts) (i : ℕ) (before rest : List String) (op : String)
      → legacy_errors lookup c i (before ++ op ∷ rest) ≡ []
      → (j : ℕ) × (op_errors (counts_of c before) j op (lookup op) ≡ [])
  unfolding legacy_errors
  errors-at c i [] rest op e =
      (i, (parts-nil _ (legacy_errors lookup (counts_after c op (lookup op)) (i + 1) rest) e).0)
  errors-at c i (x ∷ xs) rest op e =
      errors-at (counts_after c x (lookup x)) (i + 1) xs rest op
        (parts-nil (op_errors c i x (lookup x)) _ e).1

  counts-from :
      (P : String → Type 0) (c : Counts) (op : String) (o : Option Processor)
      → ((t : String) → Memᴰ t c.available → P t)
      → ((p : Processor) → o ≡ some p → (t : String) → Memᴰ t (datatypes p.supplier) → P t)
      → (t : String) → Memᴰ t (counts_after c op o).available
      → P t
  counts-from P c op none old new t m = old t m
  counts-from P c op (some p) old new t m = elim (Memᴰ.append_cases c.available m) [
    | inl before ↦ old t before
    | inr made ↦ new p refl t made
  ]

  counts_of-from :
      (P : String → Type 0) (c : Counts) (ops : List String)
      → ((t : String) → Memᴰ t c.available → P t)
      → ((op : String)
          → Memᴰ op ops
          → (p : Processor) → lookup op ≡ some p
          → (t : String) → Memᴰ t (datatypes p.supplier)
          → P t)
      → (t : String) → Memᴰ t (counts_of c ops).available
      → P t
  counts_of-from P c [] old new t m = old t m
  counts_of-from P c (op ∷ ops) old new t m =
      counts_of-from P (counts_after c op (lookup op)) ops
        (counts-from P c op (lookup op) old (new op (Memᴰ.head refl)))
        (λ o there. new o (Memᴰ.tail there)) t m

  -- In a list of operations that validates without errors, every data type that an operation
  -- consumes is an initial input, or is supplied by an operation before it.
  pub legacy_validate-Available :
      (inputs before rest : List String) (op : String) (p : Processor) (t : String)
      → legacy_validate_pipeline lookup (before ++ op ∷ rest) inputs ≡ []
      → lookup op ≡ some p
      → Memᴰ t (datatypes p.consumer)
      → Available inputs before t
  unfolding legacy_validate_pipeline
  legacy_validate-Available inputs before rest op p t valid found m =
      let start : Counts = record { available = inputs; verified = 0 } in
      let (j, good) = errors-at start 0 before rest op valid in
      counts_of-from (Available inputs before) start before (λ u there. inl there)
        (λ o there q known u made. inr (o, q, there, known, made)) t
        (op-present (counts_of start before) j op (lookup op) p t good found m)
